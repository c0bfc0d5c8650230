-- ===== src/Cart/Merge.antt =====
-- `merge_guest_cart_to_user` of apps/cart/services.py: what a sign-in makes of the guest's cart and
-- the account's.
use palingames.Base.{
  ℕ, ◌≡◌, refl, sym, ap, Bool, true, false, not, ◌&&◌, ◌||◌, some, List, [], ◌∷◌, ◌++◌, map, filter,
  elem, IsDistinct, elem-append, arith, or_else, if◌then◌else◌,
}
use palingames.Access.Users.{get_user_product_access_ids}
use palingames.Cart.Request.{Request, Session, CartItem, Shop}
use palingames.Cart.Services.{
  is_item_of, missing_ids, normalize_product_ids, get_guest_cart_ids, merge_guest_cart_to_user,
  merge_ids,
}
use palingames.Cart.Guest.{get_guest_cart_ids-set, normalize_product_ids-IsDistinct}

-- The ids of the products in the account's cart.
abbrev pub cart_of : ℕ → List CartItem → List ℕ
cart_of user items = map (λ i. i.product_id) (filter (is_item_of user) items)

abbrev new_items : ℕ → List ℕ → List CartItem
new_items user ids = map (λ n. record { user_id = user; product_id = n }) ids

cart_of-append :
    (user : ℕ) (items : List CartItem) (ids : List ℕ)
    → cart_of user (items ++ new_items user ids) ≡ cart_of user items ++ ids
cart_of-append user [] [] = refl
cart_of-append user [] (n ∷ ids) = ground (arith, cart_of-append user [] ids)
cart_of-append user (i ∷ items) ids = ground (arith, cart_of-append user items ids)

pub elem-filter :
    (n : ℕ) (p : ℕ → Bool) (ids : List ℕ) → elem n (filter p ids) ≡ (elem n ids && p n)
elem-filter n p [] = refl
elem-filter n p (m ∷ ids) = ground (arith, elem-filter n p ids)

pub IsDistinct-filter : (p : ℕ → Bool) (ids : List ℕ) → IsDistinct ids → IsDistinct (filter p ids)
IsDistinct-filter p [] d = tt
IsDistinct-filter p (m ∷ ids) d = go (p m) (IsDistinct-filter p ids d.1)
  where
    go :
        (b : Bool)
        → IsDistinct (filter p ids)
        → IsDistinct (if b then m ∷ filter p ids else filter p ids)
    go true rest = (ground (arith, elem-filter m p ids, d.0), rest)
    go false rest = rest

append_nil : (xs : List ℕ) → xs ++ [] ≡ xs
append_nil [] = refl
append_nil (x ∷ xs) = ap (λ (r : List ℕ). x ∷ r) (append_nil xs)

module _ (r : Request) (user : ℕ) (shop : Shop) where
  IsMerged : List ℕ → Type 0
  IsMerged ids =
      (cart_of user (merge_ids ids r user shop).1.cart_items
        ≡ cart_of user shop.cart_items ++ missing_ids user ids shop)
      × (get_guest_cart_ids (merge_ids ids r user shop).0.session
          ≡ elim ids [ [] ↦ get_guest_cart_ids r.session | x ∷ xs ↦ [] ])

  merge_ids-carts : (ids : List ℕ) → IsMerged ids
  unfolding IsMerged missing_ids normalize_product_ids
  merge_ids-carts [] = (sym (append_nil (cart_of user shop.cart_items)), refl)
  merge_ids-carts (id ∷ ids) = (
    cart_of-append user shop.cart_items (missing_ids user (id ∷ ids) shop),
    get_guest_cart_ids-set [] r.session,
  )

-- The account's cart after a merge is its cart before it, and then the products of the guest's cart
-- that it neither has nor has bought, in the guest's order; the guest's cart is empty.
pub merge_guest_cart_to_user-carts :
    (r : Request) (user : ℕ) (shop : Shop)
    → (cart_of user (merge_guest_cart_to_user r user shop).1.cart_items
        ≡ cart_of user shop.cart_items ++ missing_ids user (get_guest_cart_ids r.session) shop)
      × (get_guest_cart_ids (merge_guest_cart_to_user r user shop).0.session ≡ [])
unfolding merge_guest_cart_to_user IsMerged
merge_guest_cart_to_user-carts r user shop =
    go (get_guest_cart_ids r.session) refl
      (merge_ids-carts r user shop (get_guest_cart_ids r.session))
  where
    go :
        (ids : List ℕ)
        → get_guest_cart_ids r.session ≡ ids
        → IsMerged r user shop ids
        → (cart_of user (merge_ids ids r user shop).1.cart_items
            ≡ cart_of user shop.cart_items ++ missing_ids user ids shop)
          × (get_guest_cart_ids (merge_ids ids r user shop).0.session ≡ [])
    go [] e m = (m.0, e)
    go (id ∷ ids) e m = m

elem-missing_ids :
    (n user : ℕ) (ids : List ℕ) (shop : Shop)
    → elem n (missing_ids user ids shop) ≡ (
        elem n ids
        && not (elem n (cart_of user shop.cart_items))
        && not (elem n (get_user_product_access_ids (some user) (some ids) shop.user_accesses)))
unfolding missing_ids
elem-missing_ids n user ids shop = ground (
  arith,
  elem-filter n
      (λ m.
        not (elem m (cart_of user shop.cart_items))
        && not (elem m (get_user_product_access_ids (some user) (some ids) shop.user_accesses)))
      ids,
)

IsDistinct-append :
    (xs ys : List ℕ)
    → IsDistinct xs
    → IsDistinct ys
    → ((n : ℕ) → elem n xs ≡ true → elem n ys ≡ false)
    → IsDistinct (xs ++ ys)
IsDistinct-append [] ys d e h = e
IsDistinct-append (x ∷ xs) ys d e h = (
  ground (arith, elem-append x xs ys, d.0, h x),
  IsDistinct-append xs ys d.1 e (λ n i. h n (ground arith)),
)

missing_ids-IsDistinct :
    (user : ℕ) (s : Session) (shop : Shop)
    → IsDistinct (missing_ids user (get_guest_cart_ids s) shop)
unfolding missing_ids get_guest_cart_ids
missing_ids-IsDistinct user s shop =
    IsDistinct-filter _ (get_guest_cart_ids s)
      (normalize_product_ids-IsDistinct (or_else s.guest_cart_product_ids []))

-- A merge keeps the account's cart free of doubles, and a product is in it afterwards exactly if it
-- was before, or the guest had it and the account had not bought it.
pub merge_guest_cart_to_user-IsDistinct :
    (r : Request) (user : ℕ) (shop : Shop)
    → IsDistinct (cart_of user shop.cart_items)
    → let guest = get_guest_cart_ids r.session in
      let cart = cart_of user (merge_guest_cart_to_user r user shop).1.cart_items in
      IsDistinct cart
      × ((n : ℕ)
          → elem n cart ≡ (
              elem n (cart_of user shop.cart_items)
              || (elem n guest
                  && not (
                      elem n (
                        get_user_product_access_ids (some user) (some guest) shop.user_accesses)))))
merge_guest_cart_to_user-IsDistinct r user shop d =
    let guest = get_guest_cart_ids r.session in
    let new = missing_ids user guest shop in
    rw ((merge_guest_cart_to_user-carts r user shop).0) (
      IsDistinct-append (cart_of user shop.cart_items) new d
          (missing_ids-IsDistinct user r.session shop)
          (λ n h. ground (arith, elem-missing_ids n user guest shop)),
      λ n. ground (
        arith,
        elem-append n (cart_of user shop.cart_items) new,
        elem-missing_ids n user guest shop,
      ),
    )
