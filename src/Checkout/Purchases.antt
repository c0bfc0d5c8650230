-- ===== src/Checkout/Purchases.antt =====
-- What `create_order_from_cart` of apps/orders/services.py sells, against the cart and the purchases
-- before it.
use palingames.Base.{
  raise_if, Result, ok, err, ◌>>◌, ℕ, ◌≤◌, ◌≡◌, refl, ap, ◌∙◌, subst, String, Bool, true, false,
  not, Option, none, some, List, [], ◌∷◌, map, find, any, elem, ◌==◌, length, All, arith,
  if◌then◌else◌, Option-cases, inl, inr,
}
use palingames.Products.{Product}
use palingames.Orders.Model.{Order, OrderItem}
use palingames.Access.Model.{UserProductAccess}
use palingames.Access.Users.{has_user_product_access, get_user_product_access_ids, is_access_of}
use palingames.Promocodes.Model.{PromoCodeDiscount}
use palingames.Promocodes.Calculate.{is_nonempty}
use palingames.Cart.Request.{Session, Request, Shop}
use palingames.Cart.Services.{get_cart_product_ids, get_user_pending_order_item_by_product_ids}
use palingames.Checkout.Services.{
  in_bulk, is_published_as, get_ordered_cart_products, has_unavailable_cart_products,
  prepare_order_items, get_order_by_checkout_idempotency_key,
}
use palingames.Checkout.Create.{
  CheckoutError, Env, Form, OrderCreationResult, context, finish, recover, existing, refuse_pending,
  create_new_order_from_products, create_order_from_cart, insert_order, new_order, check_purchases,
}
use palingames.Checkout.Created.{IsCreated, create_new_order_from_products-IsCreated}

find-id :
    (id : ℕ) (products : List Product) {p : Product}
    → find (is_published_as id) products ≡ some p
    → p.id ≡ id
find-id id [] h = cc
find-id id (x ∷ products) {p} h = ground (arith, h, find-id id products {p = p})

length-in_bulk :
    (ids : List ℕ) (products : List Product) → length (in_bulk ids products) ≤ length ids
unfolding in_bulk
length-in_bulk [] products = omega arith
length-in_bulk (id ∷ ids) products = ground (arith, length-in_bulk ids products)

-- Where none is missing, the products are those of the ids, in their order.
in_bulk-all :
    (ids : List ℕ) (products : List Product)
    → length (in_bulk ids products) ≡ length ids
    → map (λ p. p.id) (in_bulk ids products) ≡ ids
unfolding in_bulk
in_bulk-all [] products h = refl
in_bulk-all (id ∷ ids) products h = elim (Option-cases (find (is_published_as id) products)) [
  | inl e ↦ ground (arith, h, e, length-in_bulk ids products)
  | inr (p, e) ↦ ground (arith, h, e, in_bulk-all ids products, find-id id products {p = p} e)
]

-- A cart without unavailable products is sold whole.
get_ordered_cart_products-all :
    (r : Request) (shop : Shop)
    → has_unavailable_cart_products r shop ≡ false
    → map (λ p. p.id) (get_ordered_cart_products r shop) ≡ get_cart_product_ids r shop
unfolding has_unavailable_cart_products get_ordered_cart_products
get_ordered_cart_products-all r shop h =
    in_bulk-all (get_cart_product_ids r shop) shop.products (go (get_cart_product_ids r shop) h)
  where
    go :
        (ids : List ℕ)
        → (if not (is_nonempty ids)
            then false
            else not (length (in_bulk ids shop.products) == length ids))
          ≡ false
        → length (in_bulk ids shop.products) ≡ length ids
    go [] h = refl
    go (id ∷ ids) h = ground (arith, h)

products-prepare_order_items :
    (image : String) (products : List Product) (d : Option PromoCodeDiscount)
    → map (λ i. i.product_id) (prepare_order_items image products d) ≡ map (λ p. p.id) products
unfolding prepare_order_items
products-prepare_order_items image [] d = refl
products-prepare_order_items image (p ∷ products) d =
    ap (λ (ids : List ℕ). p.id ∷ ids) (products-prepare_order_items image products d)

-- The user owns none of the products.
abbrev pub AllUnbought : Option ℕ → List UserProductAccess → List ℕ → Type 0
AllUnbought user rows ids = All (λ n. has_user_product_access user n rows ≡ false) ids

not_owned :
    (user n : ℕ) (ids : List ℕ) (rows : List UserProductAccess)
    → is_nonempty (get_user_product_access_ids (some user) (some ids) rows) ≡ false
    → elem n ids ≡ true
    → any (is_access_of user n) rows ≡ false
unfolding get_user_product_access_ids
not_owned user n ids [] h e = refl
not_owned user n ids (a ∷ rows) h e = ground (arith, h, e, not_owned user n ids rows)

all_unbought :
    (user : ℕ) (ids wanted : List ℕ) (rows : List UserProductAccess)
    → is_nonempty (get_user_product_access_ids (some user) (some ids) rows) ≡ false
    → ((n : ℕ) → elem n wanted ≡ true → elem n ids ≡ true)
    → AllUnbought (some user) rows wanted
unfolding has_user_product_access
all_unbought user ids [] rows h e = tt
all_unbought user ids (n ∷ wanted) rows h e = (
  not_owned user n ids rows h (e n (ground arith)),
  all_unbought user ids wanted rows h (λ m i. e m (ground (arith, i))),
)

no_user : (ids : List ℕ) (rows : List UserProductAccess) → AllUnbought none rows ids
unfolding has_user_product_access
no_user [] rows = tt
no_user (n ∷ ids) rows = (refl, no_user ids rows)

-- The order may be placed: nothing of it is bought, and no open order has any of it.
pub MayBuy : Option ℕ → List ℕ → Shop → Type 0
MayBuy user ids shop =
    AllUnbought user shop.user_accesses ids
    × (get_user_pending_order_item_by_product_ids user ids shop ≡ none)

check_purchases-MayBuy :
    (user : Option ℕ) (ids : List ℕ) (shop : Shop)
    → check_purchases user ids shop ≡ ok tt
    → MayBuy user ids shop
unfolding MayBuy get_user_pending_order_item_by_product_ids
check_purchases-MayBuy none ids shop h = (no_user ids shop.user_accesses, refl)
check_purchases-MayBuy (some user) ids shop h =
    go (is_nonempty (get_user_product_access_ids (some user) (some ids) shop.user_accesses)) refl
      (get_user_pending_order_item_by_product_ids (some user) ids shop) refl h
  where
    go :
        (b : Bool)
        → is_nonempty (get_user_product_access_ids (some user) (some ids) shop.user_accesses) ≡ b
        → (o : Option (Order × OrderItem))
        → get_user_pending_order_item_by_product_ids (some user) ids shop ≡ o
        → (raise_if b CheckoutError.already_purchased >> refuse_pending o) ≡ ok tt
        → MayBuy (some user) ids shop
    go true e o f h = cc
    go false e none f h = (all_unbought user ids ids shop.user_accesses e (λ n i. i), f)
    go false e (some (order, item)) f h = cc

-- An answer with `created` comes from an insertion of this request, and its cart was available.
finish-created :
    (form : Form) (session : Session) (shop : Shop)
    (m : Result CheckoutError (Order × Session × Shop)) {result : OrderCreationResult}
    {session' : Session} {shop' : Shop}
    → finish form session shop m ≡ ok (result, session', shop')
    → result.created ≡ true
    → m ≡ ok (result.order, session', shop')
finish-created form session shop (ok (order, s, rows)) h c = cc
finish-created form session shop (err CheckoutError.integrity) {result} {session'} {shop'} h c =
    go (get_order_by_checkout_idempotency_key form.checkout_idempotency_key shop.orders) h
  where
    go :
        (o : Option Order)
        → recover o session shop ≡ ok (result, session', shop')
        → ◌≡◌ {A = Result CheckoutError (Order × Session × Shop)}
            (err CheckoutError.integrity)
            (ok (result.order, session', shop'))
    go none h = cc
    go (some order) h = cc
finish-created form session shop (err CheckoutError.unavailable_products) h c = cc
finish-created form session shop (err CheckoutError.already_purchased) h c = cc
finish-created form session shop (err CheckoutError.empty_cart) h c = cc
finish-created form session shop (err CheckoutError.no_account_no) h c = cc
finish-created form session shop (err (CheckoutError.pending_purchase o i)) h c = cc
finish-created form session shop (err (CheckoutError.promo_code e)) h c = cc

module _ (env : Env) (form : Form) (r : Request) (shop : Shop) (between : Shop → Shop)
    {result : OrderCreationResult} {session' : Session} {shop' : Shop} where
  pub create_order_from_cart-created :
      create_order_from_cart env form r shop between ≡ ok (result, session', shop')
      → result.created ≡ true
      → (has_unavailable_cart_products r shop ≡ false)
        × IsCreated env r.user
            (context form r shop)
            r.session
            shop
            (between shop)
            result.order
            session'
            shop'
  unfolding create_order_from_cart
  create_order_from_cart-created h c =
      go (get_order_by_checkout_idempotency_key form.checkout_idempotency_key shop.orders)
        (has_unavailable_cart_products r shop) refl h
    where
      made : Result CheckoutError (Order × Session × Shop)
      made = create_new_order_from_products env r.user (context form r shop) r.session shop between

      go :
          (o : Option Order) (b : Bool)
          → has_unavailable_cart_products r shop ≡ b
          → elim o [
            | some order ↦ existing order r.session shop
            | none ↦
                raise_if b CheckoutError.unavailable_products
                >> finish form r.session (between shop) made
          ]
            ≡ ok (result, session', shop')
          → (has_unavailable_cart_products r shop ≡ false)
            × IsCreated env r.user
                (context form r shop)
                r.session
                shop
                (between shop)
                result.order
                session'
                shop'
      go (some order) b e h = cc
      go none true e h = cc
      go none false e h = (
        e,
        create_new_order_from_products-IsCreated env r.user (context form r shop) r.session shop
            between (finish-created form r.session (between shop) made h c),
      )

  -- An order that a request creates has exactly the products of the cart, in their order, and each of
  -- them is free to buy for the user: not bought, and in no open order.
  pub create_order_from_cart-MayBuy :
      create_order_from_cart env form r shop between ≡ ok (result, session', shop')
      → result.created ≡ true
      → (map (λ i. i.product_id) result.order.items ≡ get_cart_product_ids r shop)
        × MayBuy r.user (get_cart_product_ids r shop) shop
  unfolding insert_order new_order
  create_order_from_cart-MayBuy h c =
      let (available, made) = create_order_from_cart-created h c in
      let ids = get_ordered_cart_products-all r shop available in
      let placed =
        ap (λ (p : Order × Shop). map (λ (i : OrderItem). i.product_id) p.0.items)
          {x = (result.order, shop')} made.inserted in
      (
        placed
            ∙ products-prepare_order_items env.example_image (get_ordered_cart_products r shop)
                made.d
            ∙ ids,
        subst (λ (l : List ℕ). MayBuy r.user l shop) ids
            (check_purchases-MayBuy r.user (map (λ p. p.id) (get_ordered_cart_products r shop)) shop
              made.purchases),
      )
