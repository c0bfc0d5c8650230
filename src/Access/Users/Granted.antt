-- ===== src/Access/Users/Granted.antt =====
-- What `grant_user_product_accesses` of apps/access/services.py leaves in the table.
use palingames.Base.{
  ℕ, ◌≡◌, refl, Bool, true, false, ◌&&◌, ◌||◌, Option, none, some, List, [], ◌∷◌, ◌++◌, arith, any,
  ◌==◌, option_eq, Bool-cases, inl, inr, ◌∙◌,
}
use palingames.Orders.Model.{Order, OrderItem}
use palingames.Access.Model.{UserProductAccess}
use palingames.Access.Users.{
  is_access_of, has_user_product_access, get_or_create_access, grant_items, grant_to,
  grant_user_product_accesses,
}

any-append {ℓ} :
    {A : Type ℓ} (p : A → Bool) (xs ys : List A) → any p (xs ++ ys) ≡ (any p xs || any p ys)
any-append p [] ys = refl
any-append p (x ∷ xs) ys = ground (arith, any-append p xs ys)

-- Some item of the order is this product.
abbrev pub has_item : ℕ → List OrderItem → Bool
has_item p = any (λ item. item.product_id == p)

-- Each user has at most one access to a product: the constraint `access_user_product_unique`.
abbrev pub IsUnique : List UserProductAccess → Type 0
IsUnique [] = Unit
IsUnique (a ∷ rows) = (any (is_access_of a.user_id a.product_id) rows ≡ false) × IsUnique rows

-- Two keys that are found equal hold the same rows.
any-same_key :
    (u p u' p' : ℕ) (rows : List UserProductAccess)
    → (u' == u && p' == p) ≡ true
    → any (is_access_of u p) rows ≡ any (is_access_of u' p') rows
any-same_key u p u' p' [] h = refl
any-same_key u p u' p' (a ∷ rows) h = ground (arith, any-same_key u p u' p' rows)

IsUnique-append :
    (a : UserProductAccess) (rows : List UserProductAccess)
    → any (is_access_of a.user_id a.product_id) rows ≡ false
    → IsUnique rows
    → IsUnique (rows ++ a ∷ [])
IsUnique-append a [] h v = (refl, tt)
IsUnique-append a (b ∷ rows) h v = (
  ground (arith, any-append (is_access_of b.user_id b.product_id) rows (a ∷ [])),
  IsUnique-append a rows (ground arith) v.1,
)

module _ (now user product_id order_id : ℕ) (rows : List UserProductAccess) where
  any-get_or_create_access :
      (u p : ℕ)
      → any (is_access_of u p) (get_or_create_access now user product_id order_id rows)
        ≡ (any (is_access_of u p) rows || (user == u && product_id == p))
  unfolding get_or_create_access
  any-get_or_create_access u p = elim (Bool-cases (any (is_access_of user product_id) rows)) [
    | inl old ↦ rw old (ground (arith, any-same_key u p user product_id rows))
    | inr new ↦ rw new (rw any-append (ground arith))
  ]

  get_or_create_access-IsUnique :
      IsUnique rows → IsUnique (get_or_create_access now user product_id order_id rows)
  unfolding get_or_create_access
  get_or_create_access-IsUnique v = elim (Bool-cases (any (is_access_of user product_id) rows)) [
    | inl old ↦ rw old v
    | inr new ↦ rw new (IsUnique-append _ rows new v)
  ]

  get_or_create_access-old :
      any (is_access_of user product_id) rows ≡ true
      → get_or_create_access now user product_id order_id rows ≡ rows
  unfolding get_or_create_access
  get_or_create_access-old h = rw h

module _ (now user order_id : ℕ) where
  pub any-grant_items :
      (items : List OrderItem) (rows : List UserProductAccess) (u p : ℕ)
      → any (is_access_of u p) (grant_items now user order_id items rows)
        ≡ (any (is_access_of u p) rows || (user == u && has_item p items))
  unfolding grant_items
  any-grant_items [] rows u p = ground arith
  any-grant_items (item ∷ items) rows u p = ground (
    arith,
    any-grant_items items (get_or_create_access now user item.product_id order_id rows) u p,
    any-get_or_create_access now user item.product_id order_id rows u p,
  )

  grant_items-IsUnique :
      (items : List OrderItem) (rows : List UserProductAccess)
      → IsUnique rows
      → IsUnique (grant_items now user order_id items rows)
  unfolding grant_items
  grant_items-IsUnique [] rows v = v
  grant_items-IsUnique (item ∷ items) rows v =
      grant_items-IsUnique items _
        (get_or_create_access-IsUnique now user item.product_id order_id rows v)

-- Every item of the list is accessible already.
abbrev Covered : ℕ → List OrderItem → List UserProductAccess → Type 0
Covered user items rows = (p : ℕ) → has_item p items ≡ true → any (is_access_of user p) rows ≡ true

grant_items-Covered :
    (now user order_id : ℕ) (items : List OrderItem) (rows : List UserProductAccess)
    → Covered user items rows
    → grant_items now user order_id items rows ≡ rows
unfolding grant_items
grant_items-Covered now user order_id [] rows c = refl
grant_items-Covered now user order_id (item ∷ items) rows c =
    rw
      (get_or_create_access-old now user item.product_id order_id rows
        (c item.product_id (ground arith)))
      (grant_items-Covered now user order_id items rows (λ p h. c p (ground arith)))

-- After the grant a user has access to a product exactly if it was there before or the order is that
-- user's and has the product among its items.
pub has_user_product_access-grant :
    (now : ℕ) (order : Order) (rows : List UserProductAccess) (u p : ℕ)
    → has_user_product_access (some u) p (grant_user_product_accesses now order rows) ≡ (
        has_user_product_access (some u) p rows
        || (option_eq order.user_id (some u) && has_item p order.items))
unfolding has_user_product_access grant_user_product_accesses
has_user_product_access-grant now order rows u p = go order.user_id
  where
    go :
        (owner : Option ℕ)
        → any (is_access_of u p) (grant_to now order owner rows)
          ≡ (any (is_access_of u p) rows || (option_eq owner (some u) && has_item p order.items))
    go none = ground arith
    go (some user) = any-grant_items now user order.id order.items rows u p

-- Granting the accesses of an order a second time, at any later moment, changes nothing.
pub grant-grant :
    (now later : ℕ) (order : Order) (rows : List UserProductAccess)
    → grant_user_product_accesses later order (grant_user_product_accesses now order rows)
      ≡ grant_user_product_accesses now order rows
unfolding grant_user_product_accesses
grant-grant now later order rows = go order.user_id
  where
    go :
        (owner : Option ℕ)
        → grant_to later order owner (grant_to now order owner rows) ≡ grant_to now order owner rows
    go none = refl
    go (some user) =
        grant_items-Covered later user order.id order.items _
          λ p h. any-grant_items now user order.id order.items rows user p ∙ ground arith

-- The grant keeps the table free of two accesses of one user to one product.
pub grant_user_product_accesses-IsUnique :
    (now : ℕ) (order : Order) (rows : List UserProductAccess)
    → IsUnique rows
    → IsUnique (grant_user_product_accesses now order rows)
unfolding grant_user_product_accesses
grant_user_product_accesses-IsUnique now order rows v = go order.user_id
  where
    go : (owner : Option ℕ) → IsUnique (grant_to now order owner rows)
    go none = v
    go (some user) = grant_items-IsUnique now user order.id order.items rows v
