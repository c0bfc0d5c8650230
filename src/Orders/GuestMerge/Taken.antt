-- ===== src/Orders/GuestMerge/Taken.antt =====
-- What the merge of apps/orders/guest_merge.py gives an account, and a second merge.
use palingames.Base.{
  ℕ, ◌≡◌, refl, sym, ap, ◌∙◌, String, Bool, false, ◌&&◌, ◌||◌, some, List, [], ◌∷◌, any, filter,
  length, ◌==◌, str_eq, arith, subst, if◌then◌else◌, Bool-cases, inl, inr,
}
use palingames.Base.Text.{strip, lower}
use palingames.Orders.Model.{Order, is_paid}
use palingames.Access.Users.{has_user_product_access, is_access_of}
use palingames.Access.Users.Granted.{has_item, any-grant_items}
use palingames.Orders.GuestMerge.{
  MergeTables, is_guest_order, take_orders, merge_order, merge_orders, merge_guest_orders_for_user,
}

-- The order is paid and has the product.
abbrev pub has_bought : ℕ → Order → Bool
has_bought p o = is_paid o.status && has_item p o.items

module _ (now user u p : ℕ) where
  access-merge_order :
      (o : Order) (t : MergeTables)
      → any (is_access_of u p) (merge_order now user o t).user_accesses
        ≡ (any (is_access_of u p) t.user_accesses || (user == u && has_bought p o))
  unfolding merge_order
  access-merge_order o t = ground (arith, any-grant_items now user o.id o.items t.user_accesses u p)

  access-merge_orders :
      (orders : List Order) (t : MergeTables)
      → any (is_access_of u p) (merge_orders now user orders t).user_accesses
        ≡ (any (is_access_of u p) t.user_accesses || (user == u && any (has_bought p) orders))
  unfolding merge_orders
  access-merge_orders [] t = ground arith
  access-merge_orders (o ∷ orders) t =
      ground (arith, access-merge_orders orders (merge_order now user o t), access-merge_order o t)

-- After the merge a user has access to a product exactly if it was there before, or the user is the
-- merged account and a paid order that a guest placed with its address has the product.
pub has_user_product_access-merge :
    (now user : ℕ) (email : String) (t : MergeTables) (u p : ℕ)
    → str_eq (lower (strip email)) "" ≡ false
    → has_user_product_access
        (some u)
        p
        (merge_guest_orders_for_user now (some user) email t).1.user_accesses
      ≡ (has_user_product_access (some u) p t.user_accesses
          || (user == u
              && any (has_bought p) (filter (is_guest_order (lower (strip email))) t.orders)))
unfolding merge_guest_orders_for_user has_user_product_access
has_user_product_access-merge now user email t u p h =
    let normalized = lower (strip email) in
    rw h (
      access-merge_orders now user u p (filter (is_guest_order normalized) t.orders)
        (record t { orders = take_orders user normalized t.orders }))

none_left :
    (user : ℕ) (email : String) (orders : List Order)
    → filter (is_guest_order email) (take_orders user email orders) ≡ []
unfolding take_orders
none_left user email [] = refl
none_left user email (o ∷ orders) = ground (arith, none_left user email orders)

take_orders-again :
    (user user' : ℕ) (email : String) (orders : List Order)
    → take_orders user' email (take_orders user email orders) ≡ take_orders user email orders
unfolding take_orders
take_orders-again user user' email [] = refl
take_orders-again user user' email (o ∷ orders) =
    ground (arith, take_orders-again user user' email orders)

orders-merge_orders :
    (now user : ℕ) (orders : List Order) (t : MergeTables)
    → (merge_orders now user orders t).orders ≡ t.orders
unfolding merge_orders merge_order
orders-merge_orders now user [] t = refl
orders-merge_orders now user (o ∷ orders) t =
    orders-merge_orders now user orders (merge_order now user o t)

nothing_to_merge :
    (now user : ℕ) (email : String) (t : MergeTables)
    → filter (is_guest_order (lower (strip email))) t.orders ≡ []
    → take_orders user (lower (strip email)) t.orders ≡ t.orders
    → merge_guest_orders_for_user now (some user) email t ≡ (0, t)
unfolding merge_guest_orders_for_user
nothing_to_merge now user email t none_there same =
    elim (Bool-cases (str_eq (lower (strip email)) "")) [
      | inl blank ↦ rw blank refl
      | inr named ↦ rw named (
          ap
            (λ (orders : List Order). (
              length orders,
              merge_orders now user orders
                  (record t { orders = take_orders user (lower (strip email)) t.orders }),
            ))
            none_there
          ∙ ap (λ (orders : List Order). (0, record t { orders = orders })) same)
    ]

-- A second merge with the same address, by any account, merges no order and changes nothing.
pub merge_guest_orders_for_user-again :
    (now user now' user' : ℕ) (email : String) (t : MergeTables)
    → let t' = (merge_guest_orders_for_user now (some user) email t).1 in
      merge_guest_orders_for_user now' (some user') email t' ≡ (0, t')
unfolding merge_guest_orders_for_user
merge_guest_orders_for_user-again now user now' user' email t =
    elim (Bool-cases (str_eq (lower (strip email)) "")) [
      | inl blank ↦ rw blank refl
      | inr named ↦
          let orders = filter (is_guest_order (lower (strip email))) t.orders in
          let taken = take_orders user (lower (strip email)) t.orders in
          let start : MergeTables = record t { orders = taken } in
          let kept = orders-merge_orders now user orders start in
          let after : MergeTables = merge_orders now user orders start in
          subst
            (λ (x : ℕ × MergeTables).
              merge_guest_orders_for_user now' (some user') email x.1 ≡ (0, x.1))
            (sym {b = (length orders, after)}
              (ap (λ (b : Bool). if b then (0, t) else (length orders, after)) named))
            (nothing_to_merge now' user' email after
              (ap (filter (is_guest_order (lower (strip email)))) kept
                ∙ none_left user (lower (strip email)) t.orders)
              (ap (take_orders user' (lower (strip email))) kept
                ∙ take_orders-again user user' (lower (strip email)) t.orders
                ∙ sym kept))
    ]
