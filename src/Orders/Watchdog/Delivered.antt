-- ===== src/Orders/Watchdog/Delivered.antt =====
-- The watchdog of apps/orders/watchdog.py after the grants of apps/access/services.py.
use palingames.Base.{
  ℕ, ◌≡◌, refl, ap, ◌∙◌, subst, String, Bool, true, false, ◌||◌, ◌⊎◌, inl, inr, Option, none, some,
  List, [], ◌∷◌, ◌++◌, map, any, find, elem, ◌==◌, is_some, arith, Bool-cases, Option-cases, suc,
}
use palingames.Orders.Model.{Order, OrderItem, is_guest}
use palingames.Access.Model.{GuestAccess, Tables as AccessTables}
use palingames.Access.Users.{has_user_product_access, grant_user_product_accesses}
use palingames.Access.Users.Granted.{has_item, has_user_product_access-grant}
use palingames.Access.Guests.{
  GuestSettings, create_guest_access, fresh, grant_guest_items, grant_guest_product_accesses,
  is_guest_access_of, renewed, update_where,
}
use palingames.Notifications.Enqueue.{OutboxRow}
use palingames.Orders.Watchdog.{Tables, OrderDeliveryProblem, check_accesses}
use palingames.Orders.Watchdog.Reported.{
  check_accesses-every, every, has_access, has_owner, is_empty, item_ids, every-agree,
}

elem-item_ids :
    (n : ℕ) (items : List OrderItem)
    → elem n (map (λ (i : OrderItem). i.product_id) items) ≡ has_item n items
elem-item_ids n [] = refl
elem-item_ids n (i ∷ items) = ground (arith, elem-item_ids n items)

every-always : (ns : List ℕ) → every (λ n. true) ns ≡ true
every-always [] = refl
every-always (n ∷ ns) = every-always ns

none_reported : (ps : List OrderDeliveryProblem) → is_empty ps ≡ true → ps ≡ []
none_reported [] h = refl
none_reported (p ∷ ps) h = cc

-- A renewal leaves the order and the product of each row.
any-renewed :
    (hash : String → String) (now expires_in max_downloads : ℕ) (token email : String)
    (p : GuestAccess → Bool) (order_id n : ℕ) (rows : List GuestAccess)
    → any
        (is_guest_access_of order_id n)
        (update_where p (renewed hash now expires_in max_downloads token email) rows)
      ≡ any (is_guest_access_of order_id n) rows
any-renewed hash now expires_in max_downloads token email p order_id n [] = refl
any-renewed hash now expires_in max_downloads token email p order_id n (a ∷ rows) =
    ground (arith, any-renewed hash now expires_in max_downloads token email p order_id n rows)

any-append :
    (p : GuestAccess → Bool) (xs : List GuestAccess) (y : GuestAccess)
    → any p (xs ++ y ∷ []) ≡ (any p xs || p y)
any-append p [] y = ground arith
any-append p (x ∷ xs) y = ground (arith, any-append p xs y)

found-any :
    (p : GuestAccess → Bool) (rows : List GuestAccess) (a : GuestAccess)
    → find p rows ≡ some a
    → any p rows ≡ true
found-any p [] a h = cc
found-any p (x ∷ rows) a h = ground (arith, h, found-any p rows a)

module _ (hash : String → String) (now expires_in max_downloads : ℕ) (token : String)
    (order : Order) (product_id : ℕ) (t : AccessTables) where
  abbrev rows_after : List GuestAccess
  rows_after =
      (create_guest_access hash now order product_id expires_in max_downloads token
        t).1.guest_accesses

  created-any : any (is_guest_access_of order.id product_id) rows_after ≡ true
  unfolding create_guest_access
  created-any =
      elim (Option-cases (find (is_guest_access_of order.id product_id) t.guest_accesses)) [
        | inl e ↦
            rw (rows_after, e)
              (any-append (is_guest_access_of order.id product_id) t.guest_accesses (
                  fresh hash t.next_id order.id product_id now expires_in max_downloads token
                    order.email)
                ∙ ground arith)
        | inr (old, e) ↦
            rw (rows_after, e)
              (any-renewed hash now expires_in max_downloads token order.email (λ a. a.id == old.id)
                  order.id product_id t.guest_accesses
                ∙ found-any (is_guest_access_of order.id product_id) t.guest_accesses old e)
      ]

  kept-any :
      (n : ℕ)
      → any (is_guest_access_of order.id n) t.guest_accesses ≡ true
      → any (is_guest_access_of order.id n) rows_after ≡ true
  unfolding create_guest_access
  kept-any n h =
      elim (Option-cases (find (is_guest_access_of order.id product_id) t.guest_accesses)) [
        | inl e ↦
            rw (rows_after, e)
              (any-append (is_guest_access_of order.id n) t.guest_accesses (
                  fresh hash t.next_id order.id product_id now expires_in max_downloads token
                    order.email)
                ∙ ground (arith, h))
        | inr (old, e) ↦
            rw (rows_after, e)
              (any-renewed hash now expires_in max_downloads token order.email (λ a. a.id == old.id)
                  order.id n t.guest_accesses
                ∙ h)
      ]

  created-or_kept :
      (n : ℕ)
      → (any (is_guest_access_of order.id n) t.guest_accesses || product_id == n) ≡ true
      → any (is_guest_access_of order.id n) rows_after ≡ true
  created-or_kept n h = elim (Bool-cases (product_id == n)) [
    | inl e ↦
        let same : product_id ≡ n = ground (arith, e) in
        subst (λ (k : ℕ). any (is_guest_access_of order.id k) rows_after ≡ true) same created-any
    | inr e ↦ kept-any n (ground (arith, h, e))
  ]

module _ (hash : String → String) (settings : GuestSettings) (now : ℕ) (order : Order)
    (tokens : ℕ → String) where
  granted-any :
      (i : ℕ) (items : List OrderItem) (t : AccessTables) (n : ℕ)
      → (any (is_guest_access_of order.id n) t.guest_accesses || has_item n items) ≡ true
      → any
          (is_guest_access_of order.id n)
          (grant_guest_items hash settings now order tokens i items t).1.guest_accesses
        ≡ true
  unfolding grant_guest_items
  granted-any i [] t n h = ground (arith, h)
  granted-any i (item ∷ items) t n h =
      let t' =
        (create_guest_access hash now order item.product_id settings.expires_in
          settings.max_downloads (tokens i) t).1 in
      granted-any (suc i) items t' n (elim (Bool-cases (has_item n items)) [
        | inl e ↦ ground (arith, e)
        | inr e ↦ ground (
          arith,
          created-or_kept hash now settings.expires_in settings.max_downloads (tokens i) order
              item.product_id t n (ground (arith, h, e)),
        )
      ])

-- The order is a guest's, or that of an account.
abbrev pub HasKind : Order → Type 0
HasKind order =
    ((is_guest order.checkout_type ≡ true) × (order.user_id ≡ none))
    ⊎ ((is_guest order.checkout_type ≡ false) × (is_some order.user_id ≡ true))

module _ (hash : String → String) (settings : GuestSettings) (now : ℕ) (order : Order)
    (tokens : ℕ → String) (t : AccessTables) (outbox : List OutboxRow) where
  -- The tables after both grants, each of which does nothing for an order of the other kind.
  abbrev pub granted_tables : Tables
  granted_tables = record {
    user_accesses = grant_user_product_accesses now order t.user_accesses;
    guest_accesses =
        (grant_guest_product_accesses hash settings now order tokens t).1.guest_accesses;
    outbox = outbox;
  }

  guest_granted :
      (n : ℕ)
      → is_guest order.checkout_type ≡ true
      → order.user_id ≡ none
      → elem n (item_ids order) ≡ true
      → has_access order granted_tables n ≡ true
  unfolding grant_guest_product_accesses
  guest_granted n guest nobody e = ground (
    arith,
    guest,
    nobody,
    granted-any hash settings now order tokens 0 order.items t n
        (ground (arith, e, elem-item_ids n order.items)),
  )

  user_granted :
      (n user : ℕ)
      → is_guest order.checkout_type ≡ false
      → order.user_id ≡ some user
      → elem n (item_ids order) ≡ true
      → has_access order granted_tables n ≡ true
  user_granted n user account owner e =
      let rows = grant_user_product_accesses now order t.user_accesses in
      ground (
        arith,
        account,
        owner,
        ap (λ (u : Option ℕ). has_user_product_access u n rows) owner,
        has_user_product_access-grant now order t.user_accesses user n,
        elem-item_ids n order.items,
        e,
      )

  owner-granted :
      (user : Option ℕ)
      → is_guest order.checkout_type ≡ false
      → order.user_id ≡ user
      → is_some order.user_id ≡ true
      → (n : ℕ) → elem n (item_ids order) ≡ true
      → has_access order granted_tables n ≡ true
  owner-granted none account owner o n e = cc
  owner-granted (some user) account owner o n e = user_granted n user account owner e

  all_granted :
      HasKind order
      → (has_owner order ≡ true)
        × ((n : ℕ) → elem n (item_ids order) ≡ true → has_access order granted_tables n ≡ true)
  all_granted (inl (guest, nobody)) = (ground (arith, guest), λ n e. guest_granted n guest nobody e)
  all_granted (inr (account, owner)) =
      (ground (arith, owner), λ n e. owner-granted order.user_id account refl owner n e)

-- Once the accesses of an order have been granted, as its kind asks for, the watchdog reports no access
-- of the order as missing.
pub check_accesses-granted :
    (hash : String → String) (settings : GuestSettings) (now : ℕ) (order : Order)
    (tokens : ℕ → String) (t : AccessTables) (outbox : List OutboxRow)
    → HasKind order
    → check_accesses order (granted_tables hash settings now order tokens t outbox) ≡ []
check_accesses-granted hash settings now order tokens t outbox kind =
    let after = granted_tables hash settings now order tokens t outbox in
    let granted = all_granted hash settings now order tokens t outbox kind in
    none_reported (check_accesses order after) (
      check_accesses-every order after
      ∙ ground (
        arith,
        granted.0,
        every-agree (has_access order after) (λ n. true) (item_ids order) granted.1,
        every-always (item_ids order),
      ))
