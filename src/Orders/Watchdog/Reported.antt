-- ===== src/Orders/Watchdog/Reported.antt =====
-- The checks of apps/orders/watchdog.py against what a delivery is.
use palingames.Base.{
  ℕ, ◌≡◌, refl, ap, ◌∙◌, Bool, true, false, not, ◌&&◌, ◌||◌, Option, none, some, List, [], ◌∷◌,
  ◌++◌, map, any, elem, ◌==◌, is_some, arith, if◌then◌else◌, Bool-cases, inl, inr,
}
use palingames.Orders.Model.{Order, OrderItem, is_guest, is_paid}
use palingames.Access.Model.{UserProductAccess, GuestAccess}
use palingames.Access.Users.{has_user_product_access, is_access_of}
use palingames.Access.Guests.{is_guest_access_of}
use palingames.Payments.Model.{Invoice, is_paid as is_paid_invoice}
use palingames.Notifications.Enqueue.{OutboxRow}
use palingames.Orders.Watchdog.{
  OrderDeliveryProblem, OrderWithInvoice, ProblemCode, Tables, authenticated_problems,
  check_accesses, check_authenticated_accesses, check_found_invoice, check_guest_accesses,
  check_guest_notification, check_invoice, check_paid_order_delivery, get_guest_download_outbox,
  get_order_product_ids, guest_access_ids, guest_download_outbox_is_stuck, insert_id, is_failed,
  missing_ids, notification_problems, problem, problem_if, sorted_ids, user_access_ids,
}

abbrev pub every : (ℕ → Bool) → List ℕ → Bool
every p [] = true
every p (n ∷ ns) = p n && every p ns

abbrev pub is_empty : List OrderDeliveryProblem → Bool
is_empty [] = true
is_empty (p ∷ ps) = false

abbrev pub item_ids : Order → List ℕ
item_ids order = map (λ (i : OrderItem). i.product_id) order.items

-- Who is to have access has it.
abbrev pub has_access : Order → Tables → ℕ → Bool
has_access order t n =
    if is_guest order.checkout_type
    then any (is_guest_access_of order.id n) t.guest_accesses
    else has_user_product_access order.user_id n t.user_accesses

abbrev pub has_owner : Order → Bool
has_owner order = is_guest order.checkout_type || is_some order.user_id

abbrev pub is_settled : Option Invoice → Bool
is_settled none = false
is_settled (some i) = is_paid_invoice i.status && is_some i.paid_at

abbrev pub is_on_its_way : ℕ → ℕ → Option OutboxRow → Bool
is_on_its_way timeout now none = false
is_on_its_way timeout now (some row) =
    not (is_failed row.state.status) && not (guest_download_outbox_is_stuck timeout now row.state)

-- A paid order is settled, with its instants, its owner has access to every item, and a guest's mail is
-- neither missing nor failed nor stuck.
unfoldable pub is_delivered : ℕ → ℕ → OrderWithInvoice → Tables → Bool
is_delivered timeout now o t =
    is_some o.order.paid_at
    && is_settled o.invoice
    && (has_owner o.order && every (has_access o.order t) (item_ids o.order))
    && (not (is_guest o.order.checkout_type)
        || is_on_its_way timeout now (get_guest_download_outbox o.order t.outbox))

is_empty-append :
    (ps qs : List OrderDeliveryProblem) → is_empty (ps ++ qs) ≡ (is_empty ps && is_empty qs)
is_empty-append [] qs = refl
is_empty-append (p ∷ ps) qs = refl

is_empty-problem_if :
    (c : Bool) (order : Order) (code : ProblemCode) → is_empty (problem_if c order code) ≡ not c
is_empty-problem_if true order code = refl
is_empty-problem_if false order code = refl

every-insert : (p : ℕ → Bool) (n : ℕ) (ns : List ℕ) → every p (insert_id n ns) ≡ (p n && every p ns)
unfolding insert_id
every-insert p n [] = refl
every-insert p n (m ∷ ns) = ground (arith, every-insert p n ns)

every-sorted : (p : ℕ → Bool) (ns : List ℕ) → every p (sorted_ids ns) ≡ every p ns
unfolding sorted_ids
every-sorted p [] = refl
every-sorted p (n ∷ ns) =
    every-insert p n (sorted_ids ns) ∙ ap (λ (b : Bool). p n && b) (every-sorted p ns)

elem-insert : (k n : ℕ) (ns : List ℕ) → elem k (insert_id n ns) ≡ (k == n || elem k ns)
unfolding insert_id
elem-insert k n [] = refl
elem-insert k n (m ∷ ns) = ground (arith, elem-insert k n ns)

elem-sorted : (k : ℕ) (ns : List ℕ) → elem k (sorted_ids ns) ≡ elem k ns
unfolding sorted_ids
elem-sorted k [] = refl
elem-sorted k (n ∷ ns) =
    elem-insert k n (sorted_ids ns) ∙ ap (λ (b : Bool). k == n || b) (elem-sorted k ns)

-- Two tests that agree on the listed numbers.
pub every-agree :
    (p q : ℕ → Bool) (ns : List ℕ)
    → ((n : ℕ) → elem n ns ≡ true → p n ≡ q n)
    → every p ns ≡ every q ns
every-agree p q [] h = refl
every-agree p q (n ∷ ns) h =
    ground (arith, h n (ground arith), every-agree p q ns (λ k e. h k (ground (arith, e))))

is_empty-missing :
    (f : ℕ → OrderDeliveryProblem) (expected existing : List ℕ)
    → is_empty (map f (missing_ids expected existing)) ≡ every (λ n. elem n existing) expected
is_empty-missing f [] existing = refl
is_empty-missing f (n ∷ ns) existing = ground (arith, is_empty-missing f ns existing)

elem-user_access_ids :
    (n user : ℕ) (expected : List ℕ) (rows : List UserProductAccess)
    → elem n (user_access_ids user expected rows)
      ≡ (elem n expected && any (is_access_of user n) rows)
elem-user_access_ids n user expected [] = ground arith
elem-user_access_ids n user expected (a ∷ rows) =
    let ih = elem-user_access_ids n user expected rows in
    elim (Bool-cases (a.product_id == n)) [
      | inl e ↦
          let same : elem a.product_id expected ≡ elem n expected =
            ap (λ (k : ℕ). elem k expected) (ground (arith, e)) in
          ground (arith, same, e, ih)
      | inr e ↦ ground (arith, e, ih)
    ]

elem-guest_access_ids :
    (n order_id : ℕ) (expected : List ℕ) (rows : List GuestAccess)
    → elem n (guest_access_ids order_id expected rows)
      ≡ (elem n expected && any (is_guest_access_of order_id n) rows)
elem-guest_access_ids n order_id expected [] = ground arith
elem-guest_access_ids n order_id expected (a ∷ rows) =
    let ih = elem-guest_access_ids n order_id expected rows in
    elim (Bool-cases (a.product_id == n)) [
      | inl e ↦
          let same : elem a.product_id expected ≡ elem n expected =
            ap (λ (k : ℕ). elem k expected) (ground (arith, e)) in
          ground (arith, same, e, ih)
      | inr e ↦ ground (arith, e, ih)
    ]

-- The test of the listed access ids, on the expected ids themselves.
within :
    (p : ℕ → Bool) (existing ns : List ℕ)
    → ((n : ℕ) → elem n existing ≡ (elem n (sorted_ids ns) && p n))
    → every (λ n. elem n existing) (sorted_ids ns) ≡ every p ns
within p existing ns h =
    every-sorted (λ n. elem n existing) ns
    ∙ every-agree (λ n. elem n existing) p ns (λ n e. ground (arith, h n, elem-sorted n ns, e))

module _ (order : Order) (t : Tables) where
  guests-every :
      is_empty (check_guest_accesses order t)
      ≡ every (λ n. any (is_guest_access_of order.id n) t.guest_accesses) (item_ids order)
  unfolding check_guest_accesses get_order_product_ids
  guests-every =
      let expected = sorted_ids (item_ids order) in
      is_empty-missing (λ n. problem order (ProblemCode.missing_guest_access n)) expected
        (guest_access_ids order.id expected t.guest_accesses)
      ∙ within (λ n. any (is_guest_access_of order.id n) t.guest_accesses)
          (guest_access_ids order.id expected t.guest_accesses) (item_ids order)
          (λ n. elem-guest_access_ids n order.id expected t.guest_accesses)

  owned-every :
      (user : Option ℕ)
      → is_empty (authenticated_problems order t user) ≡ (
          is_some user
          && every (λ n. has_user_product_access user n t.user_accesses) (item_ids order))
  unfolding get_order_product_ids has_user_product_access
  owned-every none = refl
  owned-every (some user) =
      let expected = sorted_ids (item_ids order) in
      is_empty-missing (λ n. problem order (ProblemCode.missing_user_product_access n user))
        expected (user_access_ids user expected t.user_accesses)
      ∙ within (λ n. any (is_access_of user n) t.user_accesses)
          (user_access_ids user expected t.user_accesses) (item_ids order)
          (λ n. elem-user_access_ids n user expected t.user_accesses)

  pub check_accesses-every :
      is_empty (check_accesses order t)
      ≡ (has_owner order && every (has_access order t) (item_ids order))
  unfolding check_accesses check_authenticated_accesses
  check_accesses-every = elim (Bool-cases (is_guest order.checkout_type)) [
    | inl guest ↦ ground (
      arith,
      guest,
      guests-every,
      every-agree (has_access order t) (λ n. any (is_guest_access_of order.id n) t.guest_accesses)
          (item_ids order) (λ n e. ground (arith, guest)),
    )
    | inr account ↦ ground (
      arith,
      account,
      owned-every order.user_id,
      every-agree (has_access order t)
          (λ n. has_user_product_access order.user_id n t.user_accesses) (item_ids order)
          (λ n e. ground (arith, account)),
    )
  ]

check_invoice-settled : (o : OrderWithInvoice) → is_empty (check_invoice o) ≡ is_settled o.invoice
unfolding check_invoice
check_invoice-settled o = go o.invoice
  where
    go : (i : Option Invoice) → is_empty (check_found_invoice o.order i) ≡ is_settled i
    go none = refl
    go (some i) = ground arith

check_guest_notification-on_its_way :
    (timeout now : ℕ) (order : Order) (t : Tables)
    → is_empty (check_guest_notification timeout now order t)
      ≡ is_on_its_way timeout now (get_guest_download_outbox order t.outbox)
unfolding check_guest_notification
check_guest_notification-on_its_way timeout now order t =
    go (get_guest_download_outbox order t.outbox)
  where
    go :
        (row : Option OutboxRow)
        → is_empty (notification_problems timeout now order row) ≡ is_on_its_way timeout now row
    go none = refl
    go (some row) = ground arith

-- The watchdog finds nothing wrong with an order exactly if it is not paid or is delivered: it and its
-- invoice are paid, with their instants; its owner has access to every item; and the newest mail to a
-- guest is there, neither failed nor stuck.
pub check_paid_order_delivery-delivered :
    (timeout now : ℕ) (o : OrderWithInvoice) (t : Tables)
    → is_empty (check_paid_order_delivery timeout now o t)
      ≡ (not (is_paid o.order.status) || is_delivered timeout now o t)
unfolding check_paid_order_delivery is_delivered
check_paid_order_delivery-delivered timeout now o t =
    let notified = check_guest_notification timeout now o.order t in
    let last = if is_guest o.order.checkout_type then notified else [] in
    let accesses = check_accesses o.order t in
    let no_instant =
      problem_if (not (is_some o.order.paid_at)) o.order ProblemCode.order_paid_at_missing in
    ground (
      arith,
      is_empty-append no_instant (check_invoice o ++ accesses ++ last),
      is_empty-append (check_invoice o) (accesses ++ last),
      is_empty-append accesses last,
      check_invoice-settled o,
      check_accesses-every o.order t,
      check_guest_notification-on_its_way timeout now o.order t,
    )
