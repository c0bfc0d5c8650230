-- ===== src/Payments/Apply/Granted.antt =====
-- Who has what after a payment was applied by apps/payments/services.py, and the status of a request
-- for a custom game.
use palingames.Base.{
  ℕ, ◌≡◌, refl, sym, ap, subst, ◌∙◌, ◌&&◌, String, Bool, false, ◌||◌, Option, none, some, arith,
}
use palingames.Orders
use palingames.Orders.Model.{Order, CheckoutType}
use palingames.CustomGames.Model.{CustomGameRequest, RequestStatus}
use palingames.Access.Model.{Tables}
use palingames.Access.Users.{has_user_product_access, grant_user_product_accesses}
use palingames.Access.Users.Granted.{has_item, has_user_product_access-grant}
use palingames.Payments.Model.{InvoiceStatus}
use palingames.Payments.Session.{Env, Session}
use palingames.Payments.Status.{map_invoice_status}
use palingames.Payments.Apply.{
  StatusPayload, order_marked_paid, fulfil, mark_order_paid, mark_custom_game_request_paid,
  apply_order_status_from_invoice_status, apply_custom_game_request_status_from_invoice_status,
  apply_to_target, apply_payable_status_from_invoice_status, save_invoice_and_target, saved,
  provider_of, normalize_notification_datetime, apply_invoice_status_update,
}
use palingames.Payments.Apply.Objects.{
  heeded, resolve_status_update-heeded, resolve_status_update-objects,
}
use palingames.Payments.Apply.Settled.{answer, reported, reported-order, reported-request}
use palingames.Base.{or_else, option_eq}

saved-access : (b : Bool) (t : Session) → (saved b t).access ≡ t.access
unfolding save_invoice_and_target
saved-access b t = ground arith

saved-request : (b : Bool) (t : Session) → (saved b t).request ≡ t.request
unfolding save_invoice_and_target
saved-request b t = ground arith

reported-access :
    (env : Env) (code : Option ℕ) (payload : StatusPayload) (s : Session)
    → (reported env code payload s).access ≡ s.access
reported-access env code payload s =
    ap (λ (t : Session). t.access) (resolve_status_update-objects (provider_of s.invoice) code s)

mark_order_paid-access :
    (env : Env) (at : Option ℕ) (source : String) (order : Order) (s : Session)
    → order.checkout_type ≡ CheckoutType.authenticated
    → Orders.Model.is_paid order.status ≡ false
    → (mark_order_paid env at source false order s).access.user_accesses
      ≡ grant_user_product_accesses env.now
          (order_marked_paid (or_else at env.now) order)
          s.access.user_accesses
unfolding mark_order_paid fulfil
mark_order_paid-access env at source order s c u = rw (u, mark_order_paid) (rw (c, fulfil) refl)

target-access :
    (env : Env) (at : Option ℕ) (source : String) (st : Option InvoiceStatus) (found : Option Order)
    (request : Option CustomGameRequest) (order : Order) (s : Session)
    → st ≡ some InvoiceStatus.paid
    → found ≡ some order
    → order.checkout_type ≡ CheckoutType.authenticated
    → Orders.Model.is_paid order.status ≡ false
    → (apply_to_target env at source st found request s).access.user_accesses
      ≡ grant_user_product_accesses env.now
          (order_marked_paid (or_else at env.now) order)
          s.access.user_accesses
unfolding apply_order_status_from_invoice_status
target-access env at source st found request order s paid o c u =
    subst
      (λ st'.
        (apply_to_target env at source st' found request s).access.user_accesses
        ≡ grant_user_product_accesses env.now (order_marked_paid (or_else at env.now) order)
            s.access.user_accesses)
      (sym paid)
      (subst
        (λ found'.
          (apply_to_target env at source (some InvoiceStatus.paid) found' request
            s).access.user_accesses
          ≡ grant_user_product_accesses env.now (order_marked_paid (or_else at env.now) order)
              s.access.user_accesses)
        (sym o) (mark_order_paid-access env at source order s c u))

-- When an update brings about PAID for the unpaid order of an account, that account has access to a
-- product exactly if it had it before or the order has the product among its items.
pub has_user_product_access-paid :
    (env : Env) (code : Option ℕ) (source : String) (persist : Bool) (payload : StatusPayload)
    (s : Session) (order : Order) (user product_id : ℕ)
    → s.order ≡ some order
    → order.user_id ≡ some user
    → order.checkout_type ≡ CheckoutType.authenticated
    → Orders.Model.is_paid order.status ≡ false
    → let (status, t) = apply_invoice_status_update env code source persist payload s in
      status ≡ some InvoiceStatus.paid
      → has_user_product_access (some user) product_id t.access.user_accesses ≡ (
          has_user_product_access (some user) product_id s.access.user_accesses
          || has_item product_id order.items)
unfolding apply_invoice_status_update apply_payable_status_from_invoice_status
has_user_product_access-paid env code source persist payload s order user product_id o owner c
      unpaid paid =
    let r : Session = reported env code payload s in
    let at : Option ℕ = normalize_notification_datetime env payload.event_at in
    ap (λ (t : Tables). has_user_product_access (some user) product_id t.user_accesses)
      (saved-access persist (apply_to_target env at source (answer code s) r.order r.request r))
    ∙ ap (has_user_product_access (some user) product_id) (
        target-access env at source (answer code s) r.order r.request order r paid
          (reported-order env code payload s ∙ o) c unpaid)
    ∙ has_user_product_access-grant env.now (order_marked_paid (or_else at env.now) order)
        r.access.user_accesses user product_id
    ∙ ap
        (λ (t : Tables).
          has_user_product_access (some user) product_id t.user_accesses
          || (option_eq order.user_id (some user) && has_item product_id order.items))
        (reported-access env code payload s)
    ∙ rw owner (ground arith)

-- The status of a request after an answer; a refund does not touch it.
abbrev pub request_after : Option InvoiceStatus → RequestStatus → RequestStatus
request_after (some InvoiceStatus.paid) old = RequestStatus.in_progress
request_after (some InvoiceStatus.canceled) old = RequestStatus.cancelled
request_after (some InvoiceStatus.expired) old = RequestStatus.payment_expired
request_after (some InvoiceStatus.pending) old = RequestStatus.waiting_for_payment
request_after _ old = old

abbrev pub status_of : Option CustomGameRequest → Option RequestStatus
status_of none = none
status_of (some r) = some r.status

abbrev request_status_after : Option InvoiceStatus → Option CustomGameRequest → Option RequestStatus
request_status_after st none = none
request_status_after st (some r) = some (request_after st r.status)

request-target :
    (env : Env) (at : Option ℕ) (source : String) (st : Option InvoiceStatus)
    (request : CustomGameRequest) (s : Session)
    → s.request ≡ some request
    → status_of (apply_to_target env at source st none (some request) s).request
      ≡ some (request_after st request.status)
unfolding apply_custom_game_request_status_from_invoice_status mark_custom_game_request_paid
request-target env at source st request s e = ground arith

request-found :
    (env : Env) (at : Option ℕ) (source : String) (st : Option InvoiceStatus) (found : Option Order)
    (asked : Option CustomGameRequest) (request : CustomGameRequest) (s : Session)
    → found ≡ none
    → asked ≡ some request
    → s.request ≡ asked
    → status_of (apply_to_target env at source st found asked s).request
      ≡ some (request_after st request.status)
request-found env at source st (some order) asked request s o a e = cc
request-found env at source st none none request s o a e = cc
request-found env at source st none (some asked) request s o a e =
    request-target env at source st asked s e
    ∙ ap (λ (x : Option CustomGameRequest). request_status_after st x) a

-- An update moves the request of a custom game to the status of its answer, also when the request
-- is READY or DELIVERED and the payment is reported again; a refund leaves it alone.
pub request-apply_invoice_status_update :
    (env : Env) (code : Option ℕ) (source : String) (persist : Bool) (payload : StatusPayload)
    (s : Session) (request : CustomGameRequest)
    → s.order ≡ none
    → s.request ≡ some request
    → let (answer, t) = apply_invoice_status_update env code source persist payload s in
      (answer ≡ heeded s.invoice.status (map_invoice_status code))
      × (status_of t.request ≡ some (request_after answer request.status))
unfolding apply_invoice_status_update apply_payable_status_from_invoice_status
request-apply_invoice_status_update env code source persist payload s request o q =
    let r : Session = reported env code payload s in
    let at : Option ℕ = normalize_notification_datetime env payload.event_at in
    (
      resolve_status_update-heeded (provider_of s.invoice) code s,
      ap status_of (
            saved-request persist
              (apply_to_target env at source (answer code s) r.order r.request r))
          ∙ request-found env at source (answer code s) r.order r.request request r
              (reported-order env code payload s ∙ o) (reported-request env code payload s ∙ q)
              refl,
    )
