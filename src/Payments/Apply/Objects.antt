-- ===== src/Payments/Apply/Objects.antt =====
-- What the steps of `apply_invoice_status_update` of apps/payments/services.py leave alone.
use palingames.Base.{
  ℕ, ◌≡◌, refl, ap, String, false, Option, none, some, List, [], ◌∷◌, arith, or_else, Bool-cases,
  Option-cases, inl, inr, if◌then◌else◌,
}
use palingames.Orders
use palingames.Orders.Model.{Order, OrderStatus, CheckoutType}
use palingames.Access.Model.{Tables}
use palingames.Access.Guests.{Payload, grant_guest_product_accesses}
use palingames.Payments.Model.{InvoiceStatus}
use palingames.Payments.Session.{Effect, Env, Session, emit}
use palingames.Payments.Status.{
  map_invoice_status, is_forbidden_transition, is_paid_status_regression, resolve_status_update,
}
use palingames.Payments.Apply.{
  invoice_paid, order_marked_paid, send_guest_access, grant_accesses, mark_order_paid, fulfil,
}

-- The status that a report brings about: none if its code has no meaning here or would undo a
-- payment.
abbrev pub heeded : InvoiceStatus → Option InvoiceStatus → Option InvoiceStatus
unfolding is_forbidden_transition
heeded old none = none
heeded old (some new) = if is_forbidden_transition old new then none else some new

module _ (provider : String) (code : Option ℕ) (s : Session) where
  pub resolve_status_update-heeded :
      (resolve_status_update provider code s).0 ≡ heeded s.invoice.status (map_invoice_status code)
  unfolding resolve_status_update is_paid_status_regression
  resolve_status_update-heeded = elim (Option-cases (map_invoice_status code)) [
    | inl e ↦ rw (e, resolve_status_update) refl
    | inr (st, e) ↦ rw (e, resolve_status_update) (ground arith)
  ]

  -- Resolving only reports: no object changes.
  pub resolve_status_update-objects :
      (resolve_status_update provider code s).1
      ≡ record s { effects = (resolve_status_update provider code s).1.effects }
  unfolding resolve_status_update is_paid_status_regression
  resolve_status_update-objects = ground arith

send_guest_access-objects :
    (order : Order) (granted : List Payload × Tables) (s : Session)
    → let t = send_guest_access order granted s in
      t ≡ record s { access = t.access; effects = t.effects }
send_guest_access-objects order ([], access) s = refl
send_guest_access-objects order (p ∷ ps, access) s = refl

grant_accesses-objects :
    (env : Env) (order : Order) (checkout : CheckoutType) (s : Session)
    → let t = grant_accesses env order checkout s in
      t ≡ record s { access = t.access; effects = t.effects }
grant_accesses-objects env order CheckoutType.authenticated s = refl
grant_accesses-objects env order CheckoutType.guest s =
    send_guest_access-objects order
      (grant_guest_product_accesses env.hash env.guest_settings env.now order env.tokens s.access) s

-- Fulfilment touches no object, only the accesses and what is sent.
pub fulfil-objects :
    (env : Env) (source : String) (order : Order) (s : Session)
    → let t = fulfil env source order s in t ≡ record s { access = t.access; effects = t.effects }
unfolding fulfil
fulfil-objects env source order s =
    ap
      (λ (t : Session).
        emit (Effect.purchase_analytics order.id source) (emit (Effect.order_paid order.id) t))
      (grant_accesses-objects env order order.checkout_type s)

module _ (env : Env) (at : Option ℕ) (source : String) where
  -- What `mark_order_paid` makes of the objects, without `persist`.
  pub mark_order_paid-objects :
      (order : Order) (s : Session)
      → let t = mark_order_paid env at source false order s in
        t ≡ record s {
          invoice = invoice_paid (or_else at env.now) s.invoice;
          order = some (order_marked_paid (or_else at env.now) order);
          access = t.access;
          effects = t.effects;
        }
  unfolding mark_order_paid
  mark_order_paid-objects order s = elim (Bool-cases (Orders.Model.is_paid order.status)) [
    | inl again ↦ rw (again, mark_order_paid) refl
    | inr first ↦
        rw (first, mark_order_paid)
          (ap (emit (Effect.order_reward order.id)) (
            fulfil-objects env source (order_marked_paid (or_else at env.now) order) (record s {
              invoice = invoice_paid (or_else at env.now) s.invoice;
              order = some (order_marked_paid (or_else at env.now) order);
            })))
  ]
