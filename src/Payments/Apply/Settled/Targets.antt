-- ===== src/Payments/Apply/Settled/Targets.antt =====
-- What `apply_invoice_status_update` of apps/payments/services.py makes of an order or a request, and how its status agrees with the invoice's.
use palingames.Base.{
  ℕ, ◌≡◌, refl, ◌∙◌, ap, String, Bool, true, false, Option, none, some, arith, is_some, sym, subst,
  ◌||◌,
}
use palingames.Orders.Model.{Order, OrderStatus}
use palingames.CustomGames.Model.{CustomGameRequest}
use palingames.Payments.Model.{InvoiceStatus, is_paid}
use palingames.Payments.Session.{Env, Session}
use palingames.Payments.Apply.{
  mark_custom_game_request_paid, apply_order_status_from_invoice_status,
  apply_custom_game_request_status_from_invoice_status, apply_to_target,
}
use palingames.Payments.Apply.Objects.{mark_order_paid-objects}

-- The invoice carries the status that is to be applied.
abbrev pub Carries : Option InvoiceStatus → Session → Type 0
Carries none s = Unit
Carries (some st) s = s.invoice.status ≡ st

-- The order's status for each status of the invoice.
abbrev pub agrees : InvoiceStatus → OrderStatus → Bool
agrees InvoiceStatus.pending OrderStatus.created = true
agrees InvoiceStatus.pending OrderStatus.waiting_for_payment = true
agrees InvoiceStatus.expired OrderStatus.failed = true
agrees InvoiceStatus.paid OrderStatus.paid = true
agrees InvoiceStatus.canceled OrderStatus.canceled = true
agrees InvoiceStatus.refunded OrderStatus.refunded = true
agrees _ _ = false

-- An invoice of an order agrees with it, and a paid invoice has its instant: the constraint
-- `payments_invoice_paid_requires_paid_at`.
abbrev pub OrderAgrees : InvoiceStatus → Option Order → Type 0
OrderAgrees st none = Unit
OrderAgrees st (some order) = agrees st order.status ≡ true

pub record IsConsistent (s : Session) : Type 0 where
  pub order_agrees : OrderAgrees s.invoice.status s.order
  pub paid_has_paid_at : is_paid s.invoice.status ≡ true → is_some s.invoice.paid_at ≡ true

module _ (env : Env) (at : Option ℕ) (source : String) where
  order-status :
      (st : Option InvoiceStatus) (order : Order) (s : Session)
      → Carries st s
      → (apply_order_status_from_invoice_status env at source st order s).invoice.status
        ≡ s.invoice.status
  unfolding apply_order_status_from_invoice_status
  order-status none order s c = refl
  order-status (some InvoiceStatus.paid) order s c =
      ap (λ (t : Session). t.invoice.status) (mark_order_paid-objects env at source order s) ∙ sym c
  order-status (some _) order s c = refl

  order-IsConsistent :
      (st : Option InvoiceStatus) (order : Order) (s : Session)
      → Carries st s
      → (st ≡ none → IsConsistent s)
      → IsConsistent (apply_order_status_from_invoice_status env at source st order s)
  unfolding apply_order_status_from_invoice_status
  order-IsConsistent none order s c h = h refl
  order-IsConsistent (some InvoiceStatus.paid) order s c h =
      subst IsConsistent (sym (mark_order_paid-objects env at source order s))
        (record { order_agrees = refl; paid_has_paid_at = λ _. refl })
  order-IsConsistent (some InvoiceStatus.refunded) order s c h = ground arith
  order-IsConsistent (some InvoiceStatus.canceled) order s c h = ground arith
  order-IsConsistent (some InvoiceStatus.expired) order s c h = ground arith
  order-IsConsistent (some InvoiceStatus.pending) order s c h = ground arith

  request-status :
      (st : Option InvoiceStatus) (request : CustomGameRequest) (s : Session)
      → Carries st s
      → (apply_custom_game_request_status_from_invoice_status env at st request s).invoice.status
        ≡ s.invoice.status
  unfolding apply_custom_game_request_status_from_invoice_status mark_custom_game_request_paid
  request-status none request s c = refl
  request-status (some InvoiceStatus.paid) request s c = ground arith
  request-status (some _) request s c = refl

  request-IsConsistent :
      (st : Option InvoiceStatus) (request : CustomGameRequest) (s : Session)
      → s.order ≡ none
      → Carries st s
      → (st ≡ none → IsConsistent s)
      → IsConsistent (apply_custom_game_request_status_from_invoice_status env at st request s)
  unfolding apply_custom_game_request_status_from_invoice_status mark_custom_game_request_paid
  request-IsConsistent none request s e c h = h refl
  request-IsConsistent (some InvoiceStatus.paid) request s e c h = ground arith
  request-IsConsistent (some InvoiceStatus.refunded) request s e c h = record {
    order_agrees = rw e tt;
    paid_has_paid_at = ground arith;
  }
  request-IsConsistent (some InvoiceStatus.canceled) request s e c h = record {
    order_agrees = rw e tt;
    paid_has_paid_at = ground arith;
  }
  request-IsConsistent (some InvoiceStatus.expired) request s e c h = record {
    order_agrees = rw e tt;
    paid_has_paid_at = ground arith;
  }
  request-IsConsistent (some InvoiceStatus.pending) request s e c h = record {
    order_agrees = rw e tt;
    paid_has_paid_at = ground arith;
  }

  pub target-status :
      (st : Option InvoiceStatus) (order : Option Order) (request : Option CustomGameRequest)
      (s : Session)
      → Carries st s
      → (apply_to_target env at source st order request s).invoice.status ≡ s.invoice.status
  target-status st (some order) request s c = order-status st order s c
  target-status st none (some request) s c = request-status st request s c
  target-status st none none s c = refl

  pub target-IsConsistent :
      (st : Option InvoiceStatus) (order : Option Order) (request : Option CustomGameRequest)
      (s : Session)
      → s.order ≡ order
      → (is_some order || is_some request) ≡ true
      → Carries st s
      → (st ≡ none → IsConsistent s)
      → IsConsistent (apply_to_target env at source st order request s)
  target-IsConsistent st (some order) request s e t c h = order-IsConsistent st order s c h
  target-IsConsistent st none (some request) s e t c h = request-IsConsistent st request s e c h
  target-IsConsistent st none none s e t c h = cc
