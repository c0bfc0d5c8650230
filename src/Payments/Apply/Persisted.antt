-- ===== src/Payments/Apply/Persisted.antt =====
-- The rows that `save_invoice_and_target` of apps/payments/services.py writes, against the objects.
use palingames.Base.{
  ℕ, ◌≡◌, refl, sym, ap, subst, Bool-cases, inl, inr, String, true, Option, none, some, or_else,
}
use palingames.Orders.Model.{Order}
use palingames.CustomGames.Model.{CustomGameRequest}
use palingames.Payments.Model.{InvoiceStatus}
use palingames.Payments.Session.{Env, Session}
use palingames.Payments.Status.{resolve_status_update}
use palingames.Payments.Apply.{
  StatusPayload, invoice_paid, invoice_cleared, mark_custom_game_request_paid,
  apply_order_status_from_invoice_status, apply_custom_game_request_status_from_invoice_status,
  apply_to_target, apply_payable_status_from_invoice_status, save_invoice_and_target,
  save_invoice_fields, is_paid_or_in_progress, provider_of, with_report, record_report,
  normalize_notification_datetime, apply_invoice_status_update,
}
use palingames.Payments.Apply.Objects.{resolve_status_update-objects, mark_order_paid-objects}

-- The rows hold what the objects in memory hold.
pub record IsStored (s : Session) : Type 0 where
  pub invoice : s.stored_invoice ≡ s.invoice
  pub order : s.stored_order ≡ s.order
  pub request : s.stored_request ≡ s.request

module _ (env : Env) (at : Option ℕ) (source : String) where
  order-IsStored :
      (st : Option InvoiceStatus) (order : Order) (request : Option CustomGameRequest) (s : Session)
      → save_invoice_fields s.invoice s.stored_invoice ≡ s.invoice
      → s.stored_order ≡ some order
      → s.stored_request ≡ request
      → IsStored (
          save_invoice_and_target (
            apply_order_status_from_invoice_status env at source st order
              (record s { order = some order; request = request })))
  unfolding apply_order_status_from_invoice_status save_invoice_and_target
  order-IsStored none order request s i o r = record { invoice = i; order = rw o refl; request = r }
  order-IsStored (some InvoiceStatus.paid) order request s i o r =
      subst (λ (t : Session). IsStored (save_invoice_and_target t))
        (sym (
          mark_order_paid-objects env at source order
            (record s { order = some order; request = request })))
        (record {
          invoice = ap (invoice_paid (or_else at env.now)) i;
          order = rw o refl;
          request = r;
        })
  order-IsStored (some InvoiceStatus.refunded) order request s i o r = record {
    invoice = i;
    order = rw o refl;
    request = r;
  }
  order-IsStored (some InvoiceStatus.canceled) order request s i o r = record {
    invoice = ap (invoice_cleared (some (or_else at env.now))) i;
    order = rw o refl;
    request = r;
  }
  order-IsStored (some InvoiceStatus.expired) order request s i o r = record {
    invoice = ap (invoice_cleared none) i;
    order = rw o refl;
    request = r;
  }
  order-IsStored (some InvoiceStatus.pending) order request s i o r = record {
    invoice = ap (invoice_cleared none) i;
    order = rw o refl;
    request = r;
  }

  request-IsStored :
      (st : Option InvoiceStatus) (request : CustomGameRequest) (s : Session)
      → save_invoice_fields s.invoice s.stored_invoice ≡ s.invoice
      → s.stored_order ≡ none
      → s.stored_request ≡ some request
      → IsStored (
          save_invoice_and_target (
            apply_custom_game_request_status_from_invoice_status env at st request
              (record s { order = none; request = some request })))
  unfolding apply_custom_game_request_status_from_invoice_status mark_custom_game_request_paid
      save_invoice_and_target
  request-IsStored none request s i o r = record { invoice = i; order = o; request = rw r refl }
  request-IsStored (some InvoiceStatus.paid) request s i o r =
      elim (Bool-cases (is_paid_or_in_progress request.status)) [
        | inl again ↦ rw again (record {
          invoice = ap (invoice_paid (or_else at env.now)) i;
          order = o;
          request = rw r refl;
        })
        | inr first ↦ rw first (record {
          invoice = ap (invoice_paid (or_else at env.now)) i;
          order = o;
          request = rw r refl;
        })
      ]
  request-IsStored (some InvoiceStatus.refunded) request s i o r = record {
    invoice = i;
    order = o;
    request = rw r refl;
  }
  request-IsStored (some InvoiceStatus.canceled) request s i o r = record {
    invoice = ap (invoice_cleared (some (or_else at env.now))) i;
    order = o;
    request = rw r refl;
  }
  request-IsStored (some InvoiceStatus.expired) request s i o r = record {
    invoice = ap (invoice_cleared none) i;
    order = o;
    request = rw r refl;
  }
  request-IsStored (some InvoiceStatus.pending) request s i o r = record {
    invoice = ap (invoice_cleared none) i;
    order = o;
    request = rw r refl;
  }

  target-IsStored :
      (st : Option InvoiceStatus) (order : Option Order) (request : Option CustomGameRequest)
      (s : Session)
      → save_invoice_fields s.invoice s.stored_invoice ≡ s.invoice
      → s.stored_order ≡ order
      → s.stored_request ≡ request
      → IsStored (
          save_invoice_and_target (
            apply_to_target env at source st order request
              (record s { order = order; request = request })))
  unfolding save_invoice_and_target
  target-IsStored st (some order) request s i o r = order-IsStored st order request s i o r
  target-IsStored st none (some request) s i o r = request-IsStored st request s i o r
  target-IsStored st none none s i o r = record { invoice = i; order = o; request = r }

-- A persisted update leaves no change of the invoice, its order or its request out of the rows.
pub apply_invoice_status_update-IsStored :
    (env : Env) (code : Option ℕ) (source : String) (payload : StatusPayload) (s : Session)
    → IsStored s
    → IsStored (apply_invoice_status_update env code source true payload s).1
unfolding apply_invoice_status_update apply_payable_status_from_invoice_status record_report
apply_invoice_status_update-IsStored env code source payload s h =
    let provider : String = provider_of s.invoice in
    let st : Option InvoiceStatus = (resolve_status_update provider code s).0 in
    let e = resolve_status_update-objects provider code s in
    subst
      (λ (t : Session). IsStored (
        save_invoice_and_target (
          apply_payable_status_from_invoice_status env
            (normalize_notification_datetime env payload.event_at) source st
            (with_report env provider payload (st, t)))))
      (sym e)
      (target-IsStored env (normalize_notification_datetime env payload.event_at) source st s.order
        s.request
        (with_report env provider payload
          (st, record s { effects = (resolve_status_update provider code s).1.effects }))
        (rw h.invoice refl) h.order h.request)
