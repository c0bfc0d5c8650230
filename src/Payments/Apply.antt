-- ===== src/Payments/Apply.antt =====
-- apps/payments/services.py: `apply_invoice_status_update` and what it calls. A branch that assigns
-- to `invoice`, `invoice.order` or `invoice.custom_game_request` changes the session's object.
pub mod Objects
pub mod Settled
pub mod Persisted
pub mod Handovers
pub mod Fulfilled
pub mod Granted
use palingames.Base.{
  ℕ, String, Bool, true, false, Option, none, some, List, [], ◌∷◌, or_else, if◌then◌else◌,
}
use palingames.Orders.Model.{Order, OrderStatus, CheckoutType, is_paid}
use palingames.CustomGames.Model.{CustomGameRequest, RequestStatus}
use palingames.Access.Model.{Tables}
use palingames.Access.Users.{grant_user_product_accesses}
use palingames.Access.Guests.{Payload, grant_guest_product_accesses}
use palingames.Payments.Model.{Invoice, InvoiceStatus}
use palingames.Payments.Session.{Effect, Env, Session, emit}
use palingames.Payments.Status.{resolve_status_update}

-- `save(update_fields=[…])` copies the named fields into the row.
abbrev pub save_order_fields : Order → Order → Order
save_order_fields order row = record row {
  status = order.status;
  paid_at = order.paid_at;
  refunded_at = order.refunded_at;
  cancelled_at = order.cancelled_at;
  failure_reason = order.failure_reason;
}

abbrev pub save_request_fields : CustomGameRequest → CustomGameRequest → CustomGameRequest
save_request_fields request row = record row {
  status = request.status;
  delivered_at = request.delivered_at;
  cancelled_at = request.cancelled_at;
}

abbrev pub map_row {ℓ} : {A : Type ℓ} → (A → A) → Option A → Option A
map_row f none = none
map_row f (some row) = some (f row)

-- `grant_user_product_accesses`, or the tokens of a guest and the mail that carries them.
abbrev send_guest_access : Order → List Payload × Tables → Session → Session
send_guest_access order ([], access) s = record s { access = access }
send_guest_access order (p ∷ ps, access) s =
    emit (Effect.guest_access_email order.email (p ∷ ps)) (record s { access = access })

abbrev grant_accesses : Env → Order → CheckoutType → Session → Session
grant_accesses env order CheckoutType.authenticated s = record s {
  access = record s.access {
    user_accesses = grant_user_product_accesses env.now order s.access.user_accesses;
  };
}
grant_accesses env order CheckoutType.guest s =
    send_guest_access order
      (grant_guest_product_accesses env.hash env.guest_settings env.now order env.tokens s.access) s

unfoldable pub fulfil : Env → String → Order → Session → Session
fulfil env source order s =
    emit (Effect.purchase_analytics order.id source)
      (emit (Effect.order_paid order.id) (grant_accesses env order order.checkout_type s))

abbrev pub invoice_paid : ℕ → Invoice → Invoice
invoice_paid paid_at invoice = record invoice {
  status = InvoiceStatus.paid;
  paid_at = some paid_at;
  cancelled_at = none;
}

abbrev pub order_marked_paid : ℕ → Order → Order
order_marked_paid paid_at order = record order {
  status = OrderStatus.paid;
  paid_at = some paid_at;
  cancelled_at = none;
  failure_reason = none;
}

-- The two `save` calls of `mark_order_paid` under `persist`.
abbrev persist_order_paid : Invoice → Order → Session → Session
persist_order_paid invoice order s = record s {
  stored_invoice = record s.stored_invoice {
    status = invoice.status;
    paid_at = invoice.paid_at;
    cancelled_at = invoice.cancelled_at;
  };
  stored_order =
      map_row
        (λ row. record row {
          status = order.status;
          paid_at = order.paid_at;
          cancelled_at = order.cancelled_at;
          failure_reason = order.failure_reason;
        })
        s.stored_order;
}

unfoldable pub mark_order_paid : Env → Option ℕ → String → Bool → Order → Session → Session
unfolding fulfil
mark_order_paid env event_at source persist order s =
    let paid_at = or_else event_at env.now in
    let invoice' = invoice_paid paid_at s.invoice in
    let order' = order_marked_paid paid_at order in
    let marked = record s { invoice = invoice'; order = some order' } in
    let kept = if persist then persist_order_paid invoice' order' marked else marked in
    emit (Effect.order_reward order.id) (
      if is_paid order.status
      then emit (Effect.order_paid_duplicate order.id) kept
      else fulfil env source order' kept)

-- `custom_game_request.status in {IN_PROGRESS, READY, DELIVERED}`
abbrev pub is_paid_or_in_progress : RequestStatus → Bool
is_paid_or_in_progress RequestStatus.in_progress = true
is_paid_or_in_progress RequestStatus.ready = true
is_paid_or_in_progress RequestStatus.delivered = true
is_paid_or_in_progress _ = false

abbrev persist_request_paid : Invoice → CustomGameRequest → Session → Session
persist_request_paid invoice request s = record s {
  stored_invoice = record s.stored_invoice {
    status = invoice.status;
    paid_at = invoice.paid_at;
    cancelled_at = invoice.cancelled_at;
  };
  stored_request =
      map_row (λ row. record row { status = request.status; cancelled_at = request.cancelled_at })
        s.stored_request;
}

unfoldable pub mark_custom_game_request_paid :
    Env → Option ℕ → Bool → CustomGameRequest → Session → Session
mark_custom_game_request_paid env event_at persist request s =
    let invoice' = invoice_paid (or_else event_at env.now) s.invoice in
    let request' = record request { status = RequestStatus.in_progress; cancelled_at = none } in
    let marked = record s { invoice = invoice'; request = some request' } in
    let notified =
      if is_paid_or_in_progress request.status
      then marked
      else emit (Effect.request_paid_admin request.id s.invoice.id) marked in
    if persist then persist_request_paid invoice' request' notified else notified

abbrev pub invoice_cleared : Option ℕ → Invoice → Invoice
invoice_cleared cancelled_at invoice = record invoice {
  paid_at = none;
  cancelled_at = cancelled_at;
}

unfoldable pub apply_order_status_from_invoice_status :
    Env → Option ℕ → String → Option InvoiceStatus → Order → Session → Session
unfolding mark_order_paid
apply_order_status_from_invoice_status env event_at source (some InvoiceStatus.paid) order s =
    mark_order_paid env event_at source false order s
apply_order_status_from_invoice_status env event_at source (some InvoiceStatus.refunded) order s =
    emit (Effect.order_refunded_incident s.invoice.provider order.id s.invoice.id) (record s {
      order = some (record order {
        status = OrderStatus.refunded;
        refunded_at = some (or_else event_at env.now);
        cancelled_at = none;
        failure_reason = none;
      });
    })
apply_order_status_from_invoice_status env event_at source (some InvoiceStatus.canceled) order s =
    record s {
      invoice = invoice_cleared (some (or_else event_at env.now)) s.invoice;
      order = some (record order {
        status = OrderStatus.canceled;
        paid_at = none;
        cancelled_at = some (or_else event_at env.now);
        failure_reason = none;
      });
    }
apply_order_status_from_invoice_status env event_at source (some InvoiceStatus.expired) order s =
    record s {
      invoice = invoice_cleared none s.invoice;
      order = some (record order {
        status = OrderStatus.failed;
        paid_at = none;
        cancelled_at = none;
        failure_reason = some "invoice_expired";
      });
    }
apply_order_status_from_invoice_status env event_at source (some InvoiceStatus.pending) order s =
    record s {
      invoice = invoice_cleared none s.invoice;
      order = some (record order {
        status = OrderStatus.waiting_for_payment;
        paid_at = none;
        cancelled_at = none;
        failure_reason = none;
      });
    }
apply_order_status_from_invoice_status env event_at source none order s = s

unfoldable pub apply_custom_game_request_status_from_invoice_status :
    Env → Option ℕ → Option InvoiceStatus → CustomGameRequest → Session → Session
unfolding mark_custom_game_request_paid
apply_custom_game_request_status_from_invoice_status env event_at (some InvoiceStatus.paid) request
      s =
    mark_custom_game_request_paid env event_at false request s
apply_custom_game_request_status_from_invoice_status env event_at (some InvoiceStatus.canceled)
      request s =
    record s {
      invoice = invoice_cleared (some (or_else event_at env.now)) s.invoice;
      request = some (record request {
        status = RequestStatus.cancelled;
        cancelled_at = some (or_else event_at env.now);
      });
    }
apply_custom_game_request_status_from_invoice_status env event_at (some InvoiceStatus.expired)
      request s =
    record s {
      invoice = invoice_cleared none s.invoice;
      request =
          some (record request { status = RequestStatus.payment_expired; cancelled_at = none });
    }
apply_custom_game_request_status_from_invoice_status env event_at (some InvoiceStatus.pending)
      request s =
    record s {
      invoice = invoice_cleared none s.invoice;
      request =
          some (record request { status = RequestStatus.waiting_for_payment; cancelled_at = none });
    }
apply_custom_game_request_status_from_invoice_status env event_at _ request s = s

abbrev pub apply_to_target :
    Env
    → Option ℕ
    → String
    → Option InvoiceStatus
    → Option Order
    → Option CustomGameRequest
    → Session
    → Session
apply_to_target env event_at source status (some order) request s =
    apply_order_status_from_invoice_status env event_at source status order s
apply_to_target env event_at source status none (some request) s =
    apply_custom_game_request_status_from_invoice_status env event_at status request s
apply_to_target env event_at source status none none s = s

unfoldable pub apply_payable_status_from_invoice_status :
    Env → Option ℕ → String → Option InvoiceStatus → Session → Session
unfolding apply_order_status_from_invoice_status
    apply_custom_game_request_status_from_invoice_status
apply_payable_status_from_invoice_status env event_at source status s =
    apply_to_target env event_at source status s.order s.request s

-- `save_invoice_and_target`
abbrev pub save_invoice_fields : Invoice → Invoice → Invoice
save_invoice_fields invoice row = record row {
  provider = invoice.provider;
  status = invoice.status;
  amount = invoice.amount;
  currency = invoice.currency;
  paid_at = invoice.paid_at;
  cancelled_at = invoice.cancelled_at;
  last_status_check_at = invoice.last_status_check_at;
  raw_last_status_response = invoice.raw_last_status_response;
}

abbrev pub save_target : Option Order → Option CustomGameRequest → Session → Session
save_target (some order) request s = record s {
  stored_order = map_row (save_order_fields order) s.stored_order;
}
save_target none (some request) s = record s {
  stored_request = map_row (save_request_fields request) s.stored_request;
}
save_target none none s = s

unfoldable pub save_invoice_and_target : Session → Session
save_invoice_and_target s =
    save_target s.order s.request
      (record s { stored_invoice = save_invoice_fields s.invoice s.stored_invoice })

-- A datetime of a report: one without a time zone is read in the current one.
pub data Moment : Type 0 where
  naive aware : ℕ → Moment

unfoldable pub normalize_notification_datetime : Env → Option Moment → Option ℕ
normalize_notification_datetime env none = none
normalize_notification_datetime env (some (Moment.naive t)) = some (env.make_aware t)
normalize_notification_datetime env (some (Moment.aware t)) = some t

-- The keys of `status_payload` that the code reads; `raw_response` is `none` if the key is missing.
pub record StatusPayload : Type 0 where
  pub event_at : Option Moment
  pub raw_response : Option String
  pub amount : Option ℕ
  pub currency : Option ℕ

-- The assignments to the invoice before the target is touched. `provider` falls back on the default
-- of the field when it is empty.
abbrev pub default_provider : String
default_provider = "EXPRESS_PAY"

unfoldable pub record_report :
    Env → String → StatusPayload → Option InvoiceStatus → Invoice → Invoice
record_report env provider payload status invoice = record invoice {
  provider = provider;
  last_status_check_at = some env.now;
  raw_last_status_response = elim payload.raw_response [
    | none ↦ invoice.raw_last_status_response
    | some raw ↦ some raw
  ];
  amount = or_else payload.amount invoice.amount;
  currency = or_else payload.currency invoice.currency;
  status = or_else status invoice.status;
}

abbrev pub provider_of : Invoice → String
provider_of invoice = elim invoice.provider [
  | String.[] ↦ default_provider
  | String.◌∷◌ c s ↦ String.◌∷◌ c s
]

-- The session after the assignments, of what `resolve_status_update` returned.
abbrev pub with_report : Env → String → StatusPayload → Option InvoiceStatus × Session → Session
with_report env provider payload (status, s) = record s {
  invoice = record_report env provider payload status s.invoice;
}

abbrev pub saved : Bool → Session → Session
saved true s = save_invoice_and_target s
saved false s = s

-- The answer, and the session after the call.
unfoldable pub apply_invoice_status_update :
    Env → Option ℕ → String → Bool → StatusPayload → Session → Option InvoiceStatus × Session
unfolding resolve_status_update record_report apply_payable_status_from_invoice_status
    save_invoice_and_target normalize_notification_datetime
apply_invoice_status_update env provider_status source persist payload s =
    let provider = provider_of s.invoice in
    let resolved = resolve_status_update provider provider_status s in
    (
      resolved.0,
      saved persist (
          apply_payable_status_from_invoice_status env
            (normalize_notification_datetime env payload.event_at) source resolved.0
            (with_report env provider payload resolved)),
    )
