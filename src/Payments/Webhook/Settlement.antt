-- ===== src/Payments/Webhook/Settlement.antt =====
-- `_process_epos_notification` of apps/payments/views/express_pay.py: a settlement pays the invoice
-- directly, by `mark_order_paid`, past the table of allowed transitions.
use Prim.Native.String.{◌++◌}
use palingames.Base.{
  ℕ, ◌≡◌, refl, sym, String, Bool, true, false, not, Option, none, some, List, ◌∷◌, any, or_else,
  Result, ok, ◌>>◌, raise_if, passed, ok-injective, subst,
}
use palingames.Orders.Model.{Order, OrderStatus}
use palingames.CustomGames.Model.{CustomGameRequest}
use palingames.Payments.Model.{Invoice, InvoiceStatus, PaymentEvent}
use palingames.Payments.Session.{Effect, Env, Session, emit, reload}
use palingames.Payments.Apply.{
  Moment, mark_order_paid, mark_custom_game_request_paid, normalize_notification_datetime,
  save_invoice_fields, save_target,
}
use palingames.Payments.Apply.Objects.{mark_order_paid-objects}
use palingames.Payments.Webhook.{
  Gateway, RawCurrency, WebhookError, get_invoice_payment_account_no, has_key,
  normalize_currency_code, show, show_moment, str_or_empty, text_eq,
  validate_invoice_payment_payload, Format,
}

-- `amount_text` is `str(amount or "")`, which the provider's format of the amount decides.
pub record Settlement : Type 0 where
  pub cmd_type : ℕ
  pub account_number : String
  pub payment_no : Option ℕ
  pub transaction_id : String
  pub amount : Option ℕ
  pub amount_text : String
  pub currency : RawCurrency
  pub created_at : Option Moment
  pub date_result_utc : Option Moment
  pub payload : String

unfoldable pub build_settlement_event_key : Format → Settlement → String
build_settlement_event_key f n = f.sha1 (
    str_or_empty (some n.cmd_type)
    ++ "|"
    ++ n.account_number
    ++ "|"
    ++ str_or_empty n.payment_no
    ++ "|"
    ++ n.transaction_id
    ++ "|"
    ++ show_moment f n.created_at
    ++ "|"
    ++ n.amount_text)

abbrev pub first_moment : Option Moment → Option Moment → Option Moment
first_moment none b = b
first_moment (some a) b = some a

abbrev pub settlement_event : Format → Env → Settlement → Invoice → PaymentEvent
settlement_event f env n invoice = record {
  provider_event_key = build_settlement_event_key f n;
  provider = invoice.provider;
  cmd_type = n.cmd_type;
  provider_payment_no = show n.payment_no;
  provider_invoice_no = invoice.provider_invoice_no;
  provider_status_code = none;
  invoice_status = some InvoiceStatus.paid;
  amount = n.amount;
  currency = normalize_currency_code n.currency invoice.currency;
  is_processed = true;
  processed_at = some env.now;
}

-- The assignments to the invoice before its target is paid.
abbrev pub settled_invoice : Env → Settlement → Invoice → Invoice
settled_invoice env n invoice = record invoice {
  amount = or_else n.amount invoice.amount;
  currency = normalize_currency_code n.currency invoice.currency;
  last_status_check_at = some env.now;
  raw_last_status_response = some n.payload;
}

abbrev pub pay_target : Env → Option ℕ → Option Order → Option CustomGameRequest → Session → Session
pay_target env event_at (some order) request s =
    mark_order_paid env event_at "settlement" false order s
pay_target env event_at none (some request) s =
    mark_custom_game_request_paid env event_at false request s
pay_target env event_at none none s = s

-- The `save` of the invoice names all the fields of `save_invoice_fields` but the provider.
abbrev pub save_settled : Session → Session
save_settled s = save_target s.order s.request (record s {
  stored_invoice = record (save_invoice_fields s.invoice s.stored_invoice) {
    provider = s.stored_invoice.provider;
  };
})

unfoldable pub settle : Env → Settlement → Session → Session
unfolding mark_order_paid mark_custom_game_request_paid normalize_notification_datetime
settle env n s = save_settled (
    pay_target env
      (normalize_notification_datetime env (first_moment n.date_result_utc n.created_at)) s.order
      s.request (record s { invoice = settled_invoice env n s.invoice }))

abbrev pub handle_settlement :
    Format → Env → Settlement → Session → List PaymentEvent → Bool → Gateway
handle_settlement f env n s events true = record {
  session = emit (Effect.duplicate_event s.invoice.provider n.cmd_type "settlement") s;
  events = events;
}
handle_settlement f env n s events false = record {
  session = settle env n s;
  events = settlement_event f env n s.invoice ∷ events;
}

unfoldable pub process_epos_notification :
    Format → Env → Settlement → Gateway → Result WebhookError Gateway
unfolding settle build_settlement_event_key validate_invoice_payment_payload
    get_invoice_payment_account_no
process_epos_notification f env n g =
    let s = reload g.session in
    raise_if (not (text_eq (get_invoice_payment_account_no s) (some n.account_number)))
      WebhookError.does_not_exist
    >> validate_invoice_payment_payload s n.account_number none n.amount n.currency (some 3)
    >> ok (
        handle_settlement f env n s g.events
          (any (has_key (build_settlement_event_key f n)) g.events))

abbrev pub status_of_row : Option Order → Option OrderStatus
status_of_row none = none
status_of_row (some o) = some o.status

-- The rows of an invoice and its order, paid at the instant.
abbrev pub IsPaidAt : Option ℕ → Session → Type 0
IsPaidAt at s =
    (s.stored_invoice.status ≡ InvoiceStatus.paid)
    × (s.stored_invoice.paid_at ≡ at)
    × (status_of_row s.stored_order ≡ some OrderStatus.paid)

abbrev pub paid_instant : Env → Settlement → ℕ
unfolding normalize_notification_datetime
paid_instant env n =
    or_else (normalize_notification_datetime env (first_moment n.date_result_utc n.created_at))
      env.now

settle-IsPaidAt :
    (env : Env) (n : Settlement) (s : Session) (order : Order)
    → IsPaidAt
        (some (paid_instant env n))
        (settle env n (record s { order = some order; stored_order = some order }))
unfolding settle
settle-IsPaidAt env n s order =
    let at = normalize_notification_datetime env (first_moment n.date_result_utc n.created_at) in
    let start : Session = record s {
      invoice = settled_invoice env n s.invoice;
      order = some order;
      stored_order = some order;
    } in
    subst (λ (t : Session). IsPaidAt (some (paid_instant env n)) (save_settled t))
      (sym (mark_order_paid-objects env at "settlement" order start)) (refl, refl, refl)

-- A settlement that is accepted for the first time leaves its order and its invoice paid, at its
-- instant, whatever their status was, a refund included.
pub process_epos_notification-IsPaidAt :
    (f : Format) (env : Env) (n : Settlement) (g : Gateway) {g' : Gateway} (order : Order)
    → g.session.stored_order ≡ some order
    → any (has_key (build_settlement_event_key f n)) g.events ≡ false
    → process_epos_notification f env n g ≡ ok g'
    → IsPaidAt (some (paid_instant env n)) g'.session
unfolding process_epos_notification
process_epos_notification-IsPaidAt f env n g {g'} order row new h =
    let s = reload g.session in
    let found =
      raise_if (not (text_eq (get_invoice_payment_account_no s) (some n.account_number)))
        WebhookError.does_not_exist in
    let valid =
      validate_invoice_payment_payload s n.account_number none n.amount n.currency (some 3) in
    let result = ok-injective ((passed (found >> valid) h).1) in
    subst (λ (x : Gateway). IsPaidAt (some (paid_instant env n)) x.session)
      {x = handle_settlement f env n s g.events
        (any (has_key (build_settlement_event_key f n)) g.events)}
      {y = g'} result
      (subst
        (λ (b : Bool).
          IsPaidAt (some (paid_instant env n)) (handle_settlement f env n s g.events b).session)
        (sym {b = false} new)
        (subst
          (λ (o : Option Order).
            IsPaidAt (some (paid_instant env n))
              (settle env n (record s { order = o; stored_order = o })))
          (sym {b = some order} row) (settle-IsPaidAt env n s order)))
