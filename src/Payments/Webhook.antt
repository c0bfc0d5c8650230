-- ===== src/Payments/Webhook.antt =====
-- apps/payments/views: a notification of ExpressPay, from the checks of its data to the invoice. The
-- hash of the event's key and the formatting of instants are parameters, amounts are whole cents, and
-- a provider's code is the number of its status.
pub mod Once
pub mod Accepted
pub mod Settlement
pub mod Endpoint
mod Tests
use Prim.Native.String.{◌++◌}
use palingames.Base.{
  ℕ, String, Bool, true, false, not, ◌&&◌, ◌||◌, Option, none, some, List, [], ◌∷◌, any, or_else,
  str_eq, ◌==◌, option_eq, is_some, Result, ok, err, ◌>>=◌, ◌>>◌, raise_if, if◌then◌else◌,
}
use palingames.Base.Text.{is_truthy, strip, upper, str, int_of_digits}
use palingames.Orders.Model.{Order}
use palingames.CustomGames.Model.{CustomGameRequest}
use palingames.Payments.Model.{Invoice, InvoiceStatus, PaymentEvent}
use palingames.Payments.Session.{Effect, Env, Session, emit, reload}
use palingames.Payments.Status.{map_invoice_status}
use palingames.Payments.Apply.{
  Moment, StatusPayload, apply_invoice_status_update, normalize_notification_datetime,
  save_invoice_fields, save_target, mark_order_paid, mark_custom_game_request_paid,
}

pub data RawCurrency : Type 0 where
  missing : RawCurrency
  number : ℕ → RawCurrency
  text : String → RawCurrency

-- `currency_mapping`, and `isdigit` with `int`.
abbrev pub currency_of : String → ℕ → ℕ
currency_of code fallback =
    if str_eq code "BYN"
    then 933
    else if str_eq code "EUR"
    then 978
    else if str_eq code "USD"
    then 840
    else if str_eq code "RUB"
    then 643
    else or_else (int_of_digits code) fallback

unfoldable pub normalize_currency_code : RawCurrency → ℕ → ℕ
normalize_currency_code RawCurrency.missing fallback = fallback
normalize_currency_code (RawCurrency.number n) fallback = n
normalize_currency_code (RawCurrency.text s) fallback =
    if str_eq s "" then fallback else currency_of (upper (strip s)) fallback

-- The message of `PaymentNotificationMismatch`, and `Invoice.DoesNotExist`.
pub data WebhookError : Type 0 where
  account_no invoice_no amount_missing amount target_amount currency does_not_exist : WebhookError

abbrev pub text_eq : Option String → Option String → Bool
text_eq none none = true
text_eq (some a) (some b) = str_eq a b
text_eq _ _ = false

-- `str(n) if n is not None else None`
abbrev pub show : Option ℕ → Option String
show none = none
show (some n) = some (str n)

abbrev pub account_no_of : Option Order → Option CustomGameRequest → Option String
account_no_of (some order) request = order.payment_account_no
account_no_of none (some request) = request.payment_account_no
account_no_of none none = none

unfoldable pub get_invoice_payment_account_no : Session → Option String
get_invoice_payment_account_no s = account_no_of s.order s.request

abbrev pub amount_of : Option Order → Option CustomGameRequest → Option ℕ
amount_of (some order) request = some order.total_amount
amount_of none (some request) = request.quoted_price
amount_of none none = none

unfoldable pub get_invoice_target_amount : Session → Option ℕ
get_invoice_target_amount s = amount_of s.order s.request

unfoldable pub validate_invoice_payment_account_no :
    Session → String → Result WebhookError (Unit {0})
unfolding get_invoice_payment_account_no
validate_invoice_payment_account_no s account =
    raise_if
      (is_truthy (get_invoice_payment_account_no s)
        && not (text_eq (some account) (get_invoice_payment_account_no s)))
      WebhookError.account_no

unfoldable pub validate_invoice_provider_invoice_no :
    Session → Option ℕ → Result WebhookError (Unit {0})
validate_invoice_provider_invoice_no s given_no =
    raise_if
      (is_some given_no
        && is_truthy s.invoice.provider_invoice_no
        && not (text_eq (show given_no) s.invoice.provider_invoice_no))
      WebhookError.invoice_no

abbrev pub other_than : Option ℕ → ℕ → Bool
other_than none n = false
other_than (some target) n = not (n == target)

unfoldable pub validate_invoice_payment_amount :
    Session → Option ℕ → Bool → Result WebhookError (Unit {0})
unfolding get_invoice_target_amount
validate_invoice_payment_amount s none is_paid = raise_if is_paid WebhookError.amount_missing
validate_invoice_payment_amount s (some n) is_paid =
    raise_if (not (n == s.invoice.amount)) WebhookError.amount
    >> raise_if (other_than (get_invoice_target_amount s) s.invoice.amount)
        WebhookError.target_amount

abbrev pub is_given : RawCurrency → Bool
is_given RawCurrency.missing = false
is_given _ = true

unfoldable pub validate_invoice_payment_currency :
    Session → RawCurrency → Result WebhookError (Unit {0})
unfolding normalize_currency_code
validate_invoice_payment_currency s c =
    raise_if
      (is_given c && not (normalize_currency_code c s.invoice.currency == s.invoice.currency))
      WebhookError.currency

-- `provider_status == InvoiceStatus.PAID`
abbrev pub is_paid_code : Option ℕ → Bool
is_paid_code code = option_eq code (some 3)

unfoldable pub validate_invoice_payment_payload :
    Session → String → Option ℕ → Option ℕ → RawCurrency → Option ℕ → Result WebhookError (Unit {0})
unfolding validate_invoice_payment_account_no validate_invoice_provider_invoice_no
    validate_invoice_payment_amount validate_invoice_payment_currency
validate_invoice_payment_payload s account given_no money c provider_status =
    validate_invoice_payment_account_no s account
    >> validate_invoice_provider_invoice_no s given_no
    >> validate_invoice_payment_amount s money (is_paid_code provider_status)
    >> validate_invoice_payment_currency s c

pub record Notification : Type 0 where
  pub cmd_type : ℕ
  pub status : Option ℕ
  pub account_no : String
  pub invoice_no : Option ℕ
  pub payment_no : Option ℕ
  pub amount : Option ℕ
  pub currency : RawCurrency
  pub created_at : Option Moment

-- `sha1`, and `isoformat`; `raw_response` renders the dictionary of the response.
pub record Format : Type 0 where
  pub sha1 : String → String
  pub isoformat : Moment → String
  pub raw_response : Notification → String

-- `str(n or "")`
abbrev pub str_or_empty : Option ℕ → String
str_or_empty none = ""
str_or_empty (some n) = if n == 0 then "" else str n

abbrev pub show_moment : Format → Option Moment → String
show_moment f none = ""
show_moment f (some t) = f.isoformat t

unfoldable pub build_payment_event_key : Format → Notification → String
build_payment_event_key f n = f.sha1 (
    str_or_empty (some n.cmd_type)
    ++ "|"
    ++ str_or_empty n.invoice_no
    ++ "|"
    ++ str_or_empty n.payment_no
    ++ "|"
    ++ str_or_empty n.status
    ++ "|"
    ++ n.account_no
    ++ "|"
    ++ show_moment f n.created_at)

-- The rows: the invoice with its target, and the events.
pub record Gateway : Type 0 where
  pub session : Session
  pub events : List PaymentEvent

abbrev pub has_key : String → PaymentEvent → Bool
has_key key e = str_eq e.provider_event_key key

abbrev pub raw_digits : RawCurrency → Option ℕ
raw_digits RawCurrency.missing = none
raw_digits (RawCurrency.number n) = if n == 0 then none else some n
raw_digits (RawCurrency.text s) = int_of_digits s

abbrev pub processed_event : Format → Env → Notification → Invoice → PaymentEvent
processed_event f env n invoice = record {
  provider_event_key = build_payment_event_key f n;
  provider = invoice.provider;
  cmd_type = n.cmd_type;
  provider_payment_no = show n.payment_no;
  provider_invoice_no = show n.invoice_no;
  provider_status_code = n.status;
  invoice_status = map_invoice_status n.status;
  amount = n.amount;
  currency = or_else (raw_digits n.currency) invoice.currency;
  is_processed = true;
  processed_at = some env.now;
}

abbrev pub or_kept : Option String → Option String → Option String
or_kept none kept = kept
or_kept (some s) kept = some s

unfoldable pub apply_invoice_notification : Format → Env → Notification → Session → Session
unfolding apply_invoice_status_update
apply_invoice_notification f env n s =
    let s' = record s {
      invoice = record s.invoice {
        provider_invoice_no = or_kept (show n.invoice_no) s.invoice.provider_invoice_no;
      };
    } in
    (apply_invoice_status_update env n.status "webhook" false
      (record {
        event_at = n.created_at;
        raw_response = some (f.raw_response n);
        amount = n.amount;
        currency = none;
      })
      s').1

-- The `save` of the invoice, and `save_invoice_target`, which names the fields of `save_target`.
abbrev pub save_notified : Session → Session
save_notified s = save_target s.order s.request (record s {
  stored_invoice = record (save_invoice_fields s.invoice s.stored_invoice) {
    provider_invoice_no = s.invoice.provider_invoice_no;
    invoice_url = s.invoice.invoice_url;
  };
})

-- The lookup of the invoice: by the account number of its target, and its provider's number, where a
-- missing number is looked for as the text "None".
abbrev pub is_addressed : Notification → Session → Bool
is_addressed n s =
    text_eq (get_invoice_payment_account_no s) (some n.account_no)
    && text_eq s.invoice.provider_invoice_no (some (or_else (show n.invoice_no) "None"))

abbrev pub handle : Format → Env → Notification → Session → List PaymentEvent → Bool → Gateway
handle f env n s events true = record {
  session = emit (Effect.duplicate_event s.invoice.provider n.cmd_type "webhook") s;
  events = events;
}
handle f env n s events false = record {
  session = save_notified (apply_invoice_notification f env n s);
  events = processed_event f env n s.invoice ∷ events;
}

unfoldable pub process_status_change :
    Format → Env → Notification → Gateway → Result WebhookError Gateway
unfolding validate_invoice_payment_payload build_payment_event_key apply_invoice_notification
    get_invoice_payment_account_no
process_status_change f env n g =
    let s = reload g.session in
    raise_if (not (is_addressed n s)) WebhookError.does_not_exist
    >> validate_invoice_payment_payload s n.account_no n.invoice_no n.amount n.currency n.status
    >> ok (handle f env n s g.events (any (has_key (build_payment_event_key f n)) g.events))
