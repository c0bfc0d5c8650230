-- ===== src/Payments/Creation.antt =====
-- `create_invoice_task` of apps/payments/tasks.py: the target is looked at under its lock, the provider
-- is asked, and the target is looked at once more before the invoice is written. What others do while
-- the provider is asked is the argument `between`.
pub mod Created
mod Tests
use palingames.Base.{
  ℕ, ◌+◌, String, Bool, true, false, not, ◌&&◌, ◌||◌, Option, none, some, or_else, leb, str_eq,
  is_some, Result, ok, err, ◌>>=◌, ◌>>◌, raise_if, if◌then◌else◌,
}
use palingames.Base.Text.{is_truthy}
use palingames.Orders.Model.{Order, OrderStatus}
use palingames.CustomGames.Model.{CustomGameRequest, RequestStatus}
use palingames.Payments.Model.{Invoice, InvoiceStatus, is_pending, is_paid}
use palingames.Payments.Apply.{default_provider}

pub data InvoiceTarget : Type 0 where
  order : Order → InvoiceTarget
  custom_game_request : CustomGameRequest → InvoiceTarget

-- The rows of a target and its invoice.
pub record Payable : Type 0 where
  pub target : InvoiceTarget
  pub invoice : Option Invoice

-- `InvoiceCreationSkipped`, the messages of the ValueErrors, and an error of the provider, after which
-- the task is run again or fails.
pub data Stopped : Type 0 where
  skipped no_price price_not_positive no_deadline wrong_status provider_error : Stopped

unfoldable pub should_skip : Option Invoice → Bool
should_skip none = false
should_skip (some invoice) =
    is_truthy invoice.provider_invoice_no && (is_pending invoice.status || is_paid invoice.status)

abbrev pub is_payable_status : RequestStatus → Bool
is_payable_status RequestStatus.new = true
is_payable_status RequestStatus.payment_expired = true
is_payable_status _ = false

abbrev pub amount_or_zero : Option ℕ → ℕ
amount_or_zero amount = or_else amount 0

abbrev pub check_target : InvoiceTarget → Result Stopped (Unit {0})
check_target (InvoiceTarget.order o) = ok tt
check_target (InvoiceTarget.custom_game_request r) = do
  raise_if (not (is_some r.quoted_price)) Stopped.no_price
  raise_if (leb (amount_or_zero r.quoted_price) 0) Stopped.price_not_positive
  raise_if (not (is_some r.deadline)) Stopped.no_deadline
  raise_if (not (is_payable_status r.status)) Stopped.wrong_status

unfoldable pub get_locked_target_for_invoice_creation : Payable → Result Stopped (Unit {0})
unfolding should_skip
get_locked_target_for_invoice_creation p =
    raise_if (should_skip p.invoice) Stopped.skipped >> check_target p.target

-- The amount of a request is its price, which has been checked.
unfoldable pub get_target_amount : InvoiceTarget → ℕ
get_target_amount (InvoiceTarget.order o) = o.total_amount
get_target_amount (InvoiceTarget.custom_game_request r) = amount_or_zero r.quoted_price

abbrev pub target_currency : InvoiceTarget → ℕ
target_currency (InvoiceTarget.order o) = o.currency
target_currency (InvoiceTarget.custom_game_request r) = r.currency

-- What the provider answers; `raw` is the text of the stored response.
pub record Response : Type 0 where
  pub invoice_no : String
  pub invoice_url : Option String
  pub raw : String

pub record Env : Type 0 where
  pub now : ℕ
  pub invoice_lifetime : ℕ
  pub next_invoice_id : ℕ

-- A row that `update_or_create` inserts, before the defaults.
abbrev pub blank_invoice : Env → Invoice
blank_invoice env = record {
  id = env.next_invoice_id;
  provider = default_provider;
  provider_invoice_no = none;
  status = InvoiceStatus.pending;
  invoice_url = none;
  amount = 0;
  currency = 0;
  paid_at = none;
  cancelled_at = none;
  expires_at = none;
  payment_email_sent_for_provider_invoice_no = none;
  payment_reminder_sent_for_provider_invoice_no = none;
  last_status_check_at = none;
  raw_create_response = none;
  raw_last_status_response = none;
  created_at = env.now;
}

unfoldable pub build_invoice_defaults : Env → InvoiceTarget → Response → Invoice → Invoice
unfolding get_target_amount
build_invoice_defaults env target r invoice = record invoice {
  provider = default_provider;
  provider_invoice_no = some r.invoice_no;
  status = InvoiceStatus.pending;
  invoice_url = r.invoice_url;
  amount = get_target_amount target;
  currency = target_currency target;
  expires_at = some (env.now + env.invoice_lifetime);
  raw_create_response = some r.raw;
}

abbrev pub waiting_order : OrderStatus → OrderStatus
waiting_order OrderStatus.created = OrderStatus.waiting_for_payment
waiting_order st = st

abbrev pub waiting_request : RequestStatus → RequestStatus
waiting_request RequestStatus.new = RequestStatus.waiting_for_payment
waiting_request RequestStatus.payment_expired = RequestStatus.waiting_for_payment
waiting_request st = st

unfoldable pub mark_target_waiting_for_payment : InvoiceTarget → InvoiceTarget
mark_target_waiting_for_payment (InvoiceTarget.order o) =
    InvoiceTarget.order (record o { status = waiting_order o.status })
mark_target_waiting_for_payment (InvoiceTarget.custom_game_request r) =
    InvoiceTarget.custom_game_request (record r { status = waiting_request r.status })

-- The second transaction, after its look at the target.
abbrev pub written : Env → Response → Payable → Payable
written env r p = record {
  target = mark_target_waiting_for_payment p.target;
  invoice = some (build_invoice_defaults env p.target r (or_else p.invoice (blank_invoice env)));
}

abbrev pub second_look :
    Env → Response → Payable → Result Stopped (Unit {0}) → Option Stopped × Payable
second_look env r p (ok u) = (none, written env r p)
second_look env r p (err e) = (some e, p)

abbrev pub ask_provider :
    Env → Option Response → (Payable → Payable) → Payable → Option Stopped × Payable
ask_provider env none between p = (some Stopped.provider_error, between p)
ask_provider env (some r) between p =
    second_look env r (between p) (get_locked_target_for_invoice_creation (between p))

abbrev pub first_look :
    Env
    → Option Response
    → (Payable → Payable)
    → Payable
    → Result Stopped (Unit {0})
    → Option Stopped × Payable
first_look env response between p (ok u) = ask_provider env response between p
first_look env response between p (err e) = (some e, p)

-- Why nothing was written, or none; and the rows.
unfoldable pub create_invoice_task :
    Env → Option Response → (Payable → Payable) → Payable → Option Stopped × Payable
unfolding get_locked_target_for_invoice_creation build_invoice_defaults
    mark_target_waiting_for_payment
create_invoice_task env response between p =
    first_look env response between p (get_locked_target_for_invoice_creation p)
