-- ===== src/Payments/Reminders.antt =====
-- apps/payments/reminder_policy.py: whether a customer is reminded of an invoice. Durations are numbers
-- in the unit of the instants.
pub mod Decided
mod Tests
use palingames.Base.{
  ℕ, ◌+◌, ◌-◌, String, Bool, true, false, not, ◌&&◌, Option, none, some, or_else, ltb, leb, str_eq,
  Result, ok, err, if◌then◌else◌,
}
use palingames.Base.Text.{strip}
use palingames.Orders.Model.{CheckoutType, is_guest}
use palingames.Payments.Model.{InvoiceStatus, is_pending}

pub record PaymentReminderPolicy : Type 0 where
  pub reminder_before_expiry : ℕ
  pub min_gap_after_first_email : ℕ

unfoldable pub min_invoice_lifetime : PaymentReminderPolicy → ℕ
min_invoice_lifetime p = p.reminder_before_expiry + p.min_gap_after_first_email

pub data TargetKind : Type 0 where
  order custom_game_request : TargetKind

pub record PaymentReminderCandidate : Type 0 where
  pub target_kind : TargetKind
  pub checkout_type : CheckoutType
  pub invoice_status : InvoiceStatus
  pub created_at : ℕ
  pub expires_at : Option ℕ
  pub provider_invoice_no : String
  pub invoice_url : Option String
  pub recipient_email : String
  pub payment_email_sent_for_provider_invoice_no : Option String
  pub payment_reminder_sent_for_provider_invoice_no : Option String

pub data SkipReason : Type 0 where
  unsupported_target not_guest_checkout invoice_not_pending missing_expires_at : SkipReason
  missing_provider_invoice_no missing_invoice_url missing_recipient_email : SkipReason
  first_email_not_sent reminder_already_sent expired lifetime_too_short not_due_yet : SkipReason

abbrev pub is_order : TargetKind → Bool
is_order TargetKind.order = true
is_order TargetKind.custom_game_request = false

unfoldable pub skip_reason_for_scope : PaymentReminderCandidate → Option SkipReason
skip_reason_for_scope c =
    if not (is_order c.target_kind)
    then some unsupported_target
    else if not (is_guest c.checkout_type)
    then some not_guest_checkout
    else none

abbrev pub is_blank : String → Bool
is_blank s = str_eq (strip s) ""

abbrev pub is_none : Option ℕ → Bool
is_none none = true
is_none (some n) = false

unfoldable pub skip_reason_for_invoice_state : PaymentReminderCandidate → Option SkipReason
skip_reason_for_invoice_state c =
    if not (is_pending c.invoice_status)
    then some invoice_not_pending
    else if is_none c.expires_at
    then some missing_expires_at
    else if is_blank c.provider_invoice_no
    then some missing_provider_invoice_no
    else if is_blank (or_else c.invoice_url "")
    then some missing_invoice_url
    else if is_blank c.recipient_email
    then some missing_recipient_email
    else none

abbrev pub is_sent_for : Option String → String → Bool
is_sent_for none no_ = false
is_sent_for (some sent) no_ = str_eq sent no_

unfoldable pub skip_reason_for_delivery_state : PaymentReminderCandidate → Option SkipReason
skip_reason_for_delivery_state c =
    let provider_invoice_no = strip c.provider_invoice_no in
    if not (is_sent_for c.payment_email_sent_for_provider_invoice_no provider_invoice_no)
    then some first_email_not_sent
    else if is_sent_for c.payment_reminder_sent_for_provider_invoice_no provider_invoice_no
    then some reminder_already_sent
    else none

-- A duration from `created_at` to `expires_at` below the minimum, and an instant before the reminder
-- is due, are compared without subtraction: `expires_at` may come first.
abbrev pub timing : PaymentReminderPolicy → ℕ → ℕ → ℕ → Option SkipReason
unfolding min_invoice_lifetime
timing policy now created_at expires_at =
    if leb expires_at now
    then some expired
    else if ltb expires_at (created_at + min_invoice_lifetime policy)
    then some lifetime_too_short
    else if ltb (now + policy.reminder_before_expiry) expires_at
    then some not_due_yet
    else none

pub data AssertionError : Type 0 where
  assertion_error : AssertionError

abbrev pub timing_of :
    PaymentReminderPolicy → ℕ → ℕ → Option ℕ → Result AssertionError (Option SkipReason)
timing_of policy now created_at none = err assertion_error
timing_of policy now created_at (some expires_at) = ok (timing policy now created_at expires_at)

unfoldable pub skip_reason_for_timing :
    PaymentReminderPolicy → ℕ → PaymentReminderCandidate → Result AssertionError (Option SkipReason)
skip_reason_for_timing policy now c = timing_of policy now c.created_at c.expires_at

pub record PaymentReminderDecision : Type 0 where
  pub should_send : Bool
  pub reason : Option SkipReason

abbrev pub first_reason : Option SkipReason → Option SkipReason → Option SkipReason
first_reason none b = b
first_reason (some a) b = some a

abbrev pub decision : Option SkipReason → PaymentReminderDecision
decision none = record { should_send = true; reason = none }
decision (some r) = record { should_send = false; reason = some r }

abbrev pub decided :
    Option SkipReason
    → Result AssertionError (Option SkipReason)
    → Result AssertionError PaymentReminderDecision
decided before (err e) = err e
decided before (ok timing_reason) = ok (decision (first_reason before timing_reason))

-- The tuple of the four reasons is built before the first of them is looked at, so that the assertion of
-- the last fails whatever the others say.
unfoldable pub evaluate_payment_reminder :
    PaymentReminderPolicy
    → ℕ
    → PaymentReminderCandidate
    → Result AssertionError PaymentReminderDecision
unfolding skip_reason_for_scope skip_reason_for_invoice_state skip_reason_for_delivery_state
    skip_reason_for_timing
evaluate_payment_reminder policy now c =
    decided
      (first_reason (skip_reason_for_scope c)
        (first_reason (skip_reason_for_invoice_state c) (skip_reason_for_delivery_state c)))
      (skip_reason_for_timing policy now c)
