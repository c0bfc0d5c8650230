-- ===== src/Payments/Reminders/Tests.antt =====
-- An invoice of a guest, created at 0 and valid until 100, with a reminder at most 25 before that and
-- at least 60 after its creation.
use palingames.Base.{◌+◌, ◌≡◌, ◌≤◌, ◌<◌, refl, true, none, some, ℕ, ok}
use palingames.Base.Text.{strip}
use palingames.Orders.Model.{CheckoutType}
use palingames.Payments.Model.{InvoiceStatus}
use palingames.Payments.Reminders.{
  PaymentReminderCandidate, PaymentReminderDecision, PaymentReminderPolicy, TargetKind,
  evaluate_payment_reminder,
}
use palingames.Payments.Reminders.Decided.{evaluate_payment_reminder-timely, is_eligible}

abbrev policy : PaymentReminderPolicy
policy = record { reminder_before_expiry = 25; min_gap_after_first_email = 60 }

abbrev candidate : PaymentReminderCandidate
candidate = record {
  target_kind = TargetKind.order;
  checkout_type = CheckoutType.guest;
  invoice_status = InvoiceStatus.pending;
  created_at = 0;
  expires_at = some 100;
  provider_invoice_no = "11";
  invoice_url = some "u";
  recipient_email = "a@b.c";
  payment_email_sent_for_provider_invoice_no = some "11";
  payment_reminder_sent_for_provider_invoice_no = none;
}

abbrev sends : PaymentReminderDecision
sends = record { should_send = true; reason = none }

due : evaluate_payment_reminder policy 75 candidate ≡ ok sends
unfolding evaluate_payment_reminder strip palingames.Payments.Reminders.timing
due = refl

evaluate_payment_reminder-timely_example :
    (e : ℕ) × (candidate.expires_at ≡ some e)
    × (is_eligible candidate ≡ true)
    × (75 < e)
    × (e ≤ 75 + 25)
    × (0 + 60 ≤ 75)
evaluate_payment_reminder-timely_example =
    evaluate_payment_reminder-timely policy 75 candidate sends due refl
