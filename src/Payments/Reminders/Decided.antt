-- ===== src/Payments/Reminders/Decided.antt =====
-- When `evaluate_payment_reminder` of apps/payments/reminder_policy.py has a reminder sent.
use palingames.Base.{
  ℕ, ◌+◌, ◌≤◌, ◌<◌, ◌≡◌, Bool, true, false, not, ◌&&◌, Option, none, some, arith, leb, ltb, or_else,
  ok, err, refl, sym, ◌∙◌,
}
use palingames.Base.Text.{str_eq-same, strip}
use palingames.Orders.Model.{is_guest}
use palingames.Payments.Model.{is_pending}
use palingames.Payments.Reminders.{
  PaymentReminderPolicy, PaymentReminderCandidate, evaluate_payment_reminder, is_blank, is_order,
  is_sent_for, PaymentReminderDecision, assertion_error, min_invoice_lifetime,
}

-- All that does not depend on the time: a pending invoice of a guest's order, with all its data, whose
-- first mail is sent and whose reminder is not.
abbrev pub is_eligible : PaymentReminderCandidate → Bool
is_eligible c =
    is_order c.target_kind
    && is_guest c.checkout_type
    && is_pending c.invoice_status
    && not (is_blank c.provider_invoice_no)
    && not (is_blank (or_else c.invoice_url ""))
    && not (is_blank c.recipient_email)
    && is_sent_for c.payment_email_sent_for_provider_invoice_no (strip c.provider_invoice_no)
    && not
        (is_sent_for c.payment_reminder_sent_for_provider_invoice_no (strip c.provider_invoice_no))

-- The window before the expiry, of an invoice that lives long enough.
abbrev pub is_in_window : PaymentReminderPolicy → ℕ → ℕ → ℕ → Bool
is_in_window policy now created_at e =
    ltb now e
    && leb (created_at + (policy.reminder_before_expiry + policy.min_gap_after_first_email)) e
    && leb e (now + policy.reminder_before_expiry)

-- A candidate with an expiry is decided, and gets a reminder exactly if it is eligible and in its window.
pub evaluate_payment_reminder-should_send :
    (policy : PaymentReminderPolicy) (now e : ℕ) (c : PaymentReminderCandidate)
    → c.expires_at ≡ some e
    → (d : PaymentReminderDecision) × (evaluate_payment_reminder policy now c ≡ ok d)
      × (d.should_send ≡ (is_eligible c && is_in_window policy now c.created_at e))
unfolding evaluate_payment_reminder min_invoice_lifetime
evaluate_payment_reminder-should_send policy now e c given = rw given (_, refl, ground arith)

-- Without an expiry every evaluation fails at the assertion.
pub evaluate_payment_reminder-none :
    (policy : PaymentReminderPolicy) (now : ℕ) (c : PaymentReminderCandidate)
    → c.expires_at ≡ none
    → evaluate_payment_reminder policy now c ≡ err assertion_error
unfolding evaluate_payment_reminder
evaluate_payment_reminder-none policy now c given = rw given refl

-- A reminder is sent only for an eligible candidate with an expiry: before the expiry, at most the policy's
-- time before it, and the policy's gap after the invoice was created or later. Eligible is the pending
-- invoice of a guest's order with a number, a URL and an address, whose first mail is sent and whose
-- reminder is not.
pub evaluate_payment_reminder-timely :
    (policy : PaymentReminderPolicy) (now : ℕ) (c : PaymentReminderCandidate)
    (d : PaymentReminderDecision)
    → evaluate_payment_reminder policy now c ≡ ok d
    → d.should_send ≡ true
    → (e : ℕ) × (c.expires_at ≡ some e)
      × (is_eligible c ≡ true)
      × (now < e)
      × (e ≤ now + policy.reminder_before_expiry)
      × (c.created_at + policy.min_gap_after_first_email ≤ now)
evaluate_payment_reminder-timely policy now c d evaluated sent = go c.expires_at refl
  where
    go :
        (given : Option ℕ)
        → c.expires_at ≡ given
        → (e : ℕ) × (c.expires_at ≡ some e)
          × (is_eligible c ≡ true)
          × (now < e)
          × (e ≤ now + policy.reminder_before_expiry)
          × (c.created_at + policy.min_gap_after_first_email ≤ now)
    go none given = absurd (
        cc (
          sym {a = evaluate_payment_reminder policy now c} evaluated
          ∙ evaluate_payment_reminder-none policy now c given))
    go (some e) given =
        let (d', same, sends) = evaluate_payment_reminder-should_send policy now e c given in
        let t : (is_eligible c && is_in_window policy now c.created_at e) ≡ true = cc in
        (e, given, ground (arith, t), ground (arith, t), ground (arith, t), ground (arith, t))

-- The candidate after its reminder is recorded.
abbrev pub reminded : PaymentReminderCandidate → PaymentReminderCandidate
reminded c = record c {
  payment_reminder_sent_for_provider_invoice_no = some (strip c.provider_invoice_no);
}

-- Once its reminder is recorded, no reminder of the invoice is sent under any policy at any time.
pub evaluate_payment_reminder-reminded :
    (policy : PaymentReminderPolicy) (now : ℕ) (c : PaymentReminderCandidate)
    (d : PaymentReminderDecision)
    → evaluate_payment_reminder policy now (reminded c) ≡ ok d
    → d.should_send ≡ false
evaluate_payment_reminder-reminded policy now c d evaluated = go c.expires_at refl
  where
    go : (given : Option ℕ) → c.expires_at ≡ given → d.should_send ≡ false
    go none given = absurd (
        cc (
          sym {a = evaluate_payment_reminder policy now (reminded c)} evaluated
          ∙ evaluate_payment_reminder-none policy now (reminded c) given))
    go (some e) given =
        let (d', same, sends) =
          evaluate_payment_reminder-should_send policy now e (reminded c) given in
        let t : d.should_send
            ≡ (is_eligible (reminded c) && is_in_window policy now c.created_at e) =
          cc in
        ground (arith, t, str_eq-same (strip c.provider_invoice_no))
