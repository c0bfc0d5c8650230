-- ===== src/Payments/Webhook/Accepted.antt =====
-- What the checks of apps/payments/views/helpers.py have established of an accepted notification.
use palingames.Base.{ℕ, ◌≡◌, ◌⊎◌, String, Option, none, some, ok, ◌>>◌, passed}
use palingames.Payments.Session.{Session}
use palingames.Payments.Webhook.{
  RawCurrency, is_paid_code, get_invoice_target_amount, normalize_currency_code,
  validate_invoice_payment_payload, validate_invoice_payment_account_no,
  validate_invoice_provider_invoice_no, validate_invoice_payment_amount,
  validate_invoice_payment_currency,
}

-- The amount is that of the invoice and of its target.
abbrev pub AmountAgrees : Session → Option ℕ → Type 0
AmountAgrees s money =
    (money ≡ some s.invoice.amount)
    × ((get_invoice_target_amount s ≡ none) ⊎ (get_invoice_target_amount s ≡ some s.invoice.amount))

abbrev pub CurrencyAgrees : Session → RawCurrency → Type 0
CurrencyAgrees s c =
    (c ≡ RawCurrency.missing) ⊎ (normalize_currency_code c s.invoice.currency ≡ s.invoice.currency)

module _ (s : Session) (account : String) (given_no money : Option ℕ) (c : RawCurrency)
    (code : Option ℕ) where
  pub validated_parts :
      validate_invoice_payment_payload s account given_no money c code ≡ ok tt
      → (validate_invoice_payment_amount s money (is_paid_code code) ≡ ok tt)
        × (validate_invoice_payment_currency s c ≡ ok tt)
  unfolding validate_invoice_payment_payload
  validated_parts h =
      let first = validate_invoice_payment_account_no s account in
      let second = validate_invoice_provider_invoice_no s given_no in
      let third = validate_invoice_payment_amount s money (is_paid_code code) in
      let last = passed (first >> second >> third) h in
      let amount = passed (first >> second) last.0 in (amount.1, last.1)
