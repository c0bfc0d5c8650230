-- ===== src/Payments/Status.antt =====
-- apps/payments/services.py: which reports of the provider are heeded.
use palingames.Base.{ℕ, suc, zero, String, Bool, true, false, Option, none, some, if◌then◌else◌}
use palingames.Payments.Model.{Invoice, InvoiceStatus, ProviderStatus}
use palingames.Payments.Session.{Effect, Session, emit}

-- `InvoiceStatus(provider_status)`: `none` is the `ValueError`.
unfoldable pub provider_status_of_code : ℕ → Option ProviderStatus
provider_status_of_code (suc zero) = some ProviderStatus.pending
provider_status_of_code (suc (suc zero)) = some ProviderStatus.expired
provider_status_of_code (suc (suc (suc zero))) = some ProviderStatus.paid
provider_status_of_code (suc (suc (suc (suc zero)))) = some ProviderStatus.partially_paid
provider_status_of_code (suc (suc (suc (suc (suc zero))))) = some ProviderStatus.canceled
provider_status_of_code (suc (suc (suc (suc (suc (suc zero)))))) = some ProviderStatus.paid_by_card
provider_status_of_code (suc (suc (suc (suc (suc (suc (suc zero))))))) =
    some ProviderStatus.refunded
provider_status_of_code _ = none

-- The dictionary `mapping`.
unfoldable pub mapping : ProviderStatus → Option InvoiceStatus
mapping ProviderStatus.pending = some InvoiceStatus.pending
mapping ProviderStatus.expired = some InvoiceStatus.expired
mapping ProviderStatus.paid = some InvoiceStatus.paid
mapping ProviderStatus.canceled = some InvoiceStatus.canceled
mapping ProviderStatus.refunded = some InvoiceStatus.refunded
mapping ProviderStatus.partially_paid = none
mapping ProviderStatus.paid_by_card = none

unfoldable pub map_invoice_status : Option ℕ → Option InvoiceStatus
unfolding provider_status_of_code mapping
map_invoice_status none = none
map_invoice_status (some code) = elim (provider_status_of_code code) [
  | none ↦ none
  | some status ↦ mapping status
]

-- `ALLOWED_TRANSITIONS_FROM_TERMINAL_STATUS`: the first status has an entry that lacks the second.
unfoldable pub is_forbidden_transition : InvoiceStatus → InvoiceStatus → Bool
is_forbidden_transition InvoiceStatus.paid InvoiceStatus.paid = false
is_forbidden_transition InvoiceStatus.paid InvoiceStatus.refunded = false
is_forbidden_transition InvoiceStatus.paid _ = true
is_forbidden_transition InvoiceStatus.refunded InvoiceStatus.refunded = false
is_forbidden_transition InvoiceStatus.refunded _ = true
is_forbidden_transition _ _ = false

unfoldable pub is_paid_status_regression : Invoice → Option InvoiceStatus → Bool
unfolding is_forbidden_transition
is_paid_status_regression invoice none = false
is_paid_status_regression invoice (some status) = is_forbidden_transition invoice.status status

abbrev report_unmapped : String → Option ℕ → Session → Session
report_unmapped provider none s = s
report_unmapped provider (some code) s = emit (Effect.unmapped_status provider code) s

abbrev resolved :
    String → Option ℕ → Option InvoiceStatus → Session → Option InvoiceStatus × Session
resolved provider code none s = (none, report_unmapped provider code s)
resolved provider code (some status) s =
    if is_paid_status_regression s.invoice (some status)
    then (none, emit (Effect.regression_ignored provider s.invoice.status status) s)
    else (some status, s)

unfoldable pub resolve_status_update : String → Option ℕ → Session → Option InvoiceStatus × Session
unfolding map_invoice_status is_paid_status_regression
resolve_status_update provider code s = resolved provider code (map_invoice_status code) s
