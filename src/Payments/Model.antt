-- ===== src/Payments/Model.antt =====
-- apps/payments/models.py, and the provider's codes of libs/payments/models.py.
use palingames.Base.{ℕ, String, Bool, true, false, Option}

-- `Invoice.InvoiceStatus`
pub data InvoiceStatus : Type 0 where
  pending expired paid canceled refunded : InvoiceStatus

-- `InvoiceStatus` of libs/payments/models.py, with the codes 1 to 7.
pub data ProviderStatus : Type 0 where
  pending expired paid partially_paid canceled paid_by_card refunded : ProviderStatus

-- Responses of the provider are kept as texts.
pub record Invoice : Type 0 where
  pub id : ℕ
  pub provider : String
  pub provider_invoice_no : Option String
  pub status : InvoiceStatus
  pub invoice_url : Option String
  pub amount : ℕ
  pub currency : ℕ
  pub paid_at : Option ℕ
  pub cancelled_at : Option ℕ
  pub expires_at : Option ℕ
  pub payment_email_sent_for_provider_invoice_no : Option String
  pub payment_reminder_sent_for_provider_invoice_no : Option String
  pub last_status_check_at : Option ℕ
  pub raw_create_response : Option String
  pub raw_last_status_response : Option String
  pub created_at : ℕ

pub record PaymentEvent : Type 0 where
  pub provider_event_key : String
  pub provider : String
  pub cmd_type : ℕ
  pub provider_payment_no : Option String
  pub provider_invoice_no : Option String
  pub provider_status_code : Option ℕ
  pub invoice_status : Option InvoiceStatus
  pub amount : Option ℕ
  pub currency : ℕ
  pub is_processed : Bool
  pub processed_at : Option ℕ

-- `status == Invoice.InvoiceStatus.PAID`
abbrev pub is_paid : InvoiceStatus → Bool
is_paid InvoiceStatus.paid = true
is_paid _ = false

abbrev pub is_pending : InvoiceStatus → Bool
is_pending InvoiceStatus.pending = true
is_pending _ = false
