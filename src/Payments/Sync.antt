-- ===== src/Payments/Sync.antt =====
-- `sync_waiting_invoice_statuses_task` of apps/payments/tasks.py: each waiting invoice is asked for at
-- the provider, and read again under its lock before the answer is applied. What others do while the
-- provider is asked is the argument `between`.
pub mod Counted
pub mod Selection
mod Tests
use palingames.Base.{
  ℕ, suc, String, Bool, true, false, not, ◌&&◌, Option, none, some, List, [], ◌∷◌, str_eq,
  if◌then◌else◌,
}
use palingames.Base.Text.{is_truthy}
use palingames.Orders.Model.{Order, OrderStatus}
use palingames.CustomGames.Model.{CustomGameRequest, RequestStatus}
use palingames.Payments.Model.{Invoice, InvoiceStatus, is_pending}
use palingames.Payments.Session.{Env, Session, reload}
use palingames.Payments.Apply.{StatusPayload, apply_invoice_status_update}

abbrev pub is_open_order : OrderStatus → Bool
is_open_order OrderStatus.created = true
is_open_order OrderStatus.waiting_for_payment = true
is_open_order _ = false

abbrev pub is_waiting_request : RequestStatus → Bool
is_waiting_request RequestStatus.waiting_for_payment = true
is_waiting_request _ = false

abbrev pub is_open_target : Option Order → Option CustomGameRequest → Bool
is_open_target (some o) request = is_open_order o.status
is_open_target none (some r) = is_waiting_request r.status
is_open_target none none = false

unfoldable pub is_invoice_sync_candidate : Session → Bool
is_invoice_sync_candidate s =
    is_truthy s.invoice.provider_invoice_no
    && is_pending s.invoice.status
    && is_open_target s.order s.request

pub data SyncResult : Type 0 where
  skipped unknown : SyncResult
  known : InvoiceStatus → SyncResult

abbrev pub result_of : Option InvoiceStatus → SyncResult
result_of none = SyncResult.unknown
result_of (some st) = SyncResult.known st

abbrev pub sync_payload : String → StatusPayload
sync_payload raw = record {
  event_at = none;
  raw_response = some raw;
  amount = none;
  currency = none;
}

abbrev pub applied : Option InvoiceStatus × Session → SyncResult × Session
applied (status, s) = (result_of status, s)

-- `code` is the status in the provider's answer, and `raw` the stored text of the response.
unfoldable pub sync_single_waiting_invoice :
    Env → ℕ → String → (Session → Session) → Session → SyncResult × Session
unfolding is_invoice_sync_candidate apply_invoice_status_update
sync_single_waiting_invoice env code raw between s =
    if not (is_invoice_sync_candidate (reload s))
    then (SyncResult.skipped, reload s)
    else let s' = reload (between s) in
      if not (is_invoice_sync_candidate s')
      then (SyncResult.skipped, s')
      else applied
          (apply_invoice_status_update env (some code) "periodic_sync" true (sync_payload raw) s')

pub record Summary : Type 0 where
  pub selected : ℕ
  pub processed : ℕ
  pub paid : ℕ
  pub expired : ℕ
  pub canceled : ℕ
  pub pending : ℕ
  pub refunded : ℕ
  pub unknown : ℕ
  pub skipped : ℕ
  pub failed : ℕ

abbrev pub no_counts : ℕ → Summary
no_counts selected = record {
  selected = selected;
  processed = 0;
  paid = 0;
  expired = 0;
  canceled = 0;
  pending = 0;
  refunded = 0;
  unknown = 0;
  skipped = 0;
  failed = 0;
}

-- `summary[result] += 1`
unfoldable pub count_result : SyncResult → Summary → Summary
count_result SyncResult.skipped m = record m { skipped = suc m.skipped }
count_result SyncResult.unknown m = record m { unknown = suc m.unknown }
count_result (SyncResult.known InvoiceStatus.paid) m = record m { paid = suc m.paid }
count_result (SyncResult.known InvoiceStatus.expired) m = record m { expired = suc m.expired }
count_result (SyncResult.known InvoiceStatus.canceled) m = record m { canceled = suc m.canceled }
count_result (SyncResult.known InvoiceStatus.pending) m = record m { pending = suc m.pending }
count_result (SyncResult.known InvoiceStatus.refunded) m = record m { refunded = suc m.refunded }

-- The loop over the selected invoices: none stands for one whose processing raised.
unfoldable pub count_all : List (Option SyncResult) → Summary → Summary
unfolding count_result
count_all [] m = m
count_all (none ∷ results) m = count_all results (record m { failed = suc m.failed })
count_all (some r ∷ results) m =
    count_all results (count_result r (record m { processed = suc m.processed }))
