-- ===== src/Payments/Sync/Selection.antt =====
-- Which invoices `sync_waiting_invoice_statuses_task` of apps/payments/tasks.py asks the provider for, and
-- its run over them. A row stands with its invoice's targets, as a `Session` that has just been read; as in
-- PostgreSQL, an invoice that has never been checked sorts after those that have.
use palingames.Base.{
  ◌+◌, ℕ, String, Bool, true, false, ◌&&◌, ◌||◌, Option, none, some, List, map, filter, length, ltb,
  leb, ◌==◌, is_some, sort_by, first_of, if◌then◌else◌,
}
use palingames.Payments.Model.{Invoice}
use palingames.Payments.Session.{Env, Session}
use palingames.Payments.Sync.{
  Summary, SyncResult, count_all, is_invoice_sync_candidate, no_counts, sync_single_waiting_invoice,
}

-- PAYMENTS_STATUS_SYNC_BATCH_SIZE and PAYMENTS_STATUS_SYNC_MIN_INTERVAL_SECONDS.
pub record SyncSettings : Type 0 where
  pub batch_size : ℕ
  pub min_interval : ℕ

unfoldable pub invoice_status_sync_batch_size : SyncSettings → ℕ
invoice_status_sync_batch_size settings =
    if leb 1 settings.batch_size then settings.batch_size else 1

abbrev pub checked_long_ago : ℕ → ℕ → Option ℕ → Bool
checked_long_ago now min_interval none = true
checked_long_ago now min_interval (some at) = leb (at + min_interval) now

abbrev pub is_due : ℕ → SyncSettings → Session → Bool
is_due now settings s =
    is_invoice_sync_candidate s
    && checked_long_ago now settings.min_interval s.invoice.last_status_check_at

abbrev pub older : Invoice → Invoice → Bool
older a b = ltb a.created_at b.created_at || (a.created_at == b.created_at && ltb a.id b.id)

abbrev pub checked_before : Bool → Option ℕ → Option ℕ → Bool
checked_before tie (some a) (some b) = ltb a b || (a == b && tie)
checked_before tie (some a) none = true
checked_before tie none (some b) = false
checked_before tie none none = tie

-- `order_by("last_status_check_at", "created_at", "id")`
abbrev pub sync_order : Session → Session → Bool
sync_order s t =
    checked_before (older s.invoice t.invoice) s.invoice.last_status_check_at
      t.invoice.last_status_check_at

unfoldable pub get_invoices_for_status_sync : ℕ → SyncSettings → List Session → List Session
unfolding is_invoice_sync_candidate invoice_status_sync_batch_size
get_invoices_for_status_sync now settings rows =
    first_of (invoice_status_sync_batch_size settings)
      (sort_by sync_order (filter (is_due now settings) rows))

-- The provider's answer to a call, the code of the status and the text of the response; none raises.
abbrev pub Answers : Type 0
Answers = ℕ → Option (ℕ × String)

abbrev pub synced : Env → Session → Option (ℕ × String) → Option SyncResult
synced env s none = none
synced env s (some (code, raw)) = some ((sync_single_waiting_invoice env code raw (λ t. t) s).0)

unfoldable pub sync_waiting_invoice_statuses_task :
    Env → ℕ → SyncSettings → Answers → List Session → Summary
unfolding get_invoices_for_status_sync
sync_waiting_invoice_statuses_task env now settings answers rows =
    let selected = get_invoices_for_status_sync now settings rows in
    count_all (map (λ (s : Session). synced env s (answers s.invoice.id)) selected)
      (no_counts (length selected))

abbrev pub is_checked : Session → Bool
is_checked s = is_some s.invoice.last_status_check_at
