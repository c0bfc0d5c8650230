-- ===== src/Payments/Sync/Tests.antt =====
-- The synchronisation of the pending invoice of an order, and of three invoices in a batch of two.
use palingames.Base.{map, sort_by, ℕ, ◌≡◌, refl, true, Option, none, some, List, [], ◌∷◌}
use palingames.Payments.Model.{InvoiceStatus}
use palingames.Payments.Session.{Session, reload}
use palingames.Payments.Tests.{env, for_order, invoice}
use palingames.Payments.Sync.{
  SyncResult, count_all, is_invoice_sync_candidate, sync_single_waiting_invoice,
}
use palingames.Payments.Sync.Selection.{
  SyncSettings, get_invoices_for_status_sync, sync_waiting_invoice_statuses_task,
}

waiting : is_invoice_sync_candidate (reload for_order) ≡ true
unfolding is_invoice_sync_candidate
waiting = refl

answered :
    (sync_single_waiting_invoice env 3 "{}" (λ s. s) for_order).0
    ≡ SyncResult.known InvoiceStatus.paid
unfolding sync_single_waiting_invoice
answered = refl

abbrev waiting_row : ℕ → Option ℕ → Session
waiting_row id at = reload (record for_order {
  stored_invoice = record (invoice InvoiceStatus.pending) { id = id; last_status_check_at = at };
})

abbrev rows : List Session
rows = waiting_row 1 none ∷ waiting_row 2 (some 80) ∷ waiting_row 3 (some 40) ∷ []

abbrev by_two : SyncSettings
by_two = record { batch_size = 2; min_interval = 10 }

-- The invoice that was never checked comes last, and the batch is full.
two_selected :
    map (λ (s : Session). s.invoice.id) (get_invoices_for_status_sync 100 by_two rows) ≡ 3 ∷ 2 ∷ []
unfolding get_invoices_for_status_sync sort_by
two_selected = refl

run_over_two :
    (sync_waiting_invoice_statuses_task env 100 by_two (λ id. some (3, "{}")) rows).paid ≡ 2
unfolding sync_waiting_invoice_statuses_task sort_by sync_single_waiting_invoice count_all
run_over_two = refl
