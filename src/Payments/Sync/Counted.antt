-- ===== src/Payments/Sync/Counted.antt =====
-- The counts of the synchronisation of apps/payments/tasks.py.
use palingames.Base.{ℕ, suc, ◌∙◌, ◌+◌, ◌≡◌, refl, Option, none, some, List, [], ◌∷◌, length, arith}
use palingames.Payments.Model.{InvoiceStatus}
use palingames.Payments.Sync.{Summary, SyncResult, count_all, count_result, no_counts}

abbrev pub kinds : Summary → ℕ
kinds m = m.paid + m.expired + m.canceled + m.pending + m.refunded + m.unknown + m.skipped

count_result-kinds :
    (r : SyncResult) (m : Summary)
    → let m' = count_result r m in
      (kinds m' ≡ suc (kinds m))
      × (m'.processed ≡ m.processed)
      × (m'.failed ≡ m.failed)
      × (m'.selected ≡ m.selected)
unfolding count_result
count_result-kinds SyncResult.skipped m = (omega arith, refl, refl, refl)
count_result-kinds SyncResult.unknown m = (omega arith, refl, refl, refl)
count_result-kinds (SyncResult.known InvoiceStatus.paid) m = (omega arith, refl, refl, refl)
count_result-kinds (SyncResult.known InvoiceStatus.expired) m = (omega arith, refl, refl, refl)
count_result-kinds (SyncResult.known InvoiceStatus.canceled) m = (omega arith, refl, refl, refl)
count_result-kinds (SyncResult.known InvoiceStatus.pending) m = (omega arith, refl, refl, refl)
count_result-kinds (SyncResult.known InvoiceStatus.refunded) m = (omega arith, refl, refl, refl)

count_all-sums :
    (results : List (Option SyncResult)) (m : Summary)
    → let m' = count_all results m in
      (m'.processed + m'.failed ≡ m.processed + m.failed + length results)
      × (m'.processed + kinds m ≡ kinds m' + m.processed)
      × (m'.selected ≡ m.selected)
unfolding count_all
count_all-sums [] m = (omega arith, omega arith, refl)
count_all-sums (none ∷ results) m =
    let ih = count_all-sums results (record m { failed = suc m.failed }) in
    (omega (arith, ih.0), omega (arith, ih.1), ih.2)
count_all-sums (some r ∷ results) m =
    let counted : Summary = record m { processed = suc m.processed } in
    let one = count_result-kinds r counted in
    let ih = count_all-sums results (count_result r counted) in
    (omega (arith, ih.0, one.1, one.2), omega (arith, ih.1, one.0, one.1), ih.2 ∙ one.3)

-- After a run over the selected invoices, each of them is counted as processed or as failed, and each
-- processed one under exactly one result.
pub count_all_complete :
    (results : List (Option SyncResult))
    → let m = count_all results (no_counts (length results)) in
      (m.processed + m.failed ≡ m.selected) × (m.processed ≡ kinds m)
count_all_complete results =
    let sums = count_all-sums results (no_counts (length results)) in
    (omega (arith, sums.0, sums.2), omega (arith, sums.1))
