-- ===== src/Notifications/Delivery/Answered.antt =====
-- The answers of the Telegram service in apps/notifications/telegram_delivery.py: which rows they change,
-- and an answer that is read before the sender has finished.
use palingames.Base.{
  Result, ok, returned, ok-injective, ℕ, ◌≡◌, ◌<◌, refl, sym, ◌∙◌, subst, ◌⊎◌, inl, inr, String,
  Bool, true, false, Option, none, some, List, [], ◌∷◌, find, map, arith, if◌then◌else◌, ◌==◌,
  str_eq,
}
use palingames.Base.Text.{take}
use palingames.Cart.Request.{RawId}
use palingames.Notifications.Outbox.{
  Status, Channel, NotificationOutbox, marked_sent, lock_outbox_and_begin_processing,
  finish_processing,
}
use palingames.Notifications.Enqueue.{OutboxRow}
use palingames.Notifications.Delivery.{
  Entry, Feedback, FeedbackError, apply_answer, apply_to, update_row, error_or, is_delivering,
  confirm_telegram_outbox_delivery, fail_telegram_outbox_delivery, process_ack_entry,
  process_failed_entry, process_entries, process_telegram_outbound_feedback,
  reap_stuck_telegram_outbox_deliveries,
}

abbrev pub is_final : Status → Bool
is_final Status.sent = true
is_final Status.failed = true
is_final _ = false

-- The row is as it was, or it was DELIVERING and is SENT or FAILED.
abbrev pub IsAnswered : OutboxRow → OutboxRow → Type 0
IsAnswered a b =
    (b ≡ a)
    ⊎ ((is_delivering a.state.status ≡ true)
        × (is_final b.state.status ≡ true)
        × (b.id ≡ a.id)
        × (b.state.attempts ≡ a.state.attempts))

-- Two tables with the same rows, one by one.
abbrev pub AllAnswered : List OutboxRow → List OutboxRow → Type 0
AllAnswered [] [] = Unit
AllAnswered (a ∷ xs) (b ∷ ys) = IsAnswered a b × AllAnswered xs ys
AllAnswered _ _ = ⊥

IsAnswered-then : (a b c : OutboxRow) → IsAnswered a b → IsAnswered b c → IsAnswered a c
IsAnswered-then a b c (inl e) (inl f) = inl (f ∙ e)
IsAnswered-then a b c (inl e) (inr g) =
    subst (λ (x : OutboxRow). IsAnswered x c) {x = b} {y = a} e (inr g)
IsAnswered-then a b c (inr g) (inl f) =
    subst (λ (x : OutboxRow). IsAnswered a x) {x = b} {y = c} (sym f) (inr g)
IsAnswered-then a b c (inr (d, e, i, n)) (inr (d', e', i', n')) = inr (d, e', i' ∙ i, n' ∙ n)

AllAnswered-same : (rows : List OutboxRow) → AllAnswered rows rows
AllAnswered-same [] = tt
AllAnswered-same (row ∷ rows) = (inl refl, AllAnswered-same rows)

AllAnswered-then :
    (xs ys zs : List OutboxRow) → AllAnswered xs ys → AllAnswered ys zs → AllAnswered xs zs
AllAnswered-then [] [] [] p q = tt
AllAnswered-then (a ∷ xs) (b ∷ ys) (c ∷ zs) p q =
    (IsAnswered-then a b c p.0 q.0, AllAnswered-then xs ys zs p.1 q.1)
AllAnswered-then [] [] (c ∷ zs) p q = absurd q
AllAnswered-then [] (b ∷ ys) zs p q = absurd p
AllAnswered-then (a ∷ xs) [] zs p q = absurd p
AllAnswered-then (a ∷ xs) (b ∷ ys) [] p q = absurd q

-- A change of one state that is an answer for every row.
abbrev Answers : (NotificationOutbox → NotificationOutbox) → Type 0
Answers f = (row : OutboxRow) → IsAnswered row (record row { state = f row.state })

confirm-Answers : (now : ℕ) → Answers (λ row. (confirm_telegram_outbox_delivery now row).1)
unfolding confirm_telegram_outbox_delivery
confirm-Answers now row = go (is_delivering row.state.status) refl
  where
    go :
        (b : Bool)
        → is_delivering row.state.status ≡ b
        → let answer : Bool × NotificationOutbox =
            if b then (true, marked_sent now row.state) else (false, row.state) in
          IsAnswered row (record row { state = answer.1 })
    go true e = inr (e, refl, refl, refl)
    go false e = inl refl

fail-Answers : (error : String) → Answers (λ row. (fail_telegram_outbox_delivery error row).1)
unfolding fail_telegram_outbox_delivery
fail-Answers error row = go (is_delivering row.state.status) refl
  where
    go :
        (b : Bool)
        → is_delivering row.state.status ≡ b
        → let answer : Bool × NotificationOutbox =
            if b
            then (true, record row.state { status = Status.failed; last_error = take 512 error })
            else (false, row.state) in
          IsAnswered row (record row { state = answer.1 })
    go true e = inr (e, refl, refl, refl)
    go false e = inl refl

update_row-AllAnswered :
    (id : ℕ) (f : NotificationOutbox → NotificationOutbox) (rows : List OutboxRow)
    → Answers f
    → AllAnswered rows (update_row id f rows)
update_row-AllAnswered id f [] a = tt
update_row-AllAnswered id f (row ∷ rows) a = (go (row.id == id), update_row-AllAnswered id f rows a)
  where
    go : (b : Bool) → IsAnswered row (if b then record row { state = f row.state } else row)
    go true = a row
    go false = inl refl

-- An entry that changes rows only by answers.
abbrev AnswersAll : (List OutboxRow → Result FeedbackError (List OutboxRow)) → Type 0
AnswersAll process =
    (rows rows' : List OutboxRow) → process rows ≡ ok rows' → AllAnswered rows rows'

same-AllAnswered :
    (rows rows' : List OutboxRow)
    → ◌≡◌ {A = Result FeedbackError (List OutboxRow)} (ok rows) (ok rows')
    → AllAnswered rows rows'
same-AllAnswered rows rows' h =
    subst (λ (x : List OutboxRow). AllAnswered rows x) (ok-injective h) (AllAnswered-same rows)

apply_answer-AnswersAll :
    (f : NotificationOutbox → NotificationOutbox) (id : Option RawId)
    → Answers f
    → AnswersAll (apply_answer f id)
apply_answer-AnswersAll f none a rows rows' h = same-AllAnswered rows rows' h
apply_answer-AnswersAll f (some RawId.refused) a rows rows' h = same-AllAnswered rows rows' h
apply_answer-AnswersAll f (some (RawId.negative n)) a rows rows' h = cc
apply_answer-AnswersAll f (some (RawId.whole n)) a rows rows' h =
    go (find (λ row. row.id == n) rows) h
  where
    go : (found : Option OutboxRow) → apply_to n f rows found ≡ ok rows' → AllAnswered rows rows'
    go none e = cc
    go (some row) e =
        subst (λ (x : List OutboxRow). AllAnswered rows x) (ok-injective e)
          (update_row-AllAnswered n f rows a)

guarded-AnswersAll :
    (b : Bool) (process : List OutboxRow → Result FeedbackError (List OutboxRow))
    → AnswersAll process
    → AnswersAll (λ rows. if b then process rows else ok rows)
guarded-AnswersAll true process a rows rows' h = a rows rows' h
guarded-AnswersAll false process a rows rows' h = same-AllAnswered rows rows' h

ack-AnswersAll : (now : ℕ) (entry : Entry) → AnswersAll (process_ack_entry now entry)
unfolding process_ack_entry
ack-AnswersAll now entry = guarded-AnswersAll (str_eq entry.source "outbox") _ (
    apply_answer-AnswersAll (λ row. (confirm_telegram_outbox_delivery now row).1)
      entry.correlation_id (confirm-Answers now))

failed-AnswersAll : (entry : Entry) → AnswersAll (process_failed_entry entry)
unfolding process_failed_entry
failed-AnswersAll entry = guarded-AnswersAll (str_eq entry.source "outbox") _ (
    apply_answer-AnswersAll (λ row. (fail_telegram_outbox_delivery (error_or entry.error) row).1)
      entry.correlation_id (fail-Answers (error_or entry.error)))

process_entries-AllAnswered :
    (process : Entry → List OutboxRow → Result FeedbackError (List OutboxRow))
    (entries : List Entry) (n : ℕ) (rows : List OutboxRow) {m : ℕ} {rows' : List OutboxRow}
    → ((entry : Entry) → AnswersAll (process entry))
    → process_entries process entries n rows ≡ ok (m, rows')
    → AllAnswered rows rows'
unfolding process_entries
process_entries-AllAnswered process [] n rows {m} {rows'} a h =
    subst (λ (x : ℕ × List OutboxRow). AllAnswered rows x.1) {y = (m, rows')} (ok-injective h)
      (AllAnswered-same rows)
process_entries-AllAnswered process (entry ∷ entries) n rows {m} {rows'} a h =
    let (mid, first, rest) = returned (process entry rows) h in
    AllAnswered-then rows mid rows' (a entry rows mid first)
      (process_entries-AllAnswered process entries (ℕ.suc n) mid {m = m} {rows' = rows'} a rest)

-- A run over the answers of the Telegram service that ends without an error keeps the table row by row,
-- and changes only rows that are DELIVERING, into SENT or FAILED.
pub process_telegram_outbound_feedback-AllAnswered :
    (now : ℕ) (acks failures : List Entry) (rows : List OutboxRow) {feedback : Feedback}
    → process_telegram_outbound_feedback now acks failures rows ≡ ok feedback
    → AllAnswered rows feedback.rows
unfolding process_telegram_outbound_feedback
process_telegram_outbound_feedback-AllAnswered now acks failures rows {feedback} h =
    let (a, acked, rest) = returned (process_entries (process_ack_entry now) acks 0 rows) h in
    let (b, failed, last) = returned (process_entries process_failed_entry failures 0 a.1) rest in
    subst (λ (x : Feedback). AllAnswered rows x.rows) (ok-injective last)
      (AllAnswered-then rows a.1 b.1
        (process_entries-AllAnswered (process_ack_entry now) acks 0 rows {m = a.0} {rows' = a.1}
          (ack-AnswersAll now) acked)
        (process_entries-AllAnswered process_failed_entry failures 0 a.1 {m = b.0} {rows' = b.1}
          failed-AnswersAll failed))

-- A message that the Telegram service confirms while its sender has not finished yet is FAILED all the
-- same, once its reaper comes after the timeout.
pub confirm-lost :
    (now later cutoff : ℕ) (message : OutboxRow)
    → message.state.status ≡ Status.pending
    → message.state.channel ≡ Channel.telegram
    → now < cutoff
    → let sending = (lock_outbox_and_begin_processing now 0 message.state).1 in
      let confirmed = (confirm_telegram_outbox_delivery later sending).1 in
      let handed_over = record message { state = finish_processing later confirmed } in
      map
        (λ row. row.state.status)
        (reap_stuck_telegram_outbox_deliveries cutoff (handed_over ∷ [])).1
      ≡ Status.failed ∷ []
unfolding lock_outbox_and_begin_processing confirm_telegram_outbox_delivery finish_processing
    reap_stuck_telegram_outbox_deliveries fail_telegram_outbox_delivery
confirm-lost now later cutoff message p c h = rw (p, c) (ground (arith, h))
