-- ===== src/Notifications/Delivery.antt =====
-- apps/notifications/telegram_delivery.py: what the Telegram service answers for a row that was handed to
-- it. The Redis streams are lists of entries, and an answer is read once.
pub mod Answered
use palingames.Base.{
  Result, ok, err, ◌>>=◌, ℕ, suc, ◌+◌, String, Bool, true, false, not, ◌&&◌, ◌||◌, Option, none,
  some, List, [], ◌∷◌, find, filter, map, ltb, ◌==◌, str_eq, if◌then◌else◌,
}
use palingames.Base.Text.{take}
use palingames.Cart.Request.{RawId}
use palingames.Notifications.Outbox.{Status, Channel, NotificationOutbox, marked_sent}
use palingames.Notifications.Enqueue.{OutboxRow}

abbrev pub is_delivering : Status → Bool
is_delivering Status.delivering = true
is_delivering _ = false

unfoldable pub confirm_telegram_outbox_delivery : ℕ → NotificationOutbox → Bool × NotificationOutbox
confirm_telegram_outbox_delivery now row =
    if is_delivering row.status then (true, marked_sent now row) else (false, row)

-- `MAX_LAST_ERROR_LENGTH`
abbrev max_last_error_length : ℕ
max_last_error_length = 512

unfoldable pub fail_telegram_outbox_delivery :
    String → NotificationOutbox → Bool × NotificationOutbox
unfolding take
fail_telegram_outbox_delivery error row =
    if is_delivering row.status
    then (
      true,
      record row { status = Status.failed; last_error = take max_last_error_length error },
    )
    else (false, row)

-- The fields of an entry; `correlation_id` is none where it is missing or empty, and otherwise what
-- `int` makes of it.
pub record Entry : Type 0 where
  pub source : String
  pub correlation_id : Option RawId
  pub error : String

pub data FeedbackError : Type 0 where
  does_not_exist : FeedbackError

abbrev pub update_row :
    ℕ → (NotificationOutbox → NotificationOutbox) → List OutboxRow → List OutboxRow
update_row id f rows =
    map (λ (row : OutboxRow). if row.id == id then record row { state = f row.state } else row) rows

abbrev pub apply_to :
    ℕ
    → (NotificationOutbox → NotificationOutbox)
    → List OutboxRow
    → Option OutboxRow
    → Result FeedbackError (List OutboxRow)
apply_to id f rows none = err FeedbackError.does_not_exist
apply_to id f rows (some row) = ok (update_row id f rows)

abbrev pub apply_answer :
    (NotificationOutbox → NotificationOutbox)
    → Option RawId
    → List OutboxRow
    → Result FeedbackError (List OutboxRow)
apply_answer f none rows = ok rows
apply_answer f (some RawId.refused) rows = ok rows
apply_answer f (some (RawId.negative n)) rows = err FeedbackError.does_not_exist
apply_answer f (some (RawId.whole n)) rows = apply_to n f rows (find (λ row. row.id == n) rows)

unfoldable pub process_ack_entry :
    ℕ → Entry → List OutboxRow → Result FeedbackError (List OutboxRow)
unfolding confirm_telegram_outbox_delivery
process_ack_entry now entry rows =
    if str_eq entry.source "outbox"
    then apply_answer (λ row. (confirm_telegram_outbox_delivery now row).1) entry.correlation_id
        rows
    else ok rows

abbrev pub error_or : String → String
error_or error = if str_eq error "" then "telegram delivery failed" else error

unfoldable pub process_failed_entry : Entry → List OutboxRow → Result FeedbackError (List OutboxRow)
unfolding fail_telegram_outbox_delivery
process_failed_entry entry rows =
    if str_eq entry.source "outbox"
    then apply_answer (λ row. (fail_telegram_outbox_delivery (error_or entry.error) row).1)
        entry.correlation_id rows
    else ok rows

-- The loops over the two streams; an error ends the task.
unfoldable pub process_entries :
    (Entry → List OutboxRow → Result FeedbackError (List OutboxRow))
    → List Entry
    → ℕ
    → List OutboxRow
    → Result FeedbackError (ℕ × List OutboxRow)
process_entries process [] processed rows = ok (processed, rows)
process_entries process (entry ∷ entries) processed rows =
    process entry rows >>= λ rows'. process_entries process entries (suc processed) rows'

pub record Feedback : Type 0 where
  pub ack_processed : ℕ
  pub failed_processed : ℕ
  pub rows : List OutboxRow

unfoldable pub process_telegram_outbound_feedback :
    ℕ → List Entry → List Entry → List OutboxRow → Result FeedbackError Feedback
unfolding process_entries process_ack_entry process_failed_entry
process_telegram_outbound_feedback now acks failures rows =
    process_entries (process_ack_entry now) acks 0 rows >>= λ a.
    process_entries process_failed_entry failures 0 a.1 >>= λ b.
    ok (record { ack_processed = a.0; failed_processed = b.0; rows = b.1 })

abbrev pub is_overdue : ℕ → NotificationOutbox → Bool
is_overdue cutoff row =
    elim row.channel [ Channel.telegram ↦ true | Channel.email ↦ false ]
    && is_delivering row.status
    && elim row.last_attempt_at [ none ↦ false | some at ↦ ltb at cutoff ]

-- The selected rows, one by one.
unfoldable pub reap_stuck_telegram_outbox_deliveries : ℕ → List OutboxRow → ℕ × List OutboxRow
unfolding fail_telegram_outbox_delivery
reap_stuck_telegram_outbox_deliveries cutoff [] = (0, [])
reap_stuck_telegram_outbox_deliveries cutoff (row ∷ rows) =
    let (reaped, rows') = reap_stuck_telegram_outbox_deliveries cutoff rows in
    let (changed, state) =
      fail_telegram_outbox_delivery "telegram delivery ack timeout" row.state in
    if is_overdue cutoff row.state
    then (if changed then suc reaped else reaped, record row { state = state } ∷ rows')
    else (reaped, row ∷ rows')
