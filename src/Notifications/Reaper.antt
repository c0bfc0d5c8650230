-- ===== src/Notifications/Reaper.antt =====
-- apps/notifications/services.py: the reaper of attempts and rows that got stuck, and the clean-up of the
-- table. The tasks that are sent are the ids of their rows.
pub mod Complete
use palingames.Base.{
  ℕ, ◌+◌, ◌-◌, String, Bool, true, false, not, ◌&&◌, ◌||◌, Option, none, some, List, [], ◌∷◌, ◌++◌,
  map, filter, count_if, ltb, str_eq, if◌then◌else◌,
}
use palingames.Notifications.Outbox.{
  Status, NotificationOutbox, is_processing, is_fresh, reap_stuck_processing_outbox,
}
use palingames.Notifications.Enqueue.{OutboxRow}

abbrev pub is_stuck : ℕ → NotificationOutbox → Bool
is_stuck cutoff row = is_processing row.status && not (is_fresh cutoff row.last_attempt_at)

-- A row that stays PROCESSING, stuck, is sent again.
abbrev pub tasks_of : ℕ → OutboxRow → List ℕ
tasks_of cutoff row = if is_stuck cutoff row.state then row.id ∷ [] else []

abbrev pub reaped_row : ℕ → ℕ → ℕ → OutboxRow → OutboxRow
reaped_row now cutoff max_attempts row = record row {
  state = reap_stuck_processing_outbox now cutoff max_attempts row.state;
}

-- The rows afterwards, and the tasks that were sent.
unfoldable pub reap_stuck_processing_outboxes : ℕ → ℕ → ℕ → List OutboxRow → List OutboxRow × List ℕ
unfolding reap_stuck_processing_outbox
reap_stuck_processing_outboxes now cutoff max_attempts [] = ([], [])
reap_stuck_processing_outboxes now cutoff max_attempts (row ∷ rows) =
    let (rows', tasks) = reap_stuck_processing_outboxes now cutoff max_attempts rows in
    let row' = reaped_row now cutoff max_attempts row in
    (row' ∷ rows', tasks_of cutoff row' ++ tasks)

abbrev pub is_pending : Status → Bool
is_pending Status.pending = true
is_pending _ = false

abbrev pub is_stale : ℕ → OutboxRow → Bool
is_stale cutoff row = is_pending row.state.status && ltb row.state.created_at cutoff

unfoldable pub reap_stale_pending_outboxes : ℕ → List OutboxRow → List ℕ
reap_stale_pending_outboxes cutoff rows = map (λ row. row.id) (filter (is_stale cutoff) rows)

unfoldable pub reap_stuck_notification_outbox_processing :
    ℕ → ℕ → ℕ → List OutboxRow → List OutboxRow × List ℕ
unfolding reap_stuck_processing_outboxes reap_stale_pending_outboxes
reap_stuck_notification_outbox_processing now cutoff max_attempts rows =
    let (rows', tasks) = reap_stuck_processing_outboxes now cutoff max_attempts rows in
    (rows', tasks ++ reap_stale_pending_outboxes cutoff rows')

abbrev pub is_of_type : Option String → OutboxRow → Bool
is_of_type none row = true
is_of_type (some t) row = str_eq row.notification_type t

-- `at < now - retention`
abbrev pub is_older : Option ℕ → ℕ → ℕ → Bool
is_older none retention now = false
is_older (some at) retention now = ltb (at + retention) now

abbrev pub is_old_sent : ℕ → ℕ → OutboxRow → Bool
is_old_sent now retention row = elim row.state.status [
  | Status.sent ↦ is_older row.state.sent_at retention now
  | _ ↦ false
]

-- `updated_at` is the column of that name, which nothing else reads.
abbrev pub is_old_failed : (OutboxRow → ℕ) → ℕ → ℕ → OutboxRow → Bool
is_old_failed updated_at now retention row = elim row.state.status [
  | Status.failed ↦ ltb (updated_at row + retention) now
  | _ ↦ false
]

pub record Cleaned : Type 0 where
  pub rows : List OutboxRow
  pub sent_deleted : ℕ
  pub failed_deleted : ℕ

unfoldable pub cleanup_old_notification_outboxes :
    (OutboxRow → ℕ) → ℕ → Option String → ℕ → ℕ → List OutboxRow → Cleaned
cleanup_old_notification_outboxes updated_at now kind sent_retention failed_retention rows =
    let is_sent = λ (row : OutboxRow). is_old_sent now sent_retention row && is_of_type kind row in
    let is_failed = λ (row : OutboxRow).
      is_old_failed updated_at now failed_retention row && is_of_type kind row in
    let kept = filter (λ row. not (is_sent row)) rows in
    record {
      rows = filter (λ row. not (is_failed row)) kept;
      sent_deleted = count_if is_sent rows;
      failed_deleted = count_if is_failed kept;
    }
