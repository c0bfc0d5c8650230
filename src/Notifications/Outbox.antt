-- ===== src/Notifications/Outbox.antt =====
-- One row of the outbox of apps/notifications/services.py, and what the tasks do with it, each function
-- in the transactions that its code has. The encryption and the handlers of a notification decide only
-- whether the sending succeeds; logs, metrics and incidents are left out.
pub mod Steps
pub mod Tests
use palingames.Base.{
  ℕ, suc, String, Bool, true, false, not, ◌&&◌, ◌||◌, Option, none, some, List, [], ◌∷◌, leb, ltb,
  or_else, if◌then◌else◌,
}

-- `NotificationOutbox.Status`
pub data Status : Type 0 where
  pending processing delivering sent failed : Status

-- `NotificationOutbox.Channel`
pub data Channel : Type 0 where
  email telegram : Channel

-- `sent_logs` are the instants of the row's sent mails in the mail log, the newest first.
pub record NotificationOutbox : Type 0 where
  pub channel : Channel
  pub status : Status
  pub attempts : ℕ
  pub last_attempt_at : Option ℕ
  pub sent_at : Option ℕ
  pub last_error : String
  pub created_at : ℕ
  pub sent_logs : List (Option ℕ)

abbrev pub marked_sent : ℕ → NotificationOutbox → NotificationOutbox
marked_sent at row = record row { status = Status.sent; sent_at = some at; last_error = "" }

-- Whether the log knows of a sent mail, and the row after it.
abbrev pub reconcile_with : ℕ → List (Option ℕ) → NotificationOutbox → Bool × NotificationOutbox
reconcile_with now [] row = (false, row)
reconcile_with now (at ∷ logs) row = (true, marked_sent (or_else at now) row)

unfoldable pub reconcile_outbox_from_sent_email_log :
    ℕ → NotificationOutbox → Bool × NotificationOutbox
reconcile_outbox_from_sent_email_log now row = reconcile_with now row.sent_logs row

-- An attempt at the instant `cutoff` or later is still under way.
abbrev pub is_fresh : ℕ → Option ℕ → Bool
is_fresh cutoff none = false
is_fresh cutoff (some at) = leb cutoff at

abbrev pub recovered : Bool × NotificationOutbox → Option Bool × NotificationOutbox
recovered (true, row) = (some true, row)
recovered (false, row) = (none, record row { status = Status.pending })

unfoldable pub handle_stale_processing_outbox :
    ℕ → ℕ → NotificationOutbox → Option Bool × NotificationOutbox
unfolding reconcile_outbox_from_sent_email_log
handle_stale_processing_outbox now cutoff row =
    if is_fresh cutoff row.last_attempt_at
    then (some false, row)
    else recovered (reconcile_outbox_from_sent_email_log now row)

abbrev pub begun : ℕ → NotificationOutbox → NotificationOutbox
begun now row = record row {
  status = Status.processing;
  attempts = suc row.attempts;
  last_attempt_at = some now;
  last_error = "";
}

abbrev pub begin_if : ℕ → Option Bool × NotificationOutbox → Option Bool × NotificationOutbox
begin_if now (some finished, row) = (some finished, row)
begin_if now (none, row) = (none, begun now row)

abbrev pub begin_from : ℕ → ℕ → Status → NotificationOutbox → Option Bool × NotificationOutbox
begin_from now cutoff Status.sent row = (some false, row)
begin_from now cutoff Status.delivering row = (some false, row)
begin_from now cutoff Status.processing row =
    begin_if now (handle_stale_processing_outbox now cutoff row)
begin_from now cutoff Status.pending row = (none, begun now row)
begin_from now cutoff Status.failed row = (none, begun now row)

-- The first transaction: the answer of the call if it ends here, or none if the sending begins.
unfoldable pub lock_outbox_and_begin_processing :
    ℕ → ℕ → NotificationOutbox → Option Bool × NotificationOutbox
unfolding handle_stale_processing_outbox
lock_outbox_and_begin_processing now cutoff row = begin_from now cutoff row.status row

-- The last transaction: after an error, or after the sending on the row's channel.
unfoldable pub fail_processing : String → NotificationOutbox → NotificationOutbox
fail_processing error row = record row { status = Status.failed; last_error = error }

abbrev pub finish_as : ℕ → Channel → NotificationOutbox → NotificationOutbox
finish_as now Channel.telegram row = record row { status = Status.delivering; last_error = "" }
finish_as now Channel.email row = marked_sent now row

unfoldable pub finish_processing : ℕ → NotificationOutbox → NotificationOutbox
finish_processing now row = finish_as now row.channel row

unfoldable pub mark_outbox_failed_max_attempts : NotificationOutbox → NotificationOutbox
mark_outbox_failed_max_attempts row = record row {
  status = Status.failed;
  last_error = "notification outbox processing attempts exhausted";
}

abbrev pub is_processing : Status → Bool
is_processing Status.processing = true
is_processing _ = false

abbrev pub reap_rest : ℕ → Bool × NotificationOutbox → NotificationOutbox
reap_rest max_attempts (true, row) = row
reap_rest max_attempts (false, row) =
    if leb max_attempts row.attempts then mark_outbox_failed_max_attempts row else row

-- The transaction of `_reap_stuck_processing_outboxes` for one row; the task that it may send after
-- this is a step of its own.
unfoldable pub reap_stuck_processing_outbox : ℕ → ℕ → ℕ → NotificationOutbox → NotificationOutbox
unfolding reconcile_outbox_from_sent_email_log mark_outbox_failed_max_attempts
reap_stuck_processing_outbox now cutoff max_attempts row =
    if not (is_processing row.status)
    then row
    else if is_fresh cutoff row.last_attempt_at
    then row
    else reap_rest max_attempts (reconcile_outbox_from_sent_email_log now row)
