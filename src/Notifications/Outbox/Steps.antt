-- ===== src/Notifications/Outbox/Steps.antt =====
-- The steps of the tasks on one row of apps/notifications/services.py, in any order and by any number of
-- workers.
use palingames.Base.{
  ℕ, ◌≡◌, ◌≤◌, ◌<◌, refl, String, Bool, true, false, not, Option, some, List, [], ◌∷◌, arith,
  is_some, leb, if◌then◌else◌,
}
use palingames.Notifications.Outbox.{
  Channel, NotificationOutbox, Status, begin_from, begin_if, begun, fail_processing,
  finish_processing, finish_as, handle_stale_processing_outbox, is_fresh, is_processing,
  lock_outbox_and_begin_processing, mark_outbox_failed_max_attempts, reap_rest,
  reap_stuck_processing_outbox, reconcile_outbox_from_sent_email_log, reconcile_with, recovered,
  marked_sent,
}
use palingames.Base.Text.{take}
use palingames.Notifications.Delivery.{
  confirm_telegram_outbox_delivery, fail_telegram_outbox_delivery, is_delivering,
}

-- A step of some worker: the beginning or the end of an attempt, the reaper, a mail that is logged, or an
-- answer of the Telegram service.
pub data Step : NotificationOutbox → NotificationOutbox → Type 0 where
  begins :
      (now cutoff : ℕ) (row : NotificationOutbox)
      → Step row (lock_outbox_and_begin_processing now cutoff row).1
  fails : (error : String) (row : NotificationOutbox) → Step row (fail_processing error row)
  finishes : (now : ℕ) (row : NotificationOutbox) → Step row (finish_processing now row)
  reaps :
      (now cutoff max_attempts : ℕ) (row : NotificationOutbox)
      → Step row (reap_stuck_processing_outbox now cutoff max_attempts row)
  logs_mail :
      (at : Option ℕ) (row : NotificationOutbox)
      → Step row (record row { sent_logs = at ∷ row.sent_logs })
  confirms :
      (now : ℕ) (row : NotificationOutbox) → Step row (confirm_telegram_outbox_delivery now row).1
  refuses :
      (error : String) (row : NotificationOutbox)
      → Step row (fail_telegram_outbox_delivery error row).1

-- Any number of steps.
pub data Steps : NotificationOutbox → NotificationOutbox → Type 0 where
  none_taken : (row : NotificationOutbox) → Steps row row
  then_step : (a b c : NotificationOutbox) → Steps a b → Step b c → Steps a c

-- What the status of a row promises.
abbrev pub StatusHolds : Status → NotificationOutbox → Type 0
StatusHolds Status.sent row = is_some row.sent_at ≡ true
StatusHolds Status.processing row = (is_some row.last_attempt_at ≡ true) × (0 < row.attempts)
StatusHolds _ row = Unit

abbrev pub IsWellFormed : NotificationOutbox → Type 0
IsWellFormed row = StatusHolds row.status row

-- From one row to a later one: the later is well formed, and no attempt is forgotten.
abbrev Keeps : NotificationOutbox → NotificationOutbox → Type 0
Keeps a b = IsWellFormed b × (a.attempts ≤ b.attempts)

reconcile-Keeps :
    (now : ℕ) (row : NotificationOutbox) (sent_logs : List (Option ℕ))
    → IsWellFormed row
    → Keeps row (reconcile_with now sent_logs row).1
reconcile-Keeps now row [] w = (w, omega arith)
reconcile-Keeps now row (at ∷ sent_logs) w = (refl, omega arith)

begun-Keeps : (now : ℕ) (row : NotificationOutbox) → Keeps row (begun now row)
begun-Keeps now row = ((refl, omega arith), omega arith)

recovered-Keeps :
    (now n : ℕ) (answer : Bool × NotificationOutbox)
    → IsWellFormed answer.1
    → n ≤ answer.1.attempts
    → let row = (begin_if now (recovered answer)).1 in IsWellFormed row × (n ≤ row.attempts)
recovered-Keeps now n (true, row) w h = (w, h)
recovered-Keeps now n (false, row) w h = ((refl, omega arith), omega (arith, h))

stale-Keeps :
    (now cutoff : ℕ) (row : NotificationOutbox)
    → IsWellFormed row
    → Keeps row (begin_if now (handle_stale_processing_outbox now cutoff row)).1
unfolding handle_stale_processing_outbox reconcile_outbox_from_sent_email_log
stale-Keeps now cutoff row w = go (is_fresh cutoff row.last_attempt_at)
  where
    go :
        (b : Bool)
        → Keeps row
            (begin_if now
              (if b then (some false, row) else recovered (reconcile_with now row.sent_logs row))).1
    go true = (w, omega arith)
    go false =
        let kept = reconcile-Keeps now row row.sent_logs w in
        recovered-Keeps now row.attempts (reconcile_with now row.sent_logs row) kept.0 kept.1

begin-Keeps :
    (now cutoff : ℕ) (status : Status) (row : NotificationOutbox)
    → IsWellFormed row
    → Keeps row (begin_from now cutoff status row).1
begin-Keeps now cutoff Status.sent row w = (w, omega arith)
begin-Keeps now cutoff Status.delivering row w = (w, omega arith)
begin-Keeps now cutoff Status.processing row w = stale-Keeps now cutoff row w
begin-Keeps now cutoff Status.pending row w = begun-Keeps now row
begin-Keeps now cutoff Status.failed row w = begun-Keeps now row

finish-Keeps :
    (now : ℕ) (channel : Channel) (row : NotificationOutbox) → Keeps row (finish_as now channel row)
finish-Keeps now Channel.telegram row = (tt, omega arith)
finish-Keeps now Channel.email row = (refl, omega arith)

reap_rest-Keeps :
    (max_attempts n : ℕ) (answer : Bool × NotificationOutbox)
    → IsWellFormed answer.1
    → n ≤ answer.1.attempts
    → let row = reap_rest max_attempts answer in IsWellFormed row × (n ≤ row.attempts)
unfolding mark_outbox_failed_max_attempts
reap_rest-Keeps max_attempts n (true, row) w h = (w, h)
reap_rest-Keeps max_attempts n (false, row) w h = go (leb max_attempts row.attempts)
  where
    go :
        (b : Bool)
        → let row' = if b then mark_outbox_failed_max_attempts row else row in
          IsWellFormed row' × (n ≤ row'.attempts)
    go true = (tt, h)
    go false = (w, h)

reap-Keeps :
    (now cutoff max_attempts : ℕ) (row : NotificationOutbox)
    → IsWellFormed row
    → Keeps row (reap_stuck_processing_outbox now cutoff max_attempts row)
unfolding reap_stuck_processing_outbox reconcile_outbox_from_sent_email_log
reap-Keeps now cutoff max_attempts row w =
    go (not (is_processing row.status)) (is_fresh cutoff row.last_attempt_at)
  where
    go :
        (other fresh : Bool)
        → Keeps row (
            if other
            then row
            else if fresh
            then row
            else reap_rest max_attempts (reconcile_with now row.sent_logs row))
    go true fresh = (w, omega arith)
    go false true = (w, omega arith)
    go false false =
        let kept = reconcile-Keeps now row row.sent_logs w in
        reap_rest-Keeps max_attempts row.attempts (reconcile_with now row.sent_logs row) kept.0
          kept.1

logged-StatusHolds :
    (at : Option ℕ) (row : NotificationOutbox) (status : Status)
    → StatusHolds status row
    → StatusHolds status (record row { sent_logs = at ∷ row.sent_logs })
logged-StatusHolds at row Status.pending w = tt
logged-StatusHolds at row Status.processing w = w
logged-StatusHolds at row Status.delivering w = tt
logged-StatusHolds at row Status.sent w = w
logged-StatusHolds at row Status.failed w = tt

confirm-Keeps :
    (now : ℕ) (row : NotificationOutbox)
    → IsWellFormed row
    → Keeps row (confirm_telegram_outbox_delivery now row).1
unfolding confirm_telegram_outbox_delivery
confirm-Keeps now row w = go (is_delivering row.status)
  where
    go :
        (b : Bool)
        → let answer : Bool × NotificationOutbox =
            if b then (true, marked_sent now row) else (false, row) in
          Keeps row answer.1
    go true = (refl, omega arith)
    go false = (w, omega arith)

refuse-Keeps :
    (error : String) (row : NotificationOutbox)
    → IsWellFormed row
    → Keeps row (fail_telegram_outbox_delivery error row).1
unfolding fail_telegram_outbox_delivery
refuse-Keeps error row w = go (is_delivering row.status)
  where
    failed : NotificationOutbox
    failed = record row { status = Status.failed; last_error = take 512 error }

    go :
        (b : Bool)
        → let answer : Bool × NotificationOutbox = if b then (true, failed) else (false, row) in
          Keeps row answer.1
    go true = (tt, omega arith)
    go false = (w, omega arith)

Step-Keeps : (a b : NotificationOutbox) → Step a b → IsWellFormed a → Keeps a b
unfolding lock_outbox_and_begin_processing fail_processing finish_processing
Step-Keeps a b (begins now cutoff row) w = begin-Keeps now cutoff row.status row w
Step-Keeps a b (fails error row) w = (tt, omega arith)
Step-Keeps a b (finishes now row) w = finish-Keeps now row.channel row
Step-Keeps a b (reaps now cutoff max_attempts row) w = reap-Keeps now cutoff max_attempts row w
Step-Keeps a b (logs_mail at row) w = (logged-StatusHolds at row row.status w, omega arith)
Step-Keeps a b (confirms now row) w = confirm-Keeps now row w
Step-Keeps a b (refuses error row) w = refuse-Keeps error row w

-- Whatever the workers, the reaper and the Telegram service do with a well-formed row, and in whatever
-- order, it stays well formed: a sent one has its instant, one under way has an attempt with its
-- instant; and no attempt is forgotten.
pub steps-IsWellFormed :
    (a b : NotificationOutbox)
    → IsWellFormed a
    → Steps a b
    → IsWellFormed b × (a.attempts ≤ b.attempts)
steps-IsWellFormed a b w (none_taken row) = (w, omega arith)
steps-IsWellFormed a b w (then_step a' m b' before last) =
    let kept = steps-IsWellFormed a m w before in
    let next = Step-Keeps m b last kept.0 in (next.0, omega (arith, kept.1, next.1))
