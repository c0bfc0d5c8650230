-- ===== src/Notifications/Reaper/Complete.antt =====
-- The reaper of apps/notifications/services.py: which rows get a task, and what the clean-up keeps.
use palingames.Base.{
  ℕ, ◌≡◌, refl, Bool, true, false, not, ◌&&◌, ◌||◌, Option, List, [], ◌∷◌, ◌++◌, map, filter, elem,
  elem-append, leb, All, All-weaken, arith, if◌then◌else◌, Bool-cases, inl, inr,
}
use palingames.Notifications.Outbox.{
  NotificationOutbox, is_processing, is_fresh, reap_stuck_processing_outbox, reap_rest,
  reconcile_outbox_from_sent_email_log, reconcile_with, mark_outbox_failed_max_attempts,
}
use palingames.Notifications.Enqueue.{OutboxRow}
use palingames.Notifications.Reaper.{
  is_stuck, is_stale, tasks_of, reaped_row, reap_stuck_processing_outboxes,
  reap_stale_pending_outboxes, reap_stuck_notification_outbox_processing,
}

-- A row after the reaper with these tasks: one that is still stuck or stale has a task, and one that is
-- still stuck has attempts left.
abbrev pub IsCared : ℕ → ℕ → List ℕ → OutboxRow → Type 0
IsCared cutoff max_attempts tasks row =
    (((is_stuck cutoff row.state || is_stale cutoff row) && not (elem row.id tasks)) ≡ false)
    × ((is_stuck cutoff row.state && leb max_attempts row.state.attempts) ≡ false)

reaped-exhausted :
    (now cutoff max_attempts : ℕ) (row : NotificationOutbox)
    → let row' = reap_stuck_processing_outbox now cutoff max_attempts row in
      (is_stuck cutoff row' && leb max_attempts row'.attempts) ≡ false
unfolding reap_stuck_processing_outbox reconcile_outbox_from_sent_email_log
    mark_outbox_failed_max_attempts
reaped-exhausted now cutoff max_attempts row =
    go (is_processing row.status) (is_fresh cutoff row.last_attempt_at) refl refl row.sent_logs
  where
    go :
        (processing fresh : Bool)
        → is_processing row.status ≡ processing
        → is_fresh cutoff row.last_attempt_at ≡ fresh
        → (logs : List (Option ℕ))
        → let row' =
            if not processing
            then row
            else if fresh
            then row
            else reap_rest max_attempts (reconcile_with now logs row) in
          (is_stuck cutoff row' && leb max_attempts row'.attempts) ≡ false
    go false fresh p f logs = ground (arith, p, f)
    go true true p f logs = ground (arith, p, f)
    go true false p f [] = ground (arith, p, f)
    go true false p f (at ∷ logs) = refl

-- A row of this kind has a task.
abbrev Covered : (OutboxRow → Bool) → List ℕ → OutboxRow → Type 0
Covered p tasks row = (p row && not (elem row.id tasks)) ≡ false

Covered-append :
    (p : OutboxRow → Bool) (us ts : List ℕ) (row : OutboxRow)
    → Covered p ts row
    → Covered p (us ++ ts) row
Covered-append p us ts row h = ground (arith, h, elem-append row.id us ts)

Covered-before :
    (p : OutboxRow → Bool) (us ts : List ℕ) (row : OutboxRow)
    → Covered p us row
    → Covered p (us ++ ts) row
Covered-before p us ts row h = ground (arith, h, elem-append row.id us ts)

abbrev stuck : ℕ → OutboxRow → Bool
stuck cutoff row = is_stuck cutoff row.state

stuck-Covered : (cutoff : ℕ) (row : OutboxRow) → Covered (stuck cutoff) (tasks_of cutoff row) row
stuck-Covered cutoff row = elim (Bool-cases (is_stuck cutoff row.state)) [
  | inl e ↦ rw e (ground arith)
  | inr e ↦ rw e refl
]

-- A row that the first loop is done with.
abbrev IsReaped : ℕ → ℕ → List ℕ → OutboxRow → Type 0
IsReaped cutoff max_attempts tasks row =
    Covered (stuck cutoff) tasks row
    × ((is_stuck cutoff row.state && leb max_attempts row.state.attempts) ≡ false)

reap-IsReaped :
    (now cutoff max_attempts : ℕ) (rows : List OutboxRow)
    → let (rows', tasks) = reap_stuck_processing_outboxes now cutoff max_attempts rows in
      All (IsReaped cutoff max_attempts tasks) rows'
unfolding reap_stuck_processing_outboxes
reap-IsReaped now cutoff max_attempts [] = tt
reap-IsReaped now cutoff max_attempts (row ∷ rows) =
    let (rows', tasks) = reap_stuck_processing_outboxes now cutoff max_attempts rows in
    let row' = reaped_row now cutoff max_attempts row in
    (
      (
        Covered-before (stuck cutoff) (tasks_of cutoff row') tasks row' (stuck-Covered cutoff row'),
        reaped-exhausted now cutoff max_attempts row.state,
      ),
      All-weaken rows'
          (λ (r : OutboxRow) (h : IsReaped cutoff max_attempts tasks r).
            (Covered-append (stuck cutoff) (tasks_of cutoff row') tasks r h.0, h.1))
          (reap-IsReaped now cutoff max_attempts rows),
    )

stale-Covered :
    (cutoff : ℕ) (rows : List OutboxRow)
    → All (Covered (is_stale cutoff) (reap_stale_pending_outboxes cutoff rows)) rows
unfolding reap_stale_pending_outboxes
stale-Covered cutoff [] = tt
stale-Covered cutoff (row ∷ rows) = go (is_stale cutoff row) refl (stale-Covered cutoff rows)
  where
    rest : List ℕ
    rest = map (λ r. r.id) (filter (is_stale cutoff) rows)

    go :
        (b : Bool)
        → is_stale cutoff row ≡ b
        → All (Covered (is_stale cutoff) (map (λ r. r.id) (filter (is_stale cutoff) rows))) rows
        → let tasks : List ℕ =
            map
              (λ (r : OutboxRow). r.id)
              (if b then row ∷ filter (is_stale cutoff) rows else filter (is_stale cutoff) rows) in
          Covered (is_stale cutoff) tasks row × All (Covered (is_stale cutoff) tasks) rows
    go true e h = (
      ground arith,
      All-weaken rows
          (λ r (c : Covered (is_stale cutoff) _ r).
            Covered-append (is_stale cutoff) (row.id ∷ []) _ r c)
          h,
    )
    go false e h = (ground (arith, e), h)

All-both :
    {P Q R : OutboxRow → Type 0} (rows : List OutboxRow)
    → ((r : OutboxRow) → P r → Q r → R r)
    → All P rows
    → All Q rows
    → All R rows
All-both [] f p q = tt
All-both (r ∷ rows) f p q = (f r p.0 q.0, All-both rows f p.1 q.1)

both-IsCared :
    (cutoff max_attempts : ℕ) (us ts : List ℕ) (row : OutboxRow)
    → IsReaped cutoff max_attempts us row
    → Covered (is_stale cutoff) ts row
    → IsCared cutoff max_attempts (us ++ ts) row
both-IsCared cutoff max_attempts us ts row r c =
    (ground (arith, r.0, c, elem-append row.id us ts), r.1)

-- A run of the reaper forgets no row: one that is still stuck, or has waited too long, has its task sent,
-- and one that is still stuck has attempts left.
pub reap_stuck_notification_outbox_processing-IsCared :
    (now cutoff max_attempts : ℕ) (rows : List OutboxRow)
    → let (rows', tasks) = reap_stuck_notification_outbox_processing now cutoff max_attempts rows in
      All (IsCared cutoff max_attempts tasks) rows'
unfolding reap_stuck_notification_outbox_processing
reap_stuck_notification_outbox_processing-IsCared now cutoff max_attempts rows =
    let (rows', tasks) = reap_stuck_processing_outboxes now cutoff max_attempts rows in
    All-both rows'
      (both-IsCared cutoff max_attempts tasks (reap_stale_pending_outboxes cutoff rows'))
      (reap-IsReaped now cutoff max_attempts rows) (stale-Covered cutoff rows')
