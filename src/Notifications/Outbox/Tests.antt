-- ===== src/Notifications/Outbox/Tests.antt =====
-- A new mail of the outbox: a worker begins at 10 and is lost, a second one takes over at 50 and sends.
use palingames.Base.{◌≡◌, ◌≤◌, refl, none, []}
use palingames.Notifications.Outbox.{
  Channel, NotificationOutbox, Status, lock_outbox_and_begin_processing, finish_processing,
}
use palingames.Notifications.Outbox.Steps.{IsWellFormed, Step, Steps, steps-IsWellFormed}

abbrev pub mail : NotificationOutbox
mail = record {
  channel = Channel.email;
  status = Status.pending;
  attempts = 0;
  last_attempt_at = none;
  sent_at = none;
  last_error = "";
  created_at = 0;
  sent_logs = [];
}

abbrev begun_once : NotificationOutbox
begun_once = (lock_outbox_and_begin_processing 10 0 mail).1

abbrev begun_twice : NotificationOutbox
begun_twice = (lock_outbox_and_begin_processing 50 40 begun_once).1

abbrev mail_sent : NotificationOutbox
mail_sent = finish_processing 51 begun_twice

two_attempts : (mail_sent.attempts ≡ 2) × (mail_sent.status ≡ Status.sent)
unfolding lock_outbox_and_begin_processing finish_processing
two_attempts = (refl, refl)

abbrev run : Steps mail mail_sent
run =
    Steps.then_step mail begun_twice mail_sent
      (Steps.then_step mail begun_once begun_twice
        (Steps.then_step mail mail begun_once (Steps.none_taken mail) (Step.begins 10 0 mail))
        (Step.begins 50 40 begun_once))
      (Step.finishes 51 begun_twice)

steps-IsWellFormed_example : IsWellFormed mail_sent × (0 ≤ mail_sent.attempts)
steps-IsWellFormed_example = steps-IsWellFormed mail mail_sent tt run
