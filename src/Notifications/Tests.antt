-- ===== src/Notifications/Tests.antt =====
-- Rows of the outbox: a mail that got stuck with its last attempt, one that waits, and a message that was
-- handed to the Telegram service.
use palingames.Base.{ok, ◌≡◌, refl, ℕ, some, [], ◌∷◌, List, map, arith, All}
use palingames.Cart.Request.{RawId}
use palingames.Notifications.Outbox.{
  Channel, NotificationOutbox, Status, lock_outbox_and_begin_processing, finish_processing,
}
use palingames.Notifications.Outbox.Tests.{mail}
use palingames.Notifications.Enqueue.{OutboxRow}
use palingames.Notifications.Reaper.{reap_stuck_notification_outbox_processing}
use palingames.Notifications.Reaper.Complete.{
  IsCared, reap_stuck_notification_outbox_processing-IsCared,
}
use palingames.Notifications.Delivery.{
  Entry, Feedback, confirm_telegram_outbox_delivery, process_telegram_outbound_feedback,
  reap_stuck_telegram_outbox_deliveries,
}
use palingames.Notifications.Delivery.Answered.{confirm-lost}

abbrev pub row : ℕ → NotificationOutbox → OutboxRow
row id state = record {
  id = id;
  notification_type = "order_reward_user";
  recipient = "a@b.c";
  payload = [];
  target = some (record { content_type = "order"; object_id = 1 });
  state = state;
}

abbrev stuck : NotificationOutbox
stuck = record mail { status = Status.processing; attempts = 3; last_attempt_at = some 10 }

abbrev rows : List OutboxRow
rows = row 1 stuck ∷ row 2 mail ∷ row 3 (record stuck { attempts = 1 }) ∷ []

tasks_sent : (reap_stuck_notification_outbox_processing 60 40 3 rows).1 ≡ 3 ∷ 2 ∷ []
unfolding reap_stuck_notification_outbox_processing
tasks_sent = refl

abbrev rows_reaped : List OutboxRow
rows_reaped = (reap_stuck_notification_outbox_processing 60 40 3 rows).0

abbrev tasks_after : List ℕ
tasks_after = (reap_stuck_notification_outbox_processing 60 40 3 rows).1

reap_stuck_notification_outbox_processing-IsCared_example :
    All (IsCared 40 3 tasks_after) rows_reaped
reap_stuck_notification_outbox_processing-IsCared_example =
    reap_stuck_notification_outbox_processing-IsCared 60 40 3 rows

abbrev pub handed_over : NotificationOutbox
handed_over = record mail {
  channel = Channel.telegram;
  status = Status.delivering;
  attempts = 1;
  last_attempt_at = some 10;
}

abbrev answer : Entry
answer = record { source = "outbox"; correlation_id = some (RawId.whole 2); error = "" }

abbrev feedback : Feedback
feedback = record {
  ack_processed = 1;
  failed_processed = 0;
  rows =
      row 1 mail
      ∷ row 2 (record handed_over { status = Status.sent; sent_at = some 12; last_error = "" })
      ∷ [];
}

confirmed_rows :
    process_telegram_outbound_feedback 12 (answer ∷ []) [] (row 1 mail ∷ row 2 handed_over ∷ [])
    ≡ ok feedback
unfolding process_telegram_outbound_feedback
confirmed_rows = refl

abbrev message : OutboxRow
message = row 1 (record mail { channel = Channel.telegram })

abbrev overtaken : OutboxRow
overtaken = record message {
  state =
      finish_processing 11
        (confirm_telegram_outbox_delivery 11
          (lock_outbox_and_begin_processing 10 0 message.state).1).1;
}

confirm-lost_example :
    map
      (λ (r : OutboxRow). r.state.status)
      (reap_stuck_telegram_outbox_deliveries 40 (overtaken ∷ [])).1
    ≡ Status.failed ∷ []
confirm-lost_example = confirm-lost 10 11 40 message refl refl (omega arith)
