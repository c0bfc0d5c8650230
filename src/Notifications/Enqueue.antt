-- ===== src/Notifications/Enqueue.antt =====
-- apps/notifications/services.py: the table of the outbox, and the creation of a row. The payload is kept
-- as it is given; its encryption and the sent task change nothing that is read here.
use palingames.Base.{
  Result, ok, err, ℕ, suc, String, Bool, true, false, ◌&&◌, Option, none, some, List, [], ◌∷◌, ◌++◌,
  any, ◌==◌, str_eq, if◌then◌else◌,
}
use palingames.Notifications.Outbox.{Channel, Status, NotificationOutbox}

-- The content type and the key of the object that a notification is about.
pub record Target : Type 0 where
  pub content_type : String
  pub object_id : ℕ

pub record OutboxRow : Type 0 where
  pub id : ℕ
  pub notification_type : String
  pub recipient : String
  pub payload : List (String × ℕ)
  pub target : Option Target
  pub state : NotificationOutbox

pub record Outbox : Type 0 where
  pub rows : List OutboxRow
  pub next_id : ℕ

-- The statuses of the unique constraint `notifications_outbox_one_inflight_per_target`.
abbrev pub is_in_flight : Status → Bool
is_in_flight Status.pending = true
is_in_flight Status.processing = true
is_in_flight Status.delivering = true
is_in_flight _ = false

abbrev pub same_channel : Channel → Channel → Bool
same_channel Channel.email Channel.email = true
same_channel Channel.telegram Channel.telegram = true
same_channel _ _ = false

-- Two rows without an object are never in each other's way.
abbrev pub same_target : Option Target → Option Target → Bool
same_target (some a) (some b) = str_eq a.content_type b.content_type && a.object_id == b.object_id
same_target _ _ = false

-- A row that the constraint keeps another one of this type, object and channel from.
abbrev pub blocks : String → Option Target → Channel → OutboxRow → Bool
blocks notification_type target channel row =
    is_in_flight row.state.status
    && str_eq row.notification_type notification_type
    && same_target row.target target
    && same_channel row.state.channel channel

abbrev pub new_state : ℕ → Channel → NotificationOutbox
new_state now channel = record {
  channel = channel;
  status = Status.pending;
  attempts = 0;
  last_attempt_at = none;
  sent_at = none;
  last_error = "";
  created_at = now;
  sent_logs = [];
}

-- `IntegrityError` where the constraint is violated.
pub data EnqueueError : Type 0 where
  integrity : EnqueueError

unfoldable pub create_notification_outbox :
    ℕ
    → String
    → String
    → List (String × ℕ)
    → Option Target
    → Channel
    → Outbox
    → Result EnqueueError Outbox
create_notification_outbox now notification_type recipient payload target channel t =
    if any (blocks notification_type target channel) t.rows
    then err EnqueueError.integrity
    else ok (record t {
      rows =
          t.rows
          ++ record {
            id = t.next_id;
            notification_type = notification_type;
            recipient = recipient;
            payload = payload;
            target = target;
            state = new_state now channel;
          }
            ∷ [];
      next_id = suc t.next_id;
    })

unfoldable pub enqueue_email_notification :
    ℕ → String → String → List (String × ℕ) → Target → Outbox → Result EnqueueError Outbox
unfolding create_notification_outbox
enqueue_email_notification now notification_type recipient payload target t =
    create_notification_outbox now notification_type recipient payload (some target) Channel.email t

-- `recipient or destination.value`, and the payload with the destination, which a text names; the
-- payload here lists numbers, and the destination is kept as the recipient.
abbrev pub recipient_or : Option String → String → String
recipient_or none destination = destination
recipient_or (some r) destination = if str_eq r "" then destination else r

unfoldable pub enqueue_telegram_notification :
    ℕ
    → String
    → String
    → List (String × ℕ)
    → Target
    → Option String
    → Outbox
    → Result EnqueueError Outbox
unfolding create_notification_outbox
enqueue_telegram_notification now notification_type destination payload target recipient t =
    create_notification_outbox now notification_type (recipient_or recipient destination) payload
      (some target) Channel.telegram t
