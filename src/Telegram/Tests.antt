-- ===== src/Telegram/Tests.antt =====
-- A notification about row 7, sent at the second attempt.
use palingames.Base.{
  ◌≡◌, ◌<◌, ◌≤◌, ◌*◌, ◌-◌, ◌+◌, List, length, refl, arith, ok, ℕ, zero, suc, true, false, [], ◌∷◌,
}
use Prim.Native.Nat.{◌^◌}
use palingames.Base.Text.{int_of_digits, str, strip, upper}
use palingames.Cart.Request.{RawId}
use palingames.Notifications.Enqueue.{OutboxRow}
use palingames.Notifications.Tests.{handed_over, row}
use palingames.Telegram.Messages.{
  BotReply, Fields, field_or, Settings, TelegramDestination, get_telegram_route, parse_destination,
  parse_outbound_fields, publish_telegram_outbound, resolve_parse_mode, send_message,
}
use palingames.Telegram.Messages.Published.{
  message_of, received, parse_outbound_fields-publish_telegram_outbound,
}
use palingames.Telegram.Outbound.{
  Streams, attempts, deliver_outbound_message, process_outbound_batch, retry_delay,
}
use palingames.Telegram.Outbound.Bounded.{deliver_outbound_message-bounds, total_delay}
use palingames.Telegram.Outbound.Acknowledged.{
  answered, answers, is_known, process_outbound_batch-acknowledged,
}
use palingames.Telegram.Feedback.{int_of}

abbrev settings : Settings
settings = record {
  telegram_forum_chat_id = "-100";
  telegram_notifications_thread_id = 4;
  telegram_support_thread_id = 0;
  telegram_incidents_thread_id = 5;
  telegram_max_retries = 3;
  telegram_retry_base = 1000;
}

abbrev replies : ℕ → BotReply
replies (suc zero) = BotReply.retry_after 9
replies _ = BotReply.message 41

abbrev d : TelegramDestination
d = TelegramDestination.notifications

parse_outbound_fields-publish_telegram_outbound_example :
    parse_outbound_fields (publish_telegram_outbound d "paid" " outbox " " a1" "")
    ≡ ok (received d "paid" " outbox " " a1" "")
parse_outbound_fields-publish_telegram_outbound_example =
    parse_outbound_fields-publish_telegram_outbound d "paid" " outbox " " a1" "" refl

not_a_number : int_of "7a" ≡ RawId.refused
unfolding int_of int_of_digits strip
not_a_number = refl

second_attempt :
    (deliver_outbound_message "t" settings replies (message_of d "paid" "outbox" 7)).delays
    ≡ 1000 ∷ []
unfolding deliver_outbound_message attempts send_message resolve_parse_mode retry_delay
    get_telegram_route parse_destination strip upper str
second_attempt = refl

deliver_outbound_message-bounds_example :
    let sent = deliver_outbound_message "t" settings replies (message_of d "paid" "outbox" 7) in
    (sent.calls ≤ 3) × (total_delay sent < 1000 * 2 ^ (3 - 1))
deliver_outbound_message-bounds_example =
    deliver_outbound_message-bounds "t" settings replies (message_of d "paid" "outbox" 7)
      (omega arith) (omega arith)

abbrev outbox_row : OutboxRow
outbox_row = row 7 handed_over

abbrev no_answers : Streams
no_answers = record { acks = []; failures = []; acknowledged = [] }

abbrev to : TelegramDestination → Fields
to destination = publish_telegram_outbound destination "paid" "outbox" (str 7) "HTML"

knows : (k : ℕ) → is_known (replies k) ≡ true
knows zero = refl
knows (suc zero) = refl
knows (suc (suc k)) = refl

-- The entry 2 has no route, and the entry 3 cannot be read.
abbrev batch : List (ℕ × Fields)
batch = (1, to d) ∷ (2, to TelegramDestination.support) ∷ (3, []) ∷ []

only_routed : answered settings batch [] ≡ 3 ∷ 1 ∷ []
unfolding publish_telegram_outbound field_or strip
only_routed = refl

process_outbound_batch-acknowledged_example :
    let streams =
      process_outbound_batch "t" settings (λ id. replies) (λ id. false) batch no_answers in
    (streams.acknowledged ≡ answered settings batch [])
    × (answers streams + 0 ≡ 0 + length streams.acknowledged)
process_outbound_batch-acknowledged_example =
    process_outbound_batch-acknowledged "t" settings (λ id. replies) (λ id. false) batch no_answers
      (λ id. refl) (λ id k. knows k)
