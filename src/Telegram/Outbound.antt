-- ===== src/Telegram/Outbound.antt =====
-- bot/telegram_bot/outbound/consumer.py: the delivery of the entries of a stream, with the answers to the
-- shop. Telegram's replies are a parameter, one for each attempt; Redis takes what is written to it.
pub mod Bounded
pub mod Acknowledged
use palingames.Base.{
  Result, ok, err, ℕ, zero, suc, ◌-◌, ◌*◌, String, Bool, true, false, Option, none, some, List, [],
  ◌∷◌, ◌++◌, leb, str_eq, if◌then◌else◌,
}
use Prim.Native.Nat.{◌^◌}
use palingames.Base.Text.{str, strip, take}
use palingames.Telegram.Messages.{
  BotReply, Fields, OutboundMessage, Sent, Settings, TelegramRoute, field, get_telegram_route,
  field_or, parse_outbound_fields, send_message,
}

-- The entries that a delivery adds to the two streams of answers.
pub data Published : Type 0 where
  ack failure : Fields → Published

module _ (now : String) where
  unfoldable pub publish_delivery_ack : OutboundMessage → ℕ → Published
  publish_delivery_ack m id = Published.ack (
      ("source", m.source)
      ∷ ("correlation_id", m.correlation_id)
      ∷ ("telegram_message_id", str id)
      ∷ ("delivered_at", now)
      ∷ [])

  unfoldable pub publish_delivery_failed : OutboundMessage → String → Published
  publish_delivery_failed m error = Published.failure (
      ("source", m.source)
      ∷ ("correlation_id", m.correlation_id)
      ∷ ("error", take 512 error)
      ∷ ("failed_at", now)
      ∷ [])

unfoldable pub retry_delay : Settings → ℕ → ℕ
retry_delay s attempt = s.telegram_retry_base * 2 ^ (attempt - 1)

-- What a delivery did: the answer, none where an exception left it; the calls of Telegram; the sleeps.
pub record Delivery : Type 0 where
  pub answer : Option Published
  pub calls : ℕ
  pub delays : List ℕ

abbrev pub done : Published → Delivery
done answer = record { answer = some answer; calls = 1; delays = [] }

abbrev pub after_delay : ℕ → Delivery → Delivery
after_delay delay d = record { answer = d.answer; calls = suc d.calls; delays = delay ∷ d.delays }

-- The replies by the number of the attempt.
module _ (now : String) (settings : Settings) (replies : ℕ → BotReply) (m : OutboundMessage) where
  abbrev pub give_up : String → Published
  give_up e = publish_delivery_failed now m e

  -- A round of the loop, from the attempt's number, the rounds after it and what `send_message` did.
  abbrev pub after_reply : ℕ → (String → Delivery) → Sent → Delivery
  after_reply attempt rest (Sent.sent id) = done (publish_delivery_ack now m id)
  after_reply attempt rest (Sent.transient e) =
      if leb settings.telegram_max_retries attempt
      then done (give_up e)
      else after_delay (retry_delay settings attempt) (rest e)
  after_reply attempt rest (Sent.permanent e) = done (give_up e)
  after_reply attempt rest (Sent.configuration e) = done (give_up e)
  after_reply attempt rest Sent.uncaught = record { answer = none; calls = 1; delays = [] }

  -- The rounds that are left, the number of the attempt, and the last error.
  unfoldable pub attempts : ℕ → ℕ → String → Delivery
  unfolding retry_delay
  attempts zero attempt last_error = record {
    answer = some (give_up last_error);
    calls = 0;
    delays = [];
  }
  attempts (suc left) attempt last_error =
      after_reply attempt (λ e. attempts left (suc attempt) e)
        (send_message (replies attempt) m.parse_mode)

  abbrev pub deliver_on : Result String TelegramRoute → Delivery
  deliver_on (ok route) = attempts settings.telegram_max_retries 1 "unknown delivery error"
  deliver_on (err e) = record { answer = none; calls = 0; delays = [] }

  -- The route is looked up before the `try`.
  unfoldable pub deliver_outbound_message : Delivery
  unfolding attempts
  deliver_outbound_message = deliver_on (get_telegram_route settings m.destination)

module _ (now : String) (settings : Settings) where
  -- The message of an entry that cannot be read.
  abbrev pub raw_message : Fields → OutboundMessage
  raw_message fields = record {
    source = field "source" fields;
    destination = field "destination" fields;
    text = field "text" fields;
    parse_mode = field_or "HTML" "parse_mode" fields;
    correlation_id = field "correlation_id" fields;
  }

  abbrev pub deliver_parsed : (ℕ → BotReply) → Fields → Result String OutboundMessage → Delivery
  deliver_parsed replies fields (ok m) = deliver_outbound_message now settings replies m
  deliver_parsed replies fields (err e) = record {
    answer = some (publish_delivery_failed now (raw_message fields) e);
    calls = 0;
    delays = [];
  }

  unfoldable pub process_outbound_entry : (ℕ → BotReply) → Fields → Delivery
  unfolding deliver_outbound_message field_or
  process_outbound_entry replies fields =
      deliver_parsed replies fields (parse_outbound_fields fields)

-- The streams of answers with their newest entry first, and the entries that were acknowledged.
pub record Streams : Type 0 where
  pub acks : List Fields
  pub failures : List Fields
  pub acknowledged : List ℕ

abbrev pub add_answer : Published → Streams → Streams
add_answer (Published.ack fields) s = record s { acks = fields ∷ s.acks }
add_answer (Published.failure fields) s = record s { failures = fields ∷ s.failures }

-- `xack` follows the answer; an exception leaves the entry pending.
abbrev pub settle : ℕ → Option Published → Streams → Streams
settle id none s = s
settle id (some answer) s = record (add_answer answer s) { acknowledged = id ∷ s.acknowledged }

-- The entries of a batch with their numbers; whether the service is to stop is asked before each.
unfoldable pub process_outbound_batch :
    String → Settings → (ℕ → ℕ → BotReply) → (ℕ → Bool) → List (ℕ × Fields) → Streams → Streams
unfolding process_outbound_entry
process_outbound_batch now settings replies stops [] s = s
process_outbound_batch now settings replies stops ((id, fields) ∷ entries) s =
    let rest =
      process_outbound_batch now settings replies stops entries
        (settle id (process_outbound_entry now settings (replies id) fields).answer s) in
    if stops id then s else rest
