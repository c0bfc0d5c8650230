-- ===== src/Telegram/Outbound/Acknowledged.antt =====
-- The entries of a batch that `process_outbound_batch` of bot/telegram_bot/outbound/consumer.py answers and
-- acknowledges, and those that it leaves pending.
use palingames.Base.{
  Result, ok, err, ◌≡◌, ◌∙◌, refl, ap, ℕ, zero, suc, ◌+◌, String, Bool, true, false, not, ◌&&◌,
  ◌||◌, Option, none, some, List, [], ◌∷◌, arith, Bool-cases, inl, inr, leb, ltb, length, is_some,
  str_eq, if◌then◌else◌,
}
use palingames.Base.Text.{strip}
use palingames.Telegram.Messages.{
  BotReply, Fields, OutboundMessage, Settings, TelegramRoute, field, get_telegram_route,
  parse_destination, parse_outbound_fields, send_as, send_message, resolve_parse_mode, ParseMode,
}
use palingames.Telegram.Outbound.{
  Delivery, Published, Streams, after_reply, attempts, deliver_on, deliver_outbound_message,
  process_outbound_batch, process_outbound_entry, settle,
}

-- The chat is set, and so is the thread of the destination, which is one of the three.
abbrev pub has_route : Settings → String → Bool
has_route s destination =
    let thread =
      if str_eq destination "notifications"
      then s.telegram_notifications_thread_id
      else if str_eq destination "support"
      then s.telegram_support_thread_id
      else if str_eq destination "incidents"
      then s.telegram_incidents_thread_id
      else 0 in
    not (str_eq s.telegram_forum_chat_id "") && ltb 0 thread

-- An entry that cannot be read, or one that has a route.
abbrev pub is_answered : Settings → Fields → Bool
is_answered s fields =
    str_eq (strip (field "destination" fields)) ""
    || str_eq (field "text" fields) ""
    || has_route s (strip (field "destination" fields))

abbrev is_ok : Result String TelegramRoute → Bool
is_ok (ok route) = true
is_ok (err e) = false

is_ok-get_telegram_route :
    (s : Settings) (destination : String)
    → is_ok (get_telegram_route s destination) ≡ has_route s destination
unfolding get_telegram_route parse_destination
is_ok-get_telegram_route s destination = ground arith

-- The numbers of the entries that are answered, put before the others.
abbrev pub answered : Settings → List (ℕ × Fields) → List ℕ → List ℕ
answered s [] acknowledged = acknowledged
answered s ((id, fields) ∷ entries) acknowledged =
    answered s entries (if is_answered s fields then id ∷ acknowledged else acknowledged)

-- The exceptions that the service knows.
abbrev pub is_known : BotReply → Bool
is_known BotReply.other_error = false
is_known _ = true

module _ (now : String) (s : Settings) (replies : ℕ → BotReply)
    (known : (k : ℕ) → is_known (replies k) ≡ true) where
  round-is_some :
      (m : OutboundMessage) (attempt : ℕ) (rest : String → Delivery)
      → ((e : String) → is_some (rest e).answer ≡ true)
      → (reply : BotReply) → is_known reply ≡ true
      → (mode : Result String ParseMode)
      → is_some (after_reply now s replies m attempt rest (send_as reply mode)).answer ≡ true
  round-is_some m attempt rest later reply _ (err e) = refl
  round-is_some m attempt rest later (BotReply.message id) _ (ok mode) = refl
  round-is_some m attempt rest later (BotReply.retry_after n) _ (ok mode) =
      elim (Bool-cases (leb s.telegram_max_retries attempt)) [
        | inl final ↦ rw final refl
        | inr more ↦ rw more (later _)
      ]
  round-is_some m attempt rest later (BotReply.network_error e) _ (ok mode) =
      elim (Bool-cases (leb s.telegram_max_retries attempt)) [
        | inl final ↦ rw final refl
        | inr more ↦ rw more (later _)
      ]
  round-is_some m attempt rest later (BotReply.forbidden e) _ (ok mode) = refl
  round-is_some m attempt rest later (BotReply.bad_request e) _ (ok mode) = refl
  round-is_some m attempt rest later BotReply.other_error h (ok mode) = cc

  attempts-is_some :
      (m : OutboundMessage) (left attempt : ℕ) (e : String)
      → is_some (attempts now s replies m left attempt e).answer ≡ true
  unfolding attempts send_message
  attempts-is_some m zero attempt e = refl
  attempts-is_some m (suc left) attempt e =
      round-is_some m attempt (λ x. attempts now s replies m left (suc attempt) x)
        (attempts-is_some m left (suc attempt)) (replies attempt) (known attempt)
        (resolve_parse_mode m.parse_mode)

  deliver_on-is_some :
      (m : OutboundMessage) (route : Result String TelegramRoute)
      → is_some (deliver_on now s replies m route).answer ≡ is_ok route
  deliver_on-is_some m (ok route) = attempts-is_some m s.telegram_max_retries 1 _
  deliver_on-is_some m (err e) = refl

  entry-is_some :
      (fields : Fields)
      → is_some (process_outbound_entry now s replies fields).answer ≡ is_answered s fields
  unfolding process_outbound_entry deliver_outbound_message parse_outbound_fields
  entry-is_some fields = elim (Bool-cases (str_eq (strip (field "destination" fields)) "")) [
    | inl lost ↦ rw lost refl
    | inr given ↦ elim (Bool-cases (str_eq (field "text" fields) "")) [
      | inl empty ↦ rw (given, empty) refl
      | inr full ↦
          rw (given, full)
            (deliver_on-is_some _ (get_telegram_route s (strip (field "destination" fields)))
              ∙ is_ok-get_telegram_route s (strip (field "destination" fields)))
    ]
  ]

abbrev pub answers : Streams → ℕ
answers streams = length streams.acks + length streams.failures

settle_lem :
    (id : ℕ) (answer : Option Published) (streams : Streams)
    → ((settle id answer streams).acknowledged
        ≡ (if is_some answer then id ∷ streams.acknowledged else streams.acknowledged))
      × (answers (settle id answer streams) + length streams.acknowledged
          ≡ answers streams + length (settle id answer streams).acknowledged)
settle_lem id none streams = (refl, refl)
settle_lem id (some (Published.ack fields)) streams = (refl, omega arith)
settle_lem id (some (Published.failure fields)) streams = (refl, omega arith)

-- If the service is not stopped during a batch, and Telegram's client raises no exception but those that it
-- knows, the entries that cannot be read or have a route are acknowledged, in their order, and no others;
-- and as many answers are written as entries are acknowledged. An entry with a text and a destination
-- without a route is left pending, without an answer.
pub process_outbound_batch-acknowledged :
    (now : String) (s : Settings) (replies : ℕ → ℕ → BotReply) (stops : ℕ → Bool)
    (entries : List (ℕ × Fields)) (streams : Streams)
    → ((id : ℕ) → stops id ≡ false)
    → ((id k : ℕ) → is_known (replies id k) ≡ true)
    → let streams' = process_outbound_batch now s replies stops entries streams in
      (streams'.acknowledged ≡ answered s entries streams.acknowledged)
      × (answers streams' + length streams.acknowledged
          ≡ answers streams + length streams'.acknowledged)
unfolding process_outbound_batch
process_outbound_batch-acknowledged now s replies stops [] streams goes_on known = (refl, refl)
process_outbound_batch-acknowledged now s replies stops ((id, fields) ∷ entries) streams goes_on
      known =
    let answer = (process_outbound_entry now s (replies id) fields).answer in
    let (acknowledged, count) = settle_lem id answer streams in
    let (rest, rest_count) =
      process_outbound_batch-acknowledged now s replies stops entries (settle id answer streams)
        goes_on known in
    rw (goes_on id) (
      rest
          ∙ ap (answered s entries) (
              acknowledged
              ∙ ap (λ (b : Bool). if b then id ∷ streams.acknowledged else streams.acknowledged)
                  (entry-is_some now s (replies id) (known id) fields)),
      omega (arith, count, rest_count),
    )
