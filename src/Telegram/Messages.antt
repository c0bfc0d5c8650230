-- ===== src/Telegram/Messages.antt =====
-- The entries of the stream telegram:outbound: `publish_telegram_outbound` of apps/notifications/telegram.py
-- writes them, and bot/telegram_bot/outbound/messages.py reads them. With them, the routes of
-- bot/telegram_bot/telegram/routes.py and the calls of client.py.

pub mod Published
use Prim.Native.String.{◌++◌}
use palingames.Base.{
  Result, ok, err, ◌>>=◌, ◌>>◌, raise_if, ℕ, String, Bool, true, false, Option, none, some, List,
  [], ◌∷◌, leb, str_eq, if◌then◌else◌,
}
use palingames.Base.Text.{str, strip, upper}

abbrev pub Fields : Type 0
Fields = List (String × String)

-- `fields.get(key, default)`
unfoldable pub field_or : String → String → Fields → String
field_or default key [] = default
field_or default key ((k, v) ∷ fields) = if str_eq k key then v else field_or default key fields

-- `fields.get(key, "")`, which is as `fields.get(key) or ""`.
abbrev pub field : String → Fields → String
field = field_or ""

-- `s or default`
abbrev pub or_default : String → String → String
or_default s default = if str_eq s "" then default else s

pub data TelegramDestination : Type 0 where
  notifications support incidents : TelegramDestination

abbrev pub value : TelegramDestination → String
value TelegramDestination.notifications = "notifications"
value TelegramDestination.support = "support"
value TelegramDestination.incidents = "incidents"

-- The entry that the shop adds to the stream.
unfoldable pub publish_telegram_outbound :
    TelegramDestination → String → String → String → String → Fields
publish_telegram_outbound destination text source correlation_id parse_mode =
    ("source", source)
    ∷ ("destination", value destination)
    ∷ ("text", text)
    ∷ ("parse_mode", parse_mode)
    ∷ ("correlation_id", correlation_id)
    ∷ []

pub record OutboundMessage : Type 0 where
  pub source : String
  pub destination : String
  pub text : String
  pub parse_mode : String
  pub correlation_id : String

-- The text of a `TelegramConfigurationError`, or the message.
unfoldable pub parse_outbound_fields : Fields → Result String OutboundMessage
unfolding field_or
parse_outbound_fields fields = do
  let destination = strip (field "destination" fields)
  raise_if (str_eq destination "") "Outbound message is missing destination"
  raise_if (str_eq (field "text" fields) "") "Outbound message is missing text"
  ok (record {
    source = strip (field "source" fields);
    destination = destination;
    text = field "text" fields;
    parse_mode = or_default (strip (or_default (field "parse_mode" fields) "HTML")) "HTML";
    correlation_id = strip (field "correlation_id" fields);
  })

-- The settings; a thread's number below zero stands as zero, and a delay is in thousandths of a second.
pub record Settings : Type 0 where
  pub telegram_forum_chat_id : String
  pub telegram_notifications_thread_id : ℕ
  pub telegram_support_thread_id : ℕ
  pub telegram_incidents_thread_id : ℕ
  pub telegram_max_retries : ℕ
  pub telegram_retry_base : ℕ

pub record TelegramRoute : Type 0 where
  pub chat_id : String
  pub message_thread_id : ℕ

unfoldable pub parse_destination : String → Result String TelegramDestination
parse_destination destination =
    if str_eq destination "notifications"
    then ok TelegramDestination.notifications
    else if str_eq destination "support"
    then ok TelegramDestination.support
    else if str_eq destination "incidents"
    then ok TelegramDestination.incidents
    else err ("Unsupported telegram destination: " ++ destination)

abbrev pub thread_id : Settings → TelegramDestination → ℕ
thread_id s TelegramDestination.notifications = s.telegram_notifications_thread_id
thread_id s TelegramDestination.support = s.telegram_support_thread_id
thread_id s TelegramDestination.incidents = s.telegram_incidents_thread_id

unfoldable pub get_telegram_route : Settings → String → Result String TelegramRoute
unfolding parse_destination
get_telegram_route s destination = parse_destination destination >>= λ parsed.
    raise_if (str_eq s.telegram_forum_chat_id "") "TELEGRAM_FORUM_CHAT_ID is not configured"
    >> raise_if (leb (thread_id s parsed) 0)
        ("Telegram thread is not configured for destination: " ++ value parsed)
    >> ok (record { chat_id = s.telegram_forum_chat_id; message_thread_id = thread_id s parsed })

pub data ParseMode : Type 0 where
  html markdown_v2 markdown : ParseMode

unfoldable pub resolve_parse_mode : String → Result String ParseMode
resolve_parse_mode parse_mode =
    let normalized = upper (strip parse_mode) in
    if str_eq normalized ""
    then ok ParseMode.html
    else if str_eq normalized "HTML"
    then ok ParseMode.html
    else if str_eq normalized "MARKDOWNV2"
    then ok ParseMode.markdown_v2
    else if str_eq normalized "MARKDOWN"
    then ok ParseMode.markdown
    else err ("Unsupported parse_mode: " ++ parse_mode)

-- What Telegram answers to a call: the number of the message, or an exception of aiogram.
pub data BotReply : Type 0 where
  message : ℕ → BotReply
  retry_after : ℕ → BotReply
  network_error forbidden bad_request : String → BotReply
  other_error : BotReply

-- The outcome of `send_message`: the exceptions of errors.py, and all others.
pub data Sent : Type 0 where
  sent : ℕ → Sent
  transient permanent configuration : String → Sent
  uncaught : Sent

abbrev pub translated : BotReply → Sent
translated (BotReply.message id) = Sent.sent id
translated (BotReply.retry_after n) =
    Sent.transient ("Telegram rate limit, retry after " ++ str n ++ "s")
translated (BotReply.network_error e) = Sent.transient e
translated (BotReply.forbidden e) = Sent.permanent e
translated (BotReply.bad_request e) = Sent.permanent e
translated BotReply.other_error = Sent.uncaught

abbrev pub send_as : BotReply → Result String ParseMode → Sent
send_as reply (ok mode) = translated reply
send_as reply (err e) = Sent.configuration e

unfoldable pub send_message : BotReply → String → Sent
unfolding resolve_parse_mode
send_message reply parse_mode = send_as reply (resolve_parse_mode parse_mode)
