-- ===== src/Telegram/Messages/Published.antt =====
-- What bot/telegram_bot/outbound/messages.py reads of an entry that apps/notifications/telegram.py wrote.
use palingames.Base.{ok, ◌≡◌, ◌∙◌, refl, ℕ, String, false, str_eq}
use palingames.Base.Text.{str, strip}
use palingames.Base.Text.Numbers.{str_eq-cons, strip-str}
use palingames.Telegram.Messages.{
  OutboundMessage, or_default, TelegramDestination, parse_destination, parse_outbound_fields,
  publish_telegram_outbound, value,
}

pub strip-value : (d : TelegramDestination) → strip (value d) ≡ value d
unfolding strip
strip-value TelegramDestination.notifications = refl
strip-value TelegramDestination.support = refl
strip-value TelegramDestination.incidents = refl

pub parse_destination-value : (d : TelegramDestination) → parse_destination (value d) ≡ ok d
unfolding parse_destination
parse_destination-value TelegramDestination.notifications = refl
parse_destination-value TelegramDestination.support = refl
parse_destination-value TelegramDestination.incidents = refl

value-nonempty : (d : TelegramDestination) → str_eq (value d) "" ≡ false
value-nonempty TelegramDestination.notifications = refl
value-nonempty TelegramDestination.support = refl
value-nonempty TelegramDestination.incidents = refl

-- What arrives of a message: the white space at the ends of its source, of its correlation id and of its
-- parse mode is gone, and HTML stands for a parse mode with nothing else in it.
abbrev pub received : TelegramDestination → String → String → String → String → OutboundMessage
received d text source correlation_id parse_mode = record {
  source = strip source;
  destination = value d;
  text = text;
  parse_mode = or_default (strip parse_mode) "HTML";
  correlation_id = strip correlation_id;
}

parse_mode_lem :
    (parse_mode : String)
    → or_default (strip (or_default parse_mode "HTML")) "HTML"
      ≡ or_default (strip parse_mode) "HTML"
unfolding strip
parse_mode_lem String.[] = refl
parse_mode_lem (String.◌∷◌ c s) = rw (str_eq-cons c s) refl

-- The service reads every message that the shop writes, if it has a text: its destination and its text as
-- they are, its source and its correlation id without white space at their ends, and its parse mode without
-- it or, if nothing else is left, HTML.
pub parse_outbound_fields-publish_telegram_outbound :
    (d : TelegramDestination) (text source correlation_id parse_mode : String)
    → str_eq text "" ≡ false
    → parse_outbound_fields (publish_telegram_outbound d text source correlation_id parse_mode)
      ≡ ok (received d text source correlation_id parse_mode)
unfolding parse_outbound_fields publish_telegram_outbound
parse_outbound_fields-publish_telegram_outbound d text source correlation_id parse_mode h =
    rw (strip-value d, value-nonempty d, h, parse_mode_lem parse_mode) refl

-- The message of a row: the number of the row is its correlation id.
abbrev pub message_of : TelegramDestination → String → String → ℕ → OutboundMessage
message_of d text source n = record {
  source = strip source;
  destination = value d;
  text = text;
  parse_mode = "HTML";
  correlation_id = str n;
}

pub parse_outbound_fields-message_of :
    (d : TelegramDestination) (text source : String) (n : ℕ)
    → str_eq text "" ≡ false
    → parse_outbound_fields (publish_telegram_outbound d text source (str n) "HTML")
      ≡ ok (message_of d text source n)
unfolding strip
parse_outbound_fields-message_of d text source n h =
    parse_outbound_fields-publish_telegram_outbound d text source (str n) "HTML" h
    ∙ rw (strip-str n) refl
