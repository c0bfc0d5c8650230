-- ===== src/Telegram/Feedback.antt =====
-- The fields of an answer as `_process_ack_entry` and `_process_failed_entry` of
-- apps/notifications/telegram_delivery.py read them.
pub mod Settled
use palingames.Base.{ℕ, String, Option, none, some, ◌==◌, str_eq, if◌then◌else◌}
use Prim.Native.Char.{code}
use palingames.Base.Text.{int_of_digits, strip}
use palingames.Cart.Request.{RawId}
use palingames.Notifications.Delivery.{Entry}
use palingames.Telegram.Messages.{Fields, field, field_or}

abbrev raw_or_refused : (ℕ → RawId) → Option ℕ → RawId
raw_or_refused f (some n) = f n
raw_or_refused f none = RawId.refused

abbrev signed : String → RawId
signed String.[] = RawId.refused
signed (String.◌∷◌ c s) =
    if code c == 45
    then raw_or_refused RawId.negative (int_of_digits s)
    else if code c == 43
    then raw_or_refused RawId.whole (int_of_digits s)
    else RawId.refused

abbrev unsigned_or : RawId → Option ℕ → RawId
unsigned_or raw (some n) = RawId.whole n
unsigned_or raw none = raw

-- `int(s)`, without the underscores that Python allows between digits.
unfoldable pub int_of : String → RawId
int_of s = unsigned_or (signed (strip s)) (int_of_digits (strip s))

unfoldable pub read_entry : Fields → Entry
unfolding field_or int_of
read_entry fields = record {
  source = field "source" fields;
  correlation_id =
      if str_eq (field "correlation_id" fields) ""
      then none
      else some (int_of (field "correlation_id" fields));
  error = field "error" fields;
}
