-- ===== src/Base/Text.antt =====
-- Python's `strip`, `upper`, `lower`, `isdigit`, `int` and `str`, for the letters of the English and
-- Russian alphabets and the white space of Unicode. Case is changed letter by letter by a table; a
-- letter outside the tables stays.
pub mod Numbers
use Prim.Native.Nat.{ℕ, zero, suc, ◌+◌, ◌-◌, ◌*◌, ◌/◌, ◌%◌}
use Prim.Native.Char.{Char, code}
use Prim.Native.String.{String}
use mathlib.Core.Path.{◌≡◌, refl}
use mathlib.Core.Bool.{Bool, true, false, not, ◌&&◌, ◌||◌}
use text.Mathlib.TextEquality.{eq_iff}
use mathlib.Core.Option.{Option, none, some}
use text.Mathlib.Text.{◌==◌ as str_eq}
use palingames.Base.Tests.{leb, ◌==◌, if◌then◌else◌}

abbrev lower_letters : String
lower_letters = "abcdefghijklmnopqrstuvwxyzабвгдеёжзийклмнопрстуфхцчшщъыьэюя"

abbrev upper_letters : String
upper_letters = "ABCDEFGHIJKLMNOPQRSTUVWXYZАБВГДЕЁЖЗИЙКЛМНОПРСТУФХЦЧШЩЪЫЬЭЮЯ"

-- The character that stands where `c` stands in the first table.
translate : String → String → Char → Char
translate (String.◌∷◌ a from) (String.◌∷◌ b to) c =
    let rest = translate from to c in if code a == code c then b else rest
translate _ _ c = c

map_chars : (Char → Char) → String → String
map_chars f String.[] = String.[]
map_chars f (String.◌∷◌ c s) = String.◌∷◌ (f c) (map_chars f s)

unfoldable pub upper : String → String
unfolding map_chars translate
upper s = map_chars (translate lower_letters upper_letters) s

unfoldable pub lower : String → String
unfolding map_chars translate
lower s = map_chars (translate upper_letters lower_letters) s

is_space : ℕ → Bool
is_space c =
    (leb 9 c && leb c 13)
    || (leb 28 c && leb c 32)
    || c == 0x85
    || c == 0xa0
    || c == 0x1680
    || (leb 0x2000 c && leb c 0x200a)
    || c == 0x2028
    || c == 0x2029
    || c == 0x202f
    || c == 0x205f
    || c == 0x3000

left_strip : String → String
left_strip String.[] = String.[]
left_strip (String.◌∷◌ c s) =
    let rest = left_strip s in if is_space (code c) then rest else String.◌∷◌ c s

right_strip : String → String
right_strip String.[] = String.[]
right_strip (String.◌∷◌ c s) =
    let rest = right_strip s in
    if is_space (code c) && str_eq rest "" then String.[] else String.◌∷◌ c rest

unfoldable pub strip : String → String
unfolding is_space left_strip right_strip
strip s = right_strip (left_strip s)

-- `int(s)` for a text of digits: `none` where `isdigit` fails.
parse_digits : ℕ → String → Option ℕ
parse_digits n String.[] = some n
parse_digits n (String.◌∷◌ c s) =
    let rest = parse_digits (n * 10 + (code c - 48)) s in
    if leb 48 (code c) && leb (code c) 57 then rest else none

unfoldable pub int_of_digits : String → Option ℕ
unfolding parse_digits
int_of_digits s = if str_eq s "" then none else parse_digits 0 s

digit_in : String → ℕ → String → String
digit_in String.[] n s = s
digit_in (String.◌∷◌ c cs) zero s = String.◌∷◌ c s
digit_in (String.◌∷◌ c cs) (suc n) s = digit_in cs n s

-- The digits of `n` before the text `s`; a number has at most as many digits as its value and one.
show_from : ℕ → ℕ → String → String
show_from zero n s = s
show_from (suc fuel) n s =
    let rest = show_from fuel (n / 10) (digit_in "0123456789" (n % 10) s) in
    if n / 10 == 0 then digit_in "0123456789" (n % 10) s else rest

-- `str(n)`
unfoldable pub str : ℕ → String
unfolding show_from digit_in
str n = show_from (suc n) n ""

-- `s[:n]`
unfoldable pub take : ℕ → String → String
take zero s = String.[]
take (suc n) String.[] = String.[]
take (suc n) (String.◌∷◌ c s) = String.◌∷◌ c (take n s)

-- The truth of a text that may be missing.
abbrev pub is_truthy : Option String → Bool
is_truthy none = false
is_truthy (some s) = not (str_eq s "")

pub str_eq-same : (s : String) → str_eq s s ≡ true
str_eq-same s = (eq_iff s s).1 refl
