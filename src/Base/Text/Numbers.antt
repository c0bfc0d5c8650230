-- ===== src/Base/Text/Numbers.antt =====
-- `int(str(n))` is `n`, and `str(n)` has no white space at its ends.
use Prim.Native.Nat.{ℕ, zero, suc, ◌+◌, ◌*◌, ◌/◌, ◌%◌, ◌<◌}
use Prim.Native.Char.{Char, code}
use Prim.Native.String.{String}
use mathlib.Core.Path.{◌≡◌, refl, ◌∙◌, sym, ap}
use mathlib.Core.Logic.{inl, inr}
use mathlib.Core.Bool.{Bool, true, false, not, ◌&&◌}
use mathlib.Core.Option.{Option, some}
use native.Mathlib.Omega.{arith}
use text.Mathlib.Text.{◌==◌ as str_eq}
use text.Mathlib.TextEquality.{eq_iff}
use palingames.Base.Tests.{◌==◌, Bool-cases}
use palingames.Base.Text.{
  digit_in, int_of_digits, is_space, left_strip, parse_digits, right_strip, show_from, str, strip,
}

abbrev digit : ℕ → String → String
digit = digit_in "0123456789"

-- The digit `d` is one character before the text.
digit_lem :
    (d : ℕ) (s : String) → d < 10 → (c : Char) × (digit d s ≡ String.◌∷◌ c s) × (code c ≡ 48 + d)
unfolding digit_in
digit_lem zero s h = ("0", refl, refl)
digit_lem (suc zero) s h = ("1", refl, refl)
digit_lem (suc (suc zero)) s h = ("2", refl, refl)
digit_lem (suc (suc (suc zero))) s h = ("3", refl, refl)
digit_lem (suc (suc (suc (suc zero)))) s h = ("4", refl, refl)
digit_lem (suc (suc (suc (suc (suc zero))))) s h = ("5", refl, refl)
digit_lem (suc (suc (suc (suc (suc (suc zero)))))) s h = ("6", refl, refl)
digit_lem (suc (suc (suc (suc (suc (suc (suc zero))))))) s h = ("7", refl, refl)
digit_lem (suc (suc (suc (suc (suc (suc (suc (suc zero)))))))) s h = ("8", refl, refl)
digit_lem (suc (suc (suc (suc (suc (suc (suc (suc (suc zero))))))))) s h = ("9", refl, refl)
digit_lem (suc (suc (suc (suc (suc (suc (suc (suc (suc (suc d)))))))))) s h = absurd (omega arith)

parse_digits-digit :
    (acc d : ℕ) (s : String) → d < 10 → parse_digits acc (digit d s) ≡ parse_digits (acc * 10 + d) s
unfolding parse_digits
parse_digits-digit acc d s h =
    let (c, shown, same) = digit_lem d s h in rw shown (ground (arith, same, h))

-- No character of the text is white space, and there is one.
has_no_space : String → Bool
unfolding is_space
has_no_space String.[] = true
has_no_space (String.◌∷◌ c s) = not (is_space (code c)) && has_no_space s

is_word : String → Bool
unfolding has_no_space
is_word String.[] = false
is_word (String.◌∷◌ c s) = not (is_space (code c)) && has_no_space s

word-has_no_space : (s : String) → is_word s ≡ true → has_no_space s ≡ true
unfolding is_word has_no_space
word-has_no_space String.[] h = cc
word-has_no_space (String.◌∷◌ c s) h = h

is_space-digit : (n d : ℕ) → n ≡ 48 + d → d < 10 → is_space n ≡ false
unfolding is_space
is_space-digit n d e h = ground arith

is_word-digit : (d : ℕ) (s : String) → d < 10 → has_no_space s ≡ true → is_word (digit d s) ≡ true
unfolding is_word
is_word-digit d s h e =
    let (c, shown, same) = digit_lem d s h in rw (shown, is_space-digit (code c) d same h) e

show_from_lem :
    (fuel n : ℕ) (s : String)
    → n < fuel
    → has_no_space s ≡ true
    → (parse_digits 0 (show_from fuel n s) ≡ parse_digits n s)
      × (is_word (show_from fuel n s) ≡ true)
unfolding show_from
show_from_lem zero n s h e = absurd (omega arith)
show_from_lem (suc fuel) n s h e =
    let small : n % 10 < 10 = omega arith in
    let word = is_word-digit (n % 10) s small e in
    elim (Bool-cases (n / 10 == 0)) [
      | inl last ↦
          let same : 0 * 10 + n % 10 ≡ n = ground (arith, last) in
          rw last (parse_digits-digit 0 (n % 10) s small ∙ ap (λ k. parse_digits k s) same, word)
      | inr more ↦
          let same : n / 10 * 10 + n % 10 ≡ n = omega arith in
          let (value, whole) =
            show_from_lem fuel (n / 10) (digit (n % 10) s) (ground (arith, more, h))
              (word-has_no_space (digit (n % 10) s) word) in
          rw more (
            value ∙ parse_digits-digit (n / 10) (n % 10) s small ∙ ap (λ k. parse_digits k s) same,
            whole,
          )
    ]

right_strip-has_no_space : (s : String) → has_no_space s ≡ true → right_strip s ≡ s
unfolding right_strip has_no_space
right_strip-has_no_space String.[] h = refl
right_strip-has_no_space (String.◌∷◌ c s) h = ground (arith, h, right_strip-has_no_space s)

-- A text with a character is not the empty one.
pub str_eq-cons : (c : Char) (s : String) → str_eq (String.◌∷◌ c s) "" ≡ false
str_eq-cons c s = elim (Bool-cases (str_eq (String.◌∷◌ c s) "")) [
  | inl e ↦ absurd (nonempty ((eq_iff (String.◌∷◌ c s) "").0 e))
  | inr e ↦ e
]
  where
    nonempty : (◌≡◌ {A = String} (String.◌∷◌ c s) String.[]) → ⊥
    nonempty e = cc

strip-is_word : (s : String) → is_word s ≡ true → strip s ≡ s
unfolding strip left_strip is_word
strip-is_word String.[] h = cc
strip-is_word (String.◌∷◌ c s) h =
    let clear : (not (is_space (code c)) && has_no_space s) ≡ true = h in
    ground (arith, clear, right_strip-has_no_space s, str_eq-cons c s)

pub strip-str : (n : ℕ) → strip (str n) ≡ str n
unfolding str has_no_space
strip-str n = strip-is_word (str n) ((show_from_lem (suc n) n "" (omega arith) refl).1)

is_word-nonempty : (s : String) → is_word s ≡ true → str_eq s "" ≡ false
unfolding is_word
is_word-nonempty String.[] h = cc
is_word-nonempty (String.◌∷◌ c s) h = str_eq-cons c s

pub str-nonempty : (n : ℕ) → str_eq (str n) "" ≡ false
unfolding str has_no_space
str-nonempty n = is_word-nonempty (str n) ((show_from_lem (suc n) n "" (omega arith) refl).1)

parse_digits-str : (n : ℕ) → parse_digits 0 (str n) ≡ some n
unfolding str parse_digits has_no_space
parse_digits-str n = (show_from_lem (suc n) n "" (omega arith) refl).0

pub int_of_digits-str : (n : ℕ) → int_of_digits (str n) ≡ some n
unfolding int_of_digits
int_of_digits-str n = rw (str-nonempty n) (parse_digits-str n)

-- Different numbers have different digits.
pub str-injective : (a b : ℕ) → str a ≡ str b → a ≡ b
str-injective a b e =
    some-injective (sym (int_of_digits-str a) ∙ ap int_of_digits e ∙ int_of_digits-str b)
  where
    some-injective : {x y : ℕ} → ◌≡◌ {A = Option ℕ} (some x) (some y) → x ≡ y
    some-injective h = cc
