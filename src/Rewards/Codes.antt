-- ===== src/Rewards/Codes.antt =====
-- The draws of a reward's code, which both services make in the same way, and `PromoCode.save` of
-- apps/promocodes/models.py. `draws n` is the suffix of eight letters and digits that the n-th attempt
-- draws.
use Prim.Native.String.{◌++◌ as str_append}
use palingames.Base.{
  Result, ok, err, ℕ, zero, suc, ◌+◌, String, Bool, Option, none, some, List, [], ◌∷◌, ◌++◌, any,
  if◌then◌else◌,
}
use palingames.Base.Text.{strip, upper, lower, str}
use palingames.Promocodes.Model.{PromoCode}
use palingames.Promocodes.Calculate.{has_code}

-- The table of promo codes, and the key that its next row gets.
pub record PromoCodes : Type 0 where
  pub rows : List PromoCode
  pub next_id : ℕ

-- The `RuntimeError` after the last attempt, and a row that is gone at its refresh.
pub data RewardError : Type 0 where
  no_unique_code does_not_exist : RewardError

-- `PromoCode.save`
unfoldable pub saved_promo_code : PromoCode → PromoCode
saved_promo_code p = record p {
  code = upper (strip p.code);
  assigned_email = lower (strip p.assigned_email);
}

-- The unique constraint on the code in upper case.
unfoldable pub is_code_taken : String → PromoCodes → Bool
is_code_taken code t = any (has_code code) t.rows

abbrev pub inserted : PromoCode → PromoCodes → PromoCode × PromoCodes
inserted p t = (
  record p { id = t.next_id },
  record t { rows = t.rows ++ record p { id = t.next_id } ∷ []; next_id = suc t.next_id },
)

-- At most `attempts` draws from the n-th on; a code that is taken is an `IntegrityError`, and the next
-- is drawn.
unfoldable pub create_first_free :
    ℕ → ℕ → (ℕ → PromoCode) → PromoCodes → Result RewardError (PromoCode × PromoCodes)
unfolding saved_promo_code is_code_taken
create_first_free zero n drawn t = err RewardError.no_unique_code
create_first_free (suc attempts) n drawn t =
    let rest = create_first_free attempts (suc n) drawn t in
    if is_code_taken (saved_promo_code (drawn n)).code t
    then rest
    else ok (inserted (saved_promo_code (drawn n)) t)

-- `PROMO_CODE_MAX_ATTEMPTS`
abbrev pub max_attempts : ℕ
max_attempts = 10

-- The prefix, the id, and the suffix.
unfoldable pub generate_reward_code : String → ℕ → String → String
generate_reward_code prefix id suffix =
    str_append prefix (str_append (str id) (str_append "-" suffix))

-- The settings of a reward: `…_REWARD_DISCOUNT_PERCENT`, and `…_REWARD_VALID_DAYS` as a span of time.
pub record RewardSettings : Type 0 where
  pub discount_percent : ℕ
  pub valid_for : ℕ
  pub min_total_amount : ℕ

-- The fields that both services give; the id is the table's.
unfoldable pub reward_code :
    RewardSettings → ℕ → String → Option ℕ → Option ℕ → String → String → PromoCode
reward_code s now code user per_user email note = record {
  id = 0;
  code = code;
  discount_percent = s.discount_percent;
  is_reward = Bool.true;
  is_active = Bool.true;
  starts_at = some now;
  ends_at = some (now + s.valid_for);
  min_order_amount = none;
  max_total_redemptions = some 1;
  max_redemptions_per_user = per_user;
  max_redemptions_per_email = some 1;
  assigned_user_id = user;
  assigned_email = lower (strip email);
  categories = [];
  products = [];
  note = note;
}
