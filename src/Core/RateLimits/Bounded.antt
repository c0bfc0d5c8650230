-- ===== src/Core/RateLimits/Bounded.antt =====
-- How many requests `check_rate_limit` of apps/core/rate_limits.py allows while its counter lives.
use palingames.Base.{
  Result, ok, err, ◌≡◌, ◌-◌, refl, ap, ◌∙◌, ℕ, zero, suc, String, Bool, true, false, Option, none,
  some, List, [], ◌∷◌, length, leb, All, arith, if◌then◌else◌,
}
use palingames.Core.RateLimits.{
  Cache, Limit, RateLimitError, RateLimitResult, build_rate_limit_key, check_limit_params,
  check_rate_limit, count_from, counted, result_of,
}

-- The documented behaviour of `add` and `incr` on one key: `value` is its number, and 0 where the key is
-- missing or expired.
pub record IsCounter {S : Type 0} (cache : Cache S) (key : String) (value : S → ℕ) : Type 0 where
  pub add_new :
      (w : ℕ) (s : S)
      → value s ≡ 0
      → ((cache.add key w s).0 ≡ true) × (value (cache.add key w s).1 ≡ 1)
  pub add_old : (w n : ℕ) (s : S) → value s ≡ suc n → cache.add key w s ≡ (false, s)
  pub incr_old :
      (n : ℕ) (s : S)
      → value s ≡ suc n
      → ((cache.incr key s).0 ≡ some (suc (suc n))) × (value (cache.incr key s).1 ≡ suc (suc n))

-- What others do leaves the counter alone, and it does not expire.
abbrev pub Keeps : {S : Type 0} → (S → ℕ) → (S → S) → Type 0
Keeps {S} value tick = (s : S) → value (tick s) ≡ value s

abbrev pub lesser : ℕ → ℕ → ℕ
lesser a b = if leb a b then a else b

module _ (hash : String → String) {S : Type 0} (cache : Cache S) (l : Limit) (between : S → S) where
  abbrev pub and_next : (S → ℕ) → Result RateLimitError (RateLimitResult × S) → ℕ
  and_next next (ok (r, s)) = let rest = next s in if r.allowed then suc rest else rest
  and_next next (err e) = 0

  -- The requests that are allowed, of one after each of the ticks.
  unfoldable pub allowed_in : List (S → S) → S → ℕ
  unfolding check_rate_limit
  allowed_in [] s = 0
  allowed_in (tick ∷ ticks) s =
      and_next (allowed_in ticks) (check_rate_limit cache hash l between (tick s))

  abbrev pub key_of : String
  key_of = build_rate_limit_key hash l.scope l.identifier l.window_seconds

  module _ {value : S → ℕ} (counter : IsCounter cache key_of value)
      (kept : Keeps value between) where
    -- The count and the state of a check.
    IsNext : ℕ → ℕ × S → Type 0
    IsNext n (m, s) = (m ≡ suc n) × (value s ≡ suc n)

    count-IsNext :
        (n : ℕ) (s : S)
        → value s ≡ n
        → IsNext n
            (count_from cache key_of l.window_seconds between (cache.add key_of l.window_seconds s))
    unfolding IsNext
    count-IsNext zero s e =
        go (cache.add key_of l.window_seconds s) (counter.add_new l.window_seconds s e)
      where
        go :
            (a : Bool × S)
            → (a.0 ≡ true) × (value a.1 ≡ 1)
            → IsNext 0 (count_from cache key_of l.window_seconds between a)
        go (true, s') h = (refl, h.1)
        go (false, s') h = cc
    count-IsNext (suc n) s e =
        rw (counter.add_old l.window_seconds n s e)
          (go (cache.incr key_of (between s)) (counter.incr_old n (between s) (kept s ∙ e)))
      where
        go :
            (a : Option ℕ × S)
            → (a.0 ≡ some (suc (suc n))) × (value a.1 ≡ suc (suc n))
            → IsNext (suc n) (counted cache key_of l.window_seconds a)
        go (some m, s') h = (cc, h.1)
        go (none, s') h = cc

    -- The answer of a check of a counter that stands at `n`.
    IsChecked : ℕ → Result RateLimitError (RateLimitResult × S) → Type 0
    IsChecked n (ok (r, s)) = (r.allowed ≡ leb (suc n) l.limit) × (value s ≡ suc n)
    IsChecked n (err e) = ⊥

    check-IsChecked :
        (n : ℕ) (s : S)
        → check_limit_params l.identifier l.limit l.window_seconds ≡ ok tt
        → value s ≡ n
        → IsChecked n (check_rate_limit cache hash l between s)
    unfolding check_rate_limit IsChecked IsNext
    check-IsChecked n s valid e = rw valid (
        go (count_from cache key_of l.window_seconds between (cache.add key_of l.window_seconds s))
          (count-IsNext n s e))
      where
        go : (c : ℕ × S) → IsNext n c → IsChecked n (ok (result_of cache key_of l c))
        go (m, s') h = (ap (λ (k : ℕ). leb k l.limit) h.0, h.1)

    allowed-and_next :
        (ticks : List (S → S)) (n : ℕ) (m : Result RateLimitError (RateLimitResult × S))
        → IsChecked n m
        → ((s : S) → value s ≡ suc n → allowed_in ticks s ≡ lesser (length ticks) (l.limit - suc n))
        → and_next (allowed_in ticks) m ≡ lesser (suc (length ticks)) (l.limit - n)
    unfolding IsChecked
    allowed-and_next ticks n (ok (r, s)) c rest = ground (arith, c.0, rest s c.1)
    allowed-and_next ticks n (err e) c rest = absurd c

    allowed_in-lesser :
        (ticks : List (S → S)) (s : S)
        → check_limit_params l.identifier l.limit l.window_seconds ≡ ok tt
        → All (Keeps value) ticks
        → allowed_in ticks s ≡ lesser (length ticks) (l.limit - value s)
    unfolding allowed_in
    allowed_in-lesser [] s valid keep = ground arith
    allowed_in-lesser (tick ∷ ticks) s valid keep =
        allowed-and_next ticks (value s) (check_rate_limit cache hash l between (tick s))
          (check-IsChecked (value s) (tick s) valid (keep.0 s))
          (λ t e.
            allowed_in-lesser ticks t valid keep.1
            ∙ ap (λ (k : ℕ). lesser (length ticks) (l.limit - k)) e)

-- While a counter lives and only its own checks count, the requests that are allowed are as many as
-- there are, or as the limit leaves after those that were counted before, whichever is less.
pub check_rate_limit-allowed :
    (hash : String → String) {S : Type 0} (cache : Cache S) (l : Limit) (between : S → S)
    {value : S → ℕ} (ticks : List (S → S)) (s : S)
    → IsCounter cache (key_of hash cache l between) value
    → Keeps value between
    → All (Keeps value) ticks
    → check_limit_params l.identifier l.limit l.window_seconds ≡ ok tt
    → allowed_in hash cache l between ticks s ≡ lesser (length ticks) (l.limit - value s)
check_rate_limit-allowed hash cache l between {value} ticks s counter kept keep valid =
    allowed_in-lesser hash cache l between {value = value} counter kept ticks s valid keep
