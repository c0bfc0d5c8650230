-- ===== src/Base/Sorts.antt =====
-- `order_by` and slices: a stable insertion sort, the first elements of a list, and lists that have the
-- elements with a property in front.
use Prim.Native.Nat.{ℕ, zero, suc, ◌≤◌}
use mathlib.Core.Path.{◌≡◌, refl}
use mathlib.Core.Logic.{◌⊎◌, inl, inr}
use mathlib.Core.Bool.{Bool, true, false}
use mathlib.Core.List.{List, [], ◌∷◌}
use native.Mathlib.Omega.{arith}
use palingames.Base.Tests.{if◌then◌else◌, Bool-cases}
use palingames.Base.Lists.{All, count_if, length}

module _ {ℓ} {A : Type ℓ} where
  pub insert_by : (A → A → Bool) → A → List A → List A
  insert_by before x [] = x ∷ []
  insert_by before x (y ∷ ys) =
      let rest = insert_by before x ys in if before y x then y ∷ rest else x ∷ y ∷ ys

  unfoldable pub sort_by : (A → A → Bool) → List A → List A
  unfolding insert_by
  sort_by before [] = []
  sort_by before (x ∷ xs) = insert_by before x (sort_by before xs)

  -- `xs[:n]`
  abbrev pub first_of : ℕ → List A → List A
  first_of zero xs = []
  first_of (suc n) [] = []
  first_of (suc n) (x ∷ xs) = x ∷ first_of n xs

  count_if-insert_by :
      (before : A → A → Bool) (p : A → Bool) (x : A) (ys : List A)
      → count_if p (insert_by before x ys) ≡ count_if p (x ∷ ys)
  unfolding insert_by
  count_if-insert_by before p x [] = refl
  count_if-insert_by before p x (y ∷ ys) = ground (arith, count_if-insert_by before p x ys)

  pub count_if-sort_by :
      (before : A → A → Bool) (p : A → Bool) (xs : List A)
      → count_if p (sort_by before xs) ≡ count_if p xs
  unfolding sort_by
  count_if-sort_by before p [] = refl
  count_if-sort_by before p (x ∷ xs) =
      ground
        (arith, count_if-insert_by before p x (sort_by before xs), count_if-sort_by before p xs)

  pub length-first_of : (n : ℕ) (xs : List A) → length (first_of n xs) ≤ n
  length-first_of zero xs = omega arith
  length-first_of (suc n) [] = omega arith
  length-first_of (suc n) (x ∷ xs) = omega (arith, length-first_of n xs)

  pub All-first_of {κ} : (P : A → Type κ) (n : ℕ) (xs : List A) → All P xs → All P (first_of n xs)
  All-first_of P zero xs h = tt
  All-first_of P (suc n) [] h = tt
  All-first_of P (suc n) (x ∷ xs) h = (h.0, All-first_of P n xs h.1)

  -- The elements with the property stand before all others.
  abbrev pub IsFront : (A → Bool) → List A → Type 0
  IsFront p [] = Unit
  IsFront p (x ∷ xs) = ((p x ≡ true) × IsFront p xs) ⊎ (count_if p (x ∷ xs) ≡ 0)

  insert_by-IsFront :
      (before : A → A → Bool) (p : A → Bool)
      → ((x y : A) → p x ≡ true → p y ≡ false → (before x y ≡ true) × (before y x ≡ false))
      → (x : A) (ys : List A) → IsFront p ys
      → IsFront p (insert_by before x ys)
  unfolding insert_by
  insert_by-IsFront before p h x [] f = elim (Bool-cases (p x)) [
    | inl yes_p ↦ inl (yes_p, tt)
    | inr no_p ↦ inr (ground (arith, no_p))
  ]
  insert_by-IsFront before p h x (y ∷ ys) (inl (py, f)) = elim (Bool-cases (before y x)) [
    | inl later ↦ rw later (inl (py, insert_by-IsFront before p h x ys f))
    | inr earlier ↦ rw earlier (elim (Bool-cases (p x)) [
      | inl px ↦ inl (px, inl (py, f))
      | inr not_px ↦ absurd (ground (arith, earlier, h y x py not_px))
    ])
  ]
  insert_by-IsFront before p h x (y ∷ ys) (inr none_p) = elim (Bool-cases (p x)) [
    | inl px ↦ rw ((h x y px (ground (arith, none_p))).1) (inl (px, inr none_p))
    | inr not_px ↦ elim (Bool-cases (before y x)) [
      | inl later ↦
          rw later (inr (ground (arith, none_p, not_px, count_if-insert_by before p x ys)))
      | inr earlier ↦ rw earlier (inr (ground (arith, none_p, not_px)))
    ]
  ]

  pub sort_by-IsFront :
      (before : A → A → Bool) (p : A → Bool)
      → ((x y : A) → p x ≡ true → p y ≡ false → (before x y ≡ true) × (before y x ≡ false))
      → (xs : List A) → IsFront p (sort_by before xs)
  unfolding sort_by
  sort_by-IsFront before p h [] = tt
  sort_by-IsFront before p h (x ∷ xs) =
      insert_by-IsFront before p h x (sort_by before xs) (sort_by-IsFront before p h xs)

  -- A slice no longer than the elements in front has only those.
  pub All-first_of-IsFront :
      (p : A → Bool) (n : ℕ) (xs : List A)
      → IsFront p xs
      → n ≤ count_if p xs
      → All (λ x. p x ≡ true) (first_of n xs)
  All-first_of-IsFront p zero xs f h = tt
  All-first_of-IsFront p (suc n) [] f h = tt
  All-first_of-IsFront p (suc n) (x ∷ xs) (inl (px, f)) h =
      (px, All-first_of-IsFront p n xs f (ground (arith, px, h)))
  All-first_of-IsFront p (suc n) (x ∷ xs) (inr none_p) h = absurd (omega (arith, none_p, h))
