-- ===== src/Base/Results.antt =====
-- A call that may raise: its value, or the error.
use mathlib.Core.Path.{◌≡◌, refl}
use mathlib.Core.Bool.{Bool, true, false}

pub data Result {ℓ} (E A : Type ℓ) : Type ℓ where
  ok : A → Result E A
  err : E → Result E A

-- A call that raises ends its caller.
infixl 5 ◌>>=◌ ◌>>◌
abbrev pub ◌>>=◌ {ℓ} : {E A B : Type ℓ} → Result E A → (A → Result E B) → Result E B
ok a >>= f = f a
err e >>= f = err e

abbrev pub ◌>>◌ {ℓ} : {E B : Type ℓ} → Result E (Unit {ℓ}) → Result E B → Result E B
m >> k = m >>= λ _. k

module _ {E : Type 0} where
  -- `if c: raise e`
  abbrev pub raise_if : Bool → E → Result E (Unit {0})
  raise_if true e = err e
  raise_if false e = ok tt

  pub not_raised : (c : Bool) (e : E) → raise_if c e ≡ ok tt → c ≡ false
  not_raised true e h = cc
  not_raised false e h = refl

  module _ {A : Type 0} where
    pub passed :
        (m : Result E (Unit {0})) {k : Result E A} {a : A}
        → (m >> k) ≡ ok a
        → (m ≡ ok tt) × (k ≡ ok a)
    passed (ok u) h = (refl, h)
    passed (err e) h = cc

    pub returned :
        {B : Type 0} (m : Result E A) {k : A → Result E B} {b : B}
        → (m >>= k) ≡ ok b
        → (a : A) × (m ≡ ok a) × (k a ≡ ok b)
    returned (ok a) h = (a, refl, h)
    returned (err e) h = cc

    pub ok-injective : {a b : A} → ◌≡◌ {A = Result E A} (ok a) (ok b) → a ≡ b
    ok-injective h = cc
