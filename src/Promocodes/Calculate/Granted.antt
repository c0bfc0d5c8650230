-- ===== src/Promocodes/Calculate/Granted.antt =====
-- What a discount of `calculate_promo_code_discount` of apps/promocodes/services.py has passed.
use palingames.Base.{
  raise_if, not_raised, passed, ok-injective, Result, ok, err, ◌>>◌, ℕ, ◌≤◌, ◌<◌, ◌⊎◌, ◌&&◌, ◌≡◌,
  refl, sym, subst, ap, ◌∙◌, if◌then◌else◌, leb, String, Bool, true, false, not, Option, none, some,
  List, arith, sum_by, find, str_eq,
}
use palingames.Base.Text.{strip, lower}
use palingames.Products.{Product}
use palingames.Promocodes.Model.{
  PromoCode, PromoCodeError, PromoCodeDiscount, PromoValidationOptions, PromoTables, not_found,
  not_applicable, below_minimum, free_purchase,
}
use palingames.Promocodes.Calculate.{
  normalize_promo_code, calculate_percent_discount, promo_total_usage_count, user_usage_count,
  email_usage_count, validate_promo_code_availability, validate_promo_code_limits,
  validate_promo_code_state, eligible_products, price_of, discount_of, has_code,
  calculate_promo_code_discount, is_below, minimum_of,
}
use palingames.Promocodes.Calculate.Eligible.{eligible_amount-le}

-- The value, where there is one, has the property.
abbrev pub Given : (ℕ → Type 0) → Option ℕ → Type 0
Given P none = Unit
Given P (some n) = P n

-- The promo code may be used now by this user with this address.
pub record MayUse (now : ℕ) (promo : PromoCode) (user : Option ℕ) (email : String)
    (opts : PromoValidationOptions) (t : PromoTables) : Type 0 where
  pub active : promo.is_active ≡ true
  pub started : Given (λ at. at ≤ now) promo.starts_at
  pub not_ended : Given (λ at. now ≤ at) promo.ends_at
  pub own : Given (λ owner. user ≡ some owner) promo.assigned_user_id
  pub own_email :
      ((str_eq promo.assigned_email "") ≡ true)
      ⊎ (str_eq promo.assigned_email (lower (strip email)) ≡ true)
  pub total :
      Given
        (λ limit. promo_total_usage_count promo opts.exclude_order_id t < limit)
        promo.max_total_redemptions
  pub per_user :
      Given
        (λ limit. Given (λ id. user_usage_count promo id opts.exclude_order_id t < limit) user)
        promo.max_redemptions_per_user
  pub per_email :
      ((opts.require_email_limits && not (str_eq (lower (strip email)) "")) ≡ false)
      ⊎ Given
          (λ limit. email_usage_count promo (lower (strip email)) opts.exclude_order_id t < limit)
          promo.max_redemptions_per_email

module _ (now : ℕ) (promo : PromoCode) (user : Option ℕ) (email : String)
    (opts : PromoValidationOptions) (t : PromoTables) where
  validate-MayUse :
      validate_promo_code_state now promo user email opts t ≡ ok tt
      → MayUse now promo user email opts t
  unfolding validate_promo_code_state validate_promo_code_availability validate_promo_code_limits
  validate-MayUse h = record {
    active = ground arith;
    started = ground arith;
    not_ended = ground arith;
    own = ground arith;
    own_email = ground arith;
    total = ground arith;
    per_user = ground arith;
    per_email = ground arith;
  }

-- A discount `d` on `products`: what it states, and that it leaves something to pay.
pub record IsSound (products : List Product) (d : PromoCodeDiscount) : Type 0 where
  pub eligible : d.eligible_amount ≡ sum_by price_of (eligible_products d.promo_code products)
  pub positive : 0 < d.eligible_amount
  pub within : d.eligible_amount ≤ sum_by price_of products
  pub minimum : Given (λ m. m ≤ d.eligible_amount) d.promo_code.min_order_amount
  pub amount :
      d.discount_amount ≡ calculate_percent_discount d.eligible_amount d.promo_code.discount_percent
  pub percent : d.discount_percent ≡ d.promo_code.discount_percent
  pub not_free : d.discount_amount < sum_by price_of products

refused :
    {A : Type 0} (c : Bool) (e : PromoCodeError) {k : Result PromoCodeError A} {a : A}
    → (raise_if c e >> k) ≡ ok a
    → (c ≡ false) × (k ≡ ok a)
refused c e h = let p = passed (raise_if c e) h in (not_raised c e p.0, p.1)

module _ (now : ℕ) (promo : PromoCode) (products : List Product) (user : Option ℕ) (email : String)
    (opts : PromoValidationOptions) (t : PromoTables) where
  discount_of-IsSound :
      {d : PromoCodeDiscount}
      → discount_of now promo products user email opts t ≡ ok d
      → (d.promo_code ≡ promo) × MayUse now promo user email opts t × IsSound products d
  unfolding discount_of
  discount_of-IsSound {d} h =
      let valid = passed (validate_promo_code_state now promo user email opts t) h in
      let amount : ℕ = sum_by price_of (eligible_products promo products) in
      let some_amount = refused (leb amount 0) not_applicable valid.1 in
      let enough =
        refused (is_below promo.min_order_amount amount)
          (below_minimum (minimum_of promo.min_order_amount)) some_amount.1 in
      let paid =
        refused
          (leb (sum_by price_of products)
            (calculate_percent_discount amount promo.discount_percent))
          free_purchase enough.1 in
      subst
        (λ (x : PromoCodeDiscount).
          (x.promo_code ≡ promo) × MayUse now promo user email opts t × IsSound products x)
        (ok-injective paid.1)
        (
          refl,
          validate-MayUse now promo user email opts t valid.0,
          record {
            eligible = refl;
            positive = ground (arith, some_amount.0);
            within = eligible_amount-le promo products;
            minimum = ground (arith, enough.0);
            amount = refl;
            percent = refl;
            not_free = ground (arith, paid.0);
          },
        )

  found-IsSound :
      (code : String) {d : PromoCodeDiscount}
      → find (has_code code) t.promo_codes ≡ some promo
      → discount_of now promo products user email opts t ≡ ok d
      → (find (has_code code) t.promo_codes ≡ some d.promo_code)
        × MayUse now d.promo_code user email opts t
        × IsSound products d
  found-IsSound code {d} found given =
      let sound = discount_of-IsSound {d = d} given in
      (
        found ∙ ap some {x = promo} {y = d.promo_code} (sym {b = promo} sound.0),
        subst (λ (p : PromoCode). MayUse now p user email opts t) {x = promo}
            (sym {b = promo} sound.0) sound.1,
        sound.2,
      )

-- A discount is given only for a code that the user may use now, within all its limits; its amounts
-- are those of the eligible products, at least the minimum of the code, and something is left to pay.
pub calculate_promo_code_discount-IsSound :
    (now : ℕ) (code : String) (products : List Product) (user : Option ℕ) (email : String)
    (opts : PromoValidationOptions) (t : PromoTables) {d : PromoCodeDiscount}
    → calculate_promo_code_discount now code products user email opts t ≡ ok d
    → (find (has_code (normalize_promo_code code)) t.promo_codes ≡ some d.promo_code)
      × MayUse now d.promo_code user email opts t
      × IsSound products d
unfolding calculate_promo_code_discount
calculate_promo_code_discount-IsSound now code products user email opts t {d} h =
    let (promo, found, given) =
      go (str_eq (normalize_promo_code code) "")
        (find (has_code (normalize_promo_code code)) t.promo_codes) h in
    found-IsSound now promo products user email opts t (normalize_promo_code code) found given
  where
    go :
        (empty : Bool) (found : Option PromoCode)
        → (if empty then err not_found else elim found [
          | none ↦ err not_found
          | some promo ↦ discount_of now promo products user email opts t
        ])
          ≡ ok d
        → (promo : PromoCode) × (found ≡ some promo)
          × (discount_of now promo products user email opts t ≡ ok d)
    go true found h = cc
    go false none h = cc
    go false (some promo) h = (promo, refl, h)
