-- ===== src/Promocodes/Calculate.antt =====
-- apps/promocodes/services.py: who may use a code, and the discount. Amounts are whole cents. The
-- row lock of `lock_promo` changes no value and is left out.
pub mod Amounts
pub mod Granted
pub mod Eligible
use palingames.Base.{
  raise_if, Result, ok, err, ◌>>=◌, ◌>>◌, ℕ, ◌+◌, ◌*◌, ◌/◌, ◌-◌, String, Bool, true, false, not,
  ◌&&◌, ◌||◌, Option, none, some, List, [], ◌∷◌, length, filter, find, any, sum_by, count_if, elem,
  ltb, leb, ◌==◌, is_some, option_eq, str_eq, if◌then◌else◌,
}
use palingames.Base.Text.{strip, upper, lower}
use palingames.Products.{Product, Category}
use palingames.Orders.Model.{Order, OrderStatus}
use palingames.Promocodes.Model.{
  PromoCode, PromoCodeRedemption, PromoCodeError, not_found, inactive, not_applicable,
  limit_exceeded, free_purchase, below_minimum, PromoCodeDiscount, PromoValidationOptions,
  PromoTables,
}

unfoldable pub normalize_promo_code : String → String
normalize_promo_code value = upper (strip value)

-- The quotient by 100 in cents, a half rounded up.
unfoldable pub calculate_percent_discount : ℕ → ℕ → ℕ
calculate_percent_discount amount percent = (amount * percent + 50) / 100

-- `_PROMO_USAGE_ORDER_STATUSES`
abbrev pub is_promo_usage : OrderStatus → Bool
is_promo_usage OrderStatus.created = true
is_promo_usage OrderStatus.waiting_for_payment = true
is_promo_usage OrderStatus.paid = true
is_promo_usage OrderStatus.refunded = true
is_promo_usage _ = false

-- `exclude(pk=exclude_order_id)` where an id is given.
abbrev pub is_not_excluded : Option ℕ → ℕ → Bool
is_not_excluded none id = true
is_not_excluded (some excluded) id = not (id == excluded)

unfoldable pub active_promo_usage_orders : PromoCode → Option ℕ → PromoTables → List Order
active_promo_usage_orders promo exclude t =
    filter
      (λ o.
        option_eq o.promo_code_id (some promo.id)
        && is_promo_usage o.status
        && is_not_excluded exclude o.id)
      t.orders

-- The order of a redemption is neither CANCELED nor FAILED, and has no promo code of its own.
abbrev pub is_legacy_order : Option Order → Bool
is_legacy_order none = false
is_legacy_order (some o) =
    not (elim o.status [ OrderStatus.canceled ↦ true | OrderStatus.failed ↦ true | _ ↦ false ])
    && not (is_some o.promo_code_id)

unfoldable pub legacy_redemption_usage :
    PromoCode → Option ℕ → PromoTables → List PromoCodeRedemption
legacy_redemption_usage promo exclude t =
    filter
      (λ r.
        r.promo_code_id == promo.id
        && is_not_excluded exclude r.order_id
        && is_legacy_order (find (λ o. o.id == r.order_id) t.orders))
      t.redemptions

unfoldable pub promo_total_usage_count : PromoCode → Option ℕ → PromoTables → ℕ
unfolding active_promo_usage_orders legacy_redemption_usage
promo_total_usage_count promo exclude t =
    length (active_promo_usage_orders promo exclude t)
    + length (legacy_redemption_usage promo exclude t)

-- `email__iexact`
abbrev pub same_email : String → String → Bool
same_email a b = str_eq (upper a) (upper b)

abbrev pub is_after : Option ℕ → ℕ → Bool
is_after none now = false
is_after (some t) now = ltb now t

abbrev pub is_before : Option ℕ → ℕ → Bool
is_before none now = false
is_before (some t) now = ltb t now

unfoldable pub validate_promo_code_availability :
    ℕ → PromoCode → String → Option ℕ → Result PromoCodeError (Unit {0})
validate_promo_code_availability now promo email user = do
  raise_if (not promo.is_active) inactive
  raise_if (is_after promo.starts_at now) inactive
  raise_if (is_before promo.ends_at now) inactive
  raise_if (is_some promo.assigned_user_id && not (option_eq promo.assigned_user_id user)) not_found
  raise_if (not (str_eq promo.assigned_email "") && not (str_eq promo.assigned_email email))
      not_found

-- `limit is not None and usage >= limit`
abbrev pub is_used_up : Option ℕ → ℕ → Bool
is_used_up none usage = false
is_used_up (some limit) usage = leb limit usage

unfoldable pub user_usage_count : PromoCode → ℕ → Option ℕ → PromoTables → ℕ
unfolding active_promo_usage_orders legacy_redemption_usage
user_usage_count promo user exclude t =
    count_if (λ o. option_eq o.user_id (some user)) (active_promo_usage_orders promo exclude t)
    + count_if (λ r. option_eq r.user_id (some user)) (legacy_redemption_usage promo exclude t)

unfoldable pub email_usage_count : PromoCode → String → Option ℕ → PromoTables → ℕ
unfolding active_promo_usage_orders legacy_redemption_usage
email_usage_count promo email exclude t =
    count_if (λ o. same_email o.email email) (active_promo_usage_orders promo exclude t)
    + count_if (λ r. same_email r.email email) (legacy_redemption_usage promo exclude t)

abbrev pub user_limit_reached : PromoCode → Option ℕ → Option ℕ → PromoTables → Bool
user_limit_reached promo none exclude t = false
user_limit_reached promo (some user) exclude t =
    is_used_up promo.max_redemptions_per_user (user_usage_count promo user exclude t)

unfoldable pub validate_promo_code_limits :
    PromoCode
    → Option ℕ
    → String
    → PromoValidationOptions
    → PromoTables
    → Result PromoCodeError (Unit {0})
unfolding promo_total_usage_count user_usage_count email_usage_count
validate_promo_code_limits promo user email opts t = do
  raise_if
      (is_used_up promo.max_total_redemptions
        (promo_total_usage_count promo opts.exclude_order_id t))
      limit_exceeded
  raise_if (user_limit_reached promo user opts.exclude_order_id t) limit_exceeded
  raise_if
      (opts.require_email_limits
        && not (str_eq email "")
        && is_used_up promo.max_redemptions_per_email
            (email_usage_count promo email opts.exclude_order_id t))
      limit_exceeded

unfoldable pub validate_promo_code_state :
    ℕ
    → PromoCode
    → Option ℕ
    → String
    → PromoValidationOptions
    → PromoTables
    → Result PromoCodeError (Unit {0})
unfolding validate_promo_code_availability validate_promo_code_limits
validate_promo_code_state now promo user email opts t = do
  let normalized_email = lower (strip email)
  validate_promo_code_availability now promo normalized_email user
  validate_promo_code_limits promo user normalized_email opts t

abbrev pub is_nonempty : List ℕ → Bool
is_nonempty [] = false
is_nonempty (x ∷ xs) = true

unfoldable pub has_product_restrictions : PromoCode → Bool
has_product_restrictions promo = is_nonempty promo.categories || is_nonempty promo.products

unfoldable pub is_product_eligible : Product → PromoCode → Bool
is_product_eligible product promo =
    if elem product.id promo.products
    then true
    else if not (is_nonempty promo.categories)
    then not (is_nonempty promo.products)
    else any (λ c. elem c.id promo.categories) product.categories

abbrev pub price_of : Product → ℕ
price_of p = p.price

-- `code__iexact`
abbrev pub has_code : String → PromoCode → Bool
has_code code promo = str_eq (upper promo.code) (upper code)

unfoldable pub eligible_products : PromoCode → List Product → List Product
unfolding has_product_restrictions is_product_eligible
eligible_products promo products =
    if has_product_restrictions promo
    then filter (λ p. is_product_eligible p promo) products
    else products

abbrev pub is_below : Option ℕ → ℕ → Bool
is_below none amount = false
is_below (some minimum) amount = ltb amount minimum

abbrev pub minimum_of : Option ℕ → ℕ
minimum_of none = 0
minimum_of (some m) = m

-- From the promo code on: the checks, and the amounts.
unfoldable pub discount_of :
    ℕ
    → PromoCode
    → List Product
    → Option ℕ
    → String
    → PromoValidationOptions
    → PromoTables
    → Result PromoCodeError PromoCodeDiscount
unfolding validate_promo_code_state eligible_products calculate_percent_discount
discount_of now promo products user email opts t = do
  validate_promo_code_state now promo user email opts t
  let eligible_amount = sum_by price_of (eligible_products promo products)
  raise_if (leb eligible_amount 0) not_applicable
  raise_if (is_below promo.min_order_amount eligible_amount)
      (below_minimum (minimum_of promo.min_order_amount))
  let discount_amount = calculate_percent_discount eligible_amount promo.discount_percent
  raise_if (leb (sum_by price_of products) discount_amount) free_purchase
  ok (record {
    promo_code = promo;
    code = promo.code;
    discount_percent = promo.discount_percent;
    eligible_amount = eligible_amount;
    discount_amount = discount_amount;
  })

unfoldable pub calculate_promo_code_discount :
    ℕ
    → String
    → List Product
    → Option ℕ
    → String
    → PromoValidationOptions
    → PromoTables
    → Result PromoCodeError PromoCodeDiscount
unfolding normalize_promo_code discount_of
calculate_promo_code_discount now code products user email opts t =
    if str_eq (normalize_promo_code code) ""
    then err not_found
    else elim (find (has_code (normalize_promo_code code)) t.promo_codes) [
      | none ↦ err not_found
      | some promo ↦ discount_of now promo products user email opts t
    ]

unfoldable pub create_promo_code_redemption : Order → PromoCodeDiscount → PromoCodeRedemption
create_promo_code_redemption order d = record {
  promo_code_id = d.promo_code.id;
  order_id = order.id;
  user_id = order.user_id;
  email = order.email;
  subtotal_amount = order.subtotal_amount;
  eligible_amount = d.eligible_amount;
  discount_amount = d.discount_amount;
}
