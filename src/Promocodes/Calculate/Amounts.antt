-- ===== src/Promocodes/Calculate/Amounts.antt =====
-- `calculate_percent_discount` of apps/promocodes/services.py: its rounding, and the discounts of the
-- items of an order against the discount of their sum.
use palingames.Base.{ℕ, ◌+◌, ◌*◌, ◌≤◌, List, [], ◌∷◌, arith, length, sum_by}
use palingames.Products.{Product}
use palingames.Promocodes.Calculate.{calculate_percent_discount, price_of}

-- The discount in cents is the exact one within half a cent, and half a cent is rounded up.
pub calculate_percent_discount_rounding :
    (amount percent : ℕ)
    → (100 * calculate_percent_discount amount percent ≤ amount * percent + 50)
      × (amount * percent + 50 ≤ 100 * calculate_percent_discount amount percent + 99)
unfolding calculate_percent_discount
calculate_percent_discount_rounding amount percent = omega arith

-- A percentage of at most 100 takes off at most the amount.
pub calculate_percent_discount-le :
    (amount percent : ℕ) → percent ≤ 100 → calculate_percent_discount amount percent ≤ amount
calculate_percent_discount-le amount percent h =
    grind (arith, calculate_percent_discount_rounding amount percent)

-- The discounts of the items, each rounded by itself.
abbrev pub item_discounts : ℕ → List Product → ℕ
item_discounts percent = sum_by (λ p. calculate_percent_discount p.price percent)

item_discounts_rounding :
    (percent : ℕ) (products : List Product)
    → (100 * item_discounts percent products
        ≤ sum_by price_of products * percent + 50 * length products)
      × (sum_by price_of products * percent
          ≤ 100 * item_discounts percent products + 49 * length products)
item_discounts_rounding percent [] = (omega arith, omega arith)
item_discounts_rounding percent (p ∷ products) =
    let ih = item_discounts_rounding percent products in
    let r = calculate_percent_discount_rounding p.price percent in
    (omega (arith, ih.0, r.0), omega (arith, ih.1, r.1))

-- The discount of a sum and the sum of the discounts of its n items differ by at most (n + 1) / 2
-- cents: the items' may be larger by that, or smaller by (49 n + 50) / 100.
pub item_discounts_near :
    (percent : ℕ) (products : List Product)
    → let whole = calculate_percent_discount (sum_by price_of products) percent in
      (2 * item_discounts percent products ≤ 2 * whole + length products + 1)
      × (100 * whole ≤ 100 * item_discounts percent products + 49 * length products + 50)
item_discounts_near percent products =
    let ih = item_discounts_rounding percent products in
    let r = calculate_percent_discount_rounding (sum_by price_of products) percent in
    (omega (arith, ih.0, r.1), omega (arith, ih.1, r.0))
