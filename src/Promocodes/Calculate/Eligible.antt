-- ===== src/Promocodes/Calculate/Eligible.antt =====
-- The products that a promo code of apps/promocodes/services.py applies to.
use palingames.Base.{
  ◌≤◌, ◌≡◌, refl, sym, ap, Bool, true, false, List, [], ◌∷◌, arith, filter, sum_by,
  sum_by-filter_le, Bool-cases, inl, inr,
}
use palingames.Products.{Product}
use palingames.Promocodes.Model.{PromoCode}
use palingames.Promocodes.Calculate.{
  has_product_restrictions, is_product_eligible, eligible_products, price_of,
}

filter-all :
    (p : Product → Bool) (xs : List Product) → ((x : Product) → p x ≡ true) → filter p xs ≡ xs
filter-all p [] h = refl
filter-all p (x ∷ xs) h = rw (h x) (ap (λ (r : List Product). x ∷ r) (filter-all p xs h))

unrestricted :
    (promo : PromoCode) (p : Product)
    → has_product_restrictions promo ≡ false
    → is_product_eligible p promo ≡ true
unfolding has_product_restrictions is_product_eligible
unrestricted promo p h = ground arith

-- The products that are counted are exactly the eligible ones, with or without restrictions.
pub eligible_products-eq-filter :
    (promo : PromoCode) (products : List Product)
    → eligible_products promo products ≡ filter (λ p. is_product_eligible p promo) products
unfolding eligible_products
eligible_products-eq-filter promo products = elim (Bool-cases (has_product_restrictions promo)) [
  | inl restricted ↦ rw restricted refl
  | inr free ↦ rw free (sym (filter-all _ products (λ p. unrestricted promo p free)))
]

pub eligible_amount-le :
    (promo : PromoCode) (products : List Product)
    → sum_by price_of (eligible_products promo products) ≤ sum_by price_of products
eligible_amount-le promo products =
    rw (eligible_products-eq-filter promo products)
      (sum_by-filter_le price_of (λ p. is_product_eligible p promo) products)
