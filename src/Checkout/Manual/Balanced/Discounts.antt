-- ===== src/Checkout/Manual/Balanced/Discounts.antt =====
-- 200
use palingames.Base.{
  Result, ok, err, ok-injective, ℕ, zero, suc, ◌≡◌, ◌≤◌, ◌+◌, ◌*◌, refl, sym, ap, ◌∙◌, subst,
  String, Bool, true, false, Option, none, some, List, [], ◌∷◌, ◌++◌, map, filter, find, sum_by,
  or_else, All, arith, if◌then◌else◌, ◌==◌,
}
use palingames.Products.{Product}
use palingames.Orders.Model.{Order, OrderItem}
use palingames.Promocodes.Model.{PromoCode, PromoCodeDiscount, PromoCodeError}
use palingames.Promocodes.Calculate.{
  is_product_eligible, price_of, calculate_percent_discount, calculate_promo_code_discount,
}
use palingames.Promocodes.Calculate.Amounts.{calculate_percent_discount-le}
use palingames.Promocodes.Calculate.Eligible.{eligible_products-eq-filter}
use palingames.Promocodes.Calculate.Granted.{IsSound, calculate_promo_code_discount-IsSound}
use palingames.Cart.Request.{Shop}
use palingames.Checkout.Services.{is_product_eligible_for_discount, tables_of}
use palingames.Checkout.Amounts.{
  IsLine, HasValidPercents, line_total, is_flagged, filter-agree, filter_none, not_eligible,
  find-valid, is_product_eligible_for_discount-eq,
}
use palingames.Checkout.Create.{snapshot}
use palingames.Checkout.Manual

-- The header of an order is that of its items, discounts line by line.
pub record IsRecalculated (o : Order) : Type 0 where
  pub subtotal : o.subtotal_amount ≡ sum_by line_total o.items
  pub discount : o.discount_amount ≡ Manual.sum_of_discounts o.items
  pub total : o.total_amount + o.discount_amount ≡ o.subtotal_amount
  pub eligible : o.promo_eligible_amount ≡ sum_by line_total (filter is_flagged o.items)
  pub count : o.items_count ≡ sum_by (λ (i : OrderItem). i.quantity) o.items
  pub lines : All IsLine o.items

abbrev percent_of : Option PromoCodeDiscount → ℕ
percent_of none = 0
percent_of (some d) = d.discount_percent

times_le : (a b n : ℕ) → a ≤ b → a * n ≤ b * n
times_le a b zero h = omega arith
times_le a b (suc n) h = omega (arith, times_le a b n h, h)

sum_of_repeated :
    (q : Product → Bool) (n : ℕ) (p : Product) (ps : List Product)
    → sum_by price_of (filter q (Manual.repeated n p ++ ps))
      ≡ (if q p then p.price * n else 0) + sum_by price_of (filter q ps)
sum_of_repeated q zero p ps = ground arith
sum_of_repeated q (suc n) p ps = ground (arith, sum_of_repeated q n p ps)

module _ (image : String) (d : Option PromoCodeDiscount) where
  pub flagged_total :
      (lines : List Manual.Line)
      → sum_by line_total
          (filter is_flagged (map (Manual.manual_order_save_line_item image d) lines))
        ≡ sum_by price_of (
            filter
              (λ p. is_product_eligible_for_discount p d)
              (Manual.manual_order_expanded_products lines))
  unfolding Manual.manual_order_save_line_item Manual.manual_order_expanded_products
  flagged_total [] = refl
  flagged_total ((p, item) ∷ lines) = ground (
    arith,
    flagged_total lines,
    sum_of_repeated (λ p. is_product_eligible_for_discount p d) item.quantity p
        (Manual.manual_order_expanded_products lines),
  )

  discounted-IsLine :
      (p : Product) (item : OrderItem)
      → percent_of d ≤ 100
      → IsLine (Manual.manual_order_save_line_item image d (p, item))
  unfolding Manual.manual_order_save_line_item
  discounted-IsLine p item h = go (is_product_eligible_for_discount p d) d h
    where
      go :
          (eligible : Bool) (d : Option PromoCodeDiscount)
          → percent_of d ≤ 100
          → let split = Manual.line_discount d eligible p.price item.quantity in
            (p.price * item.quantity ≡ p.price * item.quantity)
            × (split.0 + or_else split.1 (p.price * item.quantity) ≡ p.price * item.quantity)
      go true none h = omega arith
      go false none h = omega arith
      go false (some d) h = omega arith
      go true (some d) h = omega (
        arith,
        times_le (calculate_percent_discount p.price d.discount_percent) p.price item.quantity
            (calculate_percent_discount-le p.price d.discount_percent h),
      )

  pub saved-IsLine :
      (lines : List Manual.Line)
      → percent_of d ≤ 100
      → All IsLine (map (Manual.manual_order_save_line_item image d) lines)
  saved-IsLine [] h = tt
  saved-IsLine ((p, item) ∷ lines) h = (discounted-IsLine p item h, saved-IsLine lines h)

pub discounts-le :
    (items : List OrderItem)
    → All IsLine items
    → Manual.sum_of_discounts items ≤ sum_by line_total items
discounts-le [] h = omega arith
discounts-le (i ∷ items) h = omega (arith, h.0.1, discounts-le items h.1)

-- What the promo code of an order allows on its products.
pub record IsResolved (expanded : List Product) (d : Option PromoCodeDiscount) : Type 0 where
  pub percent : percent_of d ≤ 100
  pub eligible :
      (snapshot d).eligible_amount
      ≡ sum_by price_of (filter (λ p. is_product_eligible_for_discount p d) expanded)

none-IsResolved : (expanded : List Product) → IsResolved expanded none
none-IsResolved expanded = record {
  percent = omega arith;
  eligible = sym (
      ap (sum_by price_of) (
        filter-agree (λ p. is_product_eligible_for_discount p none) (λ p. false) expanded
          not_eligible
        ∙ filter_none expanded));
}

sound-IsResolved :
    (expanded : List Product) (d : PromoCodeDiscount)
    → d.promo_code.discount_percent ≤ 99
    → IsSound expanded d
    → IsResolved expanded (some d)
sound-IsResolved expanded d v sound = record {
  percent = omega (arith, v, sound.percent);
  eligible =
      sound.eligible
      ∙ ap (sum_by price_of) (
          eligible_products-eq-filter d.promo_code expanded
          ∙ sym (
              filter-agree (λ p. is_product_eligible_for_discount p (some d))
                (λ p. is_product_eligible p d.promo_code) expanded
                (λ p. is_product_eligible_for_discount-eq p d)));
}

promo_or_invalid-IsResolved :
    {expanded : List Product} (m : Result PromoCodeError PromoCodeDiscount)
    {d : Option PromoCodeDiscount}
    → ((d' : PromoCodeDiscount) → m ≡ ok d' → IsResolved expanded (some d'))
    → Manual.promo_or_invalid m ≡ ok d
    → IsResolved expanded d
promo_or_invalid-IsResolved {expanded} (ok d') sound h =
    subst (λ (d : Option PromoCodeDiscount). IsResolved expanded d) (ok-injective h) (sound d' refl)
promo_or_invalid-IsResolved (err e) sound h = cc

module _ (now : ℕ) (order : Order) (expanded : List Product) (shop : Shop) where
  resolve-IsResolved :
      (promo : Option PromoCode) (d : Option PromoCodeDiscount)
      → HasValidPercents shop.promo_codes
      → Manual.resolve now order expanded shop promo ≡ ok d
      → IsResolved expanded d
  resolve-IsResolved none d v h = cc
  resolve-IsResolved (some promo) d v h =
      promo_or_invalid-IsResolved
        (calculate_promo_code_discount now promo.code expanded order.user_id order.email
          (record { require_email_limits = true; exclude_order_id = some order.id })
          (tables_of shop))
        (λ d' e. go promo.code d' e) h
    where
      go :
          (code : String) (d' : PromoCodeDiscount)
          → calculate_promo_code_discount now code expanded order.user_id order.email
              (record { require_email_limits = true; exclude_order_id = some order.id })
              (tables_of shop)
            ≡ ok d'
          → IsResolved expanded (some d')
      go code d' e =
          let sound =
            calculate_promo_code_discount-IsSound now code expanded order.user_id order.email
              (record { require_email_limits = true; exclude_order_id = some order.id })
              (tables_of shop) {d = d'} e in
          sound-IsResolved expanded d'
            (find-valid _ shop.promo_codes {promo = d'.promo_code} v sound.0) sound.2

  pub manual_order_resolve_promo-IsResolved :
      (d : Option PromoCodeDiscount)
      → HasValidPercents shop.promo_codes
      → Manual.manual_order_resolve_promo now order expanded shop ≡ ok d
      → IsResolved expanded d
  unfolding Manual.manual_order_resolve_promo
  manual_order_resolve_promo-IsResolved d v h = go order.promo_code_id h
    where
      go :
          (id : Option ℕ)
          → Manual.resolve_by now order expanded shop id ≡ ok d
          → IsResolved expanded d
      go none g =
          subst (λ (d : Option PromoCodeDiscount). IsResolved expanded d) (ok-injective g)
            (none-IsResolved expanded)
      go (some id) g =
          resolve-IsResolved (find (λ (p : PromoCode). p.id == id) shop.promo_codes) d v g
