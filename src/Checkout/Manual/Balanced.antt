-- ===== src/Checkout/Manual/Balanced.antt =====
-- `recalculate_manual_order_from_items` of apps/orders/services.py: the header of the order against its
-- items, and the rows that are left alone.
pub mod Discounts
use palingames.Base.{
  Result, ok, err, returned, ok-injective, ℕ, zero, suc, ◌≡◌, ◌≤◌, ◌+◌, ◌*◌, refl, sym, ap, ◌∙◌,
  subst, String, Bool, true, false, Option, none, some, List, [], ◌∷◌, ◌++◌, map, filter, find,
  sum_by, or_else, All, arith, if◌then◌else◌, ◌==◌,
}
use palingames.Products.{Product}
use palingames.Orders.Model.{Order, OrderItem, OrderStatus}
use palingames.Promocodes.Model.{PromoCode, PromoCodeDiscount, PromoCodeError}
use palingames.Promocodes.Calculate.{
  is_product_eligible, price_of, calculate_percent_discount, calculate_promo_code_discount,
}
use palingames.Promocodes.Calculate.Amounts.{calculate_percent_discount-le}
use palingames.Promocodes.Calculate.Eligible.{eligible_products-eq-filter}
use palingames.Promocodes.Calculate.Granted.{IsSound, calculate_promo_code_discount-IsSound}
use palingames.Cart.Request.{Shop}
use palingames.Checkout.Services.{is_product_eligible_for_discount, tables_of}
use palingames.Checkout.Amounts.{
  IsLine, HasValidPercents, line_total, is_flagged, filter-agree, filter_none, not_eligible,
  find-valid, is_product_eligible_for_discount-eq,
}
use palingames.Checkout.Create.{snapshot}
use palingames.Checkout.Manual
use palingames.Checkout.Manual.Balanced.Discounts.{
  IsRecalculated, IsResolved, discounts-le, flagged_total, manual_order_resolve_promo-IsResolved,
  saved-IsLine,
}

recalculated-IsRecalculated :
    (image : String) (d : Option PromoCodeDiscount) (lines : List Manual.Line) (order : Order)
    → IsResolved (Manual.manual_order_expanded_products lines) d
    → IsRecalculated (Manual.recalculated image d lines order)
unfolding Manual.recalculated
recalculated-IsRecalculated image d lines order r =
    let good = saved-IsLine image d lines r.percent in
    let items = map (Manual.manual_order_save_line_item image d) lines in
    record {
      subtotal = refl;
      discount = refl;
      total = omega (arith, discounts-le items good);
      eligible = r.eligible ∙ sym (flagged_total image d lines);
      count = refl;
      lines = good;
    }

cleared-IsRecalculated : (order : Order) → order.items ≡ [] → IsRecalculated (Manual.cleared order)
cleared-IsRecalculated order h = record {
  subtotal = sym (ap (sum_by line_total) h);
  discount = sym (ap Manual.sum_of_discounts h);
  total = omega arith;
  eligible = sym (ap (λ (items : List OrderItem). sum_by line_total (filter is_flagged items)) h);
  count = sym (ap (sum_by (λ (i : OrderItem). i.quantity)) h);
  lines = subst (All IsLine) (sym h) tt;
}

find-saved :
    (id : ℕ) (order : Order) (orders : List Order) {o : Order}
    → order.id ≡ id
    → find (Manual.is_order id) orders ≡ some o
    → find (Manual.is_order id) (Manual.save_order order orders) ≡ some order
find-saved id order [] e h = cc
find-saved id order (x ∷ orders) {o} e h =
    ground (arith, e, h, find-saved id order orders {o = o} e)

find-id :
    (id : ℕ) (orders : List Order) {o : Order}
    → find (Manual.is_order id) orders ≡ some o
    → o.id ≡ id
find-id id [] h = cc
find-id id (x ∷ orders) {o} h = ground (arith, h, find-id id orders {o = o})

-- The order that is found under the id afterwards is recalculated.
unfoldable pub HasRecalculated : ℕ → Shop → Type 0
HasRecalculated id shop =
    (o : Order) × (find (Manual.is_order id) shop.orders ≡ some o) × IsRecalculated o

module _ (now : ℕ) (image : String) (id : ℕ) (shop : Shop) {order : Order}
    (found : find (Manual.is_order id) shop.orders ≡ some order)
    (valid : HasValidPercents shop.promo_codes) where
  items-HasRecalculated :
      (items : List OrderItem) {shop' : Shop}
      → order.items ≡ items
      → Manual.recalculate_items now image order shop items ≡ ok shop'
      → HasRecalculated id shop'
  unfolding HasRecalculated Manual.manual_order_clear_totals Manual.manual_order_write
  items-HasRecalculated [] {shop'} e h =
      subst (λ (s : Shop). HasRecalculated id s) (ok-injective h)
        (
          Manual.cleared order,
          find-saved id (Manual.cleared order) shop.orders (find-id id shop.orders found) found,
          cleared-IsRecalculated order e,
        )
  items-HasRecalculated (item ∷ items) {shop'} e h =
      let (lines, validated, h1) =
        returned (Manual.manual_order_validate_items shop.products (item ∷ items)) h in
      let expanded = Manual.manual_order_expanded_products lines in
      let (d, resolved, h2) =
        returned (Manual.manual_order_resolve_promo now order expanded shop) h1 in
      let order' = Manual.recalculated image d lines order in
      subst (λ (s : Shop). HasRecalculated id s) (ok-injective h2)
        (
          order',
          find-saved id order' shop.orders (find-id id shop.orders found) found,
          recalculated-IsRecalculated image d lines order
              (manual_order_resolve_promo-IsResolved now order expanded shop d valid resolved),
        )

-- After a recalculation of an order that is CREATED, the order under its id has the sums of its items'
-- totals, discounts, eligible totals and quantities; total and discount make up the subtotal, and each
-- item's total is its price times its quantity and splits into its discount and the rest.
pub recalculate_manual_order_from_items-HasRecalculated :
    (now : ℕ) (image : String) (id : ℕ) (shop : Shop) {order : Order} {shop' : Shop}
    → HasValidPercents shop.promo_codes
    → find (Manual.is_order id) shop.orders ≡ some order
    → order.status ≡ OrderStatus.created
    → Manual.recalculate_manual_order_from_items now image id shop ≡ ok shop'
    → HasRecalculated id shop'
unfolding Manual.recalculate_manual_order_from_items
recalculate_manual_order_from_items-HasRecalculated now image id shop {order} {shop'} v f c h =
    items-HasRecalculated now image id shop f v order.items refl (
      subst
        (λ (st : OrderStatus).
          (if Manual.is_created st
            then Manual.recalculate_items now image order shop order.items
            else ok shop)
          ≡ ok shop')
        c (subst (λ (o : Option Order). Manual.recalculate_found now image shop o ≡ ok shop') f h))
