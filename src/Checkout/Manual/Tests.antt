-- ===== src/Checkout/Manual/Tests.antt =====
-- Inputs for the recalculation of a manual order: three of the product 3 and one of the product 4, with
-- the code of 10 percent for the first.
use palingames.Base.{ok, ◌≡◌, refl, some, [], ◌∷◌, map, arith}
use palingames.Base.Text.{upper, strip, lower}
use palingames.Orders.Model.{Order, OrderStatus}
use palingames.Access.Tests.{order, item}
use palingames.Cart.Request.{Shop}
use palingames.Cart.Tests.{shop}
use palingames.Checkout.Manual
use palingames.Checkout.Manual.Balanced.{
  HasRecalculated, recalculate_manual_order_from_items-HasRecalculated,
}
use palingames.Promocodes.Tests.{product, discount}

abbrev by_hand : Order
by_hand = record order {
  status = OrderStatus.created;
  promo_code_id = some 1;
  items = record (item 3) { quantity = 3 } ∷ item 4 ∷ [];
}

abbrev rows : Shop
rows = record shop { orders = by_hand ∷ [] }

abbrev rows_after : Shop
unfolding Manual.manual_order_write
rows_after =
    Manual.manual_order_write "/x.png"
      (some (record discount { eligible_amount = 3015; discount_amount = 302 }))
      ((product 3 1005 1, record (item 3) { quantity = 3 }) ∷ (product 4 2000 2, item 4) ∷ [])
      by_hand rows

recalculated_rows : Manual.recalculate_manual_order_from_items 5 "/x.png" 1 rows ≡ ok rows_after
unfolding Manual.recalculate_manual_order_from_items Manual.manual_order_write upper strip lower
recalculated_rows = refl

-- The order's discount is the sum of the items', each rounded; the redemption's is that of the sum.
discounts_of_order : map (λ (o : Order). o.discount_amount) rows_after.orders ≡ 303 ∷ []
unfolding Manual.manual_order_write
discounts_of_order = refl

discounts_of_redemption : map (λ r. r.discount_amount) rows_after.redemptions ≡ 302 ∷ []
unfolding Manual.manual_order_write
discounts_of_redemption = refl

recalculate_manual_order_from_items-HasRecalculated_example : HasRecalculated 1 rows_after
recalculate_manual_order_from_items-HasRecalculated_example =
    recalculate_manual_order_from_items-HasRecalculated 5 "/x.png" 1 rows {order = by_hand}
      {shop' = rows_after} (omega arith, tt) refl refl recalculated_rows
