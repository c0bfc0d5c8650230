-- ===== src/Checkout/Manual.antt =====
-- apps/orders/services.py: `recalculate_manual_order_from_items`, after an edit of an order in the admin.
-- The product of an item is looked up by its id; an item without one is `missing_product`.
pub mod Balanced
mod Tests
use palingames.Base.{
  raise_if, Result, ok, err, ◌>>=◌, ◌>>◌, ℕ, ◌*◌, ◌-◌, String, Bool, true, false, not, Option, none,
  some, List, [], ◌∷◌, ◌++◌, map, filter, find, any, ◌==◌, sum_by, or_else, if◌then◌else◌,
}
use palingames.Products.{Product}
use palingames.Orders.Model.{Order, OrderItem, OrderStatus}
use palingames.Promocodes.Model.{PromoCode, PromoCodeDiscount, PromoCodeError, PromoCodeRedemption}
use palingames.Promocodes.Calculate.{
  calculate_promo_code_discount, calculate_percent_discount, create_promo_code_redemption,
}
use palingames.Cart.Request.{Shop}
use palingames.Checkout.Services.{is_product_eligible_for_discount, first_title, tables_of}
use palingames.Checkout.Create.{snapshot, redemption_of}

-- `Order.DoesNotExist` and its kind, and the three `ValidationError`s.
pub data ManualOrderError : Type 0 where
  does_not_exist missing_product several_currencies : ManualOrderError
  promo_code : PromoCodeError → ManualOrderError

-- An item with its product.
abbrev pub Line : Type 0
Line = Product × OrderItem

abbrev pub is_order : ℕ → Order → Bool
is_order id o = o.id == id

abbrev pub product_of : List Product → OrderItem → Option Product
product_of products item = find (λ p. p.id == item.product_id) products

abbrev pub with_product :
    OrderItem
    → Option Product
    → Result ManualOrderError (List Line)
    → Result ManualOrderError (List Line)
with_product item none rest = err ManualOrderError.missing_product
with_product item (some p) rest = rest >>= λ lines. ok ((p, item) ∷ lines)

-- The loop over the items.
unfoldable pub lines_of : List Product → List OrderItem → Result ManualOrderError (List Line)
lines_of products [] = ok []
lines_of products (item ∷ items) =
    with_product item (product_of products item) (lines_of products items)

abbrev pub has_several_currencies : List Line → Bool
has_several_currencies [] = true
has_several_currencies (l ∷ lines) = any (λ (k : Line). not (k.0.currency == l.0.currency)) lines

-- The items with their products, in one currency.
unfoldable pub manual_order_validate_items :
    List Product → List OrderItem → Result ManualOrderError (List Line)
unfolding lines_of
manual_order_validate_items products items = lines_of products items >>= λ lines.
    raise_if (has_several_currencies lines) ManualOrderError.several_currencies >> ok lines

abbrev pub repeated : ℕ → Product → List Product
repeated ℕ.zero p = []
repeated (ℕ.suc n) p = p ∷ repeated n p

unfoldable pub manual_order_expanded_products : List Line → List Product
manual_order_expanded_products [] = []
manual_order_expanded_products ((p, item) ∷ lines) =
    repeated item.quantity p ++ manual_order_expanded_products lines

abbrev pub promo_or_invalid :
    Result PromoCodeError PromoCodeDiscount → Result ManualOrderError (Option PromoCodeDiscount)
promo_or_invalid (ok d) = ok (some d)
promo_or_invalid (err e) = err (ManualOrderError.promo_code e)

abbrev pub resolve :
    ℕ
    → Order
    → List Product
    → Shop
    → Option PromoCode
    → Result ManualOrderError (Option PromoCodeDiscount)
resolve now order expanded shop none = err ManualOrderError.does_not_exist
resolve now order expanded shop (some promo) = promo_or_invalid (
    calculate_promo_code_discount now promo.code expanded order.user_id order.email
      (record { require_email_limits = true; exclude_order_id = some order.id }) (tables_of shop))

abbrev pub resolve_by :
    ℕ → Order → List Product → Shop → Option ℕ → Result ManualOrderError (Option PromoCodeDiscount)
resolve_by now order expanded shop none = ok none
resolve_by now order expanded shop (some id) =
    resolve now order expanded shop (find (λ (p : PromoCode). p.id == id) shop.promo_codes)

unfoldable pub manual_order_resolve_promo :
    ℕ → Order → List Product → Shop → Result ManualOrderError (Option PromoCodeDiscount)
unfolding calculate_promo_code_discount
manual_order_resolve_promo now order expanded shop =
    resolve_by now order expanded shop order.promo_code_id

-- The discount of the line, and its total with the discount.
abbrev pub line_discount : Option PromoCodeDiscount → Bool → ℕ → ℕ → ℕ × Option ℕ
line_discount (some d) true price quantity =
    let discount = calculate_percent_discount price d.discount_percent * quantity in
    (discount, some (price * quantity - discount))
line_discount (some d) false price quantity = (0, none)
line_discount none eligible price quantity = (0, none)

-- The item as it is saved; its total and its discount are the values that the function returns.
unfoldable pub manual_order_save_line_item : String → Option PromoCodeDiscount → Line → OrderItem
unfolding is_product_eligible_for_discount calculate_percent_discount
manual_order_save_line_item example_image d (product, item) =
    let eligible = is_product_eligible_for_discount product d in
    record item {
      title_snapshot = product.title;
      category_snapshot = first_title product.categories;
      unit_price_amount = product.price;
      line_total_amount = product.price * item.quantity;
      promo_eligible = eligible;
      discount_amount = (line_discount d eligible product.price item.quantity).0;
      discounted_line_total_amount = (line_discount d eligible product.price item.quantity).1;
      product_slug_snapshot = some product.slug;
      product_image_snapshot = some (or_else product.image_url example_image);
    }

unfoldable pub manual_order_apply_promo_to_header : Option PromoCodeDiscount → Order → Order
manual_order_apply_promo_to_header d order = record order {
  promo_code_id = (snapshot d).promo_code_id;
  promo_code_snapshot = (snapshot d).code;
  discount_percent_snapshot = (snapshot d).percent;
  promo_eligible_amount = (snapshot d).eligible_amount;
}

abbrev pub save_order : Order → List Order → List Order
save_order order orders = map (λ (o : Order). if o.id == order.id then order else o) orders

-- `PromoCodeRedemption.objects.filter(order=order).delete()`
abbrev pub without_redemptions : ℕ → List PromoCodeRedemption → List PromoCodeRedemption
without_redemptions id rows = filter (λ (r : PromoCodeRedemption). not (r.order_id == id)) rows

abbrev pub cleared : Order → Order
cleared order = record order {
  subtotal_amount = 0;
  discount_amount = 0;
  total_amount = 0;
  items_count = 0;
  promo_code_id = none;
  promo_code_snapshot = "";
  discount_percent_snapshot = none;
  promo_eligible_amount = 0;
}

unfoldable pub manual_order_clear_totals : Order → Shop → Shop
manual_order_clear_totals order shop = record shop {
  orders = save_order (cleared order) shop.orders;
  redemptions = without_redemptions order.id shop.redemptions;
}

abbrev pub sum_of_totals : List OrderItem → ℕ
sum_of_totals items = sum_by (λ i. i.line_total_amount) items

abbrev pub sum_of_discounts : List OrderItem → ℕ
sum_of_discounts items = sum_by (λ i. i.discount_amount) items

abbrev pub line_currency : List Line → ℕ
line_currency [] = 0
line_currency (l ∷ lines) = l.0.currency

-- The order with its saved items and its new header.
unfoldable pub recalculated : String → Option PromoCodeDiscount → List Line → Order → Order
unfolding manual_order_save_line_item manual_order_apply_promo_to_header
recalculated example_image d lines order =
    let items = map (manual_order_save_line_item example_image d) lines in
    manual_order_apply_promo_to_header d (record order {
      items = items;
      subtotal_amount = sum_of_totals items;
      discount_amount = sum_of_discounts items;
      total_amount = sum_of_totals items - sum_of_discounts items;
      items_count = sum_by (λ i. i.quantity) items;
      currency = line_currency lines;
    })

unfoldable pub manual_order_write :
    String → Option PromoCodeDiscount → List Line → Order → Shop → Shop
unfolding recalculated create_promo_code_redemption
manual_order_write example_image d lines order shop =
    let order' = recalculated example_image d lines order in
    record shop {
      orders = save_order order' shop.orders;
      redemptions = without_redemptions order.id shop.redemptions ++ redemption_of order' d;
    }

abbrev pub recalculate_items :
    ℕ → String → Order → Shop → List OrderItem → Result ManualOrderError Shop
recalculate_items now example_image order shop [] = ok (manual_order_clear_totals order shop)
recalculate_items now example_image order shop (item ∷ items) =
    manual_order_validate_items shop.products (item ∷ items) >>= λ lines.
    manual_order_resolve_promo now order (manual_order_expanded_products lines) shop >>= λ d.
    ok (manual_order_write example_image d lines order shop)

abbrev pub is_created : OrderStatus → Bool
is_created OrderStatus.created = true
is_created _ = false

abbrev pub recalculate_found : ℕ → String → Shop → Option Order → Result ManualOrderError Shop
recalculate_found now example_image shop none = err ManualOrderError.does_not_exist
recalculate_found now example_image shop (some order) =
    if is_created order.status
    then recalculate_items now example_image order shop order.items
    else ok shop

unfoldable pub recalculate_manual_order_from_items :
    ℕ → String → ℕ → Shop → Result ManualOrderError Shop
unfolding manual_order_clear_totals manual_order_validate_items manual_order_expanded_products
    manual_order_resolve_promo manual_order_write
recalculate_manual_order_from_items now example_image order_id shop =
    recalculate_found now example_image shop (find (is_order order_id) shop.orders)
