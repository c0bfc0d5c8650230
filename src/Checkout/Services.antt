-- ===== src/Checkout/Services.antt =====
-- apps/orders/services.py: the products of the cart, the checkout's keys in the session, the guards and
-- the items of a new order.
use Prim.Native.String.{◌++◌}
use palingames.Base.{
  Result, ok, ◌>>=◌, ℕ, ◌-◌, String, Bool, true, false, not, ◌&&◌, ◌||◌, Option, none, some, List,
  [], ◌∷◌, map, find, any, elem, length, ◌==◌, or_else, is_some, str_eq, if◌then◌else◌,
}
use palingames.Base.Text.{str}
use palingames.Products.{Product, Category}
use palingames.Orders.Model.{Order, OrderItem}
use palingames.Orders.Accounts.{is_text}
use palingames.Promocodes.Model.{PromoCodeDiscount, PromoCodeError, PromoTables}
use palingames.Promocodes.Calculate.{
  normalize_promo_code, calculate_percent_discount, calculate_promo_code_discount, is_nonempty,
}
use palingames.Cart.Request.{Session, Request, Shop}
use palingames.Cart.Services.{get_cart_product_ids}

abbrev pub is_published_as : ℕ → Product → Bool
is_published_as id p = p.id == id && p.is_published

-- `[products[id] for id in ids if id in products]`
unfoldable pub in_bulk : List ℕ → List Product → List Product
in_bulk [] products = []
in_bulk (id ∷ ids) products =
    let rest = in_bulk ids products in
    elim (find (is_published_as id) products) [ none ↦ rest | some p ↦ p ∷ rest ]

unfoldable pub get_ordered_cart_products : Request → Shop → List Product
unfolding in_bulk
get_ordered_cart_products r shop = in_bulk (get_cart_product_ids r shop) shop.products

unfoldable pub has_unavailable_cart_products : Request → Shop → Bool
unfolding get_ordered_cart_products
has_unavailable_cart_products r shop =
    if not (is_nonempty (get_cart_product_ids r shop))
    then false
    else not (length (get_ordered_cart_products r shop) == length (get_cart_product_ids r shop))

-- `",".join(str(id) for id in ids)`
unfoldable pub join_ids : List ℕ → String
join_ids [] = ""
join_ids (id ∷ []) = str id
join_ids (id ∷ next ∷ ids) = str id ++ "," ++ join_ids (next ∷ ids)

unfoldable pub get_checkout_cart_fingerprint : Request → Shop → String
unfolding join_ids
get_checkout_cart_fingerprint r shop = join_ids (get_cart_product_ids r shop)

-- `new` is the fresh `uuid4`. The key and the session.
unfoldable pub ensure_checkout_idempotency_key : String → Request → Shop → String × Session
unfolding get_checkout_cart_fingerprint
ensure_checkout_idempotency_key new r shop =
    let fingerprint = get_checkout_cart_fingerprint r shop in
    let key = or_else r.session.checkout_idempotency_key "" in
    if not (str_eq key "") && str_eq (or_else r.session.checkout_cart_fingerprint "") fingerprint
    then (key, r.session)
    else (
      new,
      record r.session {
        checkout_idempotency_key = some new;
        checkout_cart_fingerprint = some fingerprint;
        modified = true;
      },
    )

unfoldable pub clear_checkout_idempotency_key : Session → Session
clear_checkout_idempotency_key s = record s {
  checkout_idempotency_key = none;
  checkout_cart_fingerprint = none;
  modified =
      s.modified || is_some s.checkout_idempotency_key || is_some s.checkout_cart_fingerprint;
}

unfoldable pub set_checkout_promo_code : String → Session → String × Session
set_checkout_promo_code code s =
    let normalized = normalize_promo_code code in
    (normalized, record s { checkout_promo_code = some normalized; modified = true })

unfoldable pub clear_checkout_promo_code : Session → Session
clear_checkout_promo_code s = record s {
  checkout_promo_code = none;
  modified = s.modified || is_some s.checkout_promo_code;
}

unfoldable pub get_checkout_promo_code : Session → String
get_checkout_promo_code s = normalize_promo_code (or_else s.checkout_promo_code "")

abbrev pub has_key : String → Order → Bool
has_key key o = is_text key o.checkout_idempotency_key

unfoldable pub get_order_by_checkout_idempotency_key : Option String → List Order → Option Order
get_order_by_checkout_idempotency_key none orders = none
get_order_by_checkout_idempotency_key (some key) orders =
    if str_eq key "" then none else find (has_key key) orders

unfoldable pub is_product_eligible_for_discount : Product → Option PromoCodeDiscount → Bool
is_product_eligible_for_discount product none = false
is_product_eligible_for_discount product (some d) =
    if elem product.id d.promo_code.products
    then true
    else if not (is_nonempty d.promo_code.products) && not (is_nonempty d.promo_code.categories)
    then true
    else any (λ c. elem c.id d.promo_code.categories) product.categories

abbrev pub first_title : List Category → String
first_title [] = ""
first_title (c ∷ categories) = c.title

-- `static("images/example-product-image-1.png")` is a parameter.
abbrev pub item_discount : Option PromoCodeDiscount → Bool → ℕ → ℕ × Option ℕ
item_discount (some d) true price =
    let discount = calculate_percent_discount price d.discount_percent in
    (discount, some (price - discount))
item_discount (some d) false price = (0, none)
item_discount none eligible price = (0, none)

unfoldable pub prepare_order_item : String → Option PromoCodeDiscount → Product → OrderItem
unfolding is_product_eligible_for_discount
prepare_order_item example_image promo_discount product =
    let eligible = is_product_eligible_for_discount product promo_discount in
    record {
      product_id = product.id;
      title_snapshot = product.title;
      category_snapshot = first_title product.categories;
      unit_price_amount = product.price;
      quantity = 1;
      line_total_amount = product.price;
      promo_eligible = eligible;
      discount_amount = (item_discount promo_discount eligible product.price).0;
      discounted_line_total_amount = (item_discount promo_discount eligible product.price).1;
      product_slug_snapshot = some product.slug;
      product_image_snapshot = some (or_else product.image_url example_image);
    }

unfoldable pub prepare_order_items :
    String → List Product → Option PromoCodeDiscount → List OrderItem
unfolding prepare_order_item
prepare_order_items example_image products promo_discount =
    map (prepare_order_item example_image promo_discount) products

abbrev pub tables_of : Shop → PromoTables
tables_of shop = record {
  promo_codes = shop.promo_codes;
  orders = shop.orders;
  redemptions = shop.redemptions;
}

-- The option `exclude_order_id` is given only by callers elsewhere.
unfoldable pub calculate_order_discount :
    ℕ
    → List Product
    → Option ℕ
    → String
    → String
    → Option ℕ
    → PromoTables
    → Result PromoCodeError (Option PromoCodeDiscount)
unfolding calculate_promo_code_discount
calculate_order_discount now products user email promo_code exclude t =
    let normalized = normalize_promo_code promo_code in
    if str_eq normalized ""
    then ok none
    else calculate_promo_code_discount now normalized products user email
        (record { require_email_limits = true; exclude_order_id = exclude }) t
      >>= λ d. ok (some d)
