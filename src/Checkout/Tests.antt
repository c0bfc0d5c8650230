-- ===== src/Checkout/Tests.antt =====
-- Inputs for the checkout: a guest with two products in the cart and the code of 10 percent.
use palingames.Base.{ok, ◌≡◌, refl, true, false, none, some, [], ◌∷◌, map, arith}
use palingames.Base.Text.{upper, strip, lower}
use palingames.Orders.Model.{Order}
use palingames.Orders.Accounts.{generate_payment_account_no, payment_account_no_exists}
use palingames.Promocodes.Tests.{discount}
use palingames.Cart.Request.{RawId, Session, Request, Shop}
use palingames.Cart.Services.{get_cart_product_ids}
use palingames.Cart.Tests.{session, shop}
use palingames.Checkout.Services.{
  clear_checkout_promo_code, get_ordered_cart_products, has_unavailable_cart_products,
}
use palingames.Checkout.Create.{
  Env, Form, context, new_order, insert_order, create_new_order_from_products,
  create_order_from_cart,
}
use palingames.Checkout.Amounts.{IsBalanced, create_new_order_from_products-IsBalanced}
use palingames.Checkout.Repeated.{with_key, create_order_from_cart-again}
use palingames.Checkout.Purchases.{MayBuy, create_order_from_cart-MayBuy}

abbrev env : Env
env = record {
  now = 5;
  public_id = "u";
  tokens = "AAAAAAAA" ∷ "BBBBBBBB" ∷ [];
  day = λ t. "010126";
  example_image = "/static/images/example-product-image-1.png";
  analytics = record {
    analytics_storage_consent = false;
    yandex_client_id = "";
    ga4_client_id = "";
    ga4_session_id = "";
  };
}

abbrev request : Request
request = record {
  user = none;
  session = record session {
    guest_cart_product_ids = some (RawId.whole 3 ∷ RawId.whole 4 ∷ []);
    checkout_promo_code = some "SPRING";
  };
}

abbrev form : Form
form = record {
  email = "x@y.z";
  promo_code = "spring";
  checkout_idempotency_key = none;
  personal_data_consent = true;
}

abbrev alone : Shop → Shop
alone s = s

abbrev keyed : Form
keyed = with_key "n" form

abbrev placed : Order
unfolding new_order
placed = new_order env none (context keyed request shop) (some discount) 2 "PG010126AAAAAAAA"

abbrev rows_after : Shop
unfolding insert_order
rows_after =
    (insert_order env none (context keyed request shop) (some discount) "PG010126AAAAAAAA" shop).1

abbrev session_left : Session
unfolding clear_checkout_promo_code
session_left = clear_checkout_promo_code request.session

-- 30.05 less 10 percent of 10.05.
placed_total : placed.total_amount ≡ 2904
unfolding new_order get_ordered_cart_products get_cart_product_ids
placed_total = refl

created :
    create_new_order_from_products env none (context keyed request shop) request.session shop alone
    ≡ ok (placed, session_left, rows_after)
unfolding create_new_order_from_products new_order insert_order clear_checkout_promo_code upper
    strip lower get_ordered_cart_products get_cart_product_ids generate_payment_account_no
    payment_account_no_exists
created = refl

first_run :
    create_order_from_cart env keyed request shop alone
    ≡ ok (record { order = placed; created = true }, session_left, rows_after)
unfolding create_order_from_cart new_order insert_order clear_checkout_promo_code upper strip lower
    has_unavailable_cart_products get_cart_product_ids generate_payment_account_no
    payment_account_no_exists
first_run = refl

create_new_order_from_products-IsBalanced_example : IsBalanced placed
create_new_order_from_products-IsBalanced_example =
    create_new_order_from_products-IsBalanced env none (context keyed request shop) request.session
      shop alone {order = placed} {session' = session_left} {shop' = rows_after} (omega arith, tt)
      created

create_order_from_cart-again_example :
    create_order_from_cart env (with_key "n" form) request rows_after alone
    ≡ ok (record { order = placed; created = false }, request.session, rows_after)
create_order_from_cart-again_example =
    create_order_from_cart-again env "n" form request shop alone
      {result = record { order = placed; created = true }} {session = session_left}
      {shop' = rows_after} refl first_run env form request alone

create_order_from_cart-MayBuy_example :
    (map (λ i. i.product_id) placed.items ≡ get_cart_product_ids request shop)
    × MayBuy none (get_cart_product_ids request shop) shop
create_order_from_cart-MayBuy_example =
    create_order_from_cart-MayBuy env keyed request shop alone
      {result = record { order = placed; created = true }} {session' = session_left}
      {shop' = rows_after} first_run refl
