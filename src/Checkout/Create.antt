-- ===== src/Checkout/Create.antt =====
-- `create_order_from_cart` of apps/orders/services.py. What another transaction does in between the
-- first look for the idempotency key and the insertion of the order is the argument `between`.
use palingames.Base.{
  raise_if, Result, ok, err, ◌>>=◌, ◌>>◌, ℕ, suc, ◌-◌, String, Bool, true, false, ◌&&◌, Option,
  none, some, List, [], ◌∷◌, ◌++◌, map, any, length, sum_by, if◌then◌else◌,
}
use palingames.Products.{Product}
use palingames.Orders.Model.{Order, OrderItem, OrderStatus, CheckoutType, is_guest}
use palingames.Orders.Accounts.{generate_payment_account_no, payment_account_no_exists}
use palingames.Access.Users.{get_user_product_access_ids}
use palingames.Promocodes.Model.{PromoCodeDiscount, PromoCodeError, PromoCodeRedemption}
use palingames.Promocodes.Calculate.{is_nonempty, price_of, create_promo_code_redemption}
use palingames.Cart.Request.{Session, Request, Shop}
use palingames.Cart.Services.{get_user_pending_order_item_by_product_ids}
use palingames.Checkout.Services.{
  get_ordered_cart_products, has_unavailable_cart_products, clear_checkout_promo_code, has_key,
  get_order_by_checkout_idempotency_key, prepare_order_items, calculate_order_discount, tables_of,
}

-- The reasons of `OrderCreationBlockedError`, the errors of a promo code, the `ValueError` for an empty
-- cart, and the errors of the database and of the account number.
pub data CheckoutError : Type 0 where
  unavailable_products already_purchased empty_cart integrity no_account_no : CheckoutError
  pending_purchase : Order → OrderItem → CheckoutError
  promo_code : PromoCodeError → CheckoutError

-- What `_resolve_checkout_analytics_context` makes of the session, the cookies and the form.
pub record CheckoutAnalyticsResolution : Type 0 where
  pub analytics_storage_consent : Bool
  pub yandex_client_id : String
  pub ga4_client_id : String
  pub ga4_session_id : String

-- The clock, the fresh UUID, the drawn tokens, the formatted date, and the URL of the example image.
pub record Env : Type 0 where
  pub now : ℕ
  pub public_id : String
  pub tokens : List String
  pub day : ℕ → String
  pub example_image : String
  pub analytics : CheckoutAnalyticsResolution

pub record OrderCreationContext : Type 0 where
  pub email : String
  pub products : List Product
  pub promo_code : String
  pub checkout_idempotency_key : Option String
  pub checkout_type : CheckoutType
  pub personal_data_consent : Bool

pub record OrderCreationResult : Type 0 where
  pub order : Order
  pub created : Bool

abbrev pub refuse_pending : Option (Order × OrderItem) → Result CheckoutError (Unit {0})
refuse_pending none = ok tt
refuse_pending (some (order, item)) = err (CheckoutError.pending_purchase order item)

abbrev pub promo_result :
    Result PromoCodeError (Option PromoCodeDiscount)
    → Result CheckoutError (Option PromoCodeDiscount)
promo_result (ok d) = ok d
promo_result (err e) = err (CheckoutError.promo_code e)

abbrev pub check_purchases : Option ℕ → List ℕ → Shop → Result CheckoutError (Unit {0})
check_purchases none ids shop = ok tt
check_purchases (some user) ids shop =
    raise_if (is_nonempty (get_user_product_access_ids (some user) (some ids) shop.user_accesses))
      CheckoutError.already_purchased
    >> refuse_pending (get_user_pending_order_item_by_product_ids (some user) ids shop)

-- What the discount leaves in the header of the order.
pub record PromoSnapshot : Type 0 where
  pub promo_code_id : Option ℕ
  pub code : String
  pub percent : Option ℕ
  pub eligible_amount : ℕ
  pub amount : ℕ

abbrev pub snapshot : Option PromoCodeDiscount → PromoSnapshot
snapshot none = record {
  promo_code_id = none;
  code = "";
  percent = none;
  eligible_amount = 0;
  amount = 0;
}
snapshot (some d) = record {
  promo_code_id = some d.promo_code.id;
  code = d.code;
  percent = some d.discount_percent;
  eligible_amount = d.eligible_amount;
  amount = d.discount_amount;
}

abbrev pub first_currency : List Product → ℕ
first_currency [] = 0
first_currency (p ∷ products) = p.currency

-- The fields of `Order.objects.create`, and the items.
unfoldable pub new_order :
    Env → Option ℕ → OrderCreationContext → Option PromoCodeDiscount → ℕ → String → Order
unfolding prepare_order_items
new_order env user ctx d id account_no =
    let subtotal_amount = sum_by price_of ctx.products in
    record {
      id = id;
      public_id = env.public_id;
      checkout_idempotency_key = ctx.checkout_idempotency_key;
      payment_account_no = some account_no;
      status = OrderStatus.created;
      source = "PG";
      user_id = user;
      email = ctx.email;
      checkout_type = ctx.checkout_type;
      subtotal_amount = subtotal_amount;
      promo_code_id = (snapshot d).promo_code_id;
      promo_code_snapshot = (snapshot d).code;
      discount_percent_snapshot = (snapshot d).percent;
      promo_eligible_amount = (snapshot d).eligible_amount;
      discount_amount = (snapshot d).amount;
      total_amount = subtotal_amount - (snapshot d).amount;
      reward_promo_code_id = none;
      reward_issued_at = none;
      reward_email_sent_at = none;
      currency = first_currency ctx.products;
      items_count = length ctx.products;
      paid_at = none;
      refunded_at = none;
      cancelled_at = none;
      failure_reason = none;
      analytics_storage_consent = env.analytics.analytics_storage_consent;
      ga4_client_id = env.analytics.ga4_client_id;
      ga4_session_id = env.analytics.ga4_session_id;
      ga4_purchase_sent_at = none;
      yandex_client_id = env.analytics.yandex_client_id;
      yandex_purchase_sent_at = none;
      items = prepare_order_items env.example_image ctx.products d;
      created_at = env.now;
    }

abbrev pub is_empty : List Product → Bool
is_empty [] = true
is_empty (p ∷ products) = false

abbrev pub is_taken : Option String → List Order → Bool
is_taken none orders = false
is_taken (some key) orders = any (has_key key) orders

abbrev pub redemption_of : Order → Option PromoCodeDiscount → List PromoCodeRedemption
redemption_of order none = []
redemption_of order (some d) = create_promo_code_redemption order d ∷ []

abbrev pub session_after : Option PromoCodeDiscount → Session → Session
session_after none s = s
session_after (some d) s = clear_checkout_promo_code s

abbrev pub consent_of : OrderCreationContext → ℕ → List ℕ
consent_of ctx id = if is_guest ctx.checkout_type && ctx.personal_data_consent then id ∷ [] else []

unfoldable pub insert_order :
    Env → Option ℕ → OrderCreationContext → Option PromoCodeDiscount → String → Shop → Order × Shop
unfolding new_order create_promo_code_redemption
insert_order env user ctx d account_no shop =
    let order = new_order env user ctx d shop.next_order_id account_no in
    (
      order,
      record shop {
        orders = shop.orders ++ order ∷ [];
        redemptions = shop.redemptions ++ redemption_of order d;
        consents = shop.consents ++ consent_of ctx shop.next_order_id;
        next_order_id = suc shop.next_order_id;
      },
    )

abbrev pub account_no_of : Env → Shop → Option String
account_no_of env shop =
    generate_payment_account_no "" "PG" (env.day env.now)
      (λ no.
        payment_account_no_exists no (
          map (λ (o : Order). o.payment_account_no) shop.orders
          ∷ shop.custom_game_account_nos
          ∷ []))
      env.tokens

abbrev pub insert_with :
    Env
    → Option ℕ
    → OrderCreationContext
    → Option PromoCodeDiscount
    → Session
    → Shop
    → Option String
    → Result CheckoutError (Order × Session × Shop)
insert_with env user ctx d session shop none = err CheckoutError.no_account_no
insert_with env user ctx d session shop (some account_no) =
    let (order, shop') = insert_order env user ctx d account_no shop in
    ok (order, session_after d session, shop')

unfoldable pub create_new_order_from_products :
    Env
    → Option ℕ
    → OrderCreationContext
    → Session
    → Shop
    → (Shop → Shop)
    → Result CheckoutError (Order × Session × Shop)
unfolding calculate_order_discount insert_order
create_new_order_from_products env user ctx session shop between =
    raise_if (is_empty ctx.products) CheckoutError.empty_cart
    >> check_purchases user (map (λ p. p.id) ctx.products) shop
    >> (promo_result (
          calculate_order_discount env.now ctx.products user ctx.email ctx.promo_code none
            (tables_of shop))
        >>= λ d.
            raise_if (is_taken ctx.checkout_idempotency_key (between shop).orders)
              CheckoutError.integrity
            >> insert_with env user ctx d session (between shop) (account_no_of env (between shop)))

abbrev pub checkout_type_of : Option ℕ → CheckoutType
checkout_type_of none = CheckoutType.guest
checkout_type_of (some user) = CheckoutType.authenticated

-- What the caller sends: the form's values, and the key.
pub record Form : Type 0 where
  pub email : String
  pub promo_code : String
  pub checkout_idempotency_key : Option String
  pub personal_data_consent : Bool

abbrev pub context : Form → Request → Shop → OrderCreationContext
context form r shop = record {
  email = form.email;
  products = get_ordered_cart_products r shop;
  promo_code = form.promo_code;
  checkout_idempotency_key = form.checkout_idempotency_key;
  checkout_type = checkout_type_of r.user;
  personal_data_consent = form.personal_data_consent;
}

abbrev pub Outcome : Type 0
Outcome = Result CheckoutError (OrderCreationResult × Session × Shop)

abbrev pub existing : Order → Session → Shop → Outcome
existing order session shop = ok (record { order = order; created = false }, session, shop)

-- After an IntegrityError the key is looked for once more.
abbrev pub recover : Option Order → Session → Shop → Outcome
recover none session shop = err CheckoutError.integrity
recover (some order) session shop = existing order session shop

abbrev pub finish : Form → Session → Shop → Result CheckoutError (Order × Session × Shop) → Outcome
finish form session shop (ok (order, session', shop')) =
    ok (record { order = order; created = true }, session', shop')
finish form session shop (err CheckoutError.integrity) =
    recover (get_order_by_checkout_idempotency_key form.checkout_idempotency_key shop.orders)
      session shop
finish form session shop (err e) = err e

abbrev pub create_if_new : Env → Form → Request → Shop → (Shop → Shop) → Option Order → Outcome
create_if_new env form r shop between (some order) = existing order r.session shop
create_if_new env form r shop between none =
    raise_if (has_unavailable_cart_products r shop) CheckoutError.unavailable_products
    >> finish form r.session (between shop)
        (create_new_order_from_products env r.user (context form r shop) r.session shop between)

unfoldable pub create_order_from_cart : Env → Form → Request → Shop → (Shop → Shop) → Outcome
unfolding create_new_order_from_products get_order_by_checkout_idempotency_key
create_order_from_cart env form r shop between =
    create_if_new env form r shop between
      (get_order_by_checkout_idempotency_key form.checkout_idempotency_key shop.orders)
