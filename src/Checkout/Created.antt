-- ===== src/Checkout/Created.antt =====
-- What a run of `_create_new_order_from_products` of apps/orders/services.py that returns an order has
-- passed, and what it has written.
use palingames.Base.{
  passed, returned, not_raised, raise_if, Result, ok, err, ◌>>◌, ℕ, ◌≡◌, refl, String, false,
  Option, none, some, map,
}
use palingames.Orders.Model.{Order}
use palingames.Promocodes.Model.{PromoCodeDiscount, PromoCodeError}
use palingames.Cart.Request.{Session, Shop}
use palingames.Checkout.Services.{calculate_order_discount, tables_of}
use palingames.Checkout.Create.{
  CheckoutError, Env, OrderCreationContext, promo_result, check_purchases, is_empty, is_taken,
  insert_order, insert_with, session_after, account_no_of, create_new_order_from_products,
}

promo_result-ok :
    (m : Result PromoCodeError (Option PromoCodeDiscount)) {d : Option PromoCodeDiscount}
    → promo_result m ≡ ok d
    → m ≡ ok d
promo_result-ok (ok d) h = cc
promo_result-ok (err e) h = cc

-- The order was inserted into `later`, the rows after the other transactions, with the discount `d`.
pub record IsCreated (env : Env) (user : Option ℕ) (ctx : OrderCreationContext) (session : Session)
    (shop later : Shop) (order : Order) (session' : Session) (shop' : Shop) : Type 0 where
  pub d : Option PromoCodeDiscount
  pub account_no : String
  pub some_products : is_empty ctx.products ≡ false
  pub purchases : check_purchases user (map (λ p. p.id) ctx.products) shop ≡ ok tt
  pub discount :
      calculate_order_discount env.now ctx.products user ctx.email ctx.promo_code none
        (tables_of shop)
      ≡ ok d
  pub key_free : is_taken ctx.checkout_idempotency_key later.orders ≡ false
  pub account : account_no_of env later ≡ some account_no
  pub inserted : (order, shop') ≡ insert_order env user ctx d account_no later
  pub session_kept : session' ≡ session_after d session

insert_with-some :
    (env : Env) (user : Option ℕ) (ctx : OrderCreationContext) (d : Option PromoCodeDiscount)
    (session : Session) (shop : Shop) (no : Option String) {order : Order} {session' : Session}
    {shop' : Shop}
    → insert_with env user ctx d session shop no ≡ ok (order, session', shop')
    → (account_no : String) × (no ≡ some account_no)
      × ((order, shop') ≡ insert_order env user ctx d account_no shop)
      × (session' ≡ session_after d session)
insert_with-some env user ctx d session shop none h = cc
insert_with-some env user ctx d session shop (some account_no) h = (account_no, refl, cc, cc)

pub create_new_order_from_products-IsCreated :
    (env : Env) (user : Option ℕ) (ctx : OrderCreationContext) (session : Session) (shop : Shop)
    (between : Shop → Shop) {order : Order} {session' : Session} {shop' : Shop}
    → create_new_order_from_products env user ctx session shop between ≡ ok (order, session', shop')
    → IsCreated env user ctx session shop (between shop) order session' shop'
unfolding create_new_order_from_products
create_new_order_from_products-IsCreated env user ctx session shop between h =
    let purchases = check_purchases user (map (λ p. p.id) ctx.products) shop in
    let two = passed (raise_if (is_empty ctx.products) CheckoutError.empty_cart >> purchases) h in
    let one = passed (raise_if (is_empty ctx.products) CheckoutError.empty_cart) two.0 in
    let discount =
      calculate_order_discount env.now ctx.products user ctx.email ctx.promo_code none
        (tables_of shop) in
    let (d, given, rest) = returned (promo_result discount) two.1 in
    let taken = is_taken ctx.checkout_idempotency_key (between shop).orders in
    let free = passed (raise_if taken CheckoutError.integrity) rest in
    let (account_no, account, inserted, kept) =
      insert_with-some env user ctx d session (between shop) (account_no_of env (between shop))
        free.1 in
    record {
      d = d;
      account_no = account_no;
      some_products = not_raised (is_empty ctx.products) CheckoutError.empty_cart one.0;
      purchases = one.1;
      discount = promo_result-ok discount given;
      key_free = not_raised taken CheckoutError.integrity free.0;
      account = account;
      inserted = inserted;
      session_kept = kept;
    }
