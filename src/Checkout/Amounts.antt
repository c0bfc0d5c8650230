-- ===== src/Checkout/Amounts.antt =====
-- The amounts of an order that `_create_new_order_from_products` of apps/orders/services.py creates:
-- the header against the items, and both against the promo code.
pub mod Items
use palingames.Base.{
  Result, ok, err, ◌>>=◌, ℕ, ◌≡◌, ◌≤◌, ◌+◌, ◌*◌, refl, sym, ap, ◌∙◌, subst, String, Bool, true,
  false, Option, none, some, List, [], ◌∷◌, filter, any, elem, not, ◌&&◌, length, sum_by, or_else,
  All, find, str_eq, arith, if◌then◌else◌,
}
use palingames.Products.{Product, Category}
use palingames.Orders.Model.{Order, OrderItem}
use palingames.Promocodes.Model.{
  PromoCode, PromoCodeDiscount, PromoCodeError, PromoTables, PromoValidationOptions,
}
use palingames.Promocodes.Calculate.{
  normalize_promo_code, calculate_promo_code_discount, is_product_eligible, price_of, has_code,
  is_nonempty,
}
use palingames.Promocodes.Calculate.Amounts.{calculate_percent_discount-le}
use palingames.Promocodes.Calculate.Eligible.{eligible_products-eq-filter}
use palingames.Promocodes.Calculate.Granted.{IsSound, calculate_promo_code_discount-IsSound}
use palingames.Cart.Request.{Session, Shop}
use palingames.Checkout.Services.{
  is_product_eligible_for_discount, prepare_order_items, calculate_order_discount, tables_of,
  item_discount,
}
use palingames.Checkout.Create.{
  Env, OrderCreationContext, new_order, insert_order, create_new_order_from_products, snapshot,
}
use palingames.Checkout.Created.{create_new_order_from_products-IsCreated}
pub use palingames.Checkout.Amounts.Items.{
  IsBalanced, IsLine, calculate_order_discount-IsSound, discount-le, eligible_amount-items,
  filter-agree, filter_none, flagged-prepare_order_items, is_flagged,
  is_product_eligible_for_discount-eq, length-prepare_order_items, line_total, not_eligible,
  percent_of, prepare_order_items-IsLine, sum-prepare_order_items,
}

-- The validators of `discount_percent` on every code.
abbrev pub HasValidPercents : List PromoCode → Type 0
HasValidPercents = All (λ p. p.discount_percent ≤ 99)

pub find-valid :
    (p : PromoCode → Bool) (codes : List PromoCode) {promo : PromoCode}
    → HasValidPercents codes
    → find p codes ≡ some promo
    → promo.discount_percent ≤ 99
find-valid p [] v h = cc
find-valid p (c ∷ codes) {promo} v h =
    go (p c) h (λ (e : find p codes ≡ some promo). find-valid p codes {promo = promo} v.1 e)
  where
    go :
        (b : Bool)
        → (if b then some c else find p codes) ≡ some promo
        → (find p codes ≡ some promo → promo.discount_percent ≤ 99)
        → promo.discount_percent ≤ 99
    go true e rest = subst (λ (x : PromoCode). x.discount_percent ≤ 99) some-injective v.0
      where
        some-injective : c ≡ promo
        some-injective = cc
    go false e rest = rest e

module _ (env : Env) (user : Option ℕ) (ctx : OrderCreationContext) (t : PromoTables) where
  percent_of-le :
      (d : Option PromoCodeDiscount)
      → HasValidPercents t.promo_codes
      → calculate_order_discount env.now ctx.products user ctx.email ctx.promo_code none t ≡ ok d
      → percent_of d ≤ 100
  percent_of-le none v h = omega arith
  percent_of-le (some d) v h =
      let sound =
        calculate_order_discount-IsSound env.now ctx.products user ctx.email ctx.promo_code t
          {d = d} h in
      let small =
        find-valid (has_code (normalize_promo_code (normalize_promo_code ctx.promo_code)))
          t.promo_codes {promo = d.promo_code} v sound.0 in
      omega (arith, small, sound.1.percent)

  new_order-IsBalanced :
      (d : Option PromoCodeDiscount) (id : ℕ) (account_no : String)
      → HasValidPercents t.promo_codes
      → calculate_order_discount env.now ctx.products user ctx.email ctx.promo_code none t ≡ ok d
      → IsBalanced (new_order env user ctx d id account_no)
  unfolding new_order
  new_order-IsBalanced d id account_no v h = record {
    subtotal = sym (sum-prepare_order_items env.example_image d ctx.products);
    total = omega (arith, discount-le env user ctx t d h);
    eligible =
        eligible_amount-items env user ctx t d h
        ∙ sym (flagged-prepare_order_items env.example_image d ctx.products);
    count = sym (length-prepare_order_items env.example_image d ctx.products);
    lines = prepare_order_items-IsLine env.example_image d ctx.products (percent_of-le d v h);
  }

-- An order that is created has the subtotal, the eligible amount and the number of its items, its
-- total and its discount make up the subtotal, and each line splits into its discount and the rest.
pub create_new_order_from_products-IsBalanced :
    (env : Env) (user : Option ℕ) (ctx : OrderCreationContext) (session : Session) (shop : Shop)
    (between : Shop → Shop) {order : Order} {session' : Session} {shop' : Shop}
    → HasValidPercents shop.promo_codes
    → create_new_order_from_products env user ctx session shop between ≡ ok (order, session', shop')
    → IsBalanced order
unfolding insert_order
create_new_order_from_products-IsBalanced env user ctx session shop between {order} {session'}
      {shop'} v h =
    let c = create_new_order_from_products-IsCreated env user ctx session shop between h in
    subst (λ (o : Order). IsBalanced o)
      (sym (ap (λ (p : Order × Shop). p.0) {x = (order, shop')} c.inserted))
      (new_order-IsBalanced env user ctx (tables_of shop) c.d (between shop).next_order_id
        c.account_no v c.discount)
