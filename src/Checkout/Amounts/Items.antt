-- ===== src/Checkout/Amounts/Items.antt =====
-- The items that `prepare_order_items` of apps/orders/services.py makes, and the discount on them.
use palingames.Base.{
  Result, ok, err, ◌>>=◌, ℕ, ◌≡◌, ◌≤◌, ◌+◌, ◌*◌, refl, sym, ap, ◌∙◌, String, Bool, true, false,
  Option, none, some, List, [], ◌∷◌, filter, any, elem, not, ◌&&◌, length, sum_by, or_else, All,
  find, str_eq, arith, if◌then◌else◌,
}
use palingames.Products.{Product, Category}
use palingames.Orders.Model.{Order, OrderItem}
use palingames.Promocodes.Model.{
  PromoCodeDiscount, PromoCodeError, PromoTables, PromoValidationOptions,
}
use palingames.Promocodes.Calculate.{
  normalize_promo_code, calculate_promo_code_discount, is_product_eligible, price_of, has_code,
  is_nonempty,
}
use palingames.Promocodes.Calculate.Amounts.{calculate_percent_discount-le}
use palingames.Promocodes.Calculate.Eligible.{eligible_products-eq-filter}
use palingames.Promocodes.Calculate.Granted.{IsSound, calculate_promo_code_discount-IsSound}
use palingames.Checkout.Services.{
  is_product_eligible_for_discount, prepare_order_items, calculate_order_discount, item_discount,
}
use palingames.Checkout.Create.{Env, OrderCreationContext, snapshot}

none_listed : (categories : List Category) → any (λ (c : Category). elem c.id []) categories ≡ false
none_listed [] = refl
none_listed (c ∷ categories) = none_listed categories

-- The two tests of a product against a promo code, in apps/orders and in apps/promocodes, agree.
pub is_product_eligible_for_discount-eq :
    (product : Product) (d : PromoCodeDiscount)
    → is_product_eligible_for_discount product (some d) ≡ is_product_eligible product d.promo_code
unfolding is_product_eligible_for_discount is_product_eligible
is_product_eligible_for_discount-eq product d = go d.promo_code.products d.promo_code.categories
  where
    go :
        (ids categories : List ℕ)
        → (if elem product.id ids
            then true
            else if not (is_nonempty ids) && not (is_nonempty categories)
            then true
            else any (λ c. elem c.id categories) product.categories)
          ≡ (if elem product.id ids
              then true
              else if not (is_nonempty categories)
              then not (is_nonempty ids)
              else any (λ c. elem c.id categories) product.categories)
    go [] [] = refl
    go [] (c ∷ categories) = refl
    go (n ∷ ids) [] = ground (arith, none_listed product.categories)
    go (n ∷ ids) (c ∷ categories) = refl

abbrev pub line_total : OrderItem → ℕ
line_total i = i.line_total_amount

abbrev pub is_flagged : OrderItem → Bool
is_flagged i = i.promo_eligible

-- The line's total is the price for its quantity, and splits into the discount and what is left.
abbrev pub IsLine : OrderItem → Type 0
IsLine i =
    (i.line_total_amount ≡ i.unit_price_amount * i.quantity)
    × (i.discount_amount + or_else i.discounted_line_total_amount i.line_total_amount
        ≡ i.line_total_amount)

-- The header of an order is that of its items.
pub record IsBalanced (o : Order) : Type 0 where
  pub subtotal : o.subtotal_amount ≡ sum_by line_total o.items
  pub total : o.total_amount + o.discount_amount ≡ o.subtotal_amount
  pub eligible : o.promo_eligible_amount ≡ sum_by line_total (filter is_flagged o.items)
  pub count : o.items_count ≡ length o.items
  pub lines : All IsLine o.items

abbrev pub percent_of : Option PromoCodeDiscount → ℕ
percent_of none = 0
percent_of (some d) = d.discount_percent

module _ (image : String) (d : Option PromoCodeDiscount) where
  pub sum-prepare_order_items :
      (products : List Product)
      → sum_by line_total (prepare_order_items image products d) ≡ sum_by price_of products
  unfolding prepare_order_items
  sum-prepare_order_items [] = refl
  sum-prepare_order_items (p ∷ products) =
      ap (λ (n : ℕ). p.price + n) (sum-prepare_order_items products)

  pub length-prepare_order_items :
      (products : List Product) → length (prepare_order_items image products d) ≡ length products
  unfolding prepare_order_items
  length-prepare_order_items [] = refl
  length-prepare_order_items (p ∷ products) = omega (arith, length-prepare_order_items products)

  pub flagged-prepare_order_items :
      (products : List Product)
      → sum_by line_total (filter is_flagged (prepare_order_items image products d))
        ≡ sum_by price_of (filter (λ p. is_product_eligible_for_discount p d) products)
  unfolding prepare_order_items
  flagged-prepare_order_items [] = refl
  flagged-prepare_order_items (p ∷ products) = ground (arith, flagged-prepare_order_items products)

  pub prepare_order_items-IsLine :
      (products : List Product)
      → percent_of d ≤ 100
      → All IsLine (prepare_order_items image products d)
  unfolding prepare_order_items
  prepare_order_items-IsLine [] h = tt
  prepare_order_items-IsLine (p ∷ products) h =
      (line (is_product_eligible_for_discount p d) d h, prepare_order_items-IsLine products h)
    where
      line :
          (eligible : Bool) (d : Option PromoCodeDiscount)
          → percent_of d ≤ 100
          → (p.price ≡ p.price * 1)
            × ((item_discount d eligible p.price).0
                  + or_else (item_discount d eligible p.price).1 p.price
                ≡ p.price)
      line true none h = omega arith
      line true (some d) h =
          omega (arith, calculate_percent_discount-le p.price d.discount_percent h)
      line false none h = omega arith
      line false (some d) h = omega arith

-- A discount of the order is one of `calculate_promo_code_discount`, for the normalized code.
pub calculate_order_discount-IsSound :
    (now : ℕ) (products : List Product) (user : Option ℕ) (email code : String) (t : PromoTables)
    {d : PromoCodeDiscount}
    → calculate_order_discount now products user email code none t ≡ ok (some d)
    → (find (has_code (normalize_promo_code (normalize_promo_code code))) t.promo_codes
        ≡ some d.promo_code)
      × IsSound products d
unfolding calculate_order_discount
calculate_order_discount-IsSound now products user email code t {d} h =
    let options : PromoValidationOptions = record {
      require_email_limits = true;
      exclude_order_id = none;
    } in
    let code' = normalize_promo_code code in
    let given =
      go (str_eq code' "") (calculate_promo_code_discount now code' products user email options t)
        h in
    let sound =
      calculate_promo_code_discount-IsSound now code' products user email options t {d = d} given in
    (sound.0, sound.2)
  where
    go :
        (empty : Bool) (m : Result PromoCodeError PromoCodeDiscount)
        → (if empty then ok none else m >>= λ d. ok (some d)) ≡ ok (some d)
        → m ≡ ok d
    go true m h = cc
    go false (ok d') h = cc
    go false (err e) h = cc

pub filter_none : (products : List Product) → filter (λ p. false) products ≡ []
filter_none [] = refl
filter_none (p ∷ products) = filter_none products

pub not_eligible : (p : Product) → is_product_eligible_for_discount p none ≡ false
unfolding is_product_eligible_for_discount
not_eligible p = refl

pub filter-agree :
    (p q : Product → Bool) (products : List Product)
    → ((x : Product) → p x ≡ q x)
    → filter p products ≡ filter q products
filter-agree p q [] h = refl
filter-agree p q (x ∷ products) h = ground (arith, h x, filter-agree p q products h)

module _ (env : Env) (user : Option ℕ) (ctx : OrderCreationContext) (t : PromoTables) where
  pub eligible_amount-items :
      (d : Option PromoCodeDiscount)
      → calculate_order_discount env.now ctx.products user ctx.email ctx.promo_code none t ≡ ok d
      → (snapshot d).eligible_amount
        ≡ sum_by price_of (filter (λ p. is_product_eligible_for_discount p d) ctx.products)
  eligible_amount-items none h = sym (
      ap (sum_by price_of) (
        filter-agree (λ p. is_product_eligible_for_discount p none) (λ p. false) ctx.products
          not_eligible
        ∙ filter_none ctx.products))
  eligible_amount-items (some d) h =
      let sound =
        (calculate_order_discount-IsSound env.now ctx.products user ctx.email ctx.promo_code t
          {d = d} h).1 in
      sound.eligible
      ∙ ap (sum_by price_of) (
          eligible_products-eq-filter d.promo_code ctx.products
          ∙ sym (
              filter-agree (λ p. is_product_eligible_for_discount p (some d))
                (λ p. is_product_eligible p d.promo_code) ctx.products
                (λ p. is_product_eligible_for_discount-eq p d)))

  pub discount-le :
      (d : Option PromoCodeDiscount)
      → calculate_order_discount env.now ctx.products user ctx.email ctx.promo_code none t ≡ ok d
      → (snapshot d).amount ≤ sum_by price_of ctx.products
  discount-le none h = omega arith
  discount-le (some d) h =
      let sound =
        (calculate_order_discount-IsSound env.now ctx.products user ctx.email ctx.promo_code t
          {d = d} h).1 in
      omega (arith, sound.not_free)
