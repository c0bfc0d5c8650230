-- ===== src/Checkout/Repeated.antt =====
-- The idempotency key of `create_order_from_cart` of apps/orders/services.py, for a form that is sent
-- again or by two requests at once.
use palingames.Base.{
  raise_if, Result, ok, err, ◌>>◌, ◌≡◌, refl, sym, ap, subst, String, Bool, true, false, Option,
  none, some, List, [], ◌∷◌, ◌++◌, find, any, arith, str_eq,
}
use palingames.Base.Text.{str_eq-same}
use palingames.Orders.Model.{Order}
use palingames.Cart.Request.{Session, Request, Shop}
use palingames.Checkout.Services.{
  has_key, get_order_by_checkout_idempotency_key, has_unavailable_cart_products,
}
use palingames.Checkout.Create.{
  CheckoutError, Env, Form, OrderCreationContext, OrderCreationResult, Outcome, context, recover,
  finish, create_if_new, create_new_order_from_products, create_order_from_cart, insert_order,
  new_order,
}
use palingames.Checkout.Created.{IsCreated, create_new_order_from_products-IsCreated}

find-append :
    (p : Order → Bool) (xs : List Order) (x : Order)
    → any p xs ≡ false
    → p x ≡ true
    → find p (xs ++ x ∷ []) ≡ some x
find-append p [] x h e = ground (arith, e)
find-append p (y ∷ xs) x h e = ground (arith, h, find-append p xs x (ground (arith, h)) e)

-- Whatever came first, the answer's order is the one that the key finds in the rows afterwards.
unfoldable pub IsFound : String → Outcome → Type 0
IsFound key (ok (result, session, shop)) =
    get_order_by_checkout_idempotency_key (some key) shop.orders ≡ some result.order
IsFound key (err e) = Unit

recover-IsFound :
    (key : String) (o : Option Order) (session : Session) (shop : Shop)
    → get_order_by_checkout_idempotency_key (some key) shop.orders ≡ o
    → IsFound key (recover o session shop)
unfolding IsFound
recover-IsFound key none session shop h = tt
recover-IsFound key (some order) session shop h = h

-- The form with a key.
abbrev pub with_key : String → Form → Form
with_key key form = record form { checkout_idempotency_key = some key }

module _ (env : Env) (key : String) (form : Form) (r : Request) (shop : Shop)
    (between : Shop → Shop) (named : str_eq key "" ≡ false) where
  keyed_context : OrderCreationContext
  keyed_context = context (with_key key form) r shop

  created-IsFound :
      {order : Order} {session' : Session} {shop' : Shop}
      → IsCreated env r.user keyed_context r.session shop (between shop) order session' shop'
      → get_order_by_checkout_idempotency_key (some key) shop'.orders ≡ some order
  unfolding get_order_by_checkout_idempotency_key insert_order new_order keyed_context
  created-IsFound {order} {session'} {shop'} c =
      subst
        (λ (p : Order × Shop).
          get_order_by_checkout_idempotency_key (some key) p.1.orders ≡ some p.0)
        {x = insert_order env r.user keyed_context c.d c.account_no (between shop)}
        (sym {a = (order, shop')} c.inserted)
        (rw named (
          find-append (has_key key) (between shop).orders
            (new_order env r.user keyed_context c.d (between shop).next_order_id c.account_no)
            c.key_free (str_eq-same key)))

  finish-IsFound :
      (m : Result CheckoutError (Order × Session × Shop))
      → create_new_order_from_products env r.user keyed_context r.session shop between ≡ m
      → IsFound key (finish (with_key key form) r.session (between shop) m)
  unfolding IsFound keyed_context
  finish-IsFound (ok (order, session', shop')) h =
      created-IsFound
        (create_new_order_from_products-IsCreated env r.user keyed_context r.session shop between h)
  finish-IsFound (err CheckoutError.integrity) h =
      recover-IsFound key (get_order_by_checkout_idempotency_key (some key) (between shop).orders)
        r.session (between shop) refl
  finish-IsFound (err CheckoutError.unavailable_products) h = tt
  finish-IsFound (err CheckoutError.already_purchased) h = tt
  finish-IsFound (err CheckoutError.empty_cart) h = tt
  finish-IsFound (err CheckoutError.no_account_no) h = tt
  finish-IsFound (err (CheckoutError.pending_purchase o i)) h = tt
  finish-IsFound (err (CheckoutError.promo_code e)) h = tt

  if_new-IsFound :
      (found : Option Order)
      → get_order_by_checkout_idempotency_key (some key) shop.orders ≡ found
      → IsFound key (create_if_new env (with_key key form) r shop between found)
  unfolding IsFound keyed_context
  if_new-IsFound (some order) h = h
  if_new-IsFound none h = go (has_unavailable_cart_products r shop) (
      finish-IsFound
        (create_new_order_from_products env r.user keyed_context r.session shop between) refl)
    where
      outcome : Outcome
      outcome =
          finish (with_key key form) r.session (between shop)
            (create_new_order_from_products env r.user keyed_context r.session shop between)

      go :
          (b : Bool)
          → IsFound key outcome
          → IsFound key (raise_if b CheckoutError.unavailable_products >> outcome)
      go true found = tt
      go false found = found

  -- Whether an order is created, was there before, or came from another transaction meanwhile, the one
  -- that is returned is the one that its key finds in the rows afterwards.
  pub create_order_from_cart-IsFound :
      IsFound key (create_order_from_cart env (with_key key form) r shop between)
  unfolding create_order_from_cart
  create_order_from_cart-IsFound =
      if_new-IsFound (get_order_by_checkout_idempotency_key (some key) shop.orders) refl

-- Sent again with the same key, which is not empty, a form that gave an order gives that order, and nothing changes,
-- whatever the second request, its cart and its form are.
pub create_order_from_cart-again :
    (env : Env) (key : String) (form : Form) (r : Request) (shop : Shop) (between : Shop → Shop)
    {result : OrderCreationResult} {session : Session} {shop' : Shop}
    → str_eq key "" ≡ false
    → create_order_from_cart env (with_key key form) r shop between ≡ ok (result, session, shop')
    → (env' : Env) (form' : Form) (r' : Request) (between' : Shop → Shop)
    → create_order_from_cart env' (with_key key form') r' shop' between'
      ≡ ok (record { order = result.order; created = false }, r'.session, shop')
unfolding create_order_from_cart IsFound
create_order_from_cart-again env key form r shop between {result} {session} {shop'} named h env'
      form' r' between' =
    ap (λ (found : Option Order). create_if_new env' (with_key key form') r' shop' between' found)
      {x = get_order_by_checkout_idempotency_key (some key) shop'.orders} {y = some result.order}
      (subst (λ (o : Outcome). IsFound key o)
        {x = create_order_from_cart env (with_key key form) r shop between}
        {y = ok (result, session, shop')} h
        (create_order_from_cart-IsFound env key form r shop between named))
