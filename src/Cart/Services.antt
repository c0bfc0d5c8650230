-- ===== src/Cart/Services.antt =====
-- apps/cart/services.py: reading and changing the cart, and the guard of apps/orders/purchase_guards.py.
use palingames.Base.{
  ℕ, zero, suc, Bool, true, false, not, ◌&&◌, ◌||◌, Option, none, some, List, [], ◌∷◌, ◌++◌, map,
  filter, find, any, elem, ◌==◌, ltb, or_else, option_eq, if◌then◌else◌,
}
use palingames.Orders.Model.{Order, OrderItem, OrderStatus}
use palingames.Access.Users.{has_user_product_access, get_user_product_access_ids}
use palingames.Payments.Model.{InvoiceStatus, is_pending}
use palingames.Cart.Request.{RawId, Session, Request, CartItem, Shop}

-- `int(raw_id)` as far as the result is positive; else none, for an error or a number up to 0.
unfoldable pub positive_int : RawId → Option ℕ
positive_int (RawId.whole zero) = none
positive_int (RawId.whole (suc n)) = some (suc n)
positive_int (RawId.negative n) = none
positive_int RawId.refused = none

-- The loop: `seen` holds the ids that were kept.
unfoldable pub normalize_from : List ℕ → List RawId → List ℕ
unfolding positive_int
normalize_from seen [] = []
normalize_from seen (raw ∷ rest) = elim (positive_int raw) [
  | none ↦ normalize_from seen rest
  | some n ↦ elim (elem n seen) [
    | true ↦ normalize_from seen rest
    | false ↦ n ∷ normalize_from (n ∷ seen) rest
  ]
]

unfoldable pub normalize_product_ids : List RawId → List ℕ
unfolding normalize_from
normalize_product_ids raw_ids = normalize_from [] raw_ids

unfoldable pub get_guest_cart_ids : Session → List ℕ
unfolding normalize_product_ids
get_guest_cart_ids s = normalize_product_ids (or_else s.guest_cart_product_ids [])

unfoldable pub set_guest_cart_ids : List ℕ → Session → Session
unfolding normalize_product_ids
set_guest_cart_ids ids s = record s {
  guest_cart_product_ids =
      some (map (λ n. RawId.whole n) (normalize_product_ids (map (λ n. RawId.whole n) ids)));
  modified = true;
}

abbrev pub is_item_of : ℕ → CartItem → Bool
is_item_of user item = item.user_id == user

abbrev pub is_item : ℕ → ℕ → CartItem → Bool
is_item user product_id item = item.user_id == user && item.product_id == product_id

abbrev cart_product_ids : Option ℕ → Session → List CartItem → List ℕ
cart_product_ids (some user) session items =
    map (λ i. i.product_id) (filter (is_item_of user) items)
cart_product_ids none session items = get_guest_cart_ids session

unfoldable pub get_cart_product_ids : Request → Shop → List ℕ
unfolding get_guest_cart_ids
get_cart_product_ids r shop = cart_product_ids r.user r.session shop.cart_items

-- The order is not paid yet and its invoice, if it has one, may still be paid.
abbrev pub invoice_of : ℕ → List (ℕ × InvoiceStatus) → Option InvoiceStatus
invoice_of id [] = none
invoice_of id ((k, st) ∷ rest) = if k == id then some st else invoice_of id rest

abbrev is_open_invoice : Option InvoiceStatus → Bool
is_open_invoice none = true
is_open_invoice (some st) = is_pending st

abbrev pub is_pending_purchase : Option InvoiceStatus → OrderStatus → Bool
is_pending_purchase invoice OrderStatus.created = true
is_pending_purchase invoice OrderStatus.waiting_for_payment = is_open_invoice invoice
is_pending_purchase invoice _ = false

-- `order_by("-order__created_at", "-order_id", "id").first()`: the newer of two orders, by its id
-- where they were created together; the first of two items of one order.
abbrev is_newer : Order → Order → Bool
is_newer a b = ltb b.created_at a.created_at || (a.created_at == b.created_at && ltb b.id a.id)

abbrev newest : Option (Order × OrderItem) → Option (Order × OrderItem) → Option (Order × OrderItem)
newest none b = b
newest (some a) none = some a
newest (some a) (some b) = if is_newer b.0 a.0 then some b else some a

abbrev with_order : Order → Option OrderItem → Option (Order × OrderItem)
with_order o none = none
with_order o (some item) = some (o, item)

abbrev is_pending_order : ℕ → List (ℕ × InvoiceStatus) → Order → Bool
is_pending_order user invoices o =
    option_eq o.user_id (some user) && is_pending_purchase (invoice_of o.id invoices) o.status

unfoldable pub pending_item :
    ℕ → List ℕ → List (ℕ × InvoiceStatus) → List Order → Option (Order × OrderItem)
pending_item user ids invoices [] = none
pending_item user ids invoices (o ∷ orders) =
    newest
      (if is_pending_order user invoices o
        then with_order o (find (λ i. elem i.product_id ids) o.items)
        else none)
      (pending_item user ids invoices orders)

unfoldable pub get_user_pending_order_item_by_product_ids :
    Option ℕ → List ℕ → Shop → Option (Order × OrderItem)
unfolding pending_item
get_user_pending_order_item_by_product_ids none ids shop = none
get_user_pending_order_item_by_product_ids (some user) [] shop = none
get_user_pending_order_item_by_product_ids (some user) (id ∷ ids) shop =
    pending_item user (id ∷ ids) shop.invoices shop.orders

-- The dictionary that the toggle returns; the message names the pending order and its item.
pub record ToggleResult : Type 0 where
  pub in_cart : Bool
  pub already_purchased : Bool
  pub already_pending_purchase : Bool
  pub pending : Option (Order × OrderItem)

abbrev pub toggled : Bool → ToggleResult
toggled in_cart = record {
  in_cart = in_cart;
  already_purchased = false;
  already_pending_purchase = false;
  pending = none;
}

unfoldable pub toggle_user_item : ℕ → ℕ → Shop → ToggleResult × Shop
toggle_user_item user product_id shop =
    if any (is_item user product_id) shop.cart_items
    then (
      toggled false,
      record shop { cart_items = filter (λ i. not (is_item user product_id i)) shop.cart_items },
    )
    else (
      toggled true,
      record shop {
        cart_items = shop.cart_items ++ record { user_id = user; product_id = product_id } ∷ [];
      },
    )

unfoldable pub toggle_user_product : ℕ → ℕ → Shop → ToggleResult × Shop
unfolding toggle_user_item get_user_pending_order_item_by_product_ids has_user_product_access
toggle_user_product user product_id shop =
    if has_user_product_access (some user) product_id shop.user_accesses
    then (record (toggled false) { already_purchased = true }, shop)
    else elim (get_user_pending_order_item_by_product_ids (some user) (product_id ∷ []) shop) [
      | some found ↦
          (record (toggled false) { already_pending_purchase = true; pending = some found }, shop)
      | none ↦ toggle_user_item user product_id shop
    ]

unfoldable pub toggle_guest_product : ℕ → Session → ToggleResult × Session
unfolding get_guest_cart_ids set_guest_cart_ids
toggle_guest_product product_id s =
    let ids = get_guest_cart_ids s in
    if elem product_id ids
    then (toggled false, set_guest_cart_ids (filter (λ n. not (n == product_id)) ids) s)
    else (toggled true, set_guest_cart_ids (ids ++ product_id ∷ []) s)

abbrev toggle_as : Option ℕ → ℕ → Request → Shop → ToggleResult × Request × Shop
toggle_as (some user) product_id r shop =
    let (result, shop') = toggle_user_product user product_id shop in (result, r, shop')
toggle_as none product_id r shop =
    let (result, session) = toggle_guest_product product_id r.session in
    (result, record r { session = session }, shop)

unfoldable pub toggle_cart_product : ℕ → Request → Shop → ToggleResult × Request × Shop
unfolding toggle_user_product toggle_guest_product
toggle_cart_product product_id r shop = toggle_as r.user product_id r shop

abbrev remove_as : Option ℕ → ℕ → Request → Shop → Request × Shop
remove_as (some user) product_id r shop =
    (r, record shop { cart_items = filter (λ i. not (is_item user product_id i)) shop.cart_items })
remove_as none product_id r shop = (
  record r {
    session =
        set_guest_cart_ids (filter (λ n. not (n == product_id)) (get_guest_cart_ids r.session))
          r.session;
  },
  shop,
)

unfoldable pub remove_cart_product : ℕ → Request → Shop → Request × Shop
unfolding get_guest_cart_ids set_guest_cart_ids
remove_cart_product product_id r shop = remove_as r.user product_id r shop

abbrev clear_as : Option ℕ → Request → Shop → Request × Shop
clear_as (some user) r shop =
    (r, record shop { cart_items = filter (λ i. not (is_item_of user i)) shop.cart_items })
clear_as none r shop = (record r { session = set_guest_cart_ids [] r.session }, shop)

unfoldable pub clear_cart : Request → Shop → Request × Shop
unfolding set_guest_cart_ids
clear_cart r shop = clear_as r.user r shop

-- The guest's products that the account neither has in its cart nor has bought.
unfoldable pub missing_ids : ℕ → List ℕ → Shop → List ℕ
unfolding get_user_product_access_ids
missing_ids user guest_ids shop =
    let existing = map (λ i. i.product_id) (filter (is_item_of user) shop.cart_items) in
    let purchased = get_user_product_access_ids (some user) (some guest_ids) shop.user_accesses in
    filter (λ n. not (elem n existing) && not (elem n purchased)) guest_ids

abbrev pub merge_ids : List ℕ → Request → ℕ → Shop → Request × Shop
merge_ids [] r user shop = (r, shop)
merge_ids (id ∷ ids) r user shop = (
  record r { session = set_guest_cart_ids [] r.session },
  record shop {
    cart_items =
        shop.cart_items
        ++ map (λ n. record { user_id = user; product_id = n }) (missing_ids user (id ∷ ids) shop);
  },
)

unfoldable pub merge_guest_cart_to_user : Request → ℕ → Shop → Request × Shop
unfolding missing_ids get_guest_cart_ids set_guest_cart_ids
merge_guest_cart_to_user r user shop = merge_ids (get_guest_cart_ids r.session) r user shop
