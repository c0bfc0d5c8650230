-- ===== src/Orders/GuestMerge.antt =====
-- `merge_guest_orders_for_user` of apps/orders/guest_merge.py: the orders that a guest placed with the
-- address of an account, when the account signs in.
pub mod Taken
mod Tests
use palingames.Base.{
  ℕ, ◌+◌, String, Bool, true, false, not, ◌&&◌, Option, none, some, List, [], ◌∷◌, filter, length,
  map, ◌==◌, option_eq, elem, str_eq, is_some, if◌then◌else◌,
}
use palingames.Base.Text.{strip, lower, upper}
use palingames.Orders.Model.{Order, is_paid}
use palingames.Access.Model.{UserProductAccess}
use palingames.Access.Users.{grant_items}
use palingames.Promocodes.Model.{PromoCode}

-- The tables that the merge reads and writes.
pub record MergeTables : Type 0 where
  pub orders : List Order
  pub promo_codes : List PromoCode
  pub user_accesses : List UserProductAccess

-- `user__isnull=True, email__iexact=email`
abbrev pub is_guest_order : String → Order → Bool
is_guest_order email o = not (is_some o.user_id) && str_eq (upper o.email) (upper email)

abbrev pub owned_by : ℕ → Order → Order
owned_by user o = record o { user_id = some user }

-- `filter(id__in=…, user__isnull=True).update(user=user)`
unfoldable pub take_orders : ℕ → String → List Order → List Order
take_orders user email [] = []
take_orders user email (o ∷ orders) =
    let rest = take_orders user email orders in
    if is_guest_order email o then owned_by user o ∷ rest else o ∷ rest

-- The reward code gets its owner if it has none.
abbrev pub assign_code : ℕ → Option ℕ → PromoCode → PromoCode
assign_code user none p = p
assign_code user (some id) p =
    if p.id == id && not (is_some p.assigned_user_id)
    then record p { assigned_user_id = some user }
    else p

unfoldable pub merge_order : ℕ → ℕ → Order → MergeTables → MergeTables
unfolding grant_items
merge_order now user o t = record t {
  promo_codes = map (assign_code user o.reward_promo_code_id) t.promo_codes;
  user_accesses =
      if is_paid o.status
      then grant_items now user o.id o.items t.user_accesses
      else t.user_accesses;
}

-- The loop over the orders.
unfoldable pub merge_orders : ℕ → ℕ → List Order → MergeTables → MergeTables
unfolding merge_order
merge_orders now user [] t = t
merge_orders now user (o ∷ orders) t = merge_orders now user orders (merge_order now user o t)

-- The number of merged orders, and the tables. `user` is none for an account without a primary key.
unfoldable pub merge_guest_orders_for_user : ℕ → Option ℕ → String → MergeTables → ℕ × MergeTables
unfolding take_orders merge_orders
merge_guest_orders_for_user now none email t = (0, t)
merge_guest_orders_for_user now (some user) email t =
    let normalized = lower (strip email) in
    if str_eq normalized ""
    then (0, t)
    else let orders = filter (is_guest_order normalized) t.orders in
      (
        length orders,
        merge_orders now user orders (record t { orders = take_orders user normalized t.orders }),
      )
