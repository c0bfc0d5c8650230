-- ===== src/Orders/Watchdog/Run.antt =====
-- apps/orders/watchdog.py: the selection of the orders, and the run over them.
use palingames.Base.{
  ℕ, ◌+◌, Bool, false, not, ◌&&◌, ◌||◌, none, some, List, [], ◌∷◌, ◌++◌, filter, length, ltb, leb,
  ◌==◌, is_some, if◌then◌else◌,
}
use palingames.Orders.Model.{is_paid}
use palingames.Orders.Watchdog.{
  OrderDeliveryProblem, OrderWithInvoice, Tables, check_paid_order_delivery,
  check_unpaid_order_missing_invoice, is_unpaid,
}

-- `WATCHDOG_GRACE_PERIOD` and `WATCHDOG_LOOKBACK`, in the unit of the instants, and the timeout of the
-- outbox.
pub record WatchdogSettings : Type 0 where
  pub grace_period : ℕ
  pub lookback : ℕ
  pub timeout : ℕ

abbrev pub is_in_window : WatchdogSettings → ℕ → ℕ → Bool
is_in_window s now at = leb (at + s.grace_period) now && leb now (at + s.lookback)

abbrev pub is_paid_in_window : WatchdogSettings → ℕ → OrderWithInvoice → Bool
is_paid_in_window s now o =
    is_paid o.order.status
    && elim o.order.paid_at [ none ↦ false | some at ↦ is_in_window s now at ]

unfoldable pub get_paid_orders_for_watchdog :
    WatchdogSettings → ℕ → List OrderWithInvoice → List OrderWithInvoice
get_paid_orders_for_watchdog s now orders = filter (is_paid_in_window s now) orders

abbrev pub is_paid_without_instant : WatchdogSettings → ℕ → OrderWithInvoice → Bool
is_paid_without_instant s now o =
    is_paid o.order.status
    && not (is_some o.order.paid_at)
    && leb now (o.order.created_at + s.lookback)

unfoldable pub get_paid_orders_with_missing_paid_at_for_watchdog :
    WatchdogSettings → ℕ → List OrderWithInvoice → List OrderWithInvoice
get_paid_orders_with_missing_paid_at_for_watchdog s now orders =
    filter (is_paid_without_instant s now) orders

abbrev pub is_unpaid_in_window : WatchdogSettings → ℕ → OrderWithInvoice → Bool
is_unpaid_in_window s now o = is_unpaid o.order.status && is_in_window s now o.order.created_at

abbrev pub comes_before : OrderWithInvoice → OrderWithInvoice → Bool
comes_before a b =
    ltb a.order.created_at b.order.created_at
    || (a.order.created_at == b.order.created_at && ltb a.order.id b.order.id)

-- `order_by("created_at", "id")`
unfoldable pub insert_order_by_age :
    OrderWithInvoice → List OrderWithInvoice → List OrderWithInvoice
insert_order_by_age o [] = o ∷ []
insert_order_by_age o (p ∷ ps) =
    let rest = insert_order_by_age o ps in if comes_before p o then p ∷ rest else o ∷ p ∷ ps

unfoldable pub sorted_orders : List OrderWithInvoice → List OrderWithInvoice
unfolding insert_order_by_age
sorted_orders [] = []
sorted_orders (o ∷ os) = insert_order_by_age o (sorted_orders os)

unfoldable pub get_unpaid_orders_missing_invoice_for_watchdog :
    WatchdogSettings → ℕ → List OrderWithInvoice → List OrderWithInvoice
unfolding sorted_orders
get_unpaid_orders_missing_invoice_for_watchdog s now orders =
    sorted_orders (filter (is_unpaid_in_window s now) orders)

-- `problems.extend(check(order))` for each order.
abbrev pub problems_of :
    (OrderWithInvoice → List OrderDeliveryProblem)
    → List OrderWithInvoice
    → List OrderDeliveryProblem
problems_of check [] = []
problems_of check (o ∷ os) = check o ++ problems_of check os

pub record OrderDeliveryWatchdogResult : Type 0 where
  pub checked_orders : ℕ
  pub checked_unpaid_orders : ℕ
  pub problems : List OrderDeliveryProblem

unfoldable pub run_order_delivery_watchdog :
    WatchdogSettings → ℕ → List OrderWithInvoice → Tables → OrderDeliveryWatchdogResult
unfolding check_paid_order_delivery check_unpaid_order_missing_invoice
    get_unpaid_orders_missing_invoice_for_watchdog get_paid_orders_for_watchdog
    get_paid_orders_with_missing_paid_at_for_watchdog
run_order_delivery_watchdog s now orders t =
    let unpaid = get_unpaid_orders_missing_invoice_for_watchdog s now orders in
    let no_instant = get_paid_orders_with_missing_paid_at_for_watchdog s now orders in
    let paid = get_paid_orders_for_watchdog s now orders in
    let check = λ (o : OrderWithInvoice). check_paid_order_delivery s.timeout now o t in
    record {
      checked_orders = length no_instant + length paid;
      checked_unpaid_orders = length unpaid;
      problems =
          problems_of check_unpaid_order_missing_invoice unpaid
          ++ problems_of check no_instant
          ++ problems_of check paid;
    }
