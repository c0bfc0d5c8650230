-- ===== src/Orders/Watchdog/Tests.antt =====
-- Orders for the watchdog: one whose products were granted, and one of a guest without its mail.
use palingames.Base.{◌≡◌, refl, ℕ, String, not, ◌||◌, some, none, [], ◌∷◌}
use palingames.Access.Model.{Tables as AccessTables}
use palingames.Access.Tests.{order}
use palingames.Orders.Model.{Order, OrderStatus, CheckoutType, is_paid}
use palingames.Payments.Model.{InvoiceStatus}
use palingames.Payments.Tests.{invoice}
use palingames.Orders.Watchdog.{OrderWithInvoice, ProblemCode, Tables, check_paid_order_delivery}
use palingames.Orders.Watchdog.Run.{WatchdogSettings, run_order_delivery_watchdog}
use palingames.Orders.Watchdog.Reported.{
  check_paid_order_delivery-delivered, is_delivered, is_empty,
}

abbrev paid : OrderWithInvoice
paid = record {
  order = record order { status = OrderStatus.paid; paid_at = some 20 };
  invoice = some (record (invoice InvoiceStatus.paid) { paid_at = some 20 });
}

abbrev half_granted : Tables
half_granted = record {
  user_accesses = record { user_id = 7; product_id = 3; order_id = some 1; granted_at = 20 } ∷ [];
  guest_accesses = [];
  outbox = [];
}

one_missing :
    check_paid_order_delivery 5 40 paid half_granted
    ≡ record { order_id = 1; code = ProblemCode.missing_user_product_access 4 7 } ∷ []
unfolding check_paid_order_delivery
one_missing = refl

check_paid_order_delivery-delivered_example :
    is_empty (check_paid_order_delivery 5 40 paid half_granted)
    ≡ (not (is_paid OrderStatus.paid) || is_delivered 5 40 paid half_granted)
check_paid_order_delivery-delivered_example =
    check_paid_order_delivery-delivered 5 40 paid half_granted

abbrev guests : Order
guests = record order {
  status = OrderStatus.paid;
  user_id = none;
  checkout_type = CheckoutType.guest;
}

abbrev hash : String → String
hash s = s

abbrev token : ℕ → String
token n = "t"

abbrev no_rows : AccessTables
no_rows = record { user_accesses = []; guest_accesses = []; next_id = 1 }

abbrev settings : WatchdogSettings
settings = record { grace_period = 10; lookback = 90; timeout = 5 }

late_run :
    (run_order_delivery_watchdog settings 40 (paid ∷ []) half_granted).problems
    ≡ record { order_id = 1; code = ProblemCode.missing_user_product_access 4 7 } ∷ []
unfolding run_order_delivery_watchdog
late_run = refl

early_run : (run_order_delivery_watchdog settings 25 (paid ∷ []) half_granted).problems ≡ []
unfolding run_order_delivery_watchdog
early_run = refl
