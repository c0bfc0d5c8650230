-- ===== src/Orders/Watchdog.antt =====
-- apps/orders/watchdog.py: what is wrong with the delivery of an order. An order comes with its invoice.
-- The last branch of `_check_accesses`, for a checkout type outside the choices, has no value here.
pub mod Run
pub mod Delivered
pub mod Reported
mod Tests
use palingames.Base.{
  ℕ, ◌+◌, String, Bool, true, false, not, ◌&&◌, ◌||◌, Option, none, some, List, [], ◌∷◌, ◌++◌, map,
  filter, any, elem, length, ltb, leb, ◌==◌, is_some, or_else, str_eq, if◌then◌else◌,
}
use palingames.Base.Text.{strip}
use palingames.Orders.Model.{Order, OrderItem, OrderStatus, CheckoutType, is_guest, is_paid}
use palingames.Access.Model.{UserProductAccess, GuestAccess}
use palingames.Payments.Model.{Invoice, InvoiceStatus, is_paid as is_paid_invoice}
use palingames.Notifications.Outbox.{Status, Channel, NotificationOutbox}
use palingames.Notifications.Enqueue.{OutboxRow, Target, same_target, same_channel}

-- `OrderDeliveryProblemCode` with the details of each; `severity_of` is the level that goes with it.
pub data ProblemCode : Type 0 where
  invoice_missing authenticated_order_without_user order_paid_at_missing : ProblemCode
  invoice_status_mismatch : ℕ → InvoiceStatus → OrderStatus → ProblemCode
  invoice_paid_at_missing : ℕ → ProblemCode
  missing_user_product_access : ℕ → ℕ → ProblemCode
  missing_guest_access : ℕ → ProblemCode
  guest_download_notification_missing : String → ProblemCode
  guest_download_notification_failed : ℕ → ℕ → String → ProblemCode
  guest_download_notification_stuck : ℕ → Status → ℕ → String → ProblemCode
  payment_invoice_missing : String → String → OrderStatus → Option Invoice → ProblemCode

pub data Severity : Type 0 where
  critical warning : Severity

unfoldable pub severity_of : ProblemCode → Severity
severity_of (ProblemCode.invoice_paid_at_missing id) = Severity.warning
severity_of _ = Severity.critical

pub record OrderDeliveryProblem : Type 0 where
  pub order_id : ℕ
  pub code : ProblemCode

-- The tables that are read.
pub record Tables : Type 0 where
  pub user_accesses : List UserProductAccess
  pub guest_accesses : List GuestAccess
  pub outbox : List OutboxRow

pub record OrderWithInvoice : Type 0 where
  pub order : Order
  pub invoice : Option Invoice

abbrev pub problem : Order → ProblemCode → OrderDeliveryProblem
problem order code = record { order_id = order.id; code = code }

abbrev pub problem_if : Bool → Order → ProblemCode → List OrderDeliveryProblem
problem_if c order code = if c then problem order code ∷ [] else []

abbrev pub check_found_invoice : Order → Option Invoice → List OrderDeliveryProblem
check_found_invoice order none = problem order ProblemCode.invoice_missing ∷ []
check_found_invoice order (some i) =
    problem_if (not (is_paid_invoice i.status)) order
      (ProblemCode.invoice_status_mismatch i.id i.status order.status)
    ++ problem_if (not (is_some i.paid_at)) order (ProblemCode.invoice_paid_at_missing i.id)

unfoldable pub check_invoice : OrderWithInvoice → List OrderDeliveryProblem
check_invoice o = check_found_invoice o.order o.invoice

-- A set of numbers in rising order.
unfoldable pub insert_id : ℕ → List ℕ → List ℕ
insert_id n [] = n ∷ []
insert_id n (m ∷ ms) =
    let rest = insert_id n ms in if n == m then m ∷ ms else if ltb n m then n ∷ m ∷ ms else m ∷ rest

unfoldable pub sorted_ids : List ℕ → List ℕ
unfolding insert_id
sorted_ids [] = []
sorted_ids (n ∷ ns) = insert_id n (sorted_ids ns)

unfoldable pub get_order_product_ids : Order → List ℕ
unfolding sorted_ids
get_order_product_ids order = sorted_ids (map (λ (i : OrderItem). i.product_id) order.items)

-- `sorted(expected - existing)`
abbrev pub missing_ids : List ℕ → List ℕ → List ℕ
missing_ids expected existing = filter (λ n. not (elem n existing)) expected

abbrev pub user_access_ids : ℕ → List ℕ → List UserProductAccess → List ℕ
user_access_ids user expected rows =
    map (λ (a : UserProductAccess). a.product_id)
      (filter (λ a. a.user_id == user && elem a.product_id expected) rows)

abbrev pub authenticated_problems : Order → Tables → Option ℕ → List OrderDeliveryProblem
authenticated_problems order t none =
    problem order ProblemCode.authenticated_order_without_user ∷ []
authenticated_problems order t (some user) =
    let expected = get_order_product_ids order in
    map (λ n. problem order (ProblemCode.missing_user_product_access n user))
      (missing_ids expected (user_access_ids user expected t.user_accesses))

unfoldable pub check_authenticated_accesses : Order → Tables → List OrderDeliveryProblem
unfolding get_order_product_ids
check_authenticated_accesses order t = authenticated_problems order t order.user_id

abbrev pub guest_access_ids : ℕ → List ℕ → List GuestAccess → List ℕ
guest_access_ids order_id expected rows =
    map (λ (a : GuestAccess). a.product_id)
      (filter (λ a. a.order_id == order_id && elem a.product_id expected) rows)

unfoldable pub check_guest_accesses : Order → Tables → List OrderDeliveryProblem
unfolding get_order_product_ids
check_guest_accesses order t =
    let expected = get_order_product_ids order in
    map (λ n. problem order (ProblemCode.missing_guest_access n))
      (missing_ids expected (guest_access_ids order.id expected t.guest_accesses))

unfoldable pub check_accesses : Order → Tables → List OrderDeliveryProblem
unfolding check_authenticated_accesses check_guest_accesses
check_accesses order t =
    if is_guest order.checkout_type
    then check_guest_accesses order t
    else check_authenticated_accesses order t

-- `at < now - timeout`
abbrev pub is_older : ℕ → ℕ → ℕ → Bool
is_older timeout now at = ltb (at + timeout) now

abbrev pub is_stuck_from : ℕ → ℕ → NotificationOutbox → Status → Bool
is_stuck_from timeout now row Status.pending = is_older timeout now row.created_at
is_stuck_from timeout now row Status.processing =
    is_older timeout now (or_else row.last_attempt_at row.created_at)
is_stuck_from timeout now row _ = false

unfoldable pub guest_download_outbox_is_stuck : ℕ → ℕ → NotificationOutbox → Bool
guest_download_outbox_is_stuck timeout now row = is_stuck_from timeout now row row.status

abbrev pub is_guest_download : Order → OutboxRow → Bool
is_guest_download order row =
    str_eq row.notification_type "guest_order_download"
    && same_channel row.state.channel Channel.email
    && same_target row.target (some (record { content_type = "order"; object_id = order.id }))

abbrev pub newer_of : OutboxRow → Option OutboxRow → OutboxRow
newer_of row none = row
newer_of row (some other) = if ltb row.state.created_at other.state.created_at then other else row

-- `order_by("-created_at").first()`, the first of the newest.
unfoldable pub newest_row : List OutboxRow → Option OutboxRow
newest_row [] = none
newest_row (row ∷ rows) = some (newer_of row (newest_row rows))

unfoldable pub get_guest_download_outbox : Order → List OutboxRow → Option OutboxRow
unfolding newest_row
get_guest_download_outbox order rows = newest_row (filter (is_guest_download order) rows)

abbrev pub is_failed : Status → Bool
is_failed Status.failed = true
is_failed _ = false

abbrev pub notification_problems : ℕ → ℕ → Order → Option OutboxRow → List OrderDeliveryProblem
notification_problems timeout now order none =
    problem order (ProblemCode.guest_download_notification_missing order.email) ∷ []
notification_problems timeout now order (some row) =
    if is_failed row.state.status
    then problem order (
        ProblemCode.guest_download_notification_failed row.id row.state.attempts
          row.state.last_error)
      ∷ []
    else problem_if (guest_download_outbox_is_stuck timeout now row.state) order (
        ProblemCode.guest_download_notification_stuck row.id row.state.status row.state.attempts
          order.email)

unfoldable pub check_guest_notification : ℕ → ℕ → Order → Tables → List OrderDeliveryProblem
unfolding get_guest_download_outbox guest_download_outbox_is_stuck
check_guest_notification timeout now order t =
    notification_problems timeout now order (get_guest_download_outbox order t.outbox)

unfoldable pub check_paid_order_delivery :
    ℕ → ℕ → OrderWithInvoice → Tables → List OrderDeliveryProblem
unfolding check_invoice check_accesses check_guest_notification
check_paid_order_delivery timeout now o t =
    if not (is_paid o.order.status)
    then []
    else problem_if (not (is_some o.order.paid_at)) o.order ProblemCode.order_paid_at_missing
      ++ check_invoice o
      ++ check_accesses o.order t
      ++ (if is_guest o.order.checkout_type
          then check_guest_notification timeout now o.order t
          else [])

-- `(value or "").strip()` is empty.
abbrev pub is_blank : Option String → Bool
is_blank value = str_eq (strip (or_else value "")) ""

unfoldable pub order_is_missing_payment_invoice : Option Invoice → Bool
order_is_missing_payment_invoice none = true
order_is_missing_payment_invoice (some i) = is_blank i.provider_invoice_no || is_blank i.invoice_url

abbrev pub is_unpaid : OrderStatus → Bool
is_unpaid OrderStatus.created = true
is_unpaid OrderStatus.waiting_for_payment = true
is_unpaid _ = false

unfoldable pub check_unpaid_order_missing_invoice : OrderWithInvoice → List OrderDeliveryProblem
unfolding order_is_missing_payment_invoice
check_unpaid_order_missing_invoice o =
    problem_if (is_unpaid o.order.status && order_is_missing_payment_invoice o.invoice) o.order
      (ProblemCode.payment_invoice_missing o.order.public_id o.order.email o.order.status o.invoice)
