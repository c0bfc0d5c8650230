-- ===== src/Lib.antt =====
-- A model of the cart, checkout, payment and access core of the PaLinGames shop, a Django
-- application.
--
-- The parts. A visitor fills a cart and checks out, with or without a promo code; the customer
-- pays for the order, or for a custom game; the payment provider reports the status of the
-- invoice; the report changes the invoice and its order or request; and a paid order gives its
-- owner access to the products. Base has the shared tests, lists and Python's text methods.
-- Products and Orders.Model have the rows of apps/products/models.py and apps/orders/models.py,
-- CustomGames.Model those of apps/custom_games/models.py.
--
-- Access models apps/access: Access.Model the tables of apps/access/models.py, Access.Users and
-- Access.Guests the functions of apps/access/services.py, Access.Download the view of
-- apps/access/views.py. Payments models apps/payments/services.py: Payments.Model the rows,
-- Payments.Status the table of allowed transitions and `resolve_status_update`, Payments.Apply
-- `mark_order_paid` and `apply_invoice_status_update` with all that they call. Payments.Webhook
-- models apps/payments/views: the checks of a notification, and the transactions
-- `_process_status_change` (Payments.Webhook) and `_process_epos_notification`
-- (Payments.Webhook.Settlement) with the table of events that a delivery is looked up in. A
-- transaction is a `Session`: the objects in memory, the rows that they were read from, and the
-- effects (mails, tasks, incidents, counters) in a list.
--
-- Promocodes models apps/promocodes/services.py: who may use a code, and its discount. Cart
-- models apps/cart/services.py and apps/orders/purchase_guards.py: Cart.Request the session and
-- the tables of the shop, Cart.Services the operations. Checkout models apps/orders/services.py
-- up to `create_order_from_cart`: Checkout.Services the cart's products, the keys in the session
-- and the items, Checkout.Create the creation of an order; another transaction's writes before
-- the insertion are an argument. Orders.Accounts models apps/core/payment_account_numbers.py,
-- Orders.GuestMerge apps/orders/guest_merge.py, Payments.Reminders
-- apps/payments/reminder_policy.py, and Payments.Creation and Payments.Sync (with
-- Payments.Sync.Selection) the invoice tasks of apps/payments/tasks.py. Notifications.Outbox
-- models a row of the outbox of apps/notifications/services.py, Notifications.Outbox.Steps the
-- step relation of its workers, Notifications.Enqueue the table, Notifications.Reaper the reaper
-- and the clean-up, and Notifications.Delivery the answers of the Telegram service in
-- apps/notifications/telegram_delivery.py. Rewards models apps/orders/reward_services.py and
-- apps/products/services/review_rewards.py, and Products.Reviews
-- apps/products/services/reviews.py; Checkout.Manual models the recalculation of a manual order
-- at the end of apps/orders/services.py. Payments.Webhook.Endpoint models
-- `ExpressPayNotificationView.post` with the reading and the signature of a request, and
-- Payments.Webhook.Endpoint.Settlements the view of settlements. CustomGames.Status models the
-- marks and checks of apps/custom_games/models.py, and CustomGames.Downloads the delivery in
-- apps/custom_games/services.py and the download view. Orders.Watchdog models
-- apps/orders/watchdog.py, Telegram the service bot/telegram_bot, from the entry that
-- apps/notifications/telegram.py publishes (Telegram.Messages) over its delivery
-- (Telegram.Outbound) to the answer as the shop reads it (Telegram.Feedback), Core.RateLimits
-- apps/core/rate_limits.py and Core.AuthRateLimits its middleware, and Favorites
-- apps/favorites/services.py.
--
-- Conventions. Amounts are whole cents and instants are numbers. A row that may be missing is an
-- option, a table is a list. The clock is read once for a call. Random tokens, hashes and the
-- current time zone are parameters. Log lines, `updated_at` and the rendering of prices and pages
-- are left out. No function needs fuel but `str`, whose fuel is the number and one, which is at
-- least the number of its digits.
--
-- Not modelled: the admin, forms, templates and analytics, since they render pages and call
-- services; queries of the catalogue, search, S3 and images, which are calls of Django, boto3 and
-- Pillow; Redis, aiogram and the web server of the Telegram service; ExpressPay's client, whose
-- answers are parameters; metrics, logs and alerts. Also not modelled: the retries of the payment
-- tasks, their reports, the checkout page, managed links, and the creation of a request for a
-- custom game.
pub mod Base
pub mod Products
pub mod Orders
pub mod Access
pub mod CustomGames
pub mod Payments
pub mod Promocodes
pub mod Cart
pub mod Checkout
pub mod Notifications
pub mod Rewards
pub mod Core
pub mod Favorites
pub mod Telegram
