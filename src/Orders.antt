-- ===== src/Orders.antt =====
-- apps/orders: the rows of an order and its items.
pub mod Model
pub mod Accounts
pub mod GuestMerge
pub mod Watchdog
