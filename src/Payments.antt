-- ===== src/Payments.antt =====
-- apps/payments: invoices and the events that the payment provider reports about them.
pub mod Model
pub mod Session
pub mod Status
pub mod Apply
pub mod Webhook
pub mod Reminders
pub mod Creation
pub mod Sync
pub mod Tests
