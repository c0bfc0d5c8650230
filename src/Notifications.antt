-- ===== src/Notifications.antt =====
-- apps/notifications: the outbox of mails and messages.
pub mod Outbox
pub mod Enqueue
pub mod Reaper
pub mod Delivery
pub mod Tests
