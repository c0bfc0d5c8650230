-- ===== src/Rewards.antt =====
-- apps/orders/reward_services.py and apps/products/services/review_rewards.py: the promo codes that reward
-- a paid order or a published review, and the mails with them.
pub mod Codes
pub mod Orders
pub mod Reviews
mod Tests
