-- ===== src/Telegram.antt =====
-- bot/telegram_bot: the Telegram service between the shop's streams and Telegram.
pub mod Messages
pub mod Outbound
pub mod Feedback
mod Tests
