-- ===== src/CustomGames.antt =====
-- apps/custom_games: the requests for a game made to order.
pub mod Model
pub mod Status
pub mod Downloads
mod Tests
