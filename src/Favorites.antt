-- ===== src/Favorites.antt =====
-- apps/favorites/services.py: the products that a visitor keeps in mind, in the session or in a table.
pub mod Services
pub mod Page
pub mod Pagination
pub mod Merged
mod Tests
