-- ===== src/Cart.antt =====
-- apps/cart: the products that a visitor has chosen, in the session or in the account's cart.
pub mod Request
pub mod Services
pub mod Guest
pub mod Merge
pub mod Account
pub mod Tests
