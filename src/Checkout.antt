-- ===== src/Checkout.antt =====
-- apps/orders/services.py: from the cart to an order. `Services` has the reading of the cart and the
-- items, `Create` the creation of the order.
pub mod Services
pub mod Create
pub mod Created
pub mod Amounts
pub mod Repeated
pub mod Purchases
pub mod Manual
mod Tests
