-- ===== src/Promocodes.antt =====
-- apps/promocodes: the codes, their limits, and the discount that a code gives.
pub mod Model
pub mod Calculate
pub mod Tests
