-- ===== src/Core.antt =====
-- apps/core: the services that the other apps share.
pub mod RateLimits
pub mod AuthRateLimits
mod Tests
