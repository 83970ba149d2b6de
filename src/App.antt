-- ===== src/App.antt =====
-- internal/app: the edge of the admin API.
mod Tests
pub mod RateLimit
pub mod Tokens
pub mod Request
pub mod Target
pub mod Guard
pub mod AuditWrites
pub mod ReadScope
pub mod Inventory
pub mod Routes
pub mod Observe
