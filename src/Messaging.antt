-- ===== src/Messaging.antt =====
-- internal/messaging: publishing configuration to the three JetStream KV buckets.
mod Tests
pub mod Limits
pub mod Kv
pub mod Sample
pub mod Publish
pub mod Buckets
pub mod Publisher
pub mod ConfigPublisher
pub mod Reconciler
