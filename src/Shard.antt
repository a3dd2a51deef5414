-- ===== src/Shard.antt =====
-- adapters/shard: which database serves a tenant.
pub mod Directory
pub mod Autoscaler
mod Tests
