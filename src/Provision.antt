-- ===== src/Provision.antt =====
-- core/provision: the life of a tenant's database or schema, and the fleet migration.
pub mod Store
pub mod Lifecycle
pub mod Schema
pub mod Writes
pub mod Keeps
pub mod Healthy
pub mod Converges
pub mod Resumed
pub mod Fleet
mod Tests
