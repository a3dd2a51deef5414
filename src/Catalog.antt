-- ===== src/Catalog.antt =====
-- core/catalog: the tenant catalog's entries, and reads that fall over to replicas.
pub mod Entry
pub mod Failover
pub mod Degraded
pub mod Listing
mod Tests
