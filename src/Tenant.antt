-- ===== src/Tenant.antt =====
-- core/tenant and core/pathctx: tenant ids and the schemas they are mapped to.
pub mod Schema
