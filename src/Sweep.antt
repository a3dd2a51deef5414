-- ===== src/Sweep.antt =====
-- core/sweep: the maintenance sweeps over the fleet of tenant databases.
pub mod Table
pub mod Engine
mod Tests
