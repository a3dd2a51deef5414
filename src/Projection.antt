-- ===== src/Projection.antt =====
-- core/projection: events to engine-neutral mutations, the consumer loop's handler and rebuilds.
pub mod Mutation
pub mod Applier
pub mod Engine
pub mod Rebuild
pub mod Reconcile
pub mod Verb
pub mod Keyed
pub mod Document
pub mod Delivery
pub mod Flip
pub mod Drifts
mod Tests
