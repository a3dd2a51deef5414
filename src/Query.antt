-- ===== src/Query.antt =====
-- The engine-neutral filters of core/query/filter.go and the dynamic values that they compare.
pub mod Value
pub mod Filter
