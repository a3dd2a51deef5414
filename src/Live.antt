-- ===== src/Live.antt =====
-- core/livequery: maintained and streamed live queries.
pub mod Types
pub mod Order
pub mod FieldDelta
pub mod Window
pub mod Index
pub mod View
mod Tests
