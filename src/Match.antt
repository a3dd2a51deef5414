-- ===== src/Match.antt =====
-- core/livequery/match: filters evaluated in Go against the row of a change.
pub mod Compare
pub mod Like
pub mod Predicate
pub mod LikeSteps
pub mod LikeCorrect
pub mod Guard
pub mod Sql
pub mod Values
pub mod Parity
mod Tests
