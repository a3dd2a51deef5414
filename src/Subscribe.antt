-- ===== src/Subscribe.antt =====
-- core/subscribe: channels, and the hub that fans the deltas of a channel out to its subscribers.
pub mod Delta
pub mod Conflator
pub mod Hub
pub mod Channel
mod Tests
