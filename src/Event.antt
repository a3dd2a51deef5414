-- ===== src/Event.antt =====
-- core/event: the event envelope and the upcaster chain.
pub mod Envelope
pub mod Upcast
pub mod Latest
mod Tests
