-- ===== src/Command.antt =====
-- core/command: the command plane, the only write path of aggregates.
pub mod Model
pub mod Prepare
pub mod Executor
pub mod Admit
pub mod Stamp
pub mod Batch
pub mod Atomic
pub mod Concurrency
mod Tests
