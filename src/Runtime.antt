-- ===== src/Runtime.antt =====
-- src/runtime: the parts of a turn's runtime that keep state of their own.
pub mod Approvals
pub mod Threads
mod Tests
