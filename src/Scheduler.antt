-- ===== src/Scheduler.antt =====
-- src/scheduler: timed tasks, their store, their deliveries and the engine that runs them.
pub mod Model
pub mod Schema
pub mod TaskStore
pub mod Create
pub mod Disk
pub mod Lock
pub mod Deliveries
pub mod Reminder
pub mod Watch
pub mod Engine
pub mod Samples
mod Tests
