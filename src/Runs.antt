-- ===== src/Runs.antt =====
-- src/runs: the channel through which the events of runs are written, the store of runs, and their
-- history.
pub mod Channel
pub mod Journal
pub mod Store
pub mod History
mod Tests
