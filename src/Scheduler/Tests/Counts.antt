-- ===== src/Scheduler/Tests/Counts.antt =====
-- The counts of a concrete store.
use alfred_ai.Base.{true, false, none}
use alfred_ai.Scheduler.Engine.Status.{SchedulerStatusSnapshot, no_counts}

abbrev at_rest : SchedulerStatusSnapshot
at_rest = record {
  enabled = true;
  is_running = false;
  active_count = 0;
  max_concurrency = 1;
  last_tick_at = none;
  next_tick_at = none;
  task_counts = no_counts;
}
