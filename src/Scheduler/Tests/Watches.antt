-- ===== src/Scheduler/Tests/Watches.antt =====
-- Watches at concrete observations.
use mathlib.Core.Int.{ℤ}
use alfred_ai.Base.{ℕ, String, refl, true, Option, none, some, [], units, find, show}
use alfred_ai.Scheduler.Model.{Task, watch, herdr_agent, ObservationStatus, task_complete}
use alfred_ai.Scheduler.TaskStore.{CompleteCycleInput, cycle_id_of}
use alfred_ai.Scheduler.Deliveries.{
  delivery_id, ensure_pending, claim_sending, sending_delivery, mark_delivered, replace_delivery,
  new_delivery,
}
use alfred_ai.Scheduler.Reminder.{Outbox}
use alfred_ai.Scheduler.Reminder.Sending.{IsDelivered}
use alfred_ai.Scheduler.Watch.{
  WatchSnapshot, ProbeResult, herdr_probe, execute_watch, completes_cycle, terminal_ending,
  notify_owner, settle_notice,
}
use alfred_ai.Scheduler.Watch.Notices.{execute_watch-IsDelivered}
use alfred_ai.Scheduler.Samples.{held_task}

abbrev watching : Task
watching = record held_task {
  kind = watch;
  watch_definition = some (herdr_agent "w" "p" none);
  max_cycles = 5;
  consecutive_failures = 2;
}

abbrev answering : ℕ → Option (Option String)
answering n = some none

abbrev empty_box : Outbox
empty_box = record { deliveries = []; sent = [] }

abbrev digest_of : ObservationStatus → Option ℤ → String
digest_of s code = "d"

abbrev pane : ObservationStatus → WatchSnapshot
pane s = record { task_id = "t1"; status = s; exit_code = none; stdout = [] }

abbrev cycle : String
cycle = cycle_id_of "t1" 1

abbrev complete_seen : ProbeResult
complete_seen = herdr_probe digest_of (some (pane task_complete)) none

abbrev ending : CompleteCycleInput
ending = record {
  task_id = "t1";
  cycle_id = cycle;
  completed_at = none;
  next_due_at = none;
  observation_digest = some "d";
  observation_status = none;
}

execute_watch-IsDelivered_example :
    IsDelivered
      (delivery_id "t1" cycle "watch_terminal")
      (execute_watch answering true 9000 watching cycle complete_seen empty_box).0.deliveries
unfolding execute_watch terminal_ending herdr_probe notify_owner settle_notice ensure_pending
    claim_sending sending_delivery mark_delivered replace_delivery new_delivery find delivery_id
    cycle_id_of show units
execute_watch-IsDelivered_example =
    execute_watch-IsDelivered answering true 9000 watching cycle complete_seen empty_box
      (completes_cycle ending) refl refl
