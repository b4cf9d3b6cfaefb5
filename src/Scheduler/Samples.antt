-- ===== src/Scheduler/Samples.antt =====
-- Concrete tasks, files and histories for the tests.
use alfred_ai.Base.{ℕ, String, true, false, none, some, List, [], ◌∷◌}
use alfred_ai.Scheduler.Model.{
  Task, Snapshot, pending, claimed, cancelled, reminder, watch, file_exists, utc, TaskOwner,
  NotificationDestination,
}
use alfred_ai.Scheduler.Schema.{Zod}
use alfred_ai.Scheduler.Create.{CreateInput}
use alfred_ai.Scheduler.TaskStore.{CompleteCycleInput, FailCycleInput, cycle_id_of}
use alfred_ai.Scheduler.Disk.{stored, Disk, Call, claims, marks, completes, cancels}
use alfred_ai.Scheduler.Lock.{LockRecord}

abbrev pub plain_zod : Zod
plain_zod = record { trim = λ s. s; is_uuid = λ s. true }

abbrev pub keep : String → String
keep s = s

abbrev pub owner : TaskOwner
owner = record { session_id = "s"; principal_id = "p"; channel_key = none }

abbrev pub channel : NotificationDestination
channel = record { channel_key = "web:s"; principal_id = "p" }

abbrev pub due_task : Task
due_task = record {
  id = "t1";
  label = "tea";
  kind = reminder;
  status = pending;
  owner = owner;
  created_by_run_id = "r";
  created_at = 1000;
  updated_at = 1000;
  due_at = utc 9000;
  expires_at = none;
  interval_seconds = none;
  fixed_delay = false;
  max_cycles = 2;
  cycle_count = 0;
  consecutive_failures = 0;
  instruction = none;
  reminder_text = some "tea is ready";
  watch_definition = none;
  event_match = none;
  active_cycle_id = none;
  active_run_id = none;
  claim_owner = none;
  lease_expires_at = none;
  last_started_at = none;
  last_completed_at = none;
  last_error_code = none;
  last_observation_digest = none;
  last_observation_status = none;
  notification_destination = some channel;
}

abbrev pub held_task : Task
held_task = record due_task {
  status = claimed;
  cycle_count = 1;
  active_cycle_id = some (cycle_id_of "t1" 1);
  claim_owner = some "a";
  lease_expires_at = some 129000;
}

abbrev pub ended_task : Task
ended_task = record due_task { id = "t2"; status = cancelled; cycle_count = 1 }

abbrev pub tasks : Snapshot
tasks = due_task ∷ ended_task ∷ []

abbrev pub disk : Disk
disk = record { tasks_file = some (stored tasks); quarantined = [] }

abbrev pub completion : CompleteCycleInput
completion = record {
  task_id = "t1";
  cycle_id = cycle_id_of "t1" 1;
  completed_at = none;
  next_due_at = some (utc 99000);
  observation_digest = none;
  observation_status = none;
}

abbrev pub failure : FailCycleInput
failure = record {
  task_id = "t1";
  cycle_id = cycle_id_of "t1" 1;
  retry_at = none;
  error_code = "x";
  terminal = true;
}

-- Claimed, run and completed, cancelled by its owner.
abbrev pub history : List (ℕ × Call)
history =
    (9000, claims "a" "t1" none)
    ∷ (9001, marks "a" "t1" (cycle_id_of "t1" 1) (some "run"))
    ∷ (9002, claims "b" "t1" none)
    ∷ (9003, completes completion)
    ∷ (9004, cancels ("p" ∷ []) "t2" owner)
    ∷ []

abbrev pub watch_input : CreateInput
watch_input = record {
  kind = watch;
  label = "report";
  owner = owner;
  created_by_run_id = "r";
  due_at = utc 90000000;
  expires_at = none;
  interval_seconds = none;
  max_cycles = none;
  instruction = none;
  reminder_text = none;
  watch_definition = some (file_exists "out/report.txt");
  event_match = none;
  notification_destination = some channel;
}

abbrev pub old_lock : LockRecord
old_lock = record { owner_id = "gone"; pid = 1; created_at_ms = 0; expires_at_ms = 30000 }
