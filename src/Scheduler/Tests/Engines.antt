-- ===== src/Scheduler/Tests/Engines.antt =====
-- The engine on concrete stores.
use alfred_ai.Base.{
  List, Option, ℕ, zero, suc, ◌+◌, ◌≤◌, String, ◌≡◌, refl, ◌≢◌, false, none, some, [], ◌∷◌, ◌++◌,
  ok, arith, find, filter, eq_iff, units, show,
}
use alfred_ai.Scheduler.Model.{Task, Snapshot, utc, failed, reminder, wake_turn}
use alfred_ai.Scheduler.Schema.{parse_task, trim_task, valid_task, trim_owner, trim_destination}
use alfred_ai.Scheduler.Create.{
  create, build_task, parse_create, trim_create, valid_create, expiry_for, new_task,
}
use alfred_ai.Scheduler.TaskStore.{
  list_all, list_due, sort_due, insert_due, cycle_id_of, mark_running, mark_running_task,
  fail_cycle, fail_task, amend_required, replace_task,
}
use alfred_ai.Scheduler.Engine.{
  SchedulerProvenance, from_web, ScheduleTaskRequest, schedule, create_input, is_scheduler,
  max_active_per_principal, max_active_global, RunOutcome, EngineLimits, EngineState, TickRound,
  tick,
}
use alfred_ai.Scheduler.Engine.Quota.{active_of, active_in, schedule_quota, quota_race}
use alfred_ai.Scheduler.Engine.Tick.{IsDistinct, IsQuiet, Ended, tick_ends, wake_turn_blocks}
use alfred_ai.Scheduler.Engine.Cycle.{
  Executors, ClaimFaults, run_claim, run_marked, execute_kind, fail_claim,
}
use alfred_ai.Scheduler.Engine.Cycle.Released.{AreCoherent, run_claim-IsReleasedFrom}
use alfred_ai.Scheduler.Tests.{held_task-IsCoherent}
use alfred_ai.Scheduler.Samples.{plain_zod, due_task, held_task, tasks}

abbrev by : SchedulerProvenance
by = record { principal_id = "p"; channel_key = none; origin = from_web }

abbrev request : ScheduleTaskRequest
request = record {
  kind = reminder;
  label = "tea";
  due_at = utc 9000;
  expires_at = none;
  interval_seconds = none;
  max_cycles = some 2;
  instruction = none;
  reminder_text = some "tea is ready";
  watch_definition = none;
  event_match = none;
}

abbrev made : String → Task
made id = new_task 1000 id (create_input request by "s" "r") none

abbrev copies : ℕ → Snapshot
copies zero = []
copies (suc n) = due_task ∷ copies n

schedule_quota_example :
    (is_scheduler from_web ≡ false)
    × ((made "a").status ≡ due_task.status)
    × (active_of "p" (due_task ∷ made "a" ∷ []) ≡ active_of "p" (due_task ∷ []) + 1)
    × (active_in (due_task ∷ made "a" ∷ []) ≡ active_in (due_task ∷ []) + 1)
    × (active_of "p" (due_task ∷ made "a" ∷ []) ≤ max_active_per_principal)
    × (active_in (due_task ∷ made "a" ∷ []) ≤ max_active_global)
unfolding schedule create_input create build_task parse_create trim_create valid_create expiry_for
    new_task parse_task trim_task valid_task trim_owner trim_destination list_all filter units
schedule_quota_example =
    schedule_quota plain_zod 1000 "a" request by "s" "r" (due_task ∷ []) (due_task ∷ made "a" ∷ [])
      (made "a") refl refl

abbrev nineteen : Snapshot
nineteen = copies 19

quota_race_example :
    (schedule plain_zod 1000 "a" request by "s" "r" nineteen nineteen
      ≡ ok (nineteen ++ (made "a" ∷ []), made "a"))
    × (schedule plain_zod 1000 "b" request by "s" "r" nineteen (nineteen ++ (made "a" ∷ []))
        ≡ ok ((nineteen ++ (made "a" ∷ [])) ++ (made "b" ∷ []), made "b"))
    × (active_of "p" ((nineteen ++ (made "a" ∷ [])) ++ (made "b" ∷ [])) ≡ 21)
unfolding create_input build_task parse_create trim_create valid_create expiry_for new_task
    parse_task trim_task valid_task trim_owner trim_destination list_all filter units
quota_race_example =
    quota_race plain_zod 1000 1000 "a" "b" request request by "s" "r" nineteen (made "a") (made "b")
      refl refl refl (omega arith) refl refl

abbrev lost : String → Option RunOutcome
lost run_id = none

abbrev limits : EngineLimits
limits = record { concurrency = 1; wake_interval_ms = 30000 }

abbrev idle : EngineState
idle = record { active_count = 0; last_wake_started_at = none; tasks = tasks; started = [] }

t2-t1 : ◌≢◌ {A = String} "t2" "t1"
t2-t1 = ground (arith, eq_iff "t2" "t1")

tasks-IsDistinct : IsDistinct tasks
tasks-IsDistinct = ((t2-t1, tt), (tt, tt))

-- The clock moves within a round, and everything else works.
abbrev quiet_round : TickRound
quiet_round = record {
  listed_at = 9000;
  chosen_at = 9001;
  claimed_at = 9002;
  woken_at = 9003;
  list_fails = false;
  claim_fails = false;
  log_fails = false;
  changed_to = none;
}

quiet_round-IsQuiet : IsQuiet quiet_round
quiet_round-IsQuiet = record {
  forward = omega arith;
  lists = refl;
  claims = refl;
  logs = refl;
  alone = refl;
}

abbrev rounds : List TickRound
rounds = quiet_round ∷ quiet_round ∷ quiet_round ∷ []

tick_ends_example : (s : EngineState) × Ended limits "a" rounds idle s
unfolding filter
tick_ends_example =
    tick_ends limits "a" rounds idle
      (quiet_round-IsQuiet, (quiet_round-IsQuiet, (quiet_round-IsQuiet, tt))) tasks-IsDistinct
      (omega arith)

abbrev thought : Task
thought = record due_task {
  id = "t0";
  kind = wake_turn;
  due_at = utc 8000;
  instruction = some "look";
}

abbrev waiting : EngineState
waiting = record {
  active_count = 0;
  last_wake_started_at = some 1000;
  tasks = thought ∷ due_task ∷ [];
  started = [];
}

wake_turn_blocks_example : tick rounds limits "a" waiting ≡ some (waiting, ok tt)
unfolding list_due sort_due insert_due filter find
wake_turn_blocks_example =
    wake_turn_blocks limits "a" quiet_round (quiet_round ∷ quiet_round ∷ []) waiting thought
      due_task refl refl refl refl refl refl refl refl

-- The notice of the reminder throws.
abbrev failing : Executors
failing = record {
  reminder_executor = some (λ t cycle_id ts. (ts, none));
  watch_executor = none;
  execute_wake = none;
}

abbrev no_faults : ClaimFaults
no_faults = record {
  marking = false;
  logging = false;
  unavailable = false;
  after = λ t. false;
  failing = false;
}

failing-AreCoherent : AreCoherent failing
failing-AreCoherent = record {
  by_reminder = λ t cycle_id ts p. p;
  by_watch = λ t cycle_id ts p. p;
  by_wake = λ t cycle_id ts p. p;
}

abbrev failed_task : Task
failed_task = record due_task {
  status = failed;
  updated_at = 9600;
  cycle_count = 1;
  consecutive_failures = 1;
  last_started_at = some 9500;
  last_error_code = some "scheduler_cycle_failed";
}

run_claim-IsReleasedFrom_example : failed_task.active_cycle_id ≢ some (cycle_id_of "t1" 1)
unfolding run_claim run_marked mark_running mark_running_task execute_kind fail_claim fail_cycle
    fail_task amend_required replace_task cycle_id_of show find
run_claim-IsReleasedFrom_example =
    run_claim-IsReleasedFrom 9500 9600 "a" failing no_faults held_task (cycle_id_of "t1" 1)
      (held_task ∷ []) failed_task failing-AreCoherent (held_task-IsCoherent, tt) refl refl refl
