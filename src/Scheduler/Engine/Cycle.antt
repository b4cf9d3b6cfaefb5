-- ===== src/Scheduler/Engine/Cycle.antt =====
-- src/scheduler/engine.ts: `runClaim`, what the engine does with a task that it has claimed.
--
-- An executor is what runs the cycle: it leaves a store and returns a task, or throws. `ClaimFaults`
-- says what else throws: a call of the task store for its lock or its file, each of which leaves the
-- tasks as they were, the run log, or `deliverWakeExplanation`. The renewal of the lease beside the
-- executor is not modelled.
pub mod Released
use alfred_ai.Base.{
  ℕ, String, Bool, true, false, Option, none, some, Result, ok, err, if◌then◌else◌,
}
use alfred_ai.Scheduler.Model.{
  Task, Snapshot, StoreError, Kind, reminder, wake_turn, watch, event_subscription,
}
use alfred_ai.Scheduler.TaskStore.{mark_running, fail_cycle, FailCycleInput}

abbrev pub Executor : Type 0
Executor = Task → String → Snapshot → Snapshot × Option Task

pub record Executors : Type 0 where
  pub reminder_executor : Option Executor
  pub watch_executor : Option Executor
  pub execute_wake : Option Executor

pub record ClaimFaults : Type 0 where
  -- `markRunning` fails for its lock or its file.
  pub marking : Bool
  -- The entry of the run log before the executor throws.
  pub logging : Bool
  -- The `failCycle` for a missing executor fails for its lock or its file.
  pub unavailable : Bool
  -- On this result, the explanation or the entry of the run log after it throws.
  pub after : Task → Bool
  -- The `failCycle` of the `catch` fails for its lock or its file.
  pub failing : Bool

abbrev pub terminal_failure : Task → String → String → FailCycleInput
terminal_failure t cycle_id code = record {
  task_id = t.id;
  cycle_id = cycle_id;
  retry_at = none;
  error_code = code;
  terminal = true;
}

abbrev pub or_throws : Option Executor → Executor
or_throws none t cycle_id ts = (ts, none)
or_throws (some execute) t cycle_id ts = execute t cycle_id ts

-- Without an executor of turns, the cycle is failed.
unfoldable pub wake_or_fail : ℕ → Bool → Option Executor → Executor
wake_or_fail now blocked (some execute) t cycle_id ts = execute t cycle_id ts
wake_or_fail now blocked none t cycle_id ts =
    if blocked
    then (ts, none)
    else elim (fail_cycle now (terminal_failure t cycle_id "scheduler_executor_unavailable") ts) [
      | err e ↦ (ts, none)
      | ok out ↦ (out.0, some out.1)
    ]

unfoldable pub execute_kind : ℕ → Bool → Executors → Executor
unfolding wake_or_fail
execute_kind now blocked executors t = elim t.kind [
  | reminder ↦ or_throws executors.reminder_executor t
  | watch ↦ or_throws executors.watch_executor t
  | wake_turn ↦ wake_or_fail now blocked executors.execute_wake t
  | event_subscription ↦ wake_or_fail now blocked executors.execute_wake t
]

-- The `catch`: the cycle is failed. An error of this is swallowed: the cycle was settled already, or
-- the store fails for its lock or its file (`blocked`).
unfoldable pub fail_claim : ℕ → Bool → Task → String → Snapshot → Snapshot
fail_claim now blocked t cycle_id ts =
    if blocked
    then ts
    else elim (fail_cycle now (terminal_failure t cycle_id "scheduler_cycle_failed") ts) [
      | err e ↦ ts
      | ok out ↦ out.0
    ]

-- The cycle of a task that was marked as running.
unfoldable pub run_marked :
    ℕ → ℕ → Executors → ClaimFaults → Task → String → Snapshot → Snapshot × Bool
unfolding execute_kind fail_claim
run_marked now later executors faults t cycle_id ts =
    let ran = execute_kind now faults.unavailable executors t cycle_id ts in
    if faults.logging then (fail_claim later faults.failing t cycle_id ts, false) else elim ran.1 [
      | none ↦ (fail_claim later faults.failing t cycle_id ran.0, false)
      | some result ↦
          if faults.after result
          then (fail_claim later faults.failing t cycle_id ran.0, false)
          else (ran.0, true)
    ]

-- The store after it, and whether the cycle ended without an exception.
unfoldable pub run_claim :
    ℕ → ℕ → String → Executors → ClaimFaults → Task → String → Snapshot → Snapshot × Bool
unfolding run_marked
run_claim now later instance executors faults t cycle_id ts =
    if faults.marking
    then (fail_claim later faults.failing t cycle_id ts, false)
    else elim (mark_running now instance t.id cycle_id none ts) [
      | err e ↦ (fail_claim later faults.failing t cycle_id ts, false)
      | ok started ↦ run_marked now later executors faults t cycle_id started.0
    ]
