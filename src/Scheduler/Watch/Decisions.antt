-- ===== src/Scheduler/Watch/Decisions.antt =====
-- What a watch does on an observation: when it only goes on, when it gives up, what it sends.
use mathlib.Core.Int.{ℤ}
use alfred_ai.Base.{ℕ, ◌+◌, ◌≤◌, String, ◌≡◌, refl, Bool, true, false, Option, some, ok, arith, ◌⊎◌}
use alfred_ai.Scheduler.Model.{
  Task, pending, failed, ObservationStatus, observed_running, idle_waiting_input,
  scheduler_max_cycles,
}
use alfred_ai.Scheduler.Create.{is_watch}
use alfred_ai.Scheduler.TaskStore.{complete_task, fail_task}
use alfred_ai.Scheduler.Reminder.{Outbox}
use alfred_ai.Scheduler.Watch.{
  WatchSnapshot, ProbeResult, is_unknown, herdr_probe, completes_cycle, fails_cycle, reschedule,
  is_herdr_watch, was_running, unknown_failure, execute_watch,
}

module _ (notify : ℕ → Option (Option String)) (can_wake : Bool) (now : ℕ) (t : Task)
    (cycle_id : String) (box : Outbox) (digest : ObservationStatus → Option ℤ → String)
    (taken : WatchSnapshot) where
  -- What the Herdr probe makes of the snapshot.
  abbrev pub seen : ProbeResult
  seen = herdr_probe digest (some taken) t.last_observation_digest

  -- A Herdr watch whose pane is seen to run is rescheduled, whatever it has seen before: nothing is
  -- sent and no turn of the agent is started.
  pub running_pane_waits :
      is_watch t.kind ≡ true
      → is_herdr_watch t.watch_definition ≡ true
      → taken.status ≡ observed_running
      → execute_watch notify can_wake now t cycle_id seen box
        ≡ (box, ok (completes_cycle (reschedule now t cycle_id seen)))
  unfolding execute_watch herdr_probe
  running_pane_waits k h r = rw (k, h, r) refl

  -- An idle pane is no end for a Herdr watch that has not seen it run: the watch is rescheduled,
  -- nothing is sent, no turn is started, and the cycle's completion leaves a task that has still not
  -- seen the pane run, so that the next idle observation is treated in the same way.
  idle_baseline :
      (later : ℕ) (r : Task × Task)
      → is_watch t.kind ≡ true
      → is_herdr_watch t.watch_definition ≡ true
      → taken.status ≡ idle_waiting_input
      → was_running t.last_observation_status ≡ false
      → complete_task later (reschedule now t cycle_id seen) t ≡ ok r
      → (execute_watch notify can_wake now t cycle_id seen box
          ≡ (box, ok (completes_cycle (reschedule now t cycle_id seen))))
        × (was_running r.0.last_observation_status ≡ false)
  unfolding execute_watch herdr_probe reschedule complete_task
  idle_baseline later r k h i w e = (rw (k, h, i, w) refl, ground arith)

-- A probe that cannot tell counts as a failure of the watch: nothing is sent, and the task that
-- `failCycle` leaves has one failure more, and is failed, or pending with at most two failures.
pub unknown_gives_up :
    (notify : ℕ → Option (Option String)) (can_wake : Bool) (now later : ℕ) (t : Task)
    (cycle_id : String) (box : Outbox) (o : ProbeResult) (r : Task × Task)
    → is_watch t.kind ≡ true
    → is_unknown o.status ≡ true
    → t.consecutive_failures + 1 ≤ scheduler_max_cycles
    → fail_task later (unknown_failure now t cycle_id o) t ≡ ok r
    → (execute_watch notify can_wake now t cycle_id o box
        ≡ (box, ok (fails_cycle (unknown_failure now t cycle_id o))))
      × (r.0.consecutive_failures ≡ t.consecutive_failures + 1)
      × ((r.0.status ≡ failed) ⊎ ((r.0.status ≡ pending) × (r.0.consecutive_failures ≤ 2)))
unfolding execute_watch unknown_failure fail_task
unknown_gives_up notify can_wake now later t cycle_id box o r k u le e =
    (rw (k, u) refl, ground arith, ground arith)
