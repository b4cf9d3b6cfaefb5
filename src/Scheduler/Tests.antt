-- ===== src/Scheduler/Tests.antt =====
-- The theorems on the task store and its file at concrete inputs.
mod Reminders
mod Locks
mod Creation
mod Counts
mod Engines
mod Timers
mod Watches
use mathlib.Core.List.{Perm}
use alfred_ai.Base.{
  ℕ, ◌+◌, ◌≤◌, min, String, ◌≡◌, refl, ◌≢◌, ◌↔◌, Bool, true, false, Option, none, some, List, [],
  ◌∷◌, Result, ok, err, arith, All, take, length, filter, find, eq_iff, units, show,
}
use alfred_ai.Scheduler.Model.{
  Task, Snapshot, Status, claimed, pending, failed, utc, is_terminal, scheduler_max_cycles,
  cycle_not_active, StoreError,
}
use alfred_ai.Scheduler.Schema.{
  parse_snapshot, parse_task, trim_task, valid_task, trim_owner, trim_destination, trim_watch,
  trim_event_match,
}
use alfred_ai.Scheduler.Create.{
  build_task, parse_create, trim_create, valid_create, expiry_for, new_task,
}
use alfred_ai.Scheduler.Create.WatchLifetime.{watch_never_claimed}
use alfred_ai.Scheduler.TaskStore.{
  find_task, granted, refused, claim, claim_task, amend, claimed_task, cycle_id_of, complete_cycle,
  complete_task, fail_cycle, fail_task, mark_running, renew_lease, amend_required, list_due, is_due,
  replace_task, require_active_cycle, clear_active_state, transition_to_terminal, requeue,
}
use alfred_ai.Scheduler.TaskStore.Coherence.{IsCoherent}
use alfred_ai.Scheduler.TaskStore.Claims.{IsClaimable, claim-granted_iff}
use alfred_ai.Scheduler.TaskStore.Cycles.{old_cycle_rejected}
use alfred_ai.Scheduler.TaskStore.Listing.{IsOrdered, list_due_lem}
use alfred_ai.Scheduler.Disk.{
  Content, stored, Disk, redact_task, mutate, run, step, write_back, read_snapshot,
}
use alfred_ai.Scheduler.Disk.Keeps.{ContentAll}
use alfred_ai.Scheduler.Disk.Invariant.{run-IsCoherent}
use alfred_ai.Scheduler.Disk.Reading.{
  Outcome, mutate-Outcome, IsReadable, IsAccepted, run-IsAccepted,
}
use alfred_ai.Scheduler.Disk.Lifecycle.{task_at, run-keeps_tasks, run-terminal}
use alfred_ai.Scheduler.Disk.Claims.{claim_exclusive}
use alfred_ai.Scheduler.Disk.Bounds.{grants, grants-le}
use alfred_ai.Scheduler.Samples.{
  plain_zod, keep, owner, channel, due_task, held_task, ended_task, tasks, disk, completion,
  failure, history, watch_input, old_lock,
}

tasks_read : IsReadable plain_zod disk.tasks_file
unfolding parse_snapshot parse_task trim_task valid_task trim_owner trim_destination units
tasks_read = refl

due_task-IsCoherent : IsCoherent due_task
due_task-IsCoherent = record {
  holds = (refl, refl, refl, refl);
  within_max = omega arith;
  within_limit = omega arith;
  failures = omega arith;
}

ended_task-IsCoherent : IsCoherent ended_task
ended_task-IsCoherent = record {
  holds = (refl, refl, refl, refl);
  within_max = omega arith;
  within_limit = omega arith;
  failures = omega arith;
}

pub held_task-IsCoherent : IsCoherent held_task
held_task-IsCoherent = record {
  holds = (refl, refl, refl);
  within_max = omega arith;
  within_limit = omega arith;
  failures = omega arith;
}

tasks-IsCoherent : ContentAll IsCoherent disk.tasks_file
tasks-IsCoherent = (due_task-IsCoherent, (ended_task-IsCoherent, tt))

run-IsCoherent_example : ContentAll IsCoherent (run plain_zod keep disk history).tasks_file
run-IsCoherent_example = run-IsCoherent plain_zod keep disk history tasks-IsCoherent

run-IsAccepted_example :
    IsAccepted plain_zod (run plain_zod keep disk history).tasks_file
    × ((run plain_zod keep disk history).quarantined ≡ disk.quarantined)
run-IsAccepted_example = run-IsAccepted plain_zod (λ s. refl) keep disk history (tasks, tasks_read)

run-terminal_example :
    (u : Task) × (task_at "t2" (run plain_zod keep disk history).tasks_file ≡ some u)
    × (is_terminal u.status ≡ true)
    × (u.cycle_count ≡ ended_task.cycle_count)
unfolding find
run-terminal_example =
    run-terminal plain_zod (λ s. refl) keep disk history "t2" ended_task tasks_read tasks-IsCoherent
      refl refl

grants-le_example :
    (due_task.cycle_count + grants plain_zod keep "t1" disk history ≤ due_task.max_cycles)
    × (due_task.cycle_count + grants plain_zod keep "t1" disk history ≤ scheduler_max_cycles)
unfolding find
grants-le_example =
    grants-le plain_zod keep "t1" (λ s. refl) disk history due_task tasks_read tasks-IsCoherent refl

mutate-Outcome_example :
    Outcome plain_zod keep
      (claim 9000 "a" "t1" none)
      disk
      (mutate plain_zod keep (claim 9000 "a" "t1" none) disk)
mutate-Outcome_example = mutate-Outcome plain_zod keep (claim 9000 "a" "t1" none) disk

claim_exclusive_example :
    (mutate plain_zod keep
      (claim 9001 "b" "t1" none)
      (mutate plain_zod keep (claim 9000 "a" "t1" none) disk).0).1
    ≢ ok (granted (claimed_task 9001 "b" due_task) (cycle_id_of "t1" 2))
unfolding mutate claim claim_task amend find parse_snapshot parse_task trim_task valid_task
    trim_owner trim_destination redact_task write_back units replace_task show
claim_exclusive_example =
    claim_exclusive plain_zod keep 9000 9001 "a" "b" "t1" (cycle_id_of "t1" 1) (cycle_id_of "t1" 2)
      none none disk (claimed_task 9000 "a" due_task) (claimed_task 9001 "b" due_task) refl

claim-granted_iff_example :
    ((us : Snapshot) × (w : Task) × (cycle_id : String) × (claim 9000 "a" "t1" none tasks
        ≡ ok (us, granted w cycle_id)))
    ↔ ((t : Task) × (find_task "t1" tasks ≡ some t) × IsClaimable 9000 none t)
claim-granted_iff_example = claim-granted_iff 9000 "a" "t1" none tasks

old_cycle_rejected_example :
    (complete_cycle 9500 (record completion { cycle_id = cycle_id_of "t1" 0 }) (held_task ∷ [])
      ≡ err cycle_not_active)
    × (fail_cycle 9500 (record failure { cycle_id = cycle_id_of "t1" 0 }) (held_task ∷ [])
        ≡ err cycle_not_active)
    × (mark_running 9500 "a" "t1" (cycle_id_of "t1" 0) none (held_task ∷ []) ≡ err cycle_not_active)
    × (renew_lease 9500 "a" "t1" (cycle_id_of "t1" 0) (held_task ∷ []) ≡ ok (held_task ∷ [], false))
unfolding find
old_cycle_rejected_example =
    old_cycle_rejected 9500 0 (held_task ∷ []) held_task held_task-IsCoherent (omega arith) refl "a"
      none (record completion { cycle_id = cycle_id_of "t1" 0 })
      (record failure { cycle_id = cycle_id_of "t1" 0 }) refl refl refl refl

list_due_lem_example :
    (all : Snapshot) × (list_due 9000 1 tasks ≡ take 1 all)
    × Perm all (filter (is_due 9000) tasks)
    × IsOrdered all
    × All (λ t. is_due 9000 t ≡ true) (list_due 9000 1 tasks)
    × (length (list_due 9000 1 tasks) ≤ 1)
list_due_lem_example = list_due_lem 9000 1 tasks
