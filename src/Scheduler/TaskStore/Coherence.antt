-- ===== src/Scheduler/TaskStore/Coherence.antt =====
-- The well-formedness of a stored task, and that every operation on a task keeps it.
use alfred_ai.Base.{ℕ, ◌≤◌, String, ◌≡◌, true, Option, none, some, List, ok, arith, defined}
use alfred_ai.Scheduler.Model.{
  Task, Stamp, Status, claimed, running, TaskOwner, scheduler_max_cycles,
}
use alfred_ai.Scheduler.TaskStore.{
  cycle_id_of, claim_task, nudge_task, mark_running_task, renew_task, CompleteCycleInput,
  complete_task, FailCycleInput, fail_task, cancel_task, ReconcileAction, reconcile_task, reclaim,
  complete, fail, expire,
}

-- An active task holds its newest cycle, an owner and a lease; any other task holds nothing.
abbrev pub Holds : Status → Task → Type 0
Holds claimed t =
    (t.active_cycle_id ≡ some (cycle_id_of t.id t.cycle_count))
    × (defined t.claim_owner ≡ true)
    × (defined t.lease_expires_at ≡ true)
Holds running t =
    (t.active_cycle_id ≡ some (cycle_id_of t.id t.cycle_count))
    × (defined t.claim_owner ≡ true)
    × (defined t.lease_expires_at ≡ true)
Holds _ t =
    (t.active_cycle_id ≡ none)
    × (t.active_run_id ≡ none)
    × (t.claim_owner ≡ none)
    × (t.lease_expires_at ≡ none)

pub record IsCoherent (t : Task) : Type 0 where
  pub holds : Holds t.status t
  pub within_max : t.cycle_count ≤ t.max_cycles
  pub within_limit : t.cycle_count ≤ scheduler_max_cycles
  pub failures : t.consecutive_failures ≤ scheduler_max_cycles

pub claim_task-IsCoherent :
    (now : ℕ) (instance : String) (expected : Option ℕ) (t : Task)
    → IsCoherent t
    → IsCoherent (claim_task now instance expected t).0
unfolding claim_task
claim_task-IsCoherent now instance expected t c = ground arith

pub nudge_task-IsCoherent :
    (now : ℕ) (due : Stamp) (t : Task) → IsCoherent t → IsCoherent (nudge_task now due t).0
unfolding nudge_task
nudge_task-IsCoherent now due t c = ground arith

pub mark_running_task-IsCoherent :
    (now : ℕ) (instance cycle_id : String) (run_id : Option String) (t : Task) (r : Task × Task)
    → IsCoherent t
    → mark_running_task now instance cycle_id run_id t ≡ ok r
    → IsCoherent r.0
unfolding mark_running_task
mark_running_task-IsCoherent now instance cycle_id run_id t r c e = ground arith

pub renew_task-IsCoherent :
    (now : ℕ) (instance cycle_id : String) (t : Task)
    → IsCoherent t
    → IsCoherent (renew_task now instance cycle_id t).0
unfolding renew_task
renew_task-IsCoherent now instance cycle_id t c = ground arith

pub complete_task-IsCoherent :
    (now : ℕ) (input : CompleteCycleInput) (t : Task) (r : Task × Task)
    → IsCoherent t
    → complete_task now input t ≡ ok r
    → IsCoherent r.0
unfolding complete_task
complete_task-IsCoherent now input t r c e = ground arith

pub fail_task-IsCoherent :
    (now : ℕ) (input : FailCycleInput) (t : Task) (r : Task × Task)
    → IsCoherent t
    → fail_task now input t ≡ ok r
    → IsCoherent r.0
unfolding fail_task
fail_task-IsCoherent now input t r c e = ground arith

pub cancel_task-IsCoherent :
    (now : ℕ) (aliases : List String) (owner : TaskOwner) (t : Task) (r : Task × Task)
    → IsCoherent t
    → cancel_task now aliases owner t ≡ ok r
    → IsCoherent r.0
unfolding cancel_task
cancel_task-IsCoherent now aliases owner t r c e = ground arith

pub reconcile_task-IsCoherent :
    (now : ℕ) (action : ReconcileAction) (t u : Task)
    → IsCoherent t
    → reconcile_task now action t ≡ ok u
    → IsCoherent u
unfolding reconcile_task
reconcile_task-IsCoherent now (reclaim cycle_id due code) t u c e = ground arith
reconcile_task-IsCoherent now (complete cycle_id completed_at next_due_at digest) t u c e =
    ground arith
reconcile_task-IsCoherent now (fail cycle_id code retry_at terminal) t u c e = ground arith
reconcile_task-IsCoherent now (expire code) t u c e = ground arith
