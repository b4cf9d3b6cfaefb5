-- ===== src/Scheduler/TaskStore/Frozen.antt =====
-- What each operation may do to a task: which tasks it leaves alone, and how the counters move.
use alfred_ai.Base.{ℕ, ◌≤◌, String, ◌≡◌, refl, true, Option, List, ok, arith}
use alfred_ai.Scheduler.Model.{Task, Stamp, TaskOwner, is_terminal}
use alfred_ai.Scheduler.TaskStore.{
  claim_task, nudge_task, mark_running_task, renew_task, CompleteCycleInput, complete_task,
  FailCycleInput, fail_task, cancel_task, ReconcileAction, reconcile_task, reclaim, complete, fail,
  expire,
}
use alfred_ai.Scheduler.TaskStore.Coherence.{IsCoherent}
use alfred_ai.Scheduler.TaskStore.Life.{
  Lives, still, steps, released, finished, stays, life_of, cycles_allowed,
}

-- `u` may follow `t` in `n` calls: it has made at most `n` moves of the abstract life, it is the same task, its cycles do not go back, and if `t` is
-- terminal then so is `u`, with the same cycles.
pub record Follows (n : ℕ) (t u : Task) : Type 0 where
  pub id : u.id ≡ t.id
  pub limit : u.max_cycles ≡ t.max_cycles
  pub cycles : t.cycle_count ≤ u.cycle_count
  pub lives : Lives (cycles_allowed t) n (life_of t) (life_of u)
  pub final :
      is_terminal t.status ≡ true → (is_terminal u.status ≡ true) × (u.cycle_count ≡ t.cycle_count)

pub Follows-refl : (n : ℕ) (t : Task) → Follows n t t
Follows-refl n t = record {
  id = refl;
  limit = refl;
  cycles = omega arith;
  lives = still;
  final = λ h. (h, refl);
}

pub claim_task-Follows :
    (now : ℕ) (instance : String) (expected : Option ℕ) (t : Task)
    → Follows 1 t (claim_task now instance expected t).0
unfolding claim_task
claim_task-Follows now instance expected t = record {
  id = ground arith;
  limit = ground arith;
  cycles = ground arith;
  lives = grind (arith, steps);
  final = λ h. ground arith;
}

pub nudge_task-Follows : (now : ℕ) (due : Stamp) (t : Task) → Follows 1 t (nudge_task now due t).0
unfolding nudge_task
nudge_task-Follows now due t = record {
  id = ground arith;
  limit = ground arith;
  cycles = ground arith;
  lives = grind (arith, steps);
  final = λ h. ground arith;
}

pub renew_task-Follows :
    (now : ℕ) (instance cycle_id : String) (t : Task)
    → Follows 1 t (renew_task now instance cycle_id t).0
unfolding renew_task
renew_task-Follows now instance cycle_id t = record {
  id = ground arith;
  limit = ground arith;
  cycles = ground arith;
  lives = grind (arith, steps);
  final = λ h. ground arith;
}

pub mark_running_task-Follows :
    (now : ℕ) (instance cycle_id : String) (run_id : Option String) (t : Task) (r : Task × Task)
    → mark_running_task now instance cycle_id run_id t ≡ ok r
    → Follows 1 t r.0
unfolding mark_running_task
mark_running_task-Follows now instance cycle_id run_id t r e = record {
  id = ground arith;
  limit = ground arith;
  cycles = ground arith;
  lives = grind (arith, steps);
  final = λ h. ground arith;
}

pub complete_task-Follows :
    (now : ℕ) (input : CompleteCycleInput) (t : Task) (r : Task × Task)
    → complete_task now input t ≡ ok r
    → Follows 1 t r.0
unfolding complete_task
complete_task-Follows now input t r e = record {
  id = ground arith;
  limit = ground arith;
  cycles = ground arith;
  lives = grind (arith, steps);
  final = λ h. ground arith;
}

pub fail_task-Follows :
    (now : ℕ) (input : FailCycleInput) (t : Task) (r : Task × Task)
    → fail_task now input t ≡ ok r
    → Follows 1 t r.0
unfolding fail_task
fail_task-Follows now input t r e = record {
  id = ground arith;
  limit = ground arith;
  cycles = ground arith;
  lives = grind (arith, steps);
  final = λ h. ground arith;
}

pub cancel_task-Follows :
    (now : ℕ) (aliases : List String) (owner : TaskOwner) (t : Task) (r : Task × Task)
    → cancel_task now aliases owner t ≡ ok r
    → Follows 1 t r.0
unfolding cancel_task
cancel_task-Follows now aliases owner t r e = record {
  id = ground arith;
  limit = ground arith;
  cycles = ground arith;
  lives = grind (arith, steps);
  final = λ h. ground arith;
}

-- A terminal task that is coherent has no active cycle, so only `expire` changes it, and it stays
-- terminal.
reconcile_task-final :
    (now : ℕ) (action : ReconcileAction) (t u : Task)
    → IsCoherent t
    → reconcile_task now action t ≡ ok u
    → is_terminal t.status ≡ true
    → (is_terminal u.status ≡ true) × (u.cycle_count ≡ t.cycle_count)
unfolding reconcile_task
reconcile_task-final now (reclaim cycle_id due code) t u c e h = ground arith
reconcile_task-final now (complete cycle_id completed_at next_due_at digest) t u c e h =
    ground arith
reconcile_task-final now (fail cycle_id code retry_at terminal) t u c e h = ground arith
reconcile_task-final now (expire code) t u c e h = ground arith

reconcile_task-kept :
    (now : ℕ) (action : ReconcileAction) (t u : Task)
    → reconcile_task now action t ≡ ok u
    → (u.id ≡ t.id) × (u.max_cycles ≡ t.max_cycles) × (t.cycle_count ≤ u.cycle_count)
unfolding reconcile_task
reconcile_task-kept now (reclaim cycle_id due code) t u e = ground arith
reconcile_task-kept now (complete cycle_id completed_at next_due_at digest) t u e = ground arith
reconcile_task-kept now (fail cycle_id code retry_at terminal) t u e = ground arith
reconcile_task-kept now (expire code) t u e = ground arith

reconcile_task-lives :
    (now : ℕ) (action : ReconcileAction) (t u : Task)
    → IsCoherent t
    → reconcile_task now action t ≡ ok u
    → Lives (cycles_allowed t) 1 (life_of t) (life_of u)
unfolding reconcile_task
reconcile_task-lives now (reclaim cycle_id due code) t u c e = grind (arith, steps)
reconcile_task-lives now (complete cycle_id completed_at next_due_at digest) t u c e = ground (
  arith,
  released (cycles_allowed t) t.cycle_count,
  finished (cycles_allowed t) t.cycle_count,
  stays (cycles_allowed t) (life_of t),
)
reconcile_task-lives now (fail cycle_id code retry_at terminal) t u c e = grind (arith, steps)
reconcile_task-lives now (expire code) t u c e = grind (arith, steps)

pub reconcile_task-Follows :
    (now : ℕ) (action : ReconcileAction) (t u : Task)
    → IsCoherent t
    → reconcile_task now action t ≡ ok u
    → Follows 1 t u
reconcile_task-Follows now action t u c e =
    let (same, limit, cycles) = reconcile_task-kept now action t u e in
    record {
      id = same;
      limit = limit;
      cycles = cycles;
      lives = reconcile_task-lives now action t u c e;
      final = reconcile_task-final now action t u c e;
    }
