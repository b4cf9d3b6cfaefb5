-- ===== src/Scheduler/TaskStore/Cycles.antt =====
-- Cycle ids: they never repeat, so a call about an old cycle is rejected; and how a cycle ends.
use text.Mathlib.TextLemmas.{append_cancel_left}
use alfred_ai.Base.{
  ℕ, String, ◌≡◌, ◌≢◌, false, Option, none, some, ok, err, arith, inl, inr, Bool-cases, eq_iff,
  is_text, show, show-injective,
}
use alfred_ai.Scheduler.Model.{Task, Snapshot, cycle_not_active, is_active}
use alfred_ai.Scheduler.TaskStore.{
  find_task, amend, amend_required, cycle_id_of, CompleteCycleInput, complete_cycle, complete_task,
  FailCycleInput, fail_cycle, fail_task, mark_running, mark_running_task, renew_lease, renew_task,
}
use alfred_ai.Scheduler.TaskStore.Coherence.{IsCoherent}
use alfred_ai.Scheduler.TaskStore.Snapshots.{replace_task-found}

cycle_id_of-injective : (id : String) (m n : ℕ) → cycle_id_of id m ≡ cycle_id_of id n → m ≡ n
unfolding cycle_id_of
cycle_id_of-injective id m n e =
    show-injective m n (append_cancel_left ":" (show m) (show n) (append_cancel_left id _ _ e))

-- A coherent task answers to no cycle but its newest.
old_cycle :
    (t : Task) (n : ℕ)
    → IsCoherent t
    → n ≢ t.cycle_count
    → is_text t.active_cycle_id (cycle_id_of t.id n) ≡ false
old_cycle t n c ne = elim (Bool-cases (is_active t.status)) [
  | inr idle ↦ let gone : t.active_cycle_id ≡ none = ground arith in rw gone
  | inl active ↦
      let held : t.active_cycle_id ≡ some (cycle_id_of t.id t.cycle_count) = ground arith in
      ground (
        arith,
        held,
        eq_iff (cycle_id_of t.id t.cycle_count) (cycle_id_of t.id n),
        cycle_id_of-injective t.id t.cycle_count n,
      )
]

module _ (now n : ℕ) (ts : Snapshot) (t : Task) (c : IsCoherent t) (ne : n ≢ t.cycle_count)
    (found : find_task t.id ts ≡ some t) where
  -- A coherent task that is at another cycle than number `n` answers no call about cycle `n`: the
  -- calls that complete it, fail it or mark it as running throw, and a lease is not renewed.
  pub old_cycle_rejected :
      (instance : String) (run_id : Option String) (done : CompleteCycleInput)
      (broken : FailCycleInput)
      → done.task_id ≡ t.id
      → done.cycle_id ≡ cycle_id_of t.id n
      → broken.task_id ≡ t.id
      → broken.cycle_id ≡ cycle_id_of t.id n
      → (complete_cycle now done ts ≡ err cycle_not_active)
        × (fail_cycle now broken ts ≡ err cycle_not_active)
        × (mark_running now instance t.id (cycle_id_of t.id n) run_id ts ≡ err cycle_not_active)
        × (renew_lease now instance t.id (cycle_id_of t.id n) ts ≡ ok (ts, false))
  unfolding complete_cycle fail_cycle mark_running renew_lease amend amend_required complete_task
      fail_task mark_running_task renew_task
  old_cycle_rejected instance run_id done broken p q r s =
      let old = old_cycle t n c ne in
      (
        ground (arith, old),
        ground (arith, old),
        ground (arith, old),
        ground (arith, old, replace_task-found t.id t ts found),
      )
