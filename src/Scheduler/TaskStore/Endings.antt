-- ===== src/Scheduler/TaskStore/Endings.antt =====
-- How a cycle ends: what `completeCycle` and `failCycle` leave of the task, on every branch.
use alfred_ai.Base.{
  ℕ, ◌+◌, ◌≤◌, ◌<◌, min, String, ◌≡◌, refl, ◌∙◌, Bool, true, false, Option, none, some, Result, ok,
  arith, inl, inr, ◌⊎◌, Option-cases, Result-cases, eq_iff, is_text,
}
use alfred_ai.Scheduler.Model.{
  Task, Snapshot, Stamp, Status, pending, completed, failed, StoreError, scheduler_max_cycles,
  is_active,
}
use alfred_ai.Scheduler.TaskStore.{
  find_task, replace_task, amend_required, CompleteCycleInput, complete_cycle, complete_task,
  FailCycleInput, fail_cycle, fail_task, reaches_expiry,
}
use alfred_ai.Scheduler.TaskStore.Snapshots.{find_task-id, find_task-replace_self}

-- The next status after a completion: pending exactly if a next date is given, cycles are left and
-- the date is before the expiry.
abbrev pub NextStatus : Task → Option Stamp → Status → Type 0
NextStatus t none s = s ≡ completed
NextStatus t (some due) s =
    ((s ≡ pending) × (t.cycle_count < t.max_cycles) × (reaches_expiry due t.expires_at ≡ false))
    ⊎ ((s ≡ completed)
        × ((t.max_cycles ≤ t.cycle_count) ⊎ (reaches_expiry due t.expires_at ≡ true)))

-- The next status after a failure: pending exactly if the failure is not terminal, a date to retry
-- is given, cycles are left and the date is before the expiry.
abbrev pub RetryStatus : Task → Bool → Option Stamp → Status → Type 0
RetryStatus t terminal none s = s ≡ failed
RetryStatus t terminal (some due) s =
    ((s ≡ pending)
      × (terminal ≡ false)
      × (t.cycle_count < t.max_cycles)
      × (reaches_expiry due t.expires_at ≡ false))
    ⊎ ((s ≡ failed)
        × ((terminal ≡ true)
            ⊎ (t.max_cycles ≤ t.cycle_count)
            ⊎ (reaches_expiry due t.expires_at ≡ true)))

-- What a task holds of its cycle is gone.
abbrev pub IsReleased : Task → Type 0
IsReleased t =
    (t.active_cycle_id ≡ none)
    × (t.active_run_id ≡ none)
    × (t.claim_owner ≡ none)
    × (t.lease_expires_at ≡ none)

-- The caller held the cycle that the task was at.
abbrev pub WasHeld : Task → String → Type 0
WasHeld t cycle_id = (is_active t.status ≡ true) × (t.active_cycle_id ≡ some cycle_id)

complete_task-ends :
    (now : ℕ) (input : CompleteCycleInput) (t : Task) (r : Task × Task) (next : Option Stamp)
    → input.next_due_at ≡ next
    → complete_task now input t ≡ ok r
    → NextStatus t next r.0.status
      × IsReleased r.0
      × (r.0.consecutive_failures ≡ 0)
      × (r.0.cycle_count ≡ t.cycle_count)
      × (r.0.id ≡ t.id)
      × (r.0 ≡ r.1)
unfolding complete_task
complete_task-ends now input t r none p e = ground arith
complete_task-ends now input t r (some due) p e = ground arith

is_text-eq : (o : Option String) (s : String) → is_text o s ≡ true → o ≡ some s
is_text-eq none s e = cc
is_text-eq (some t) s e = ground (arith, eq_iff t s)

complete_task-held :
    (now : ℕ) (input : CompleteCycleInput) (t : Task) (r : Task × Task)
    → complete_task now input t ≡ ok r
    → WasHeld t input.cycle_id
unfolding complete_task
complete_task-held now input t r e =
    (ground arith, is_text-eq t.active_cycle_id input.cycle_id (ground arith))

fail_task-ends :
    (now : ℕ) (input : FailCycleInput) (t : Task) (r : Task × Task) (retry : Option Stamp)
    → input.retry_at ≡ retry
    → fail_task now input t ≡ ok r
    → RetryStatus t input.terminal retry r.0.status
      × IsReleased r.0
      × (r.0.last_error_code ≡ some input.error_code)
      × (r.0.consecutive_failures ≡ min (t.consecutive_failures + 1) scheduler_max_cycles)
      × (r.0.cycle_count ≡ t.cycle_count)
      × (r.0.id ≡ t.id)
      × (r.0 ≡ r.1)
unfolding fail_task
fail_task-ends now input t r none p e = ground arith
fail_task-ends now input t r (some due) p e = ground arith

fail_task-held :
    (now : ℕ) (input : FailCycleInput) (t : Task) (r : Task × Task)
    → fail_task now input t ≡ ok r
    → WasHeld t input.cycle_id
unfolding fail_task
fail_task-held now input t r e =
    (ground arith, is_text-eq t.active_cycle_id input.cycle_id (ground arith))

-- A required mutation that succeeds has found the task, and put its result in its place.
amend_required-ok :
    (id : String) (ts : Snapshot) (f : Task → Result StoreError (Task × Task))
    (out : Snapshot × Task)
    → amend_required id ts f ≡ ok out
    → (t : Task) × (r : Task × Task) × (find_task id ts ≡ some t)
      × (f t ≡ ok r)
      × (out ≡ (replace_task id r.0 ts, r.1))
unfolding amend_required
amend_required-ok id ts f out e = elim (Option-cases (find_task id ts)) [
  | inl absent ↦ ground arith
  | inr (t, found) ↦ elim (Result-cases (f t)) [
    | inl (r, done) ↦ (t, r, found, done, ground arith)
    | inr (x, thrown) ↦ ground arith
  ]
]

-- A completion that succeeds was made by the holder of the task's active cycle. It leaves the task
-- pending exactly if a next date is given, cycles are left and that date is before the expiry, and
-- completed otherwise; in either case its failures are reset, and cycle, run, owner and lease are
-- gone. It is the task that the call returns.
complete_cycle_ends :
    (now : ℕ) (input : CompleteCycleInput) (ts : Snapshot) (out : Snapshot × Task)
    → complete_cycle now input ts ≡ ok out
    → (t : Task) × (find_task input.task_id ts ≡ some t)
      × WasHeld t input.cycle_id
      × (find_task input.task_id out.0 ≡ some out.1)
      × NextStatus t input.next_due_at out.1.status
      × IsReleased out.1
      × (out.1.consecutive_failures ≡ 0)
      × (out.1.cycle_count ≡ t.cycle_count)
unfolding complete_cycle
complete_cycle_ends now input ts out e =
    let (t, r, found, done, all) = amend_required-ok input.task_id ts _ out e in
    let (status, free, failures, cycles, named, one) =
      complete_task-ends now input t r input.next_due_at refl done in
    let there =
      find_task-replace_self input.task_id r.0 t ts (named ∙ find_task-id _ ts t found) found in
    rw (all, ← one)
      (t, found, complete_task-held now input t r done, there, status, free, failures, cycles)

-- The same for a failure: the task is pending exactly if the failure is not terminal, a date to
-- retry is given, cycles are left and that date is before the expiry, and failed otherwise; its
-- failures are counted up to the scheduler's limit, and the error code is kept.
pub fail_cycle_ends :
    (now : ℕ) (input : FailCycleInput) (ts : Snapshot) (out : Snapshot × Task)
    → fail_cycle now input ts ≡ ok out
    → (t : Task) × (find_task input.task_id ts ≡ some t)
      × WasHeld t input.cycle_id
      × (find_task input.task_id out.0 ≡ some out.1)
      × RetryStatus t input.terminal input.retry_at out.1.status
      × IsReleased out.1
      × (out.1.last_error_code ≡ some input.error_code)
      × (out.1.consecutive_failures ≡ min (t.consecutive_failures + 1) scheduler_max_cycles)
      × (out.1.cycle_count ≡ t.cycle_count)
unfolding fail_cycle
fail_cycle_ends now input ts out e =
    let (t, r, found, done, all) = amend_required-ok input.task_id ts _ out e in
    let (status, free, code, failures, cycles, named, one) =
      fail_task-ends now input t r input.retry_at refl done in
    let there =
      find_task-replace_self input.task_id r.0 t ts (named ∙ find_task-id _ ts t found) found in
    rw (all, ← one)
      (t, found, fail_task-held now input t r done, there, status, free, code, failures, cycles)
