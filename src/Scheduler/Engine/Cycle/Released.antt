-- ===== src/Scheduler/Engine/Cycle/Released.antt =====
-- A cycle that ends in an exception does not hold its task.
use alfred_ai.Base.{
  ◌⊎◌, true, ℕ, String, ◌≡◌, ◌≢◌, refl, sym, ◌∙◌, subst, Bool, false, Option, none, some, ok, err,
  arith, inl, inr, All, Bool-cases, Option-cases, Result-cases, eq_iff,
}
use alfred_ai.Scheduler.Model.{
  Task, Snapshot, StoreError, Kind, reminder, wake_turn, watch, event_subscription,
}
use alfred_ai.Scheduler.TaskStore.{
  find_task, amend_required, fail_task, fail_cycle, mark_running, mark_running_task, FailCycleInput,
}
use alfred_ai.Scheduler.TaskStore.Coherence.{
  IsCoherent, mark_running_task-IsCoherent, fail_task-IsCoherent,
}
use alfred_ai.Scheduler.TaskStore.Snapshots.{
  amend_required-All, find_task-All, find_task-replace_self, find_task-id,
}
use alfred_ai.Scheduler.Engine.Cycle.{
  Executor, Executors, ClaimFaults, terminal_failure, or_throws, wake_or_fail, execute_kind,
  fail_claim, run_marked, run_claim,
}

-- No task with this id holds this cycle.
abbrev pub IsReleasedFrom : String → String → Snapshot → Type 0
IsReleasedFrom id cycle_id ts =
    (u : Task) → find_task id ts ≡ some u → u.active_cycle_id ≢ some cycle_id

failed-released :
    (now : ℕ) (input : FailCycleInput) (s : Task) (r : Task × Task)
    → input.retry_at ≡ none
    → fail_task now input s ≡ ok r
    → (r.0.active_cycle_id ≡ none) × (r.0.id ≡ s.id)
unfolding fail_task
failed-released now input s r e done = ground arith

refused-released :
    (now : ℕ) (input : FailCycleInput) (s : Task) (x : StoreError)
    → IsCoherent s
    → fail_task now input s ≡ err x
    → s.active_cycle_id ≢ some input.cycle_id
unfolding fail_task
refused-released now input s x c thrown held = ground (arith, eq_iff input.cycle_id input.cycle_id)

fail_claim-IsReleasedFrom :
    (now : ℕ) (t : Task) (cycle_id : String) (ts : Snapshot)
    → All IsCoherent ts
    → IsReleasedFrom t.id cycle_id (fail_claim now false t cycle_id ts)
unfolding fail_claim fail_cycle amend_required
fail_claim-IsReleasedFrom now t cycle_id ts p =
    let input = terminal_failure t cycle_id "scheduler_cycle_failed" in
    elim (Option-cases (find_task t.id ts)) [
      | inl absent ↦ rw (absent, fail_claim, fail_cycle, amend_required) (λ u there. cc)
      | inr (s, found) ↦ elim (Result-cases (fail_task now input s)) [
        | inr (x, thrown) ↦
            let left =
              refused-released now input s x (find_task-All IsCoherent t.id ts s p found) thrown in
            rw (found, thrown, fail_claim, fail_cycle, amend_required)
              (λ u there held.
                let same : s ≡ u = cc in
                left (subst (λ v. v.active_cycle_id ≡ some cycle_id) (sym same) held))
        | inl (r, done) ↦
            let (none_held, named) = failed-released now input s r refl done in
            let here : r.0.id ≡ t.id = named ∙ find_task-id t.id ts s found in
            let put = find_task-replace_self t.id r.0 s ts here found in
            rw (found, done, fail_claim, fail_cycle, amend_required)
              (λ u there held.
                let same : r.0 ≡ u = cc in
                let still : r.0.active_cycle_id ≡ some cycle_id =
                  subst (λ v. v.active_cycle_id ≡ some cycle_id) (sym same) held in
                cc)
      ]
    ]

abbrev KeepsCoherent : Option Executor → Type 0
KeepsCoherent execute =
    (t : Task) (cycle_id : String) (ts : Snapshot)
    → All IsCoherent ts
    → All IsCoherent (or_throws execute t cycle_id ts).0

-- No executor breaks the coherence of the tasks.
pub record AreCoherent (e : Executors) : Type 0 where
  pub by_reminder : KeepsCoherent e.reminder_executor
  pub by_watch : KeepsCoherent e.watch_executor
  pub by_wake : KeepsCoherent e.execute_wake

wake_or_fail-All :
    (now : ℕ) (blocked : Bool) (execute : Option Executor) (t : Task) (cycle_id : String)
    (ts : Snapshot)
    → KeepsCoherent execute
    → All IsCoherent ts
    → All IsCoherent (wake_or_fail now blocked execute t cycle_id ts).0
unfolding wake_or_fail fail_cycle
wake_or_fail-All now blocked (some execute) t cycle_id ts k p = k t cycle_id ts p
wake_or_fail-All now true none t cycle_id ts k p = p
wake_or_fail-All now false none t cycle_id ts k p =
    let input = terminal_failure t cycle_id "scheduler_executor_unavailable" in
    elim (Result-cases (fail_cycle now input ts)) [
      | inr (x, thrown) ↦ rw (thrown, wake_or_fail) p
      | inl (out, done) ↦
          rw (done, wake_or_fail)
            (amend_required-All IsCoherent t.id ts (fail_task now input) out
              (λ s r. fail_task-IsCoherent now input s r) p done)
    ]

execute_kind-All :
    (now : ℕ) (blocked : Bool) (e : Executors) (t : Task) (cycle_id : String) (ts : Snapshot)
    → AreCoherent e
    → All IsCoherent ts
    → All IsCoherent (execute_kind now blocked e t cycle_id ts).0
unfolding execute_kind
execute_kind-All now blocked e t cycle_id ts k p = by_kind t.kind refl
  where
    by_kind :
        (kind : Kind) → t.kind ≡ kind → All IsCoherent (execute_kind now blocked e t cycle_id ts).0
    by_kind reminder is = rw (is, execute_kind) (k.by_reminder t cycle_id ts p)
    by_kind watch is = rw (is, execute_kind) (k.by_watch t cycle_id ts p)
    by_kind wake_turn is =
        rw (is, execute_kind)
          (wake_or_fail-All now blocked e.execute_wake t cycle_id ts k.by_wake p)
    by_kind event_subscription is =
        rw (is, execute_kind)
          (wake_or_fail-All now blocked e.execute_wake t cycle_id ts k.by_wake p)

unblocked-IsReleasedFrom :
    (now : ℕ) (blocked : Bool) (t : Task) (cycle_id : String) (ts : Snapshot)
    → blocked ≡ false
    → All IsCoherent ts
    → IsReleasedFrom t.id cycle_id (fail_claim now blocked t cycle_id ts)
unblocked-IsReleasedFrom now blocked t cycle_id ts through p =
    subst (λ b. IsReleasedFrom t.id cycle_id (fail_claim now b t cycle_id ts)) (sym through)
      (fail_claim-IsReleasedFrom now t cycle_id ts p)

run_marked-IsReleasedFrom :
    (now later : ℕ) (e : Executors) (faults : ClaimFaults) (t : Task) (cycle_id : String)
    (ts : Snapshot)
    → AreCoherent e
    → faults.failing ≡ false
    → All IsCoherent ts
    → ((run_marked now later e faults t cycle_id ts).1 ≡ true)
      ⊎ IsReleasedFrom t.id cycle_id (run_marked now later e faults t cycle_id ts).0
unfolding run_marked
run_marked-IsReleasedFrom now later e faults t cycle_id ts k through p =
    let ran = execute_kind now faults.unavailable e t cycle_id ts in
    let v = execute_kind-All now faults.unavailable e t cycle_id ts k p in
    let freed : (us : Snapshot)
        → All IsCoherent us
        → IsReleasedFrom t.id cycle_id (fail_claim later faults.failing t cycle_id us) =
      λ us r. unblocked-IsReleasedFrom later faults.failing t cycle_id us through r in
    elim (Bool-cases faults.logging) [
      | inl early ↦ inr (rw (early, run_marked) (freed ts p))
      | inr logged ↦ elim (Option-cases ran.1) [
        | inl nothing ↦ inr (rw (logged, nothing, run_marked) (freed ran.0 v))
        | inr (result, returned) ↦ elim (Bool-cases (faults.after result)) [
          | inl bad ↦ inr (rw (logged, returned, bad, run_marked) (freed ran.0 v))
          | inr good ↦ inl (rw (logged, returned, good, run_marked) refl)
        ]
      ]
    ]

-- A cycle whose runClaim ends in an exception, whichever of its steps threw, does not hold its task
-- afterwards, as long as the lock and the file of the store let the failCycle of the catch through:
-- whatever task is then found under the id, its active cycle is not this one. The tasks are coherent
-- before, and the executors keep them so.
pub run_claim-IsReleasedFrom :
    (now later : ℕ) (instance : String) (e : Executors) (faults : ClaimFaults) (t : Task)
    (cycle_id : String) (ts : Snapshot) (u : Task)
    → AreCoherent e
    → All IsCoherent ts
    → faults.failing ≡ false
    → (run_claim now later instance e faults t cycle_id ts).1 ≡ false
    → find_task t.id (run_claim now later instance e faults t cycle_id ts).0 ≡ some u
    → u.active_cycle_id ≢ some cycle_id
unfolding run_claim mark_running
run_claim-IsReleasedFrom now later instance e faults t cycle_id ts u k p through =
    elim (Bool-cases faults.marking) [
      | inl blocked ↦
          rw (blocked, run_claim)
            (λ f. unblocked-IsReleasedFrom later faults.failing t cycle_id ts through p u)
      | inr free ↦ elim (Result-cases (mark_running now instance t.id cycle_id none ts)) [
        | inr (x, thrown) ↦
            rw (free, thrown, run_claim)
              (λ f. unblocked-IsReleasedFrom later faults.failing t cycle_id ts through p u)
        | inl (started, done) ↦
            let q =
              amend_required-All IsCoherent t.id ts (mark_running_task now instance cycle_id none)
                started (λ s r. mark_running_task-IsCoherent now instance cycle_id none s r) p
                done in
            rw (free, done, run_claim)
              (λ f.
                elim (run_marked-IsReleasedFrom now later e faults t cycle_id started.0 k through
                  q) [ inl fine ↦ absurd (cc (fine, f)) | inr freed ↦ freed u ])
      ]
    ]
