-- ===== src/Scheduler/Disk/Invariant.antt =====
-- The tasks in the file are coherent after every history of calls.
use alfred_ai.Base.{
  ℕ, String, ◌≡◌, refl, false, Option, none, some, List, [], ◌∷◌, ◌++◌, Result, ok, err, arith, All,
  All-append, inl, inr, Bool-cases, Result-cases, >>=-eq-ok, ◌>>=◌,
}
use alfred_ai.Scheduler.Model.{Task, Snapshot, StoreError}
use alfred_ai.Scheduler.Schema.{Zod, trim_task, parse_task, valid_task}
use alfred_ai.Scheduler.Create.{CreateInput, new_task, build_task, create}
use alfred_ai.Scheduler.Create.Built.{build_task-Built}
use alfred_ai.Scheduler.TaskStore.{
  refused, not_found, claim, claim_task, nudge, nudge_task, mark_running, renew_lease, renew_task,
  complete_cycle, fail_cycle, cancel, reconcile, reconcile_task, ReconcileAction,
}
use alfred_ai.Scheduler.TaskStore.Coherence.{
  IsCoherent, claim_task-IsCoherent, nudge_task-IsCoherent, mark_running_task-IsCoherent,
  renew_task-IsCoherent, complete_task-IsCoherent, fail_task-IsCoherent, cancel_task-IsCoherent,
  reconcile_task-IsCoherent,
}
use alfred_ai.Scheduler.TaskStore.Snapshots.{amend-All, amend_total-All, amend_required-All}
use alfred_ai.Scheduler.Disk.{
  Disk, redact_task, Call, creates, claims, nudges, marks, renews, completes, fails, cancels,
  reconciles, mutation_of, forget, step, run,
}
use alfred_ai.Scheduler.Disk.Keeps.{ContentAll, mutate-All}

trim_task-IsCoherent : (z : Zod) (t : Task) → IsCoherent t → IsCoherent (trim_task z t)
unfolding trim_task
trim_task-IsCoherent z t c = ground arith

redact_task-IsCoherent :
    (redact : String → String) (t : Task) → IsCoherent t → IsCoherent (redact_task redact t)
unfolding redact_task
redact_task-IsCoherent redact t c = ground arith

new_task-IsCoherent :
    (now : ℕ) (id : String) (i : CreateInput) (expiry : Option ℕ)
    → IsCoherent (new_task now id i expiry)
unfolding new_task
new_task-IsCoherent now id i expiry = ground arith

parse_task-IsCoherent :
    (z : Zod) (t u : Task) → IsCoherent t → parse_task z t ≡ some u → IsCoherent u
unfolding parse_task
parse_task-IsCoherent z t u c e = elim (Bool-cases (valid_task z (trim_task z t))) [
  | inr bad ↦ ground arith
  | inl good ↦ let same : u ≡ trim_task z t = ground arith in rw same (trim_task-IsCoherent z t c)
]

build_task-IsCoherent :
    (z : Zod) (now : ℕ) (id : String) (input : CreateInput) (t : Task)
    → build_task z now id input ≡ ok t
    → IsCoherent t
build_task-IsCoherent z now id input t e =
    let b = build_task-Built z now id input t e in
    parse_task-IsCoherent z _ t (new_task-IsCoherent now id b.parsed b.expiry) b.made

create-All :
    (z : Zod) (now : ℕ) (id : String) (input : CreateInput) (ts : Snapshot) (out : Snapshot × Task)
    → All IsCoherent ts
    → create z now id input ts ≡ ok out
    → All IsCoherent out.0
unfolding create
create-All z now id input ts out h e = elim (Result-cases (build_task z now id input)) [
  | inl (t, built) ↦
      let same : out.0 ≡ ts ++ (t ∷ []) = ground arith in
      rw same
        (All-append IsCoherent ts (t ∷ []) h (build_task-IsCoherent z now id input t built, tt))
  | inr (x, thrown) ↦ ground arith
]

forget-All :
    {R : Type 0} (P : Task → Type 0) (m : Result StoreError (Snapshot × R))
    (out : Snapshot × Unit {0})
    → ((r : Snapshot × R) → m ≡ ok r → All P r.0)
    → forget m ≡ ok out
    → All P out.0
forget-All P (ok r) out h e = let same : out.0 ≡ r.0 = ground arith in rw same (h r refl)
forget-All P (err x) out h e = cc

reconciled_task-IsCoherent :
    (now : ℕ) (action : ReconcileAction) (t : Task) (r : Task × Option Task)
    → IsCoherent t
    → (reconcile_task now action t >>= λ t'. ok (t', some t')) ≡ ok r
    → IsCoherent r.0
reconciled_task-IsCoherent now action t r c e =
    let (u, done, e') = >>=-eq-ok (reconcile_task now action t) _ e in
    let same : u ≡ r.0 = cc in rw same at (reconcile_task-IsCoherent now action t u c done)

-- Each call keeps the tasks of a snapshot coherent.
mutation_of-All :
    (z : Zod) (now : ℕ) (c : Call) (ts : Snapshot) (out : Snapshot × Unit {0})
    → All IsCoherent ts
    → mutation_of z now c ts ≡ ok out
    → All IsCoherent out.0
unfolding mutation_of claim nudge mark_running renew_lease complete_cycle fail_cycle cancel
    reconcile
mutation_of-All z now (creates id input) ts out h e =
    forget-All IsCoherent _ out (λ r. create-All z now id input ts r h) e
mutation_of-All z now (claims instance id expected) ts out h e =
    forget-All IsCoherent _ out
      (λ r.
        amend_total-All IsCoherent id ts (refused not_found) (claim_task now instance expected) r
          (claim_task-IsCoherent now instance expected) h)
      e
mutation_of-All z now (nudges id due) ts out h e =
    forget-All IsCoherent _ out
      (λ r.
        amend_total-All IsCoherent id ts false (nudge_task now due) r
          (nudge_task-IsCoherent now due) h)
      e
mutation_of-All z now (marks instance id cycle_id run_id) ts out h e =
    forget-All IsCoherent _ out
      (λ r.
        amend_required-All IsCoherent id ts _ r
          (mark_running_task-IsCoherent now instance cycle_id run_id) h)
      e
mutation_of-All z now (renews instance id cycle_id) ts out h e =
    forget-All IsCoherent _ out
      (λ r.
        amend_total-All IsCoherent id ts false (renew_task now instance cycle_id) r
          (renew_task-IsCoherent now instance cycle_id) h)
      e
mutation_of-All z now (completes input) ts out h e =
    forget-All IsCoherent _ out
      (λ r.
        amend_required-All IsCoherent input.task_id ts _ r (complete_task-IsCoherent now input) h)
      e
mutation_of-All z now (fails input) ts out h e =
    forget-All IsCoherent _ out
      (λ r. amend_required-All IsCoherent input.task_id ts _ r (fail_task-IsCoherent now input) h) e
mutation_of-All z now (cancels aliases id owner) ts out h e =
    forget-All IsCoherent _ out
      (λ r. amend_required-All IsCoherent id ts _ r (cancel_task-IsCoherent now aliases owner) h) e
mutation_of-All z now (reconciles id action) ts out h e =
    forget-All IsCoherent _ out
      (λ r. amend-All IsCoherent id ts none _ r (reconciled_task-IsCoherent now action) h) e

pub step-IsCoherent :
    (z : Zod) (redact : String → String) (d : Disk) (c : ℕ × Call)
    → ContentAll IsCoherent d.tasks_file
    → ContentAll IsCoherent (step z redact d c).tasks_file
unfolding step
step-IsCoherent z redact d (now, c) h =
    mutate-All IsCoherent z redact (trim_task-IsCoherent z) (redact_task-IsCoherent redact)
      (mutation_of z now c) d (mutation_of-All z now c) h

-- Whatever calls are made at whatever times, from a file whose tasks are coherent: every task stays
-- coherent. It is claimed or running exactly with its newest cycle id, an owner and a lease, holds
-- none of these otherwise, and its cycles stay within its own limit and the scheduler's.
pub run-IsCoherent :
    (z : Zod) (redact : String → String) (d : Disk) (cs : List (ℕ × Call))
    → ContentAll IsCoherent d.tasks_file
    → ContentAll IsCoherent (run z redact d cs).tasks_file
unfolding run
run-IsCoherent z redact d [] h = h
run-IsCoherent z redact d (c ∷ cs) h =
    run-IsCoherent z redact (step z redact d c) cs (step-IsCoherent z redact d c h)
