-- ===== src/Scheduler/Disk/Lifecycle.antt =====
-- A task over a history of calls on the file: it is never lost, its cycles never go back, and once
-- terminal it stays so.
use alfred_ai.Base.{
  ℕ, ◌≤◌, String, ◌≡◌, refl, ◌∙◌, true, false, Option, none, some, List, [], ◌∷◌, ◌++◌, map, Result,
  ok, err, arith, All, find, inl, inr, Option-cases, >>=-eq-ok, ◌>>=◌, subst, min, length, ◌+◌,
}
use alfred_ai.Scheduler.Model.{Task, Snapshot, StoreError, is_terminal, scheduler_max_cycles}
use alfred_ai.Scheduler.Schema.{Zod, parse_task, parse_snapshot, trim_task}
use alfred_ai.Scheduler.Create.{build_task, create}
use alfred_ai.Scheduler.TaskStore.{
  find_task, refused, not_found, claim, nudge, mark_running, renew_lease, complete_cycle,
  fail_cycle, cancel, reconcile, reconcile_task, ReconcileAction,
}
use alfred_ai.Scheduler.TaskStore.Coherence.{IsCoherent}
use alfred_ai.Scheduler.TaskStore.Frozen.{
  Follows, Follows-refl, claim_task-Follows, nudge_task-Follows, mark_running_task-Follows,
  renew_task-Follows, complete_task-Follows, fail_task-Follows, cancel_task-Follows,
  reconcile_task-Follows,
}
use alfred_ai.Scheduler.TaskStore.Life.{Lives, Lives-trans, life_of}
use alfred_ai.Scheduler.TaskStore.Related.{
  find_task-append, Found, amend-Found, amend_required-Found,
}
use alfred_ai.Scheduler.Disk.{
  Content, not_json, not_a_snapshot, stored, Disk, redact_task, Call, creates, claims, nudges,
  marks, renews, completes, fails, cancels, reconciles, forget, mutation_of, step, run,
}
use alfred_ai.Scheduler.Disk.Keeps.{ContentAll}
use alfred_ai.Scheduler.Disk.Invariant.{step-IsCoherent}
use alfred_ai.Scheduler.Disk.Reading.{
  Outcome, unreadable, threw, rejected, written, mutate-Outcome, IsReadable, IsReadable-reads,
  reads, step-IsReadable,
}

abbrev Still : String → Task → Snapshot → Type 0
Still = Found IsCoherent (Follows 1) (Follows-refl 1)

named :
    {R : Type 0} {f : Task → Result StoreError (Task × R)}
    → ((s : Task) (r : Task × R) → IsCoherent s → f s ≡ ok r → Follows 1 s r.0)
    → (s : Task) (r : Task × R) → IsCoherent s
    → f s ≡ ok r
    → (r.0.id ≡ s.id) × Follows 1 s r.0
named h s r c e = let q = h s r c e in (q.id, q)

total-named :
    {R : Type 0} (f : Task → Task × R)
    → ((s : Task) → Follows 1 s (f s).0)
    → (s : Task) (r : Task × R) → IsCoherent s
    → ◌≡◌ {A = Result StoreError (Task × R)} (ok (f s)) (ok r)
    → (r.0.id ≡ s.id) × Follows 1 s r.0
total-named f h s r c e =
    let same : f s ≡ r = cc in let q : Follows 1 s r.0 = rw (← same) (h s) in (q.id, q)

reconciled_task-Follows :
    (now : ℕ) (action : ReconcileAction) (t : Task) (r : Task × Option Task)
    → IsCoherent t
    → (reconcile_task now action t >>= λ t'. ok (t', some t')) ≡ ok r
    → Follows 1 t r.0
reconciled_task-Follows now action t r c e =
    let (u, done, e') = >>=-eq-ok (reconcile_task now action t) _ e in
    let same : u ≡ r.0 = cc in rw same at (reconcile_task-Follows now action t u c done)

forget-Still :
    {R : Type 0} (j : String) (t : Task) (m : Result StoreError (Snapshot × R))
    (out : Snapshot × Unit {0})
    → ((r : Snapshot × R) → m ≡ ok r → Still j t r.0)
    → forget m ≡ ok out
    → Still j t out.0
forget-Still j t (ok r) out h e = let same : out.0 ≡ r.0 = ground arith in rw same (h r refl)
forget-Still j t (err x) out h e = cc

mutation_of-Still :
    (z : Zod) (now : ℕ) (c : Call) (ts : Snapshot) (out : Snapshot × Unit {0}) (j : String)
    (t : Task)
    → All IsCoherent ts
    → mutation_of z now c ts ≡ ok out
    → find_task j ts ≡ some t
    → Still j t out.0
unfolding mutation_of claim nudge mark_running renew_lease complete_cycle fail_cycle cancel
    reconcile create
mutation_of-Still z now (creates id input) ts out j t p e h =
    forget-Still j t _ out
      (λ r q.
        let (made, _, e') = >>=-eq-ok (build_task z now id input) _ q in
        let same : r.0 ≡ ts ++ (made ∷ []) = ground arith in
        rw same (t, find_task-append j ts (made ∷ []) t h, Follows-refl 1 t))
      e
mutation_of-Still z now (claims instance id expected) ts out j t p e h =
    forget-Still j t _ out
      (λ r q.
        amend-Found IsCoherent (Follows 1) (Follows-refl 1) id j ts (refused not_found) _ r t
          (total-named _ (claim_task-Follows now instance expected)) p q h)
      e
mutation_of-Still z now (nudges id due) ts out j t p e h =
    forget-Still j t _ out
      (λ r q.
        amend-Found IsCoherent (Follows 1) (Follows-refl 1) id j ts false _ r t
          (total-named _ (nudge_task-Follows now due)) p q h)
      e
mutation_of-Still z now (marks instance id cycle_id run_id) ts out j t p e h =
    forget-Still j t _ out
      (λ r q.
        amend_required-Found IsCoherent (Follows 1) (Follows-refl 1) id j ts _ r t
          (named (λ s r c. mark_running_task-Follows now instance cycle_id run_id s r)) p q h)
      e
mutation_of-Still z now (renews instance id cycle_id) ts out j t p e h =
    forget-Still j t _ out
      (λ r q.
        amend-Found IsCoherent (Follows 1) (Follows-refl 1) id j ts false _ r t
          (total-named _ (renew_task-Follows now instance cycle_id)) p q h)
      e
mutation_of-Still z now (completes input) ts out j t p e h =
    forget-Still j t _ out
      (λ r q.
        amend_required-Found IsCoherent (Follows 1) (Follows-refl 1) input.task_id j ts _ r t
          (named (λ s r c. complete_task-Follows now input s r)) p q h)
      e
mutation_of-Still z now (fails input) ts out j t p e h =
    forget-Still j t _ out
      (λ r q.
        amend_required-Found IsCoherent (Follows 1) (Follows-refl 1) input.task_id j ts _ r t
          (named (λ s r c. fail_task-Follows now input s r)) p q h)
      e
mutation_of-Still z now (cancels aliases id owner) ts out j t p e h =
    forget-Still j t _ out
      (λ r q.
        amend_required-Found IsCoherent (Follows 1) (Follows-refl 1) id j ts _ r t
          (named (λ s r c. cancel_task-Follows now aliases owner s r)) p q h)
      e
mutation_of-Still z now (reconciles id action) ts out j t p e h =
    forget-Still j t _ out
      (λ r q.
        amend-Found IsCoherent (Follows 1) (Follows-refl 1) id j ts none _ r t
          (named (reconciled_task-Follows now action)) p q h)
      e

pub redact-find :
    (redact : String → String) (j : String) (ts : Snapshot) (t : Task)
    → find_task j ts ≡ some t
    → find_task j (map (redact_task redact) ts) ≡ some (redact_task redact t)
unfolding find redact_task
redact-find redact j [] t e = cc
redact-find redact j (u ∷ ts) t e = ground (arith, redact-find redact j ts t)

pub parse-find :
    (z : Zod) (j : String) (ts us : Snapshot) (t : Task)
    → parse_snapshot z ts ≡ some us
    → find_task j ts ≡ some t
    → find_task j us ≡ some (trim_task z t)
unfolding find parse_snapshot parse_task trim_task
parse-find z j [] us t p e = cc
parse-find z j (u ∷ ts) us t p e = elim (Option-cases (parse_snapshot z ts)) [
  | inl broken ↦ ground arith
  | inr (vs, later) ↦
      let same : us ≡ trim_task z u ∷ vs = ground arith in
      rw same (ground (arith, parse-find z j ts vs t later))
]

-- Redaction and trimming touch none of what `Follows` speaks of.
stored-Follows :
    (z : Zod) (redact : String → String) (t u : Task)
    → Follows 1 t u
    → Follows 1 t (trim_task z (redact_task redact u))
unfolding trim_task redact_task
stored-Follows z redact t u q = record {
  id = q.id;
  limit = q.limit;
  cycles = q.cycles;
  lives = q.lives;
  final = q.final;
}

-- The task with this id in the file.
abbrev pub task_at : String → Option Content → Option Task
task_at j none = none
task_at j (some not_json) = none
task_at j (some not_a_snapshot) = none
task_at j (some (stored ts)) = find_task j ts

pub reads-task_at :
    (z : Zod) (j : String) (c : Option Content) (ts : Snapshot) (t : Task)
    → IsReadable z c
    → reads z c ≡ some ts
    → task_at j c ≡ some t
    → find_task j ts ≡ some t
reads-task_at z j none ts t h e f = cc
reads-task_at z j (some not_json) ts t h e f = absurd h
reads-task_at z j (some not_a_snapshot) ts t h e f = absurd h
reads-task_at z j (some (stored us)) ts t h e f = let same : us ≡ ts = cc in rw (← same) f

reads-All :
    (z : Zod) (c : Option Content) (ts : Snapshot)
    → IsReadable z c
    → reads z c ≡ some ts
    → ContentAll IsCoherent c
    → All IsCoherent ts
reads-All z none ts h e f = let same : [] ≡ ts = cc in rw (← same) tt
reads-All z (some not_json) ts h e f = absurd h
reads-All z (some not_a_snapshot) ts h e f = absurd h
reads-All z (some (stored us)) ts h e f = let same : us ≡ ts = cc in rw (← same) f

module _ (z : Zod) (redact : String → String) where
  -- The task is still in the file.
  abbrev pub Kept : ℕ → String → Task → Option Content → Type 0
  Kept n j t c = (u : Task) × (task_at j c ≡ some u) × Follows n t u

  Outcome-Kept :
      {R : Type 0} (m : Snapshot → Result StoreError (Snapshot × R)) (d : Disk)
      (out : Disk × Result StoreError R) (j : String) (t : Task)
      → ((ts : Snapshot) (r : Snapshot × R)
          → All IsCoherent ts
          → m ts ≡ ok r
          → find_task j ts ≡ some t
          → Still j t r.0)
      → IsReadable z d.tasks_file
      → ContentAll IsCoherent d.tasks_file
      → task_at j d.tasks_file ≡ some t
      → Outcome z redact m d out
      → Kept 1 j t out.0.tasks_file
  Outcome-Kept m d out j t keeps h p e (unreadable c a q b o) =
      absurd (IsReadable-reads z d.tasks_file h q)
  Outcome-Kept m d out j t keeps h p e (threw ts x q f a o) = rw a (t, e, Follows-refl 1 t)
  Outcome-Kept m d out j t keeps h p e (rejected ts r q f b a o) = rw a (t, e, Follows-refl 1 t)
  Outcome-Kept m d out j t keeps h p e (written ts us r a done parsed w o) =
      let (u, found, q) =
        keeps ts r (reads-All z d.tasks_file ts h a p) done
          (reads-task_at z j d.tasks_file ts t h a e) in
      rw w (
        trim_task z (redact_task redact u),
        parse-find z j _ us _ parsed (redact-find redact j r.0 u found),
        stored-Follows z redact t u q,
      )

  pub step-Kept :
      (d : Disk) (c : ℕ × Call) (j : String) (t : Task)
      → IsReadable z d.tasks_file
      → ContentAll IsCoherent d.tasks_file
      → task_at j d.tasks_file ≡ some t
      → Kept 1 j t (step z redact d c).tasks_file
  unfolding step
  step-Kept d (now, c) j t h p e =
      Outcome-Kept (mutation_of z now c) d _ j t
        (λ ts r k q f. mutation_of-Still z now c ts r j t k q f) h p e
        (mutate-Outcome z redact (mutation_of z now c) d)

  Kept-trans :
      (n j : ℕ) (id : String) (t u : Task) (c : Option Content)
      → Follows n t u
      → Kept j id u c
      → Kept (n + j) id t c
  Kept-trans n j id t u c q (v, found, s) = (
    v,
    found,
    record {
      id = s.id ∙ q.id;
      limit = s.limit ∙ q.limit;
      cycles = omega (arith, q.cycles, s.cycles);
      lives = Lives-trans q.lives (
          subst (λ m. Lives (min m scheduler_max_cycles) j (life_of u) (life_of v)) q.limit
            s.lives);
      final = λ h.
          let (still, cycles) = q.final h in
          let (later, cycles') = s.final still in (later, cycles' ∙ cycles);
    },
  )

module _ (z : Zod) (trim_trim : (s : String) → z.trim (z.trim s) ≡ z.trim s)
    (redact : String → String) where
  run-Kept :
      (d : Disk) (cs : List (ℕ × Call)) (j : String) (t : Task)
      → IsReadable z d.tasks_file
      → ContentAll IsCoherent d.tasks_file
      → task_at j d.tasks_file ≡ some t
      → Kept z redact (length cs) j t (run z redact d cs).tasks_file
  unfolding run
  run-Kept d [] j t h p e = (t, e, Follows-refl 0 t)
  run-Kept d (c ∷ cs) j t h p e =
      let (u, found, q) = step-Kept z redact d c j t h p e in
      let one_more : 1 + length cs ≡ length (c ∷ cs) = omega arith in
      subst (λ n. Kept z redact n j t (run z redact (step z redact d c) cs).tasks_file) one_more
        (Kept-trans z redact 1 (length cs) j t u _ q (
          run-Kept (step z redact d c) cs j u (step-IsReadable z trim_trim redact d c h).0
            (step-IsCoherent z redact d c p) found))

  -- From a file that reads back as it was written and whose tasks are coherent, no history of calls
  -- loses a task: it is in the file at the end, with the same limit of cycles and with at least as
  -- many cycles as before.
  pub run-keeps_tasks :
      (d : Disk) (cs : List (ℕ × Call)) (j : String) (t : Task)
      → IsReadable z d.tasks_file
      → ContentAll IsCoherent d.tasks_file
      → task_at j d.tasks_file ≡ some t
      → (u : Task) × (task_at j (run z redact d cs).tasks_file ≡ some u)
        × (u.max_cycles ≡ t.max_cycles)
        × (t.cycle_count ≤ u.cycle_count)
  run-keeps_tasks d cs j t h p e =
      let (u, found, q) = run-Kept d cs j t h p e in (u, found, q.limit, q.cycles)

  -- And a task that is completed, failed, cancelled or expired is never run again: after every
  -- history it is still in one of these states, with the cycles that it had.
  pub run-terminal :
      (d : Disk) (cs : List (ℕ × Call)) (j : String) (t : Task)
      → IsReadable z d.tasks_file
      → ContentAll IsCoherent d.tasks_file
      → task_at j d.tasks_file ≡ some t
      → is_terminal t.status ≡ true
      → (u : Task) × (task_at j (run z redact d cs).tasks_file ≡ some u)
        × (is_terminal u.status ≡ true)
        × (u.cycle_count ≡ t.cycle_count)
  run-terminal d cs j t h p e over =
      let (u, found, q) = run-Kept d cs j t h p e in
      let (still, cycles) = q.final over in (u, found, still, cycles)
