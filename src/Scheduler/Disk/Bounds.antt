-- ===== src/Scheduler/Disk/Bounds.antt =====
-- How often one task is claimed over a whole history of calls.
use alfred_ai.Base.{
  ℕ, ◌+◌, ◌≤◌, String, ◌≡◌, refl, ◌∙◌, ap, Option, none, some, List, [], ◌∷◌, map, Result, ok, err,
  arith, inl, inr, ◌⊎◌, Bool-cases, Option-cases, Result-cases, str_eq, eq_iff, if◌then◌else◌,
}
use alfred_ai.Scheduler.Model.{Task, Snapshot, StoreError, scheduler_max_cycles}
use alfred_ai.Scheduler.Schema.{Zod, parse_snapshot}
use alfred_ai.Scheduler.TaskStore.{ClaimResult, granted, refused, claim}
use alfred_ai.Scheduler.TaskStore.Coherence.{IsCoherent}
use alfred_ai.Scheduler.TaskStore.Snapshots.{find_task-All}
use alfred_ai.Scheduler.Disk.{
  Content, not_json, not_a_snapshot, stored, Disk, redact_task, read_snapshot, write_back,
  mutate_read, mutate, forget, Call, creates, claims, nudges, marks, renews, completes, fails,
  cancels, reconciles, mutation_of, step, run,
}
use alfred_ai.Scheduler.Disk.Keeps.{ContentAll}
use alfred_ai.Scheduler.Disk.Invariant.{step-IsCoherent, run-IsCoherent}
use alfred_ai.Scheduler.Disk.Reading.{mutate-Outcome, IsReadable, step-IsReadable}
use alfred_ai.Scheduler.Disk.Lifecycle.{task_at, reads-task_at, step-Kept}
use alfred_ai.Scheduler.Disk.Claims.{Outcome-granted}

abbrev pub count_granted : Result StoreError ClaimResult → ℕ
count_granted (ok (granted t cycle_id)) = 1
count_granted (ok (refused why)) = 0
count_granted (err e) = 0

module _ (z : Zod) (redact : String → String) (j : String) where
  -- Whether a call is a claim of this task that is granted.
  abbrev pub grants_of : Disk → ℕ × Call → ℕ
  grants_of d (now, claims instance id expected) =
      if str_eq id j
      then count_granted (mutate z redact (claim now instance id expected) d).1
      else 0
  grants_of d (now, creates id input) = 0
  grants_of d (now, nudges id due) = 0
  grants_of d (now, marks instance id cycle_id run_id) = 0
  grants_of d (now, renews instance id cycle_id) = 0
  grants_of d (now, completes input) = 0
  grants_of d (now, fails input) = 0
  grants_of d (now, cancels aliases id owner) = 0
  grants_of d (now, reconciles id action) = 0

  -- The number of granted claims of this task in a history.
  unfoldable pub grants : Disk → List (ℕ × Call) → ℕ
  grants d [] = 0
  grants d (c ∷ cs) = grants_of d c + grants (step z redact d c) cs

module _ {R : Type 0} (z : Zod) (redact : String → String)
    (m : Snapshot → Result StoreError (Snapshot × R)) where
  write_back-forget :
      (d : Disk) (r : Snapshot × R)
      → (write_back z redact d (r.0, tt)).0 ≡ (write_back z redact d r).0
  unfolding write_back
  write_back-forget d r = elim (Option-cases (parse_snapshot z (map (redact_task redact) r.0))) [
    | inl broken ↦ rw (broken, write_back)
    | inr (us, parsed) ↦ rw (parsed, write_back)
  ]

  mutate_read-forget :
      (p : Disk × Result StoreError Snapshot)
      → (mutate_read z redact (λ ts. forget (m ts)) p).0 ≡ (mutate_read z redact m p).0
  unfolding mutate_read
  mutate_read-forget (d, err e) = refl
  mutate_read-forget (d, ok ts) = elim (Result-cases (m ts)) [
    | inl (r, done) ↦ rw (done, mutate_read) (write_back-forget d r)
    | inr (e, thrown) ↦ rw (thrown, mutate_read)
  ]

  -- The file does not depend on the result that a mutation returns.
  mutate-forget : (d : Disk) → (mutate z redact (λ ts. forget (m ts)) d).0 ≡ (mutate z redact m d).0
  unfolding mutate
  mutate-forget d = mutate_read-forget (read_snapshot z d)

task_at-IsCoherent :
    (j : String) (c : Option Content) (t : Task)
    → ContentAll IsCoherent c
    → task_at j c ≡ some t
    → IsCoherent t
task_at-IsCoherent j none t p e = cc
task_at-IsCoherent j (some not_json) t p e = cc
task_at-IsCoherent j (some not_a_snapshot) t p e = cc
task_at-IsCoherent j (some (stored ts)) t p e = find_task-All IsCoherent j ts t p e

count_granted-cases :
    (r : Result StoreError ClaimResult)
    → (count_granted r ≡ 0)
      ⊎ ((w : Task) × (cycle_id : String) × (r ≡ ok (granted w cycle_id)) × (count_granted r ≡ 1))
count_granted-cases (ok (granted t cycle_id)) = inr (t, cycle_id, refl, refl)
count_granted-cases (ok (refused why)) = inl refl
count_granted-cases (err e) = inl refl

module _ (z : Zod) (redact : String → String) (j : String) where
  -- After a call the task is still there, and its cycles have grown with a granted claim.
  abbrev Grown : Task → ℕ → Option Content → Type 0
  Grown t n c =
      (u : Task) × (task_at j c ≡ some u)
      × (t.cycle_count + n ≤ u.cycle_count)
      × (u.max_cycles ≡ t.max_cycles)

  module _ (d : Disk) (t : Task) (h : IsReadable z d.tasks_file)
      (p : ContentAll IsCoherent d.tasks_file) (e : task_at j d.tasks_file ≡ some t) where
    step-Grown_zero : (c : ℕ × Call) → Grown t 0 (step z redact d c).tasks_file
    step-Grown_zero c =
        let (u, found, q) = step-Kept z redact d c j t h p e in
        (u, found, omega (arith, q.cycles), q.limit)

    claim-Grown :
        (now : ℕ) (instance id cycle_id : String) (expected : Option ℕ) (w : Task)
        → id ≡ j
        → (mutate z redact (claim now instance id expected) d).1 ≡ ok (granted w cycle_id)
        → Grown t 1 (step z redact d (now, claims instance id expected)).tasks_file
    unfolding step mutation_of
    claim-Grown now instance id cycle_id expected w same g =
        let (ts, s, a, found, c, (v, there, status, count)) =
          Outcome-granted z redact now instance id cycle_id expected d w _
            (mutate-Outcome z redact (claim now instance id expected) d) g in
        let one : s ≡ t = cc (reads-task_at z j d.tasks_file ts t h a e) in
        let (u, kept, q) = step-Kept z redact d (now, claims instance id expected) j t h p e in
        let file : task_at id (step z redact d (now, claims instance id expected)).tasks_file
            ≡ some v =
          rw
            (ap (λ x. task_at id x.tasks_file)
              (mutate-forget z redact (claim now instance id expected) d))
            there in
        let equal : u ≡ v = ground arith in
        (u, kept, rw equal (rw (← one) (omega (arith, count))), q.limit)

    step-Grown : (c : ℕ × Call) → Grown t (grants_of z redact j d c) (step z redact d c).tasks_file
    step-Grown (now, claims instance id expected) = elim (Bool-cases (str_eq id j)) [
      | inr other ↦ rw other (step-Grown_zero (now, claims instance id expected))
      | inl hit ↦
          elim (count_granted-cases (mutate z redact (claim now instance id expected) d).1) [
            | inl nothing ↦ rw (hit, nothing) (step-Grown_zero (now, claims instance id expected))
            | inr (w, cycle_id, g, one) ↦
                rw (hit, one)
                  (claim-Grown now instance id cycle_id expected w ((eq_iff id j).0 hit) g)
          ]
    ]
    step-Grown (now, creates id input) = step-Grown_zero (now, creates id input)
    step-Grown (now, nudges id due) = step-Grown_zero (now, nudges id due)
    step-Grown (now, marks instance id cycle_id run_id) =
        step-Grown_zero (now, marks instance id cycle_id run_id)
    step-Grown (now, renews instance id cycle_id) =
        step-Grown_zero (now, renews instance id cycle_id)
    step-Grown (now, completes input) = step-Grown_zero (now, completes input)
    step-Grown (now, fails input) = step-Grown_zero (now, fails input)
    step-Grown (now, cancels aliases id owner) = step-Grown_zero (now, cancels aliases id owner)
    step-Grown (now, reconciles id action) = step-Grown_zero (now, reconciles id action)

  Grown-trans :
      (t u : Task) (m n : ℕ) (c : Option Content)
      → t.cycle_count + m ≤ u.cycle_count
      → u.max_cycles ≡ t.max_cycles
      → Grown u n c
      → Grown t (m + n) c
  Grown-trans t u m n c le same (v, found, more, limit) =
      (v, found, omega (arith, le, more), limit ∙ same)

  module _ (trim_trim : (s : String) → z.trim (z.trim s) ≡ z.trim s) where
    run-Grown :
        (d : Disk) (cs : List (ℕ × Call)) (t : Task)
        → IsReadable z d.tasks_file
        → ContentAll IsCoherent d.tasks_file
        → task_at j d.tasks_file ≡ some t
        → Grown t (grants z redact j d cs) (run z redact d cs).tasks_file
    unfolding run grants
    run-Grown d [] t h p e = (t, e, omega arith, refl)
    run-Grown d (c ∷ cs) t h p e =
        let (u, found, le, same) = step-Grown d t h p e c in
        Grown-trans t u (grants_of z redact j d c) (grants z redact j (step z redact d c) cs) _ le
          same
          (run-Grown (step z redact d c) cs u (step-IsReadable z trim_trim redact d c h).0
            (step-IsCoherent z redact d c p) found)

    -- In every history of calls, from a file that reads back as it was written and whose tasks are
    -- coherent, the claims of a task that are granted stay within what its own limit and the
    -- scheduler's leave over the cycles that it has had.
    pub grants-le :
        (d : Disk) (cs : List (ℕ × Call)) (t : Task)
        → IsReadable z d.tasks_file
        → ContentAll IsCoherent d.tasks_file
        → task_at j d.tasks_file ≡ some t
        → (t.cycle_count + grants z redact j d cs ≤ t.max_cycles)
          × (t.cycle_count + grants z redact j d cs ≤ scheduler_max_cycles)
    grants-le d cs t h p e =
        let (u, found, le, same) = run-Grown d cs t h p e in
        let c = task_at-IsCoherent j _ u (run-IsCoherent z redact d cs p) found in
        (omega (arith, le, same, c.within_max), omega (arith, le, c.within_limit))
