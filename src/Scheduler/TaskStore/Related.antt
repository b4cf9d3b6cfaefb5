-- ===== src/Scheduler/TaskStore/Related.antt =====
-- A task before and after a mutation of the snapshot: it is still there, related to what it was.
use alfred_ai.Base.{
  String, ◌≡◌, ◌≢◌, ◌∙◌, some, [], ◌∷◌, ◌++◌, Result, ok, arith, All, find, str_eq, eq_iff, inl,
  inr, Bool-cases, Option-cases, Result-cases,
}
use alfred_ai.Scheduler.Model.{Task, Snapshot, StoreError}
use alfred_ai.Scheduler.TaskStore.{find_task, replace_task, amend, amend_required}
use alfred_ai.Scheduler.TaskStore.Snapshots.{
  find_task-All, find_task-replace_ne, find_task-replace_self, find_task-id,
}

pub find_task-append :
    (j : String) (ts us : Snapshot) (t : Task)
    → find_task j ts ≡ some t
    → find_task j (ts ++ us) ≡ some t
unfolding find
find_task-append j [] us t e = cc
find_task-append j (v ∷ ts) us t e = ground (arith, find_task-append j ts us t)

module _ (P : Task → Type 0) (Q : Task → Task → Type 0) (same : (t : Task) → Q t t) where
  -- The task with this id is there, and is related to `t`.
  abbrev pub Found : String → Task → Snapshot → Type 0
  Found j t ts = (u : Task) × (find_task j ts ≡ some u) × Q t u

  replaced-Found :
      (id j : String) (ts : Snapshot) (s t u : Task)
      → find_task id ts ≡ some s
      → find_task j ts ≡ some t
      → u.id ≡ s.id
      → Q s u
      → Found j t (replace_task id u ts)
  replaced-Found id j ts s t u e h k q =
      let named : u.id ≡ id = k ∙ find_task-id id ts s e in
      elim (Bool-cases (str_eq id j)) [
        | inl hit ↦
            let here : id ≡ j = (eq_iff id j).0 hit in
            let one : s ≡ t = cc in
            (u, rw (← here) (find_task-replace_self id u s ts named e), rw (← one) q)
        | inr miss ↦
            let apart : id ≢ j = λ x. ground (arith, eq_iff id j) in
            (t, find_task-replace_ne id j u ts named apart ∙ h, same t)
      ]

  pub amend-Found :
      {R : Type 0} (id j : String) (ts : Snapshot) (missing : R)
      (f : Task → Result StoreError (Task × R)) (out : Snapshot × R) (t : Task)
      → ((s : Task) (r : Task × R) → P s → f s ≡ ok r → (r.0.id ≡ s.id) × Q s r.0)
      → All P ts
      → amend id ts missing f ≡ ok out
      → find_task j ts ≡ some t
      → Found j t out.0
  unfolding amend
  amend-Found id j ts missing f out t keeps p e h = elim (Option-cases (find_task id ts)) [
    | inl absent ↦ let kept : ts ≡ out.0 = ground arith in (t, rw (← kept) h, same t)
    | inr (s, found) ↦ elim (Result-cases (f s)) [
      | inl (r, done) ↦
          let (named, q) = keeps s r (find_task-All P id ts s p found) done in
          let kept : out.0 ≡ replace_task id r.0 ts = ground arith in
          rw kept (replaced-Found id j ts s t r.0 found h named q)
      | inr (x, thrown) ↦ ground arith
    ]
  ]

  pub amend_required-Found :
      (id j : String) (ts : Snapshot) (f : Task → Result StoreError (Task × Task))
      (out : Snapshot × Task) (t : Task)
      → ((s : Task) (r : Task × Task) → P s → f s ≡ ok r → (r.0.id ≡ s.id) × Q s r.0)
      → All P ts
      → amend_required id ts f ≡ ok out
      → find_task j ts ≡ some t
      → Found j t out.0
  unfolding amend_required
  amend_required-Found id j ts f out t keeps p e h = elim (Option-cases (find_task id ts)) [
    | inl absent ↦ ground arith
    | inr (s, found) ↦ elim (Result-cases (f s)) [
      | inl (r, done) ↦
          let (named, q) = keeps s r (find_task-All P id ts s p found) done in
          let kept : out.0 ≡ replace_task id r.0 ts = ground arith in
          rw kept (replaced-Found id j ts s t r.0 found h named q)
      | inr (x, thrown) ↦ ground arith
    ]
  ]
