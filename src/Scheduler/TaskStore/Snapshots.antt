-- ===== src/Scheduler/TaskStore/Snapshots.antt =====
-- Lookup and replacement of one task in a snapshot.
use alfred_ai.Base.{
  String, ◌≡◌, refl, ◌≢◌, some, [], ◌∷◌, Result, ok, arith, All, find, str_eq, eq_iff, inl, inr,
  Bool-cases, Option-cases, Result-cases,
}
use alfred_ai.Scheduler.Model.{Task, Snapshot, StoreError}
use alfred_ai.Scheduler.TaskStore.{find_task, replace_task, amend, amend_required}

module _ (P : Task → Type 0) where
  pub find_task-All :
      (id : String) (ts : Snapshot) (t : Task) → All P ts → find_task id ts ≡ some t → P t
  unfolding find
  find_task-All id [] t h e = cc
  find_task-All id (u ∷ ts) t h e = elim (Bool-cases (str_eq u.id id)) [
    | inl hit ↦ let same : u ≡ t = ground arith in ground (arith, h.0)
    | inr miss ↦ find_task-All id ts t h.1 (ground arith)
  ]

  pub replace_task-All :
      (id : String) (t : Task) (ts : Snapshot) → P t → All P ts → All P (replace_task id t ts)
  unfolding replace_task
  replace_task-All id t [] p h = tt
  replace_task-All id t (u ∷ ts) p h = elim (Bool-cases (str_eq u.id id)) [
    | inl hit ↦ rw hit (p, h.1)
    | inr miss ↦ rw miss (h.0, replace_task-All id t ts p h.1)
  ]

  pub amend-All :
      {R : Type 0} (id : String) (ts : Snapshot) (missing : R)
      (f : Task → Result StoreError (Task × R)) (out : Snapshot × R)
      → ((t : Task) (r : Task × R) → P t → f t ≡ ok r → P r.0)
      → All P ts
      → amend id ts missing f ≡ ok out
      → All P out.0
  unfolding amend
  amend-All id ts missing f out keeps h e = elim (Option-cases (find_task id ts)) [
    | inl absent ↦ let same : ts ≡ out.0 = ground arith in rw same at h
    | inr (t, found) ↦ elim (Result-cases (f t)) [
      | inl (r, done) ↦
          let p : P r.0 = keeps t r (find_task-All id ts t h found) done in
          let same : out.0 ≡ replace_task id r.0 ts = ground arith in
          rw same (replace_task-All id r.0 ts p h)
      | inr (x, thrown) ↦ ground arith
    ]
  ]

  -- The same for a mutation that cannot throw.
  pub amend_total-All :
      {R : Type 0} (id : String) (ts : Snapshot) (missing : R) (f : Task → Task × R)
      (out : Snapshot × R)
      → ((t : Task) → P t → P (f t).0)
      → All P ts
      → amend id ts missing (λ t. ok (f t)) ≡ ok out
      → All P out.0
  amend_total-All id ts missing f out keeps h e =
      amend-All id ts missing (λ t. ok (f t)) out
        (λ t r p q. let same : r ≡ f t = cc in rw same (keeps t p)) h e

  pub amend_required-All :
      (id : String) (ts : Snapshot) (f : Task → Result StoreError (Task × Task))
      (out : Snapshot × Task)
      → ((t : Task) (r : Task × Task) → P t → f t ≡ ok r → P r.0)
      → All P ts
      → amend_required id ts f ≡ ok out
      → All P out.0
  unfolding amend_required
  amend_required-All id ts f out keeps h e = elim (Option-cases (find_task id ts)) [
    | inl absent ↦ ground arith
    | inr (t, found) ↦ elim (Result-cases (f t)) [
      | inl (r, done) ↦
          let p : P r.0 = keeps t r (find_task-All id ts t h found) done in
          let same : out.0 ≡ replace_task id r.0 ts = ground arith in
          rw same (replace_task-All id r.0 ts p h)
      | inr (x, thrown) ↦ ground arith
    ]
  ]

pub find_task-replace_ne :
    (id j : String) (t : Task) (ts : Snapshot)
    → t.id ≡ id
    → id ≢ j
    → find_task j (replace_task id t ts) ≡ find_task j ts
unfolding find replace_task
find_task-replace_ne id j t [] e ne = refl
find_task-replace_ne id j t (u ∷ ts) e ne =
    ground (arith, find_task-replace_ne id j t ts, eq_iff t.id j, eq_iff u.id id, eq_iff u.id j)

pub find_task-replace_self :
    (id : String) (t u : Task) (ts : Snapshot)
    → t.id ≡ id
    → find_task id ts ≡ some u
    → find_task id (replace_task id t ts) ≡ some t
unfolding find replace_task
find_task-replace_self id t u [] e h = cc
find_task-replace_self id t u (v ∷ ts) e h =
    ground (arith, find_task-replace_self id t u ts, eq_iff t.id id, eq_iff v.id id)

pub find_task-id : (id : String) (ts : Snapshot) (t : Task) → find_task id ts ≡ some t → t.id ≡ id
unfolding find
find_task-id id [] t e = cc
find_task-id id (u ∷ ts) t e = ground (arith, find_task-id id ts t, eq_iff u.id id)

-- Putting back what was found changes nothing.
pub replace_task-found :
    (id : String) (t : Task) (ts : Snapshot) → find_task id ts ≡ some t → replace_task id t ts ≡ ts
unfolding find replace_task
replace_task-found id t [] e = refl
replace_task-found id t (u ∷ ts) e = ground (arith, replace_task-found id t ts)
