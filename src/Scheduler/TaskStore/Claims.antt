-- ===== src/Scheduler/TaskStore/Claims.antt =====
-- `claim`: exactly when it grants a cycle, and what it grants.
use alfred_ai.Base.{
  ℕ, ◌+◌, ◌<◌, String, ◌≡◌, ◌↔◌, true, false, Option, some, ok, arith, inl, inr, Option-cases,
}
use alfred_ai.Scheduler.Model.{Task, Snapshot, pending, stamp_le, scheduler_max_cycles}
use alfred_ai.Scheduler.TaskStore.{
  find_task, replace_task, amend, granted, cycle_id_of, claimed_task, claim_task, claim, is_stale,
  has_expired,
}

-- A task that may be claimed now, by a caller who last saw it updated at `expected`.
pub record IsClaimable (now : ℕ) (expected : Option ℕ) (t : Task) : Type 0 where
  pub fresh : is_stale expected t.updated_at ≡ false
  pub waits : t.status ≡ pending
  pub due : stamp_le t.due_at now ≡ true
  pub alive : has_expired t.expires_at now ≡ false
  pub cycles_left : t.cycle_count < t.max_cycles
  pub within_limit : t.cycle_count < scheduler_max_cycles

claim_task-grants :
    (now : ℕ) (instance : String) (expected : Option ℕ) (t : Task)
    → IsClaimable now expected t
    → claim_task now instance expected t ≡ (
      claimed_task now instance t,
      granted (claimed_task now instance t) (cycle_id_of t.id (t.cycle_count + 1)),
    )
unfolding claim_task
claim_task-grants now instance expected t c = ground arith

claim_task-granted :
    (now : ℕ) (instance cycle_id : String) (expected : Option ℕ) (t u : Task)
    → (claim_task now instance expected t).1 ≡ granted u cycle_id
    → IsClaimable now expected t
unfolding claim_task
claim_task-granted now instance cycle_id expected t u e = record {
  fresh = ground arith;
  waits = ground arith;
  due = ground arith;
  alive = ground arith;
  cycles_left = ground arith;
  within_limit = ground arith;
}

-- A granted claim found a claimable task, and left it claimed.
pub claim-granted :
    (now : ℕ) (instance id cycle_id : String) (expected : Option ℕ) (ts us : Snapshot) (w : Task)
    → claim now instance id expected ts ≡ ok (us, granted w cycle_id)
    → (t : Task) × (find_task id ts ≡ some t)
      × IsClaimable now expected t
      × (us ≡ replace_task id (claimed_task now instance t) ts)
      × (w ≡ claimed_task now instance t)
      × (cycle_id ≡ cycle_id_of t.id (t.cycle_count + 1))
unfolding claim amend
claim-granted now instance id cycle_id expected ts us w e = elim (Option-cases (find_task id ts)) [
  | inl absent ↦ ground arith
  | inr (t, found) ↦
      let given : (claim_task now instance expected t).1 ≡ granted w cycle_id = ground arith in
      let c = claim_task-granted now instance cycle_id expected t w given in
      let all = claim_task-grants now instance expected t c in
      (t, found, c, ground arith, ground arith, ground arith)
]

claim-grants :
    (now : ℕ) (instance id : String) (expected : Option ℕ) (ts : Snapshot) (t : Task)
    → find_task id ts ≡ some t
    → IsClaimable now expected t
    → claim now instance id expected ts
      ≡ ok (
        replace_task id (claimed_task now instance t) ts,
        granted (claimed_task now instance t) (cycle_id_of t.id (t.cycle_count + 1)),
      )
unfolding claim amend
claim-grants now instance id expected ts t found c =
    ground (arith, claim_task-grants now instance expected t c)

-- A claim is granted exactly if the task exists, has not been updated since the caller read it, is
-- pending, is due, is not past its expiry, and has cycles left both under its own limit and under
-- the scheduler's. What is granted is then the task marked as claimed, with its next cycle.
pub claim-granted_iff :
    (now : ℕ) (instance id : String) (expected : Option ℕ) (ts : Snapshot)
    → ((us : Snapshot) × (w : Task) × (cycle_id : String) × (claim now instance id expected ts
          ≡ ok (us, granted w cycle_id)))
      ↔ ((t : Task) × (find_task id ts ≡ some t) × IsClaimable now expected t)
claim-granted_iff now instance id expected ts = (
  λ g.
      let (t, found, c, _, _, _) = claim-granted now instance id g.2 expected ts g.0 g.1 g.3 in
      (t, found, c),
  λ h. (_, _, _, claim-grants now instance id expected ts h.0 h.1 h.2),
)
