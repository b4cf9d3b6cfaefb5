-- ===== src/Scheduler/TaskStore.antt =====
-- src/scheduler/taskStore.ts: the mutations that `SchedulerTaskStore` makes in a snapshot.
--
-- Each method is a function of the clock's value and the snapshot; `mutate`, which reads, checks and
-- writes the file around it, is in Disk. A call that throws returns `err` and no snapshot.
pub mod Claims
pub mod Coherence
pub mod Listing
pub mod Endings
pub mod Cycles
pub mod Related
pub mod Frozen
pub mod Life
pub mod Snapshots
use alfred_ai.Base.{
  ℕ, ◌+◌, min, String, ◌≡◌, Bool, true, false, not, ◌&&◌, ◌||◌, Option, none, some, List, [], ◌∷◌,
  Result, ok, err, ◌>>=◌, ◌>>◌, guard, ltb, leb, ◌==◌, if◌then◌else◌, find, filter, take, includes,
  is_text, or_else, defined, str_eq, show,
}
use Prim.Native.String.{◌++◌ as append_text}
use alfred_ai.Scheduler.Model.{
  Task, Snapshot, Stamp, Status, pending, claimed, running, completed, failed, cancelled, expired,
  ObservationStatus, TaskOwner, StoreError, task_not_found, cycle_not_active, foreign_claim,
  not_claimable, invalid_completion, invalid_timestamp, not_owner, parse_date, stamp_le, le_stamp,
  utc, is_terminal, is_active, is_pending, claim_lease_ms, scheduler_max_cycles,
}

-- `snapshot.tasks.find((candidate) => candidate.id === id)`
abbrev pub find_task : String → Snapshot → Option Task
find_task id = find (λ t. str_eq t.id id)

-- A change of the object that `find_task` returned, as it shows in the snapshot.
unfoldable pub replace_task : String → Task → Snapshot → Snapshot
replace_task id t' [] = []
replace_task id t' (t ∷ ts) = if str_eq t.id id then t' ∷ ts else t ∷ replace_task id t' ts

-- A mutation of the task with this id, if there is one.
unfoldable pub amend :
    {R : Type 0}
    → String
    → Snapshot
    → R
    → (Task → Result StoreError (Task × R))
    → Result StoreError (Snapshot × R)
amend id ts missing f = elim (find_task id ts) [
  | none ↦ ok (ts, missing)
  | some t ↦ f t >>= λ r. ok (replace_task id r.0 ts, r.1)
]

-- `requireTask` and a mutation of the task that it returns.
unfoldable pub amend_required :
    String
    → Snapshot
    → (Task → Result StoreError (Task × Task))
    → Result StoreError (Snapshot × Task)
amend_required id ts f = elim (find_task id ts) [
  | none ↦ err task_not_found
  | some t ↦ f t >>= λ r. ok (replace_task id r.0 ts, r.1)
]

unfoldable pub clear_active_state : Task → Task
clear_active_state t = record t {
  active_cycle_id = none;
  active_run_id = none;
  claim_owner = none;
  lease_expires_at = none;
}

unfoldable pub transition_to_terminal : Task → Status → ℕ → Option String → Task
unfolding clear_active_state
transition_to_terminal t status now error_code =
    let cleared = clear_active_state (record t { status = status; last_error_code = error_code }) in
    record cleared { updated_at = now }

-- The branch that puts a task back in the queue.
unfoldable pub requeue : Task → Stamp → ℕ → Task
unfolding clear_active_state
requeue t due now =
    let cleared = clear_active_state (record t { status = pending; due_at = due }) in
    record cleared { updated_at = now }

-- `task.expiresAt && Date.parse(due) >= Date.parse(task.expiresAt)`
abbrev pub reaches_expiry : Stamp → Option ℕ → Bool
reaches_expiry due none = false
reaches_expiry due (some expiry) = le_stamp expiry due

unfoldable pub transition_to_terminal_or_pending : Task → Option Stamp → ℕ → Task
unfolding transition_to_terminal requeue
transition_to_terminal_or_pending t none now = transition_to_terminal t completed now none
transition_to_terminal_or_pending t (some due) now =
    if leb t.max_cycles t.cycle_count || reaches_expiry due t.expires_at
    then transition_to_terminal t completed now none
    else requeue t due now

abbrev pub require_active_cycle : Task → String → Result StoreError (Unit {0})
require_active_cycle t cycle_id =
    guard (is_text t.active_cycle_id cycle_id && is_active t.status) cycle_not_active

pub data Refusal : Type 0 where
  not_found not_due not_pending stale_update past_expiry cycle_limit : Refusal

pub data ClaimResult : Type 0 where
  granted : Task → String → ClaimResult
  refused : Refusal → ClaimResult

-- `${task.id}:${cycleNumber}`
unfoldable pub cycle_id_of : String → ℕ → String
cycle_id_of id n = append_text id (append_text ":" (show n))

-- `expectedUpdatedAt !== undefined && task.updatedAt !== expectedUpdatedAt`
abbrev pub is_stale : Option ℕ → ℕ → Bool
is_stale none updated_at = false
is_stale (some expected) updated_at = not (updated_at == expected)

-- `task.expiresAt && Date.parse(task.expiresAt) <= now`
abbrev pub has_expired : Option ℕ → ℕ → Bool
has_expired none now = false
has_expired (some expiry) now = leb expiry now

unfoldable pub claimed_task : ℕ → String → Task → Task
unfolding cycle_id_of
claimed_task now instance t = record t {
  cycle_count = t.cycle_count + 1;
  active_cycle_id = some (cycle_id_of t.id (t.cycle_count + 1));
  active_run_id = none;
  claim_owner = some instance;
  lease_expires_at = some (now + claim_lease_ms);
  status = claimed;
  updated_at = now;
}

unfoldable pub claim_task : ℕ → String → Option ℕ → Task → Task × ClaimResult
unfolding claimed_task transition_to_terminal
claim_task now instance expected t =
    if is_stale expected t.updated_at
    then (t, refused stale_update)
    else if not (is_pending t.status)
    then (t, refused not_pending)
    else if not (stamp_le t.due_at now)
    then (t, refused not_due)
    else if has_expired t.expires_at now
    then (transition_to_terminal t expired now (some "expired"), refused past_expiry)
    else if leb (min t.max_cycles scheduler_max_cycles) t.cycle_count
    then (transition_to_terminal t expired now (some "cycle_limit"), refused cycle_limit)
    else (
      claimed_task now instance t,
      granted (claimed_task now instance t) (cycle_id_of t.id (t.cycle_count + 1)),
    )

unfoldable pub claim :
    ℕ → String → String → Option ℕ → Snapshot → Result StoreError (Snapshot × ClaimResult)
claim now instance id expected ts =
    amend id ts (refused not_found) (λ t. ok (claim_task now instance expected t))

unfoldable pub nudge_task : ℕ → Stamp → Task → Task × Bool
nudge_task now due t =
    if is_pending t.status then (record t { due_at = due; updated_at = now }, true) else (t, false)

unfoldable pub nudge : ℕ → String → Stamp → Snapshot → Result StoreError (Snapshot × Bool)
nudge now id due ts = amend id ts false (λ t. ok (nudge_task now due t))

-- `run_id` is the caller's run, if it has one.
unfoldable pub mark_running_task :
    ℕ → String → String → Option String → Task → Result StoreError (Task × Task)
mark_running_task now instance cycle_id run_id t = do
  require_active_cycle t cycle_id
  guard (is_text t.claim_owner instance) foreign_claim
  guard (is_active t.status) not_claimable
  let t' : Task = record t {
    status = running;
    active_run_id = elim run_id [ none ↦ t.active_run_id | some run ↦ some run ];
    last_started_at = some (or_else t.last_started_at now);
    updated_at = now;
  }
  ok (t', t')

unfoldable pub mark_running :
    ℕ → String → String → String → Option String → Snapshot → Result StoreError (Snapshot × Task)
mark_running now instance id cycle_id run_id ts =
    amend_required id ts (mark_running_task now instance cycle_id run_id)

unfoldable pub renew_task : ℕ → String → String → Task → Task × Bool
renew_task now instance cycle_id t =
    if not (is_text t.active_cycle_id cycle_id) || not (is_text t.claim_owner instance)
    then (t, false)
    else if not (is_active t.status)
    then (t, false)
    else (record t { lease_expires_at = some (now + claim_lease_ms); updated_at = now }, true)

unfoldable pub renew_lease :
    ℕ → String → String → String → Snapshot → Result StoreError (Snapshot × Bool)
renew_lease now instance id cycle_id ts =
    amend id ts false (λ t. ok (renew_task now instance cycle_id t))

pub record CompleteCycleInput : Type 0 where
  pub task_id : String
  pub cycle_id : String
  pub completed_at : Option Stamp
  pub next_due_at : Option Stamp
  pub observation_digest : Option String
  pub observation_status : Option ObservationStatus

-- `input.completedAt ? Date.parse(input.completedAt) : this.nowMs()`
unfoldable pub completion_time : ℕ → Option Stamp → StoreError → Result StoreError ℕ
completion_time now none e = ok now
completion_time now (some s) e = elim (parse_date s) [ none ↦ err e | some ms ↦ ok ms ]

-- What `completeCycle` writes before it decides on the next status.
unfoldable pub record_completion : Task → CompleteCycleInput → ℕ → Task
record_completion t input at = record t {
  consecutive_failures = 0;
  last_completed_at = some at;
  last_observation_digest = input.observation_digest;
  last_observation_status = elim input.observation_status [
    | none ↦ t.last_observation_status
    | some s ↦ some s
  ];
  last_error_code = none;
}

unfoldable pub complete_task : ℕ → CompleteCycleInput → Task → Result StoreError (Task × Task)
unfolding completion_time record_completion transition_to_terminal_or_pending
complete_task now input t = do
  require_active_cycle t input.cycle_id
  at ← completion_time now input.completed_at invalid_completion
  let t' : Task =
      transition_to_terminal_or_pending (record_completion t input at) input.next_due_at at
  ok (t', t')

unfoldable pub complete_cycle :
    ℕ → CompleteCycleInput → Snapshot → Result StoreError (Snapshot × Task)
complete_cycle now input ts = amend_required input.task_id ts (complete_task now input)

pub record FailCycleInput : Type 0 where
  pub task_id : String
  pub cycle_id : String
  pub retry_at : Option Stamp
  pub error_code : String
  pub terminal : Bool

unfoldable pub fail_or_retry : Task → FailCycleInput → Option Stamp → ℕ → Task
unfolding transition_to_terminal requeue
fail_or_retry t input none now = transition_to_terminal t failed now (some input.error_code)
fail_or_retry t input (some retry) now =
    if input.terminal || (leb t.max_cycles t.cycle_count || reaches_expiry retry t.expires_at)
    then transition_to_terminal t failed now (some input.error_code)
    else requeue t retry now

unfoldable pub fail_task : ℕ → FailCycleInput → Task → Result StoreError (Task × Task)
unfolding fail_or_retry
fail_task now input t = do
  require_active_cycle t input.cycle_id
  let counted : Task = record t {
    consecutive_failures = min (t.consecutive_failures + 1) scheduler_max_cycles;
    last_error_code = some input.error_code;
  }
  let t' : Task = fail_or_retry counted input input.retry_at now
  ok (t', t')

unfoldable pub fail_cycle : ℕ → FailCycleInput → Snapshot → Result StoreError (Snapshot × Task)
fail_cycle now input ts = amend_required input.task_id ts (fail_task now input)

-- `aliases` is what `principalAliases` returns for the caller's principal.
unfoldable pub belongs_to : List String → TaskOwner → Task → Bool
unfolding includes
belongs_to aliases owner t =
    includes aliases t.owner.principal_id && str_eq t.owner.session_id owner.session_id

unfoldable pub cancel_task : ℕ → List String → TaskOwner → Task → Result StoreError (Task × Task)
unfolding belongs_to transition_to_terminal
cancel_task now aliases owner t = do
  guard (belongs_to aliases owner t) not_owner
  let t' : Task =
      if is_terminal t.status then t else transition_to_terminal t cancelled now (some "cancelled")
  ok (t', t')

unfoldable pub cancel :
    ℕ → List String → String → TaskOwner → Snapshot → Result StoreError (Snapshot × Task)
cancel now aliases id owner ts = amend_required id ts (cancel_task now aliases owner)

pub data ReconcileAction : Type 0 where
  reclaim : (cycle_id : String) (due : Stamp) (error_code : Option String) → ReconcileAction
  complete :
      (cycle_id : String) (completed_at next_due_at : Option Stamp)
      (observation_digest : Option String)
      → ReconcileAction
  fail :
      (cycle_id error_code : String) (retry_at : Option Stamp) (terminal : Bool) → ReconcileAction
  expire : (error_code : Option String) → ReconcileAction

-- The last branch of `reconcile`: unlike `failCycle`, it counts no failure and no cycles.
unfoldable pub reconcile_failure : ℕ → String → Option Stamp → Bool → Task → Task
unfolding transition_to_terminal requeue
reconcile_failure now error_code none terminal t =
    transition_to_terminal t failed now (some error_code)
reconcile_failure now error_code (some retry) terminal t =
    if terminal
    then transition_to_terminal t failed now (some error_code)
    else requeue (record t { last_error_code = some error_code }) retry now

unfoldable pub reconcile_task : ℕ → ReconcileAction → Task → Result StoreError Task
unfolding reconcile_failure completion_time transition_to_terminal_or_pending
reconcile_task now (expire code) t =
    ok (transition_to_terminal t expired now (some (or_else code "expired")))
reconcile_task now (reclaim cycle_id due code) t =
    if not (is_text t.active_cycle_id cycle_id)
    then ok t
    else ok (requeue (record t { last_error_code = code }) due now)
reconcile_task now (complete cycle_id completed_at next_due_at digest) t =
    if not (is_text t.active_cycle_id cycle_id)
    then ok t
    else (completion_time now completed_at invalid_timestamp >>= λ at. ok (
        transition_to_terminal_or_pending
          (record t { last_completed_at = some at; last_observation_digest = digest }) next_due_at
          now))
reconcile_task now (fail cycle_id code retry_at terminal) t =
    if not (is_text t.active_cycle_id cycle_id)
    then ok t
    else ok (reconcile_failure now code retry_at terminal t)

unfoldable pub reconcile :
    ℕ → String → ReconcileAction → Snapshot → Result StoreError (Snapshot × Option Task)
reconcile now id action ts =
    amend id ts none (λ t. reconcile_task now action t >>= λ t'. ok (t', some t'))

-- `status === "completed" || …`, under `includeTerminal`.
abbrev pub is_listed : Bool → Task → Bool
is_listed include_terminal t = include_terminal || not (is_terminal t.status)

unfoldable pub list_all : Bool → Snapshot → Snapshot
list_all include_terminal = filter (is_listed include_terminal)

unfoldable pub list_for_owner : List String → TaskOwner → Bool → Snapshot → Snapshot
unfolding belongs_to
list_for_owner aliases owner include_terminal ts =
    filter (is_listed include_terminal) (filter (belongs_to aliases owner) ts)

abbrev pub is_due : ℕ → Task → Bool
is_due now t = is_pending t.status && stamp_le t.due_at now

-- The key of `listDue`'s sort. What is sorted has passed `is_due`, so its date is readable.
abbrev pub due_key : Task → ℕ
due_key t = or_else (parse_date t.due_at) 0

-- `Array.prototype.sort` is stable: equal keys keep their order.
unfoldable pub insert_due : Task → Snapshot → Snapshot
insert_due t [] = t ∷ []
insert_due t (u ∷ us) = if leb (due_key t) (due_key u) then t ∷ u ∷ us else u ∷ insert_due t us

unfoldable pub sort_due : Snapshot → Snapshot
unfolding insert_due
sort_due [] = []
sort_due (t ∷ ts) = insert_due t (sort_due ts)

unfoldable pub list_due : ℕ → ℕ → Snapshot → Snapshot
unfolding sort_due
list_due now limit ts = take limit (sort_due (filter (is_due now) ts))
