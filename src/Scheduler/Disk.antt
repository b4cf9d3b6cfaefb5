-- ===== src/Scheduler/Disk.antt =====
-- src/scheduler/taskStore.ts: the snapshot file, and `mutate`, which reads, changes, checks and
-- writes it. The lock that serialises the mutations is in Lock.
--
-- `redact` is `redactValue` of src/utils/redact.ts on one text, and is arbitrary here. A write goes
-- to a temporary file that is renamed over the old one, so a write that happens is whole.
pub mod Keeps
pub mod Claims
pub mod Bounds
pub mod Invariant
pub mod Lifecycle
pub mod Reading
use alfred_ai.Base.{
  ℕ, String, ◌≡◌, Bool, true, false, Option, none, some, List, [], ◌∷◌, map, Result, ok, err, find,
}
use alfred_ai.Scheduler.Model.{
  Task, Snapshot, WatchDefinition, herdr_agent, run_status, file_exists, EventMatch, StoreError,
  rejected_snapshot, malformed_snapshot, invalid_snapshot, TaskOwner, Stamp,
}
use alfred_ai.Scheduler.Schema.{Zod, map_option, parse_snapshot}
use alfred_ai.Scheduler.Create.{CreateInput, create}
use alfred_ai.Scheduler.TaskStore.{
  find_task, ClaimResult, claim, nudge, mark_running, renew_lease, CompleteCycleInput,
  complete_cycle, FailCycleInput, fail_cycle, cancel, ReconcileAction, reconcile,
}

-- What the file holds: text that is no JSON, JSON of another shape, or tasks.
pub data Content : Type 0 where
  not_json not_a_snapshot : Content
  stored : Snapshot → Content

-- `quarantined` are the files that were renamed away, newest first.
pub record Disk : Type 0 where
  pub tasks_file : Option Content
  pub quarantined : List Content

module _ (redact : String → String) where
  unfoldable pub redact_watch : WatchDefinition → WatchDefinition
  redact_watch (herdr_agent workspace pane agent) =
      herdr_agent (redact workspace) (redact pane) (map_option redact agent)
  redact_watch (run_status run) = run_status (redact run)
  redact_watch (file_exists path) = file_exists (redact path)

  unfoldable pub redact_event_match : EventMatch → EventMatch
  redact_event_match m = record m {
    workspace_id = map_option redact m.workspace_id;
    pane_id = map_option redact m.pane_id;
    agent_kind = map_option redact m.agent_kind;
    source = map_option redact m.source;
  }

  -- `redactSnapshot`, for one task. `lastObservationStatus` and the event types are words of the
  -- program, which redaction leaves alone.
  unfoldable pub redact_task : Task → Task
  redact_task t = record t {
    label = redact t.label;
    instruction = map_option redact t.instruction;
    reminder_text = map_option redact t.reminder_text;
    last_error_code = map_option redact t.last_error_code;
    last_observation_digest = map_option redact t.last_observation_digest;
    watch_definition = map_option redact_watch t.watch_definition;
    event_match = map_option redact_event_match t.event_match;
  }

unfoldable pub quarantine : Disk → Content → Disk
quarantine d c = record { tasks_file = none; quarantined = c ∷ d.quarantined }

module _ (z : Zod) where
  read_content : Disk → Option Content → Disk × Result StoreError Snapshot
  unfolding quarantine
  read_content d none = (d, ok [])
  read_content d (some not_json) = (quarantine d not_json, err malformed_snapshot)
  read_content d (some not_a_snapshot) = (quarantine d not_a_snapshot, err invalid_snapshot)
  read_content d (some (stored ts)) = elim (parse_snapshot z ts) [
    | none ↦ (quarantine d (stored ts), err invalid_snapshot)
    | some us ↦ (d, ok us)
  ]

  -- `readSnapshot`
  unfoldable pub read_snapshot : Disk → Disk × Result StoreError Snapshot
  unfolding read_content
  read_snapshot d = read_content d d.tasks_file

  -- The check and the write of a mutation's result.
  unfoldable pub write_back :
      {R : Type 0} → (String → String) → Disk → Snapshot × R → Disk × Result StoreError R
  write_back redact d (ts, r) = elim (parse_snapshot z (map (redact_task redact) ts)) [
    | none ↦ (d, err rejected_snapshot)
    | some us ↦ (record d { tasks_file = some (stored us) }, ok r)
  ]

  mutate_read :
      {R : Type 0}
      → (String → String)
      → (Snapshot → Result StoreError (Snapshot × R))
      → Disk × Result StoreError Snapshot
      → Disk × Result StoreError R
  unfolding write_back
  mutate_read redact mutation (d, err e) = (d, err e)
  mutate_read redact mutation (d, ok ts) = elim (mutation ts) [
    | err e ↦ (d, err e)
    | ok out ↦ write_back redact d out
  ]

  -- `mutate`, once the lock is held.
  unfoldable pub mutate :
      {R : Type 0}
      → (String → String)
      → (Snapshot → Result StoreError (Snapshot × R))
      → Disk
      → Disk × Result StoreError R
  unfolding mutate_read read_snapshot
  mutate redact mutation d = mutate_read redact mutation (read_snapshot d)

-- The calls that change the store.
pub data Call : Type 0 where
  creates : (id : String) → CreateInput → Call
  claims : (instance id : String) → Option ℕ → Call
  nudges : (id : String) → Stamp → Call
  marks : (instance id cycle_id : String) → Option String → Call
  renews : (instance id cycle_id : String) → Call
  completes : CompleteCycleInput → Call
  fails : FailCycleInput → Call
  cancels : List String → String → TaskOwner → Call
  reconciles : String → ReconcileAction → Call

abbrev pub forget :
    {R : Type 0} → Result StoreError (Snapshot × R) → Result StoreError (Snapshot × Unit {0})
forget (err e) = err e
forget (ok r) = ok (r.0, tt)

unfoldable pub mutation_of : Zod → ℕ → Call → Snapshot → Result StoreError (Snapshot × Unit {0})
mutation_of z now (creates id input) ts = forget (create z now id input ts)
mutation_of z now (claims instance id expected) ts = forget (claim now instance id expected ts)
mutation_of z now (nudges id due) ts = forget (nudge now id due ts)
mutation_of z now (marks instance id cycle_id run_id) ts =
    forget (mark_running now instance id cycle_id run_id ts)
mutation_of z now (renews instance id cycle_id) ts =
    forget (renew_lease now instance id cycle_id ts)
mutation_of z now (completes input) ts = forget (complete_cycle now input ts)
mutation_of z now (fails input) ts = forget (fail_cycle now input ts)
mutation_of z now (cancels aliases id owner) ts = forget (cancel now aliases id owner ts)
mutation_of z now (reconciles id action) ts = forget (reconcile now id action ts)

-- A call at an instant, and a history of calls, as the file sees them.
unfoldable pub step : Zod → (String → String) → Disk → ℕ × Call → Disk
unfolding mutate
step z redact d (now, c) = (mutate z redact (mutation_of z now c) d).0

unfoldable pub run : Zod → (String → String) → Disk → List (ℕ × Call) → Disk
run z redact d [] = d
run z redact d (c ∷ cs) = run z redact (step z redact d c) cs
