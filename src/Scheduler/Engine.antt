-- ===== src/Scheduler/Engine.antt =====
-- src/scheduler/engine.ts: `SchedulerEngine`, on the snapshots that its calls of the store see.
--
-- Where the engine reads the store and later changes it, the two snapshots are two arguments. One
-- `later` stands for the clock at the changes that one call makes. A tick is taken with no run ending
-- meanwhile, and otherwise with what the world does in each of its rounds as an argument; a claimed task is in Cycle, and what it does in Reminder and Watch.
pub mod Quota
pub mod Events
pub mod Recovery
pub mod Tick
pub mod Cycle
pub mod Timers
pub mod Status
pub mod Explanation
use Prim.Native.String.{◌++◌ as append_text}
use alfred_ai.Base.{
  ℕ, zero, suc, ◌+◌, ◌-◌, max, min, String, Bool, true, false, not, ◌&&◌, ◌||◌, Option, none, some,
  List, [], ◌∷◌, Result, ok, err, ◌>>=◌, ◌>>◌, guard, ltb, leb, if◌then◌else◌, find, filter, length,
  or_else, str_eq, units,
}
use alfred_ai.Scheduler.Model.{
  Task, Snapshot, Stamp, utc, Kind, reminder, wake_turn, watch, event_subscription, TaskOwner,
  NotificationDestination, WatchDefinition, herdr_agent, run_status, file_exists, EventMatch,
  AgentEventType, progress, event_completed, event_failed, needs_approval, StoreError, is_active,
  max_concurrency, default_tick_max_ms, default_global_wake_interval_ms,
}
use alfred_ai.Scheduler.Schema.{Zod, has_text}
use alfred_ai.Scheduler.Create.{CreateInput, create, is_watch}
use alfred_ai.Scheduler.TaskStore.{
  ClaimResult, granted, refused, claim, nudge, reconcile, ReconcileAction, reclaim, complete, fail,
  list_all, list_due,
}

pub data SchedulerOrigin : Type 0 where
  from_web from_tui from_telegram from_scheduler : SchedulerOrigin

pub record SchedulerProvenance : Type 0 where
  pub principal_id : String
  pub channel_key : Option String
  pub origin : SchedulerOrigin

pub record ScheduleTaskRequest : Type 0 where
  pub kind : Kind
  pub label : String
  pub due_at : Stamp
  pub expires_at : Option Stamp
  pub interval_seconds : Option ℕ
  pub max_cycles : Option ℕ
  pub instruction : Option String
  pub reminder_text : Option String
  pub watch_definition : Option WatchDefinition
  pub event_match : Option EventMatch

pub data EngineError : Type 0 where
  scheduler_cannot_schedule_tasks principal_quota_exceeded global_quota_exceeded : EngineError
  store_error : StoreError → EngineError

abbrev pub is_scheduler : SchedulerOrigin → Bool
is_scheduler from_scheduler = true
is_scheduler from_web = false
is_scheduler from_tui = false
is_scheduler from_telegram = false

abbrev pub max_active_per_principal : ℕ
max_active_per_principal = 20

abbrev pub max_active_global : ℕ
max_active_global = 100

abbrev pub is_owned_by : String → Task → Bool
is_owned_by principal_id t = str_eq t.owner.principal_id principal_id

-- The input of `create` that `schedule` makes.
unfoldable pub create_input :
    ScheduleTaskRequest → SchedulerProvenance → String → String → CreateInput
create_input request by session_id run_id = record {
  kind = request.kind;
  label = request.label;
  owner = record {
    session_id = session_id;
    principal_id = by.principal_id;
    channel_key = by.channel_key;
  };
  created_by_run_id = run_id;
  due_at = request.due_at;
  expires_at = request.expires_at;
  interval_seconds = request.interval_seconds;
  max_cycles = request.max_cycles;
  instruction = request.instruction;
  reminder_text = request.reminder_text;
  watch_definition = request.watch_definition;
  event_match = request.event_match;
  notification_destination = some (record {
    channel_key = or_else by.channel_key (append_text "web:" session_id);
    principal_id = by.principal_id;
  });
}

abbrev or_store_error : {A : Type 0} → Result StoreError A → Result EngineError A
or_store_error (ok a) = ok a
or_store_error (err e) = err (store_error e)

-- `schedule`: `listed` is what `listAll` reads, `ts` what `create` changes.
unfoldable pub schedule :
    Zod
    → ℕ
    → String
    → ScheduleTaskRequest
    → SchedulerProvenance
    → String
    → String
    → Snapshot
    → Snapshot
    → Result EngineError (Snapshot × Task)
unfolding create_input
schedule z now id request by session_id run_id listed ts = do
  guard (not (is_scheduler by.origin)) scheduler_cannot_schedule_tasks
  let active : Snapshot = list_all false listed
  guard (ltb (length (filter (is_owned_by by.principal_id) active)) max_active_per_principal)
      principal_quota_exceeded
  guard (ltb (length active) max_active_global) global_quota_exceeded
  or_store_error (create z now id (create_input request by session_id run_id) ts)

pub record SchedulerAgentEvent : Type 0 where
  pub workspace_id : String
  pub pane_id : String
  pub agent_kind : String
  pub source : String
  pub event_type : AgentEventType

abbrev pub same_event_type : AgentEventType → AgentEventType → Bool
same_event_type progress progress = true
same_event_type event_completed event_completed = true
same_event_type event_failed event_failed = true
same_event_type needs_approval needs_approval = true
same_event_type progress event_completed = false
same_event_type progress event_failed = false
same_event_type progress needs_approval = false
same_event_type event_completed progress = false
same_event_type event_completed event_failed = false
same_event_type event_completed needs_approval = false
same_event_type event_failed progress = false
same_event_type event_failed event_completed = false
same_event_type event_failed needs_approval = false
same_event_type needs_approval progress = false
same_event_type needs_approval event_completed = false
same_event_type needs_approval event_failed = false

-- `!match.field || match.field === event.field`
unfoldable pub field_matches : Option String → String → Bool
field_matches none value = true
field_matches (some wanted) value = not (leb 1 (units wanted)) || str_eq wanted value

unfoldable pub lists_type : List AgentEventType → AgentEventType → Bool
lists_type [] type = false
lists_type (t ∷ ts) type = same_event_type t type || lists_type ts type

unfoldable pub event_matches : EventMatch → SchedulerAgentEvent → Bool
unfolding field_matches lists_type
event_matches m e =
    field_matches m.workspace_id e.workspace_id
    && (field_matches m.pane_id e.pane_id
        && (field_matches m.agent_kind e.agent_kind
            && (field_matches m.source e.source && lists_type m.event_types e.event_type)))

abbrev pub watches_pane : Option WatchDefinition → SchedulerAgentEvent → Bool
watches_pane none e = false
watches_pane (some (herdr_agent workspace pane agent)) e =
    str_eq workspace e.workspace_id && str_eq pane e.pane_id
watches_pane (some (run_status run)) e = false
watches_pane (some (file_exists path)) e = false

abbrev pub subscribes : Option EventMatch → SchedulerAgentEvent → Bool
subscribes none e = false
subscribes (some m) e = event_matches m e

-- Whether `handleAgentEvent` nudges the task: its two tests exclude each other by the kind.
unfoldable pub concerns : SchedulerAgentEvent → Task → Bool
concerns e t = elim t.kind [
  | watch ↦ watches_pane t.watch_definition e
  | event_subscription ↦ subscribes t.event_match e
  | reminder ↦ false
  | wake_turn ↦ false
]

-- The loop of `handleAgentEvent` over the tasks that it has listed.
unfoldable pub nudge_concerned :
    ℕ → ℕ → SchedulerAgentEvent → Snapshot → Snapshot → Result StoreError Snapshot
nudge_concerned now later e [] ts = ok ts
nudge_concerned now later e (t ∷ listed) ts =
    if concerns e t
    then (nudge later t.id (utc now) ts >>= λ r. nudge_concerned now later e listed r.0)
    else nudge_concerned now later e listed ts

-- `handleAgentEvent` up to its tick.
unfoldable pub nudge_for_event :
    ℕ → ℕ → SchedulerAgentEvent → Snapshot → Snapshot → Result StoreError Snapshot
nudge_for_event now later e listed ts = nudge_concerned now later e (list_all false listed) ts

pub data RunOutcome : Type 0 where
  run_queued run_running run_completed run_failed run_cancelled run_unknown : RunOutcome

-- Why `recover` throws: the lookup of a run rejects, a call of the store fails for its lock or its
-- file, or the store throws what it is written to throw.
pub data RecoverError : Type 0 where
  lookup_rejected store_unavailable : RecoverError
  store_threw : StoreError → RecoverError

-- `lookupRun`: what the run has come to, or nothing where there is no such run.
abbrev pub RunLookup : Type 0
RunLookup = String → Result RecoverError (Option RunOutcome)

abbrev pub run_of : Option RunLookup → Option String → Result RecoverError (Option RunOutcome)
run_of none run_id = ok none
run_of (some lookup) none = ok none
run_of (some lookup) (some run_id) = if leb 1 (units run_id) then lookup run_id else ok none

abbrev pub lease_expired : Option ℕ → ℕ → Bool
lease_expired none now = true
lease_expired (some at) now = leb at now

abbrev reclaim_cycle : ℕ → Option String → Option ReconcileAction
reclaim_cycle now none = none
reclaim_cycle now (some cycle_id) =
    if leb 1 (units cycle_id)
    then some (reclaim cycle_id (utc now) (some "lease_expired_reclaimed"))
    else none

-- The call of `reconcile` for a task whose lease has expired; an active task has a cycle id.
unfoldable pub recovery : ℕ → Option String → Option RunOutcome → Option ReconcileAction
recovery now cycle_id (some run_completed) = some (complete (or_else cycle_id "") none none none)
recovery now cycle_id (some run_failed) =
    some (fail (or_else cycle_id "") "scheduled_run_recovered_failed" none true)
recovery now cycle_id (some run_cancelled) =
    some (fail (or_else cycle_id "") "scheduled_run_recovered_failed" none true)
recovery now cycle_id (some run_queued) = reclaim_cycle now cycle_id
recovery now cycle_id (some run_running) = reclaim_cycle now cycle_id
recovery now cycle_id (some run_unknown) = reclaim_cycle now cycle_id
recovery now cycle_id none = reclaim_cycle now cycle_id

unfoldable pub recovery_of :
    Option RunLookup → ℕ → Task → Result RecoverError (Option ReconcileAction)
unfolding recovery
recovery_of lookup now t =
    if is_active t.status && lease_expired t.lease_expires_at now
    then elim (run_of lookup t.active_run_id) [
      | err e ↦ err e
      | ok run ↦ ok (recovery now t.active_cycle_id run)
    ]
    else ok none

-- The loop of `recover` over the tasks that it has listed. `unavailable` says for which tasks the
-- reconciliation fails for the lock or the file of the store; what was changed before stays changed.
unfoldable pub recover_listed :
    Option RunLookup
    → (String → Bool)
    → ℕ
    → ℕ
    → Snapshot
    → Snapshot
    → Snapshot × Result RecoverError (Unit {0})
recover_listed lookup unavailable now later [] ts = (ts, ok tt)
recover_listed lookup unavailable now later (t ∷ listed) ts = elim (recovery_of lookup now t) [
  | err e ↦ (ts, err e)
  | ok none ↦ recover_listed lookup unavailable now later listed ts
  | ok (some action) ↦ elim (unavailable t.id) [
    | true ↦ (ts, err store_unavailable)
    | false ↦ elim (reconcile later t.id action ts) [
      | err e ↦ (ts, err (store_threw e))
      | ok r ↦ recover_listed lookup unavailable now later listed r.0
    ]
  ]
]

unfoldable pub recover :
    Option RunLookup
    → (String → Bool)
    → ℕ
    → ℕ
    → Snapshot
    → Snapshot
    → Snapshot × Result RecoverError (Unit {0})
recover lookup unavailable now later listed ts =
    recover_listed lookup unavailable now later (list_all false listed) ts

-- The constructor's bounds.
pub record EngineLimits : Type 0 where
  pub concurrency : ℕ
  pub wake_interval_ms : ℕ

unfoldable pub engine_limits : Option ℕ → Option ℕ → EngineLimits
engine_limits concurrency wake_interval_ms = record {
  concurrency = max 1 (min (or_else concurrency 1) max_concurrency);
  wake_interval_ms = max 1000 (or_else wake_interval_ms default_global_wake_interval_ms);
}

-- `activeCount`, `lastWakeStartedAt`, the store, and the claims that have been started, newest first.
pub record EngineState : Type 0 where
  pub active_count : ℕ
  pub last_wake_started_at : Option ℕ
  pub tasks : Snapshot
  pub started : List (Task × String)

abbrev pub can_start_wake : EngineLimits → Option ℕ → ℕ → Bool
can_start_wake limits none now = true
can_start_wake limits (some at) now = leb (at + limits.wake_interval_ms) now

abbrev pub is_wake_turn : Kind → Bool
is_wake_turn wake_turn = true
is_wake_turn reminder = false
is_wake_turn watch = false
is_wake_turn event_subscription = false

-- The predicate of `due.find`.
abbrev pub may_start : EngineLimits → Option ℕ → ℕ → Task → Bool
may_start limits last now t = not (is_wake_turn t.kind) || can_start_wake limits last now

-- What a round of `tick` meets: the clock at each of its readings, whether the store fails for its lock
-- or its file, whether the run log throws, and the tasks as others have left them between the listing
-- and the claim, if they have changed them.
pub record TickRound : Type 0 where
  pub listed_at : ℕ
  pub chosen_at : ℕ
  pub claimed_at : ℕ
  pub woken_at : ℕ
  pub list_fails : Bool
  pub claim_fails : Bool
  pub log_fails : Bool
  pub changed_to : Option Snapshot

pub data TickError : Type 0 where
  list_failed claim_failed log_failed : TickError
  claim_threw nudge_threw : StoreError → TickError

unfoldable pub candidate : EngineLimits → TickRound → EngineState → Option Task
candidate limits round s =
    find (may_start limits s.last_wake_started_at round.chosen_at)
      (list_due round.listed_at (limits.concurrency - s.active_count) s.tasks)

-- What follows a claim that is granted. If the run log throws, the task is claimed and not started.
unfoldable pub start_claim :
    TickRound → Task → String → Snapshot → EngineState → EngineState × Result TickError (Unit {0})
start_claim round t cycle_id us s =
    let claimed : EngineState = record s {
      last_wake_started_at =
          if is_wake_turn t.kind then some round.woken_at else s.last_wake_started_at;
      tasks = us;
    } in
    if round.log_fails then (claimed, err log_failed) else (
      record claimed { active_count = s.active_count + 1; started = (t, cycle_id) ∷ s.started },
      ok tt,
    )

-- The claim of the candidate, on the tasks as others have left them.
unfoldable pub claim_candidate :
    TickRound → String → Task → Snapshot → EngineState → EngineState × Result TickError (Unit {0})
unfolding start_claim
claim_candidate round instance t us s =
    if round.claim_fails
    then (record s { tasks = us }, err claim_failed)
    else elim (claim round.claimed_at instance t.id (some t.updated_at) us) [
      | err e ↦ (record s { tasks = us }, err (claim_threw e))
      | ok r ↦ elim r.1 [
        | granted claimed cycle_id ↦ start_claim round claimed cycle_id r.0 s
        | refused reason ↦ (record s { tasks = r.0 }, ok tt)
      ]
    ]

-- A round of `tick`'s loop: `none` where it breaks.
unfoldable pub tick_round :
    EngineLimits
    → TickRound
    → String
    → EngineState
    → Option (EngineState × Result TickError (Unit {0}))
unfolding candidate claim_candidate
tick_round limits round instance s =
    if not (ltb s.active_count limits.concurrency)
    then none
    else if round.list_fails
    then some (s, err list_failed)
    else elim (candidate limits round s) [
      | none ↦ none
      | some t ↦ some (claim_candidate round instance t (or_else round.changed_to s.tasks) s)
    ]

-- The loop over the rounds that the world has in store: `none` if they do not suffice.
unfoldable pub tick :
    List TickRound
    → EngineLimits
    → String
    → EngineState
    → Option (EngineState × Result TickError (Unit {0}))
tick [] limits instance s = none
tick (round ∷ rounds) limits instance s = elim (tick_round limits round instance s) [
  | none ↦ some (s, ok tt)
  | some out ↦ elim out.1 [
    | err e ↦ some (out.0, err e)
    | ok done ↦ tick rounds limits instance out.0
  ]
]

-- `handleAgentEvent`: the nudges, and then a tick, unless the engine is stopped or has one under way.
unfoldable pub handle_agent_event :
    Bool
    → Bool
    → ℕ
    → ℕ
    → SchedulerAgentEvent
    → List TickRound
    → EngineLimits
    → String
    → Snapshot
    → EngineState
    → Option (EngineState × Result TickError (Unit {0}))
unfolding nudge_for_event tick
handle_agent_event running ticking now later e rounds limits instance listed s =
    elim (nudge_for_event now later e listed s.tasks) [
      | err x ↦ some (s, err (nudge_threw x))
      | ok us ↦
          let nudged : EngineState = record s { tasks = us } in
          let ticked = tick rounds limits instance nudged in
          if running && not ticking then ticked else some (nudged, ok tt)
    ]
