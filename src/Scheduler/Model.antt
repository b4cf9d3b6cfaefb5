-- ===== src/Scheduler/Model.antt =====
-- src/scheduler/constants.ts, types.ts and the shapes of schemas.ts.
--
-- An instant is a number of milliseconds. A timestamp that a caller supplies as text is a `Stamp`:
-- text that is canonical, text that `Date.parse` reads but that is not canonical, or text that it
-- does not read. An optional field that the code tests for truth is `none` when it is absent or "".
use alfred_ai.Base.{ℕ, ◌*◌, String, Bool, true, false, Option, none, List, leb}

abbrev pub lock_ttl_ms : ℕ
lock_ttl_ms = 30000

abbrev pub claim_lease_ms : ℕ
claim_lease_ms = 120000

abbrev pub min_delay_ms : ℕ
min_delay_ms = 5000

abbrev pub min_interval_ms : ℕ
min_interval_ms = 60000

abbrev pub max_horizon_ms : ℕ
max_horizon_ms = 365 * 24 * 60 * 60 * 1000

abbrev pub default_watch_lifetime_ms : ℕ
default_watch_lifetime_ms = 24 * 60 * 60 * 1000

abbrev pub max_watch_lifetime_ms : ℕ
max_watch_lifetime_ms = 30 * 24 * 60 * 60 * 1000

abbrev pub default_max_cycles : ℕ
default_max_cycles = 10

abbrev pub scheduler_max_cycles : ℕ
scheduler_max_cycles = 50

abbrev pub max_instruction_length : ℕ
max_instruction_length = 1000

abbrev pub max_reminder_length : ℕ
max_reminder_length = 4000

abbrev pub max_concurrency : ℕ
max_concurrency = 2

abbrev pub default_tick_max_ms : ℕ
default_tick_max_ms = 15000

abbrev pub default_global_wake_interval_ms : ℕ
default_global_wake_interval_ms = 30000

pub data Stamp : Type 0 where
  utc : ℕ → Stamp
  loose : ℕ → Stamp
  unreadable : Stamp

-- `Date.parse`; `none` is NaN.
abbrev pub parse_date : Stamp → Option ℕ
parse_date (utc ms) = Option.some ms
parse_date (loose ms) = Option.some ms
parse_date unreadable = none

-- `Date.parse(s) <= bound` and `bound <= Date.parse(s)`: comparisons with NaN fail.
abbrev pub stamp_le : Stamp → ℕ → Bool
stamp_le (utc ms) bound = leb ms bound
stamp_le (loose ms) bound = leb ms bound
stamp_le unreadable bound = false

abbrev pub le_stamp : ℕ → Stamp → Bool
le_stamp bound (utc ms) = leb bound ms
le_stamp bound (loose ms) = leb bound ms
le_stamp bound unreadable = false

pub data Status : Type 0 where
  pending claimed running completed failed cancelled expired : Status

pub data Kind : Type 0 where
  reminder wake_turn watch event_subscription : Kind

pub data ObservationStatus : Type 0 where
  observed_running task_complete idle_waiting_input observed_error : ObservationStatus

pub data AgentEventType : Type 0 where
  progress event_completed event_failed needs_approval : AgentEventType

pub record TaskOwner : Type 0 where
  pub session_id : String
  pub principal_id : String
  pub channel_key : Option String

pub record NotificationDestination : Type 0 where
  pub channel_key : String
  pub principal_id : String

pub data WatchDefinition : Type 0 where
  herdr_agent : (workspace_id pane_id : String) (agent_name : Option String) → WatchDefinition
  run_status : (run_id : String) → WatchDefinition
  file_exists : (relative_path : String) → WatchDefinition

pub record EventMatch : Type 0 where
  pub workspace_id : Option String
  pub pane_id : Option String
  pub agent_kind : Option String
  pub source : Option String
  pub event_types : List AgentEventType

pub record Task : Type 0 where
  pub id : String
  pub label : String
  pub kind : Kind
  pub status : Status
  pub owner : TaskOwner
  pub created_by_run_id : String
  pub created_at : ℕ
  pub updated_at : ℕ
  pub due_at : Stamp
  pub expires_at : Option ℕ
  pub interval_seconds : Option ℕ
  pub fixed_delay : Bool
  pub max_cycles : ℕ
  pub cycle_count : ℕ
  pub consecutive_failures : ℕ
  pub instruction : Option String
  pub reminder_text : Option String
  pub watch_definition : Option WatchDefinition
  pub event_match : Option EventMatch
  pub active_cycle_id : Option String
  pub active_run_id : Option String
  pub claim_owner : Option String
  pub lease_expires_at : Option ℕ
  pub last_started_at : Option ℕ
  pub last_completed_at : Option ℕ
  pub last_error_code : Option String
  pub last_observation_digest : Option String
  pub last_observation_status : Option ObservationStatus
  pub notification_destination : Option NotificationDestination

abbrev pub Snapshot : Type 0
Snapshot = List Task

-- The messages of `SchedulerStoreError`, the errors of the schemas, and those of the engine.
pub data StoreError : Type 0 where
  task_not_found cycle_not_active foreign_claim not_claimable invalid_completion : StoreError
  invalid_timestamp not_owner delay_too_short horizon_exceeded expiry_before_due : StoreError
  watch_lifetime_exceeded rejected_input rejected_snapshot malformed_snapshot : StoreError
  invalid_snapshot : StoreError

abbrev pub is_terminal : Status → Bool
is_terminal completed = true
is_terminal failed = true
is_terminal cancelled = true
is_terminal expired = true
is_terminal pending = false
is_terminal claimed = false
is_terminal running = false

-- `status === "claimed" || status === "running"`
abbrev pub is_active : Status → Bool
is_active claimed = true
is_active running = true
is_active pending = false
is_active completed = false
is_active failed = false
is_active cancelled = false
is_active expired = false

abbrev pub is_pending : Status → Bool
is_pending pending = true
is_pending claimed = false
is_pending running = false
is_pending completed = false
is_pending failed = false
is_pending cancelled = false
is_pending expired = false
