-- ===== src/Scheduler/Create.antt =====
-- src/scheduler/taskStore.ts, `create`, and `CreateScheduledTaskSchema` of schemas.ts.
pub mod Built
pub mod WatchLifetime
use alfred_ai.Base.{
  ℕ, ◌+◌, ◌*◌, String, Bool, true, false, not, ◌&&◌, Option, none, some, List, [], ◌∷◌, ◌++◌,
  Result, ok, err, ◌>>=◌, ◌>>◌, guard, or_throw, or_else, leb, ltb, if◌then◌else◌, units, defined,
}
use alfred_ai.Scheduler.Model.{
  Task, Snapshot, Stamp, utc, parse_date, pending, Kind, reminder, wake_turn, watch,
  event_subscription, TaskOwner, NotificationDestination, WatchDefinition, EventMatch, StoreError,
  rejected_input, delay_too_short, horizon_exceeded, expiry_before_due, watch_lifetime_exceeded,
  min_delay_ms, max_horizon_ms, default_watch_lifetime_ms, max_watch_lifetime_ms,
  scheduler_max_cycles, default_max_cycles, max_instruction_length, max_reminder_length,
}
use alfred_ai.Scheduler.Schema.{
  Zod, sized, when_defined, is_identifier, map_option, is_utc, interval_allowed, kind_complete,
  valid_owner, valid_watch, valid_event_match, valid_destination, trim_owner, trim_watch,
  trim_event_match, trim_destination, parse_task,
}

pub record CreateInput : Type 0 where
  pub kind : Kind
  pub label : String
  pub owner : TaskOwner
  pub created_by_run_id : String
  pub due_at : Stamp
  pub expires_at : Option Stamp
  pub interval_seconds : Option ℕ
  pub max_cycles : Option ℕ
  pub instruction : Option String
  pub reminder_text : Option String
  pub watch_definition : Option WatchDefinition
  pub event_match : Option EventMatch
  pub notification_destination : Option NotificationDestination

-- A stamp as the instant that the schema has found it to be; `is_utc` holds where this is read.
abbrev pub instant : Stamp → ℕ
instant s = or_else (parse_date s) 0

unfoldable pub valid_create : CreateInput → Bool
valid_create i =
    sized 1 256 i.label
    && (valid_owner i.owner
        && (is_identifier i.created_by_run_id
            && (is_utc i.due_at
                && (when_defined is_utc i.expires_at
                    && (leb 1 (or_else i.max_cycles default_max_cycles)
                        && (leb (or_else i.max_cycles default_max_cycles) scheduler_max_cycles
                            && (when_defined (sized 1 max_instruction_length) i.instruction
                                && (when_defined (sized 1 max_reminder_length) i.reminder_text
                                    && (when_defined valid_watch i.watch_definition
                                        && (when_defined valid_event_match i.event_match
                                            && (when_defined valid_destination
                                                  i.notification_destination
                                                && (interval_allowed i.interval_seconds
                                                    && kind_complete i.kind i.instruction
                                                        i.reminder_text i.watch_definition
                                                        i.event_match))))))))))))

module _ (z : Zod) where
  unfoldable pub trim_create : CreateInput → CreateInput
  trim_create i = record i {
    label = z.trim i.label;
    owner = trim_owner z i.owner;
    created_by_run_id = z.trim i.created_by_run_id;
    instruction = map_option z.trim i.instruction;
    reminder_text = map_option z.trim i.reminder_text;
    watch_definition = map_option (trim_watch z) i.watch_definition;
    event_match = map_option (trim_event_match z) i.event_match;
    notification_destination = map_option (trim_destination z) i.notification_destination;
  }

  -- `CreateScheduledTaskSchema.parse`
  unfoldable pub parse_create : CreateInput → Result StoreError CreateInput
  unfolding trim_create valid_create
  parse_create i = if valid_create (trim_create i) then ok (trim_create i) else err rejected_input

abbrev pub expires_too_soon : Option Stamp → ℕ → Bool
expires_too_soon none due = false
expires_too_soon (some expiry) due = leb (instant expiry) due

abbrev pub is_watch : Kind → Bool
is_watch watch = true
is_watch reminder = false
is_watch wake_turn = false
is_watch event_subscription = false

-- The expiry that is stored: a watch has one in any case.
unfoldable pub expiry_for : ℕ → Kind → Option Stamp → Result StoreError (Option ℕ)
expiry_for now kind expires_at =
    let chosen : ℕ = elim expires_at [
      | none ↦ now + default_watch_lifetime_ms
      | some s ↦ instant s
    ] in
    if is_watch kind
    then (if ltb (now + max_watch_lifetime_ms) chosen
        then err watch_lifetime_exceeded
        else ok (some chosen))
    else ok (map_option instant expires_at)

-- The task that is stored: `id` is the fresh `randomUUID()`.
unfoldable pub new_task : ℕ → String → CreateInput → Option ℕ → Task
new_task now id i expires_at = record {
  id = id;
  label = i.label;
  kind = i.kind;
  status = pending;
  owner = i.owner;
  created_by_run_id = i.created_by_run_id;
  created_at = now;
  updated_at = now;
  due_at = i.due_at;
  expires_at = expires_at;
  interval_seconds = i.interval_seconds;
  fixed_delay = defined i.interval_seconds;
  max_cycles = or_else i.max_cycles default_max_cycles;
  cycle_count = 0;
  consecutive_failures = 0;
  instruction = i.instruction;
  reminder_text = i.reminder_text;
  watch_definition = i.watch_definition;
  event_match = i.event_match;
  active_cycle_id = none;
  active_run_id = none;
  claim_owner = none;
  lease_expires_at = none;
  last_started_at = none;
  last_completed_at = none;
  last_error_code = none;
  last_observation_digest = none;
  last_observation_status = none;
  notification_destination = i.notification_destination;
}

-- The checks of `create` and the task that they let through.
unfoldable pub build_task : Zod → ℕ → String → CreateInput → Result StoreError Task
build_task z now id input = do
  parsed ← parse_create z input
  guard (leb (now + min_delay_ms) (instant parsed.due_at)) delay_too_short
  guard (leb (instant parsed.due_at) (now + max_horizon_ms)) horizon_exceeded
  guard (not (expires_too_soon parsed.expires_at (instant parsed.due_at))) expiry_before_due
  expiry ← expiry_for now parsed.kind parsed.expires_at
  or_throw (parse_task z (new_task now id parsed expiry)) rejected_input

unfoldable pub create :
    Zod → ℕ → String → CreateInput → Snapshot → Result StoreError (Snapshot × Task)
unfolding build_task
create z now id input ts = build_task z now id input >>= λ t. ok (ts ++ (t ∷ []), t)
