-- ===== src/Scheduler/Schema.antt =====
-- src/scheduler/schemas.ts: what a stored task and a request to create one must satisfy.
--
-- zod is a third-party library: what its `trim` and `uuid` do is the record `Zod`. A schema's parse
-- trims first and then checks, so it is a total `trim_…` and a Boolean test.
pub mod Trimmed
use Prim.Native.Char.{code}
use alfred_ai.Base.{
  ℕ, ◌*◌, String, Bool, true, false, not, ◌&&◌, ◌||◌, Option, none, some, List, [], ◌∷◌, leb, ltb,
  ◌==◌, if◌then◌else◌, units, defined, length,
}
use alfred_ai.Scheduler.Model.{
  Task, Snapshot, Stamp, utc, loose, unreadable, Status, claimed, running, Kind, reminder,
  wake_turn, watch, event_subscription, TaskOwner, NotificationDestination, WatchDefinition,
  herdr_agent, run_status, file_exists, EventMatch, is_terminal, is_active, min_interval_ms,
  scheduler_max_cycles, max_instruction_length, max_reminder_length, default_max_cycles,
}

pub record Zod : Type 0 where
  pub trim : String → String
  pub is_uuid : String → Bool

-- `.min(lo).max(hi)` on a text.
abbrev pub sized : ℕ → ℕ → String → Bool
sized lo hi s = leb lo (units s) && leb (units s) hi

abbrev pub when_defined {ℓ} : {A : Type ℓ} → (A → Bool) → Option A → Bool
when_defined p none = true
when_defined p (some a) = p a

abbrev pub is_identifier : String → Bool
is_identifier = sized 1 256

abbrev pub map_option {ℓ κ} : {A : Type ℓ} {B : Type κ} → (A → B) → Option A → Option B
map_option f none = none
map_option f (some a) = some (f a)

abbrev pub is_utc : Stamp → Bool
is_utc (utc ms) = true
is_utc (loose ms) = false
is_utc unreadable = false

unfoldable pub code_points : String → List ℕ
code_points String.[] = []
code_points (String.◌∷◌ c s) = code c ∷ code_points s

abbrev is_slash : ℕ → Bool
is_slash c = c == 47 || c == 92

-- The segment ".." (read backwards, which is the same).
abbrev is_dotdot : List ℕ → Bool
is_dotdot (a ∷ b ∷ []) = a == 46 && b == 46
is_dotdot _ = false

-- `value.split(/[\\/]+/).includes("..")`, with the segment under way, last character first.
unfoldable pub has_dotdot : List ℕ → List ℕ → Bool
has_dotdot segment [] = is_dotdot segment
has_dotdot segment (c ∷ cs) =
    (is_slash c && is_dotdot segment) || has_dotdot (if is_slash c then [] else c ∷ segment) cs

unfoldable pub contains_nul : List ℕ → Bool
contains_nul [] = false
contains_nul (c ∷ cs) = c == 0 || contains_nul cs

abbrev is_letter : ℕ → Bool
is_letter c = (leb 65 c && leb c 90) || (leb 97 c && leb c 122)

-- `value.startsWith("/") || /^[A-Za-z]:[\\/]/.test(value)`
unfoldable pub is_absolute : List ℕ → Bool
is_absolute [] = false
is_absolute (c ∷ []) = c == 47
is_absolute (c ∷ d ∷ []) = c == 47
is_absolute (c ∷ d ∷ e ∷ cs) = c == 47 || (is_letter c && (d == 58 && is_slash e))

unfoldable pub is_safe_relative : String → Bool
unfolding code_points has_dotdot contains_nul is_absolute
is_safe_relative s =
    not (contains_nul (code_points s) || is_absolute (code_points s))
    && not (has_dotdot [] (code_points s))

unfoldable pub valid_owner : TaskOwner → Bool
valid_owner o =
    is_identifier o.session_id
    && (is_identifier o.principal_id && when_defined (sized 1 512) o.channel_key)

unfoldable pub valid_destination : NotificationDestination → Bool
valid_destination d = sized 1 512 d.channel_key && is_identifier d.principal_id

unfoldable pub valid_watch : WatchDefinition → Bool
unfolding is_safe_relative
valid_watch (herdr_agent workspace pane agent) =
    is_identifier workspace && (is_identifier pane && when_defined (sized 1 256) agent)
valid_watch (run_status run) = is_identifier run
valid_watch (file_exists path) = sized 1 512 path && is_safe_relative path

unfoldable pub valid_event_match : EventMatch → Bool
valid_event_match m =
    when_defined is_identifier m.workspace_id
    && (when_defined is_identifier m.pane_id
        && (when_defined is_identifier m.agent_kind
            && (when_defined is_identifier m.source
                && (leb 1 (length m.event_types) && leb (length m.event_types) 4))))

-- `task.intervalSeconds !== undefined && task.intervalSeconds * 1_000 < SCHEDULER_MIN_INTERVAL_MS`
abbrev pub interval_allowed : Option ℕ → Bool
interval_allowed none = true
interval_allowed (some seconds) = leb 1 seconds && leb min_interval_ms (seconds * 1000)

-- `!text` of an optional text: absent or empty.
abbrev pub has_text : Option String → Bool
has_text none = false
has_text (some s) = leb 1 (units s)

-- What each kind of task requires.
abbrev pub kind_complete :
    Kind → Option String → Option String → Option WatchDefinition → Option EventMatch → Bool
kind_complete wake_turn instruction reminder_text definition match = has_text instruction
kind_complete reminder instruction reminder_text definition match = has_text reminder_text
kind_complete watch instruction reminder_text definition match = defined definition
kind_complete event_subscription instruction reminder_text definition match = defined match

-- The refinement that relates the status to the active state.
unfoldable pub status_consistent : Task → Bool
status_consistent t =
    (not (is_active t.status)
      || (has_text t.active_cycle_id && (has_text t.claim_owner && defined t.lease_expires_at)))
    && (not (is_terminal t.status)
        || (not (defined t.active_cycle_id)
            && (not (defined t.active_run_id)
                && (not (defined t.claim_owner) && not (defined t.lease_expires_at)))))

unfoldable pub valid_counts : Task → Bool
valid_counts t =
    leb 1 t.max_cycles
    && (leb t.max_cycles scheduler_max_cycles
        && (leb t.cycle_count scheduler_max_cycles
            && leb t.consecutive_failures scheduler_max_cycles))

unfoldable pub valid_texts : Zod → Task → Bool
valid_texts z t =
    z.is_uuid t.id
    && (sized 1 256 t.label
        && (is_identifier t.created_by_run_id
            && (when_defined (sized 0 max_instruction_length) t.instruction
                && (when_defined (sized 0 max_reminder_length) t.reminder_text
                    && (when_defined (sized 0 512) t.active_cycle_id
                        && (when_defined is_identifier t.active_run_id
                            && (when_defined is_identifier t.claim_owner
                                && (when_defined (sized 1 128) t.last_error_code
                                    && when_defined (sized 0 256) t.last_observation_digest))))))))

unfoldable pub valid_task : Zod → Task → Bool
unfolding valid_texts valid_counts status_consistent valid_owner valid_watch valid_event_match
    valid_destination
valid_task z t =
    valid_texts z t
    && (valid_counts t
        && (status_consistent t
            && (valid_owner t.owner
                && (is_utc t.due_at
                    && (interval_allowed t.interval_seconds
                        && (kind_complete t.kind t.instruction t.reminder_text t.watch_definition
                              t.event_match
                            && (when_defined valid_watch t.watch_definition
                                && (when_defined valid_event_match t.event_match
                                    && when_defined valid_destination
                                        t.notification_destination))))))))

module _ (z : Zod) where
  unfoldable pub trim_owner : TaskOwner → TaskOwner
  trim_owner o = record o {
    session_id = z.trim o.session_id;
    principal_id = z.trim o.principal_id;
    channel_key = map_option z.trim o.channel_key;
  }

  unfoldable pub trim_destination : NotificationDestination → NotificationDestination
  trim_destination d = record d {
    channel_key = z.trim d.channel_key;
    principal_id = z.trim d.principal_id;
  }

  unfoldable pub trim_watch : WatchDefinition → WatchDefinition
  trim_watch (herdr_agent workspace pane agent) =
      herdr_agent (z.trim workspace) (z.trim pane) (map_option z.trim agent)
  trim_watch (run_status run) = run_status (z.trim run)
  trim_watch (file_exists path) = file_exists (z.trim path)

  unfoldable pub trim_event_match : EventMatch → EventMatch
  trim_event_match m = record m {
    workspace_id = map_option z.trim m.workspace_id;
    pane_id = map_option z.trim m.pane_id;
    agent_kind = map_option z.trim m.agent_kind;
    source = map_option z.trim m.source;
  }

  -- Only these fields are trimmed: `id`, `instruction`, `reminderText` and `activeCycleId` are not.
  unfoldable pub trim_task : Task → Task
  trim_task t = record t {
    label = z.trim t.label;
    owner = trim_owner t.owner;
    created_by_run_id = z.trim t.created_by_run_id;
    watch_definition = map_option trim_watch t.watch_definition;
    event_match = map_option trim_event_match t.event_match;
    active_run_id = map_option z.trim t.active_run_id;
    claim_owner = map_option z.trim t.claim_owner;
    last_error_code = map_option z.trim t.last_error_code;
    last_observation_digest = map_option z.trim t.last_observation_digest;
    notification_destination = map_option trim_destination t.notification_destination;
  }

  -- `ScheduledTaskSchema.parse`
  unfoldable pub parse_task : Task → Option Task
  parse_task t = if valid_task z (trim_task t) then some (trim_task t) else none

  -- `SchedulerSnapshotSchema.parse`
  unfoldable pub parse_snapshot : Snapshot → Option Snapshot
  parse_snapshot [] = some []
  parse_snapshot (t ∷ ts) = elim (parse_task t) [
    | none ↦ none
    | some u ↦ map_option (λ us. u ∷ us) (parse_snapshot ts)
  ]
