-- ===== src/Scheduler/Watch.antt =====
-- src/scheduler/watch.ts, `WatchExecutor`: what an observation of a watched target leads to; the
-- result of probes/herdrAgentProbe.ts; and execution.ts.
--
-- The digest of a probe is an argument, and so is the snapshot that a probe has taken of a pane. The
-- executor ends by a call of the task store, or by a turn of the agent: both are returned as data.
pub mod Decisions
pub mod Notices
use Prim.Native.String.{◌++◌ as append_text}
use mathlib.Core.Int.{ℤ}
use alfred_ai.Base.{
  ℕ, ◌+◌, ◌*◌, max, String, Bool, true, false, not, ◌&&◌, ◌||◌, Option, none, some, List, [], ◌∷◌,
  Result, ok, err, ltb, leb, if◌then◌else◌, or_else, defined, str_eq, length,
}
use alfred_ai.Scheduler.Model.{
  Task, Stamp, utc, ObservationStatus, observed_running, task_complete, idle_waiting_input,
  observed_error, WatchDefinition, herdr_agent, run_status, file_exists, NotificationDestination,
  min_interval_ms,
}
use alfred_ai.Scheduler.Schema.{has_text}
use alfred_ai.Scheduler.Create.{is_watch}
use alfred_ai.Scheduler.TaskStore.{CompleteCycleInput, FailCycleInput}
use alfred_ai.Scheduler.Deliveries.{
  Delivery, Deliveries, ensure_pending, claim_sending, mark_delivered, mark_failed, find_delivery,
}
use alfred_ai.Scheduler.Reminder.{OutboundNotification, Outbox, is_delivered}

pub data ProbeStatus : Type 0 where
  probe_pending probe_completed probe_failed probe_missing probe_unknown : ProbeStatus

pub record WatchSnapshot : Type 0 where
  pub task_id : String
  pub status : ObservationStatus
  pub exit_code : Option ℤ
  pub stdout : List String

pub record ProbeResult : Type 0 where
  pub status : ProbeStatus
  pub digest : String
  pub summary : String
  pub terminal : Bool
  pub changed : Bool
  pub error_code : Option String
  pub snapshot : Option WatchSnapshot

-- `previousDigest !== undefined && previousDigest !== valueDigest`
abbrev pub has_changed : Option String → String → Bool
has_changed none digest = false
has_changed (some previous) digest = not (str_eq previous digest)

-- `probeStatus` of herdrAgentProbe.ts
abbrev pub herdr_probe_status : ObservationStatus → ProbeStatus
herdr_probe_status observed_error = probe_failed
herdr_probe_status task_complete = probe_completed
herdr_probe_status idle_waiting_input = probe_completed
herdr_probe_status observed_running = probe_pending

-- `summary` of herdrAgentProbe.ts
abbrev pub herdr_summary : ObservationStatus → String
herdr_summary task_complete = "The Herdr task completed."
herdr_summary idle_waiting_input = "The Herdr agent is idle and waiting for input."
herdr_summary observed_error = "The Herdr agent reported an error or exited unsuccessfully."
herdr_summary observed_running = "The Herdr agent is still working."

abbrev pub is_running_status : ObservationStatus → Bool
is_running_status observed_running = true
is_running_status task_complete = false
is_running_status idle_waiting_input = false
is_running_status observed_error = false

abbrev pub is_idle_status : ObservationStatus → Bool
is_idle_status idle_waiting_input = true
is_idle_status observed_running = false
is_idle_status task_complete = false
is_idle_status observed_error = false

-- `HerdrAgentProbe.probe`: `taken` is the snapshot, absent if the client throws.
unfoldable pub herdr_probe :
    (ObservationStatus → Option ℤ → String) → Option WatchSnapshot → Option String → ProbeResult
herdr_probe digest none previous = record {
  status = probe_unknown;
  digest = "herdr_probe_error";
  summary = "The Herdr agent could not be inspected.";
  terminal = false;
  changed = false;
  error_code = some "herdr_probe_error";
  snapshot = none;
}
herdr_probe digest (some taken) previous = record {
  status = herdr_probe_status taken.status;
  digest = digest taken.status taken.exit_code;
  summary = herdr_summary taken.status;
  terminal = not (is_running_status taken.status);
  changed = has_changed previous (digest taken.status taken.exit_code);
  error_code = none;
  snapshot = some taken;
}

pub data WatchError : Type 0 where
  invalid_watch_task destination_missing claim_unavailable notification_failed delivery_lost :
      WatchError

-- The last call of `execute`: of the task store, or of `executeWake` with snapshot and digest.
pub data WatchEnding : Type 0 where
  completes_cycle : CompleteCycleInput → WatchEnding
  fails_cycle : FailCycleInput → WatchEnding
  wakes : Option WatchSnapshot → String → WatchEnding

-- `intervalMs`
unfoldable pub interval_ms : Task → ℕ
interval_ms t = max min_interval_ms (or_else t.interval_seconds 60 * 1000)

-- `rescheduleAfterObservation`
unfoldable pub reschedule : ℕ → Task → String → ProbeResult → CompleteCycleInput
unfolding interval_ms
reschedule now t cycle_id o = record {
  task_id = t.id;
  cycle_id = cycle_id;
  completed_at = none;
  next_due_at = some (utc (now + interval_ms t));
  observation_digest = some o.digest;
  observation_status = elim o.snapshot [ none ↦ none | some s ↦ some s.status ];
}

-- The `catch` of the send.
unfoldable pub fail_notice : ℕ → String → Outbox → Outbox × Result WatchError (Unit {0})
fail_notice now id box = elim (mark_failed now id "notification_failed" box.deliveries) [
  | ok r ↦ (record box { deliveries = r.0 }, err notification_failed)
  | err e ↦ (box, err delivery_lost)
]

-- The `try` and `catch` around the send: as the notifier answers, `none` if it throws.
unfoldable pub settle_notice :
    ℕ → String → Option (Option String) → Outbox → Outbox × Result WatchError (Unit {0})
unfolding fail_notice
settle_notice now id none box = fail_notice now id box
settle_notice now id (some message) box = elim (mark_delivered now id message box.deliveries) [
  | ok r ↦ (record box { deliveries = r.0 }, ok tt)
  | err e ↦ fail_notice now id box
]

abbrev pub watch_message :
    Task → NotificationDestination → String → ProbeResult → OutboundNotification
watch_message t to id o = record {
  destination = to;
  text = append_text "🔔 Watch: " (append_text t.label (append_text "\n" o.summary));
  delivery_id = id;
}

-- `notify`
unfoldable pub notify_owner :
    (ℕ → Option (Option String))
    → ℕ
    → Task
    → String
    → ProbeResult
    → Outbox
    → Outbox × Result WatchError (Unit {0})
unfolding settle_notice
notify_owner notify now t cycle_id o box = elim t.notification_destination [
  | none ↦ (box, err destination_missing)
  | some to ↦
      let ensured : Deliveries × Delivery =
        ensure_pending now t.id cycle_id "watch_terminal" to box.deliveries in
      if is_delivered (some ensured.1)
      then (record box { deliveries = ensured.0 }, ok tt)
      else (let claimed : Deliveries × Option Delivery =
            claim_sending now ensured.1.id true ensured.0 in
          elim claimed.1 [
            | none ↦ (record box { deliveries = ensured.0 }, err claim_unavailable)
            | some d ↦
                settle_notice now d.id (notify (length box.sent))
                  (record { deliveries = claimed.0; sent = watch_message t to d.id o ∷ box.sent })
          ])
]

abbrev pub is_herdr_watch : Option WatchDefinition → Bool
is_herdr_watch none = false
is_herdr_watch (some (herdr_agent workspace pane agent)) = true
is_herdr_watch (some (run_status run)) = false
is_herdr_watch (some (file_exists path)) = false

abbrev pub is_unknown : ProbeStatus → Bool
is_unknown probe_unknown = true
is_unknown probe_pending = false
is_unknown probe_completed = false
is_unknown probe_failed = false
is_unknown probe_missing = false

abbrev pub was_running : Option ObservationStatus → Bool
was_running none = false
was_running (some s) = is_running_status s

abbrev pub shows_idle : Option WatchSnapshot → Bool
shows_idle none = false
shows_idle (some s) = is_idle_status s.status

-- The call by which a terminal observation ends the watch.
unfoldable pub terminal_ending : Task → String → ProbeResult → ProbeStatus → WatchEnding
terminal_ending t cycle_id o probe_completed = completes_cycle (record {
  task_id = t.id;
  cycle_id = cycle_id;
  completed_at = none;
  next_due_at = none;
  observation_digest = some o.digest;
  observation_status = none;
})
terminal_ending t cycle_id o probe_missing = fails_cycle (record {
  task_id = t.id;
  cycle_id = cycle_id;
  retry_at = none;
  error_code = "watch_target_missing";
  terminal = true;
})
terminal_ending t cycle_id o probe_pending = fails_cycle (record {
  task_id = t.id;
  cycle_id = cycle_id;
  retry_at = none;
  error_code = "watch_target_failed";
  terminal = true;
})
terminal_ending t cycle_id o probe_failed = fails_cycle (record {
  task_id = t.id;
  cycle_id = cycle_id;
  retry_at = none;
  error_code = "watch_target_failed";
  terminal = true;
})
terminal_ending t cycle_id o probe_unknown = fails_cycle (record {
  task_id = t.id;
  cycle_id = cycle_id;
  retry_at = none;
  error_code = "watch_target_failed";
  terminal = true;
})

-- The call of `failCycle` for a probe that could not tell.
unfoldable pub unknown_failure : ℕ → Task → String → ProbeResult → FailCycleInput
unfolding interval_ms
unknown_failure now t cycle_id o = record {
  task_id = t.id;
  cycle_id = cycle_id;
  retry_at = some (utc (now + interval_ms t));
  error_code = or_else o.error_code "watch_probe_unknown";
  terminal = leb 2 t.consecutive_failures;
}

-- After `notify`, which throws or returns.
abbrev after_notice :
    WatchEnding → Outbox × Result WatchError (Unit {0}) → Outbox × Result WatchError WatchEnding
after_notice ending (box, ok done) = (box, ok ending)
after_notice ending (box, err e) = (box, err e)

-- Whether the observation is handed to a turn of the agent.
abbrev pub may_wake : Bool → Task → Bool
may_wake can_wake t = has_text t.instruction && can_wake

-- `execute`, once the probe has answered `o`; `can_wake` says whether `executeWake` is there.
unfoldable pub execute_watch :
    (ℕ → Option (Option String))
    → Bool
    → ℕ
    → Task
    → String
    → ProbeResult
    → Outbox
    → Outbox × Result WatchError WatchEnding
unfolding reschedule terminal_ending unknown_failure notify_owner
execute_watch notify can_wake now t cycle_id o box =
    if not (is_watch t.kind)
    then (box, err invalid_watch_task)
    else if is_unknown o.status
    then (box, ok (fails_cycle (unknown_failure now t cycle_id o)))
    else if is_herdr_watch t.watch_definition
        && (shows_idle o.snapshot && not (was_running t.last_observation_status))
    then (box, ok (completes_cycle (reschedule now t cycle_id o)))
    else if o.terminal && (o.changed && (defined o.snapshot && may_wake can_wake t))
    then (box, ok (wakes o.snapshot o.digest))
    else if o.terminal
    then after_notice (terminal_ending t cycle_id o o.status)
        (notify_owner notify now t cycle_id o box)
    else if not (is_herdr_watch t.watch_definition) && (o.changed && may_wake can_wake t)
    then (box, ok (wakes o.snapshot o.digest))
    else (box, ok (completes_cycle (reschedule now t cycle_id o)))

-- src/scheduler/execution.ts: the one terminal action of a turn.
pub data SchedulerControlAction : Type 0 where
  complete_action : (summary : Option String) → SchedulerControlAction
  reschedule_action : (next_due_at : String) (reason : Option String) → SchedulerControlAction

pub data ControlError : Type 0 where
  action_already_selected : ControlError

-- `complete` and `reschedule` of `createSchedulerTurnControl`: the action chosen before, the new one.
unfoldable pub select_action :
    Option SchedulerControlAction
    → SchedulerControlAction
    → Result ControlError (Option SchedulerControlAction)
select_action none action = ok (some action)
select_action (some chosen) action = err action_already_selected
