-- ===== src/Events.antt =====
-- src/agentEvents/dispatcher.ts and the shapes of schema.ts: what an event of an agent leads to.
--
-- The store, the notifier and the scheduler are effects: a dispatch is the list of what it has tried,
-- and its result. `sends` says whether the notifier accepts a text. Each append and each call of the
-- scheduler may throw, or have nobody to go to, which the code makes no difference of.
pub mod Routing
mod Tests
use Prim.Native.String.{◌++◌ as append_text}
use mathlib.Core.Int.{ℤ}
use alfred_ai.Base.{
  ℕ, String, Bool, true, false, Option, none, some, List, [], ◌∷◌, ◌++◌, Result, ok, err,
  if◌then◌else◌, or_else, leb, units,
}
use alfred_ai.Scheduler.Model.{
  AgentEventType, progress, event_completed, event_failed, needs_approval,
}

pub record AgentEventPayload : Type 0 where
  pub prompt_text : Option String
  pub suggested_action : Option String
  pub details : Option String
  pub error : Option String
  -- The exit code as it is printed.
  pub exit_code : Option String
  pub ping : Option Bool

pub record AgentEvent : Type 0 where
  pub source : String
  pub agent_kind : String
  pub workspace_id : String
  pub pane_id : String
  pub event_type : AgentEventType
  pub payload : Option AgentEventPayload

pub record AgentEventDispatchResult : Type 0 where
  pub event_type : AgentEventType
  pub notified : Bool
  pub notification : Option String
  pub reason : String

-- What a dispatch does, in order.
pub data DispatchEffect : Type 0 where
  stored_event : AgentEvent → DispatchEffect
  sent_text : String → DispatchEffect
  told_scheduler : AgentEvent → DispatchEffect

pub data DispatchError : Type 0 where
  notification_refused : DispatchError

-- A text of several parts.
unfoldable pub joined : List String → String
joined [] = ""
joined (part ∷ parts) = append_text part (joined parts)

abbrev pub field {ℓ} :
    {A : Type ℓ} → (AgentEventPayload → Option A) → Option AgentEventPayload → Option A
field get none = none
field get (some p) = get p

abbrev pub first_of : Option String → Option String → Option String
first_of none other = other
first_of (some a) other = some a

abbrev pub location_of : AgentEvent → String
location_of e = append_text e.workspace_id (append_text ":" e.pane_id)

abbrev pub agent_label : AgentEvent → String
agent_label e = append_text e.agent_kind (append_text " / " e.source)

abbrev pub prompt_of : AgentEvent → String
prompt_of e =
    or_else (first_of (field (λ p. p.prompt_text) e.payload) (field (λ p. p.details) e.payload))
      "(no prompt provided)"

abbrev suggested : Option String → List String
suggested none = []
suggested (some action) =
    if leb 1 (units action) then "\n\nSuggested action: `" ∷ action ∷ "`" ∷ [] else []

unfoldable pub format_approval_alert : AgentEvent → String
unfolding joined
format_approval_alert e = joined (
    ("🚨 **Approval Required in `"
      ∷ location_of e
      ∷ "` ("
      ∷ agent_label e
      ∷ "):**\n\n"
      ∷ prompt_of e
      ∷ [])
    ++ (suggested (field (λ p. p.suggested_action) e.payload)
        ++ ("\n\nReply `/approve " ∷ location_of e ∷ "` or `/reject " ∷ location_of e ∷ "`." ∷ [])))

abbrev exit_text : Option String → String
exit_text none = ""
exit_text (some code) = append_text " (exit code " (append_text code ")")

unfoldable pub format_failure_alert : AgentEvent → String
unfolding joined
format_failure_alert e = joined (
    "❌ **Agent Failed in `"
    ∷ location_of e
    ∷ "` ("
    ∷ agent_label e
    ∷ "):**\n\n"
    ∷ or_else (first_of (field (λ p. p.error) e.payload) (field (λ p. p.details) e.payload))
        "Agent terminated unexpectedly"
    ∷ exit_text (field (λ p. p.exit_code) e.payload)
    ∷ [])

unfoldable pub format_completion_notice : AgentEvent → String
unfolding joined
format_completion_notice e = joined (
    "✅ **Agent Completed in `"
    ∷ location_of e
    ∷ "` ("
    ∷ agent_label e
    ∷ "):**\n\n"
    ∷ or_else (field (λ p. p.details) e.payload) "Objective finished."
    ∷ [])

abbrev pub asks_ping : AgentEvent → Bool
asks_ping e = or_else (field (λ p. p.ping) e.payload) false

-- The text to send and the reason to give, by the type of the event.
unfoldable pub route : AgentEvent → AgentEventType → Option String × String
unfolding format_approval_alert format_failure_alert format_completion_notice
route e needs_approval = (some (format_approval_alert e), "approval_pushed")
route e event_failed = (some (format_failure_alert e), "failure_pushed")
route e event_completed =
    if asks_ping e
    then (some (format_completion_notice e), "completion_pushed")
    else (none, "completion_not_marked_for_ping")
route e progress = (none, "progress_recorded")

module _ (sends : String → Bool) where
  -- The `switch` and the send, which is not caught.
  unfoldable pub notify_route :
      AgentEvent
      → Option String × String
      → Result DispatchError (List DispatchEffect × AgentEventDispatchResult)
  notify_route e (none, reason) = ok (
    [],
    record { event_type = e.event_type; notified = false; notification = none; reason = reason },
  )
  notify_route e (some text, reason) =
      if sends text
      then ok (
        sent_text text ∷ [],
        record {
          event_type = e.event_type;
          notified = true;
          notification = some text;
          reason = reason;
        },
      )
      else err notification_refused

  unfoldable pub dispatch :
      AgentEvent → List DispatchEffect × Result DispatchError AgentEventDispatchResult
  unfolding route notify_route
  dispatch e = elim (notify_route e (route e e.event_type)) [
    | err x ↦ (stored_event e ∷ [], err x)
    | ok r ↦ (stored_event e ∷ (r.0 ++ (told_scheduler e ∷ [])), ok r.1)
  ]
