-- ===== src/Events/Routing.antt =====
-- When an event is sent to the owner, and when the scheduler hears of it.
use alfred_ai.Base.{
  String, ◌≡◌, refl, Bool, true, false, none, some, [], ◌∷◌, ok, err, inl, inr, ◌⊎◌, Bool-cases,
}
use alfred_ai.Scheduler.Model.{
  AgentEventType, progress, event_completed, event_failed, needs_approval,
}
use alfred_ai.Events.{
  AgentEvent, AgentEventDispatchResult, stored_event, sent_text, told_scheduler,
  notification_refused, asks_ping, format_completion_notice, route, notify_route, dispatch,
}

-- Whether the event is one that is pushed to the owner.
abbrev pub is_pushed : AgentEvent → AgentEventType → Bool
is_pushed e needs_approval = true
is_pushed e event_failed = true
is_pushed e event_completed = asks_ping e
is_pushed e progress = false

routed :
    (e : AgentEvent) (t : AgentEventType)
    → ((is_pushed e t ≡ true)
        × (text : String) × (reason : String) × (route e t ≡ (some text, reason)))
      ⊎ ((is_pushed e t ≡ false) × (reason : String) × (route e t ≡ (none, reason)))
unfolding route
routed e needs_approval = inl (refl, _, _, refl)
routed e event_failed = inl (refl, _, _, refl)
routed e progress = inr (refl, _, refl)
routed e event_completed = elim (Bool-cases (asks_ping e)) [
  | inl ping ↦ inl (ping, format_completion_notice e, "completion_pushed", rw ping refl)
  | inr quiet ↦ inr (quiet, "completion_not_marked_for_ping", rw quiet refl)
]

-- A dispatch stores the event first, and what follows depends on the event: if it asks for approval,
-- reports a failure, or reports a completion marked for a ping, one text is sent, and then the
-- scheduler is told; but where the notifier refuses the text, the dispatch throws and the scheduler is
-- not told. For any other event nothing is sent and the scheduler is told.
pub dispatch_effects :
    (sends : String → Bool) (e : AgentEvent)
    → ((is_pushed e e.event_type ≡ false)
        × (r : AgentEventDispatchResult) × (dispatch sends e
            ≡ (stored_event e ∷ told_scheduler e ∷ [], ok r))
        × (r.notified ≡ false))
      ⊎ ((is_pushed e e.event_type ≡ true)
          × (text : String) × (((sends text ≡ true)
                × (r : AgentEventDispatchResult) × (dispatch sends e
                    ≡ (stored_event e ∷ sent_text text ∷ told_scheduler e ∷ [], ok r))
                × (r.notified ≡ true))
              ⊎ ((sends text ≡ false)
                  × (dispatch sends e ≡ (stored_event e ∷ [], err notification_refused)))))
unfolding dispatch notify_route
dispatch_effects sends e = elim (routed e e.event_type) [
  | inr (quiet, reason, none_sent) ↦ inl (
    quiet,
    record { event_type = e.event_type; notified = false; notification = none; reason = reason },
    rw (none_sent, dispatch, notify_route) refl,
    refl,
  )
  | inl (pushed, text, reason, to_send) ↦ elim (Bool-cases (sends text)) [
    | inl accepted ↦ inr (
      pushed,
      text,
      inl (
        accepted,
        record {
          event_type = e.event_type;
          notified = true;
          notification = some text;
          reason = reason;
        },
        rw (to_send, accepted, dispatch, notify_route) refl,
        refl,
      ),
    )
    | inr rejected ↦
        inr (pushed, text, inr (rejected, rw (to_send, rejected, dispatch, notify_route) refl))
  ]
]
