-- ===== src/Events/Tests.antt =====
-- A dispatch of a concrete event, where the notifier refuses it.
use alfred_ai.Base.{String, ◌≡◌, ◌⊎◌, Bool, true, false, none, [], ◌∷◌, ok, err}
use alfred_ai.Scheduler.Model.{event_failed}
use alfred_ai.Events.{
  AgentEvent, AgentEventDispatchResult, stored_event, sent_text, told_scheduler,
  notification_refused, dispatch,
}
use alfred_ai.Events.Routing.{is_pushed, dispatch_effects}

abbrev crashed : AgentEvent
crashed = record {
  source = "hook";
  agent_kind = "codex";
  workspace_id = "w";
  pane_id = "p";
  event_type = event_failed;
  payload = none;
}

abbrev refuses : String → Bool
refuses text = false

dispatch_effects_example :
    ((is_pushed crashed event_failed ≡ false)
      × (r : AgentEventDispatchResult) × (dispatch refuses crashed
          ≡ (stored_event crashed ∷ told_scheduler crashed ∷ [], ok r))
      × (r.notified ≡ false))
    ⊎ ((is_pushed crashed event_failed ≡ true)
        × (text : String) × (((refuses text ≡ true)
              × (r : AgentEventDispatchResult) × (dispatch refuses crashed
                  ≡ (stored_event crashed ∷ sent_text text ∷ told_scheduler crashed ∷ [], ok r))
              × (r.notified ≡ true))
            ⊎ ((refuses text ≡ false)
                × (dispatch refuses crashed
                    ≡ (stored_event crashed ∷ [], err notification_refused)))))
dispatch_effects_example = dispatch_effects refuses crashed
