-- ===== src/Scheduler/Reminder.antt =====
-- src/scheduler/reminder.ts: `ReminderExecutor`, which sends a reminder and ends its cycle.
--
-- The notifier is a parameter: `notify n` is what the send after `n` others does, `none` if it
-- throws, else the message id that it returns. The last step of the executor is a call of the task
-- store, which `execute` returns as data. `clock n` is the time at attempt `n`. Delays between the
-- attempts only pass time.
pub mod Sending
use Prim.Native.String.{◌++◌ as append_text}
use alfred_ai.Base.{
  ℕ, zero, suc, ◌+◌, ◌*◌, min, max, String, ◌≡◌, Bool, true, false, not, ◌&&◌, Option, none, some,
  List, [], ◌∷◌, Result, ok, err, ◌>>=◌, ◌>>◌, guard, ltb, length, if◌then◌else◌, or_else,
}
use alfred_ai.Scheduler.Model.{
  Task, Kind, reminder, wake_turn, watch, event_subscription, NotificationDestination, utc,
  default_tick_max_ms,
}
use alfred_ai.Scheduler.Schema.{has_text}
use alfred_ai.Scheduler.TaskStore.{CompleteCycleInput, FailCycleInput}
use alfred_ai.Scheduler.Deliveries.{
  DeliveryStatus, owed, sending, delivered, undelivered, Delivery, Deliveries, DeliveryError,
  delivery_not_found, find_delivery, ensure_pending, claim_sending, mark_delivered, mark_failed,
}

pub record OutboundNotification : Type 0 where
  pub destination : NotificationDestination
  pub text : String
  pub delivery_id : String

-- The delivery store, and what has been handed to the notifier, newest first.
pub record Outbox : Type 0 where
  pub deliveries : Deliveries
  pub sent : List OutboundNotification

pub data ExecutionError : Type 0 where
  invalid_reminder_task delivery_claim_unavailable delivery_lost : ExecutionError

-- The call of the task store by which a cycle ends.
pub data Ending : Type 0 where
  completing : CompleteCycleInput → Ending
  failing : FailCycleInput → Ending

abbrev pub is_delivered : Option Delivery → Bool
is_delivered none = false
is_delivered (some d) = elim d.status [
  | delivered ↦ true
  | owed ↦ false
  | sending ↦ false
  | undelivered ↦ false
]

abbrev pub is_sending : Option Delivery → Bool
is_sending none = false
is_sending (some d) = elim d.status [
  | sending ↦ true
  | owed ↦ false
  | delivered ↦ false
  | undelivered ↦ false
]

abbrev or_lost : {A : Type 0} → Result DeliveryError A → Result ExecutionError A
or_lost (ok a) = ok a
or_lost (err e) = err delivery_lost

-- The end of the `try` block of an attempt and its `catch`: a delivery that cannot be marked as
-- delivered is marked as failed, as one that could not be sent. True if the attempt has delivered.
unfoldable pub settle :
    ℕ → String → Option (Option String) → Deliveries → Result ExecutionError (Deliveries × Bool)
settle now id none ds =
    or_lost (mark_failed now id "notification_failed" ds) >>= λ r. ok (r.0, false)
settle now id (some message) ds = elim (mark_delivered now id message ds) [
  | ok r ↦ ok (r.0, true)
  | err e ↦ or_lost (mark_failed now id "notification_failed" ds) >>= λ r. ok (r.0, false)
]

module _ (notify : ℕ → Option (Option String)) (clock : ℕ → ℕ)
    (message : OutboundNotification) where
  -- The loop over the attempts that remain: true if the delivery is made, false if they run out.
  unfoldable pub send_loop : ℕ → ℕ → Outbox → Result ExecutionError (Outbox × Bool)
  send_loop zero attempt box = ok (box, false)
  send_loop (suc remaining) attempt box =
      if is_delivered (find_delivery message.delivery_id box.deliveries)
      then ok (box, true)
      else elim (claim_sending (clock attempt) message.delivery_id (ltb 0 attempt)
          box.deliveries).1 [
            | none ↦
                (if is_delivered (find_delivery message.delivery_id box.deliveries)
                  then ok (box, true)
                  else (let rest = send_loop remaining (attempt + 1) box in
                      if is_sending (find_delivery message.delivery_id box.deliveries)
                      then rest
                      else err delivery_claim_unavailable))
            | some claimed ↦
                settle (clock attempt) message.delivery_id (notify (length box.sent))
                  (claim_sending (clock attempt) message.delivery_id (ltb 0 attempt)
                    box.deliveries).0
                >>= λ r.
                    (let after : Outbox = record { deliveries = r.0; sent = message ∷ box.sent } in
                      let rest = send_loop remaining (attempt + 1) after in
                      if r.1 then ok (after, true) else rest)
          ]

abbrev pub is_reminder : Kind → Bool
is_reminder reminder = true
is_reminder wake_turn = false
is_reminder watch = false
is_reminder event_subscription = false

-- `Math.max(1, Math.min(options.maxAttempts ?? 3, 10))`
unfoldable pub max_attempts_of : Option ℕ → ℕ
max_attempts_of given = max 1 (min (or_else given 3) 10)

-- `complete`
unfoldable pub complete_reminder : ℕ → Task → String → Ending
complete_reminder now t cycle_id = completing (record {
  task_id = t.id;
  cycle_id = cycle_id;
  completed_at = none;
  next_due_at = elim t.interval_seconds [
    | none ↦ none
    | some seconds ↦ if ltb 0 seconds then some (utc (now + seconds * 1000)) else none
  ];
  observation_digest = none;
  observation_status = none;
})

unfoldable pub fail_reminder : Task → String → Ending
fail_reminder t cycle_id = failing (record {
  task_id = t.id;
  cycle_id = cycle_id;
  retry_at = none;
  error_code = "notification_failed";
  terminal = true;
})

-- The text and destination of a reminder, if the task is one.
unfoldable pub reminder_of : Task → Result ExecutionError (String × NotificationDestination)
reminder_of t = elim t.reminder_text [
  | none ↦ err invalid_reminder_task
  | some text ↦ elim t.notification_destination [
    | none ↦ err invalid_reminder_task
    | some to ↦
        if is_reminder t.kind && has_text (some text)
        then ok (text, to)
        else err invalid_reminder_task
  ]
]

abbrev pub reminder_message : String → NotificationDestination → String → OutboundNotification
reminder_message text to id = record {
  destination = to;
  text = append_text "⏰ Reminder: " text;
  delivery_id = id;
}

unfoldable pub execute :
    (ℕ → Option (Option String))
    → (ℕ → ℕ)
    → Option ℕ
    → Task
    → String
    → Outbox
    → Result ExecutionError (Outbox × Ending)
execute notify clock max_attempts t cycle_id box = do
  (text, to) ← reminder_of t
  let ensured : Deliveries × Delivery =
      ensure_pending (clock 0) t.id cycle_id "reminder" to box.deliveries
  (after, done) ←
      send_loop notify clock (reminder_message text to ensured.1.id) (max_attempts_of max_attempts)
        0 (record box { deliveries = ensured.0 })
  ok (
    after,
    if done
        then complete_reminder (clock (max_attempts_of max_attempts)) t cycle_id
        else fail_reminder t cycle_id,
  )
