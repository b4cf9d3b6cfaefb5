-- ===== src/Scheduler/Engine/Explanation.antt =====
-- src/scheduler/engine.ts, `deliverWakeExplanation`: the text of a wake turn, sent to the owner.
--
-- The notifier answers as in Reminder: `none` where it throws.
use alfred_ai.Base.{
  ℕ, zero, suc, ◌+◌, ◌≤◌, String, ◌≡◌, refl, Bool, true, not, ◌||◌, Option, none, some, ◌∷◌, Result,
  ok, ◌>>=◌, arith, inl, inr, ◌⊎◌, Bool-cases, Option-cases, Result-cases, length, ltb, leb,
  if◌then◌else◌, cut, units, defined,
}
use alfred_ai.Scheduler.Model.{NotificationDestination}
use alfred_ai.Scheduler.Deliveries.{
  Deliveries, Delivery, find_delivery, claim_sending, ensure_pending,
}
use alfred_ai.Scheduler.Reminder.{
  OutboundNotification, Outbox, ExecutionError, is_delivered, settle,
}

module _ (notify : ℕ → Option (Option String)) (clock : ℕ → ℕ)
    (message : OutboundNotification) where
  -- The attempts that remain; where none is left the failure is only logged.
  unfoldable pub explain_loop : ℕ → ℕ → Outbox → Result ExecutionError Outbox
  explain_loop zero attempt box = ok box
  explain_loop (suc remaining) attempt box =
      if is_delivered (find_delivery message.delivery_id box.deliveries)
      then ok box
      else elim (claim_sending (clock attempt) message.delivery_id (ltb 0 attempt)
          box.deliveries).1 [
            | none ↦ explain_loop remaining (attempt + 1) box
            | some claimed ↦
                settle (clock attempt) message.delivery_id (notify (length box.sent))
                  (claim_sending (clock attempt) message.delivery_id (ltb 0 attempt)
                    box.deliveries).0
                >>= λ r.
                    (let after : Outbox = record { deliveries = r.0; sent = message ∷ box.sent } in
                      let rest = explain_loop remaining (attempt + 1) after in
                      if r.1 then ok after else rest)
          ]

  explain_loop-sent :
      (remaining attempt : ℕ) (box after : Outbox)
      → explain_loop remaining attempt box ≡ ok after
      → length after.sent ≤ length box.sent + remaining
  unfolding explain_loop
  explain_loop-sent zero attempt box after e =
      let same : after ≡ box = ground arith in rw same (omega arith)
  explain_loop-sent (suc remaining) attempt box after e =
      elim (Bool-cases (is_delivered (find_delivery message.delivery_id box.deliveries))) [
        | inl there ↦ let same : after ≡ box = ground arith in rw same (omega arith)
        | inr missing ↦
            let claim : Deliveries × Option Delivery =
              claim_sending (clock attempt) message.delivery_id (ltb 0 attempt) box.deliveries in
            elim (Option-cases claim.1) [
              | inl refused ↦
                  omega (arith, explain_loop-sent remaining (attempt + 1) box after (ground arith))
              | inr (d, granted) ↦
                  elim (Result-cases (
                    settle (clock attempt) message.delivery_id (notify (length box.sent))
                      claim.0)) [
                        | inr (x, lost) ↦ ground arith
                        | inl ((ds, done), settled) ↦
                            let next : Outbox = record {
                              deliveries = ds;
                              sent = message ∷ box.sent;
                            } in
                            elim (Bool-cases done) [
                              | inl y ↦
                                  let same : after ≡ next = ground arith in rw same (omega arith)
                              | inr n ↦ omega (
                                arith,
                                explain_loop-sent remaining (attempt + 1) next after (ground arith),
                              )
                            ]
                      ]
            ]
      ]

-- `trimmed` is `assistantText.trim()`; `has_notifier` says whether the engine was given one.
unfoldable pub deliver_wake_explanation :
    (ℕ → Option (Option String))
    → (ℕ → ℕ)
    → Bool
    → String
    → String
    → Option NotificationDestination
    → String
    → String
    → Outbox
    → Result ExecutionError Outbox
unfolding explain_loop
deliver_wake_explanation notify clock has_notifier task_id cycle_id none text trimmed box = ok box
deliver_wake_explanation notify clock has_notifier task_id cycle_id (some to) text trimmed box =
    let ensured : Deliveries × Delivery =
      ensure_pending (clock 0) task_id cycle_id "wake_explanation" to box.deliveries in
    let sent =
      explain_loop notify clock
        (record { destination = to; text = cut 4000 text; delivery_id = ensured.1.id }) 3 0
        (record box { deliveries = ensured.0 }) in
    if not has_notifier || not (leb 1 (units trimmed))
    then ok box
    else if is_delivered (some ensured.1)
    then ok (record box { deliveries = ensured.0 })
    else sent

-- The explanation of a wake turn is sent at most three times, and not at all where the engine has no
-- notifier, the task no destination, or the text nothing but white space.
pub explanation_sends :
    (notify : ℕ → Option (Option String)) (clock : ℕ → ℕ) (has_notifier : Bool)
    (task_id cycle_id : String) (to : Option NotificationDestination) (text trimmed : String)
    (box after : Outbox)
    → deliver_wake_explanation notify clock has_notifier task_id cycle_id to text trimmed box
      ≡ ok after
    → (length after.sent ≤ length box.sent + 3)
      × ((after ≡ box) ⊎ ((defined to ≡ true) × (has_notifier ≡ true) × (1 ≤ units trimmed)))
unfolding deliver_wake_explanation
explanation_sends notify clock has_notifier task_id cycle_id none text trimmed box after e =
    let same : after ≡ box = ground arith in (rw same (omega arith), inl same)
explanation_sends notify clock has_notifier task_id cycle_id (some to) text trimmed box after e =
    let ensured : Deliveries × Delivery =
      ensure_pending (clock 0) task_id cycle_id "wake_explanation" to box.deliveries in
    elim (Bool-cases (not has_notifier || not (leb 1 (units trimmed)))) [
      | inl silent ↦ let same : after ≡ box = ground arith in (rw same (omega arith), inl same)
      | inr speaks ↦ (
        elim (Bool-cases (is_delivered (some ensured.1))) [
          | inl done ↦
              let same : after ≡ record box { deliveries = ensured.0 } = ground arith in
              rw same (omega arith)
          | inr owed ↦
              explain_loop-sent notify clock
                (record { destination = to; text = cut 4000 text; delivery_id = ensured.1.id }) 3 0
                (record box { deliveries = ensured.0 }) after (ground arith)
        ],
        inr (refl, ground arith, ground arith),
      )
    ]
