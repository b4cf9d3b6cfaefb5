-- ===== src/Scheduler/Reminder/Sending.antt =====
-- What the reminder executor sends, and what it concludes.
use alfred_ai.Base.{
  ℕ, zero, suc, ◌+◌, ◌≤◌, String, ◌≡◌, refl, ◌∙◌, sym, ap, subst, Bool, true, false, Option, none,
  some, ◌∷◌, ok, arith, inl, inr, ◌⊎◌, Bool-cases, Option-cases, Result-cases, >>=-eq-ok, length,
  ltb, if◌then◌else◌,
}
use alfred_ai.Scheduler.Model.{Task, NotificationDestination}
use alfred_ai.Scheduler.Deliveries.{
  delivered, Delivery, Deliveries, find_delivery, replace_delivery, ensure_pending, claim_sending,
  mark_delivered, mark_failed, delivery_id,
}
use alfred_ai.Scheduler.Deliveries.Laws.{
  find_delivery-id, find_delivery-replace, ensure_pending-find,
}
use alfred_ai.Scheduler.Reminder.{
  OutboundNotification, Outbox, Ending, completing, failing, is_delivered, settle, send_loop,
  max_attempts_of, complete_reminder, fail_reminder, reminder_of, reminder_message, execute,
}

abbrev pub IsDelivered : String → Deliveries → Type 0
IsDelivered id ds = is_delivered (find_delivery id ds) ≡ true

pub marked-IsDelivered :
    (now : ℕ) (id : String) (message : Option String) (ds : Deliveries) (r : Deliveries × Delivery)
    → mark_delivered now id message ds ≡ ok r
    → IsDelivered id r.0
unfolding mark_delivered
marked-IsDelivered now id message ds r e = elim (Option-cases (find_delivery id ds)) [
  | inl absent ↦ ground arith
  | inr (d, found) ↦
      let d' : Delivery = record d {
        status = delivered;
        delivered_at = some now;
        updated_at = now;
        external_message_id = message;
        safe_error_code = none;
      } in
      let all : r ≡ (replace_delivery id d' ds, d') = ground arith in
      let there = find_delivery-replace id d' d ds (find_delivery-id id ds d found) found in
      rw all (ap is_delivered there)
]

settle-IsDelivered :
    (now : ℕ) (id : String) (r : Option (Option String)) (ds : Deliveries) (out : Deliveries × Bool)
    → settle now id r ds ≡ ok out
    → out.1 ≡ true
    → IsDelivered id out.0
unfolding settle mark_failed
settle-IsDelivered now id none ds out e h = elim (Option-cases (find_delivery id ds)) [
  | inl absent ↦ ground arith
  | inr (d, found) ↦ ground arith
]
settle-IsDelivered now id (some message) ds out e h =
    elim (Result-cases (mark_delivered now id message ds)) [
      | inl (r, marked) ↦
          let moved : out.0 ≡ r.0 = ground arith in
          rw moved (marked-IsDelivered now id message ds r marked)
      | inr (x, lost) ↦ ground arith
    ]

module _ (notify : ℕ → Option (Option String)) (clock : ℕ → ℕ)
    (message : OutboundNotification) where
  abbrev Attempts : ℕ → ℕ → Outbox → Outbox → Bool → Type 0
  Attempts remaining attempt box after done =
      send_loop notify clock message remaining attempt box ≡ ok (after, done)

  -- What one round of the loop comes to.
  round_cases :
      (remaining attempt : ℕ) (box after : Outbox) (done : Bool)
      → Attempts (suc remaining) attempt box after done
      → ((IsDelivered message.delivery_id box.deliveries) × (after ≡ box) × (done ≡ true))
        ⊎ (Attempts remaining (attempt + 1) box after done)
        ⊎ ((ds : Deliveries) × (ok_now : Bool) × (settle
                (clock attempt)
                message.delivery_id
                (notify (length box.sent))
                (claim_sending (clock attempt) message.delivery_id (ltb 0 attempt) box.deliveries).0
              ≡ ok (ds, ok_now))
            × (((ok_now ≡ true)
                  × (done ≡ true)
                  × (after ≡ record { deliveries = ds; sent = message ∷ box.sent }))
                ⊎ Attempts remaining
                    (attempt + 1)
                    (record { deliveries = ds; sent = message ∷ box.sent })
                    after
                    done))
  unfolding send_loop
  round_cases remaining attempt box after done e =
      elim (Bool-cases (is_delivered (find_delivery message.delivery_id box.deliveries))) [
        | inl there ↦ inl (there, ground arith, ground arith)
        | inr missing ↦
            elim (Option-cases
              (claim_sending (clock attempt) message.delivery_id (ltb 0 attempt)
                box.deliveries).1) [
                  | inl refused ↦ inr (inl (ground arith))
                  | inr (d, granted) ↦
                      elim (Result-cases (
                        settle (clock attempt) message.delivery_id (notify (length box.sent))
                          (claim_sending (clock attempt) message.delivery_id (ltb 0 attempt)
                            box.deliveries).0)) [
                              | inr (x, lost) ↦ inr (inl (ground arith))
                              | inl ((ds, b), settled) ↦ inr (
                                  inr (
                                    ds,
                                    b,
                                    settled,
                                    elim (Bool-cases b) [
                                      | inl now_done ↦ inl (now_done, ground arith, ground arith)
                                      | inr again ↦ inr (ground arith)
                                    ],
                                  ))
                            ]
                ]
      ]

  send_loop-sent :
      (remaining attempt : ℕ) (box after : Outbox) (done : Bool)
      → Attempts remaining attempt box after done
      → (length after.sent ≤ length box.sent + remaining) × (length box.sent ≤ length after.sent)
  unfolding send_loop
  send_loop-sent zero attempt box after done e =
      let same : after ≡ box = ground arith in rw same (omega arith, omega arith)
  send_loop-sent (suc remaining) attempt box after done e =
      elim (round_cases remaining attempt box after done e) [
        | inl (_, same, _) ↦ rw same (omega arith, omega arith)
        | inr (inl later) ↦
            let (most, least) = send_loop-sent remaining (attempt + 1) box after done later in
            (omega arith, least)
        | inr (inr (ds, b, _, inl (_, _, same))) ↦ rw same (omega arith, omega arith)
        | inr (inr (ds, b, _, inr later)) ↦
            let (most, least) = send_loop-sent remaining (attempt + 1) _ after done later in
            (omega arith, omega arith)
      ]

  send_loop-IsDelivered :
      (remaining attempt : ℕ) (box after : Outbox) (done : Bool)
      → Attempts remaining attempt box after done
      → done ≡ true
      → IsDelivered message.delivery_id after.deliveries
  unfolding send_loop
  send_loop-IsDelivered zero attempt box after done e h = ground arith
  send_loop-IsDelivered (suc remaining) attempt box after done e h =
      elim (round_cases remaining attempt box after done e) [
        | inl (there, same, _) ↦ rw same there
        | inr (inl later) ↦ send_loop-IsDelivered remaining (attempt + 1) box after done later h
        | inr (inr (ds, b, settled, inl (now_done, _, same))) ↦
            rw same
              (settle-IsDelivered (clock attempt) message.delivery_id _ _ (ds, b) settled now_done)
        | inr (inr (ds, b, settled, inr later)) ↦
            send_loop-IsDelivered remaining (attempt + 1) _ after done later h
      ]

  send_loop_once :
      (remaining attempt : ℕ) (box : Outbox)
      → 1 ≤ remaining
      → IsDelivered message.delivery_id box.deliveries
      → Attempts remaining attempt box box true
  unfolding send_loop
  send_loop_once zero attempt box le h = absurd (omega arith)
  send_loop_once (suc remaining) attempt box le h = ground arith

-- How an execution that does not throw came about.
execute-parts :
    (notify : ℕ → Option (Option String)) (clock : ℕ → ℕ) (max_attempts : Option ℕ) (t : Task)
    (cycle_id : String) (box after : Outbox) (e : Ending)
    → execute notify clock max_attempts t cycle_id box ≡ ok (after, e)
    → (text : String) × (to : NotificationDestination) × (done : Bool)
      × (message : OutboundNotification) × (message.delivery_id
          ≡ (ensure_pending (clock 0) t.id cycle_id "reminder" to box.deliveries).1.id)
      × (send_loop notify clock message (max_attempts_of max_attempts) 0 (record box {
        deliveries = (ensure_pending (clock 0) t.id cycle_id "reminder" to box.deliveries).0;
      })
          ≡ ok (after, done))
      × (e ≡ (
          if done
          then complete_reminder (clock (max_attempts_of max_attempts)) t cycle_id
          else fail_reminder t cycle_id))
unfolding execute
execute-parts notify clock max_attempts t cycle_id box after e h =
    let ((text, to), named, h') = >>=-eq-ok (reminder_of t) _ h in
    let ((after', done), sent, h'') =
      >>=-eq-ok (send_loop notify clock _ (max_attempts_of max_attempts) 0 _) _ h' in
    let same : after' ≡ after = cc in
    (text, to, done, _, refl, sent ∙ ap (λ x. ok (x, done)) same, cc)

-- What the ending of an execution says.
abbrev pub IsCompleting : Ending → Type 0
IsCompleting (completing input) = Unit
IsCompleting (failing input) = ⊥

ending-done :
    (done : Bool) (c f : Ending) (e : Ending)
    → e ≡ (if done then c else f)
    → ¬ IsCompleting f
    → IsCompleting e
    → done ≡ true
ending-done true c f e p n h = refl
ending-done false c f e p n h = absurd (n (subst IsCompleting p h))

fail_reminder-failing : (t : Task) (cycle_id : String) → ¬ IsCompleting (fail_reminder t cycle_id)
unfolding fail_reminder
fail_reminder-failing t cycle_id h = h

max_attempts-bounds :
    (given : Option ℕ) → (1 ≤ max_attempts_of given) × (max_attempts_of given ≤ 10)
unfolding max_attempts_of
max_attempts-bounds given = (omega arith, omega arith)

ensured-id :
    (now : ℕ) (task_id cycle_id purpose : String) (to : NotificationDestination) (ds : Deliveries)
    → (ensure_pending now task_id cycle_id purpose to ds).1.id
      ≡ delivery_id task_id cycle_id purpose
ensured-id now task_id cycle_id purpose to ds =
    let (d, found, same, _) = ensure_pending-find now task_id cycle_id purpose to ds in
    rw same (find_delivery-id _ _ d found)

-- Executing a reminder hands the notifier at most ten messages, and no more than it was
-- allowed; none is taken back.
pub execute-sends :
    (notify : ℕ → Option (Option String)) (clock : ℕ → ℕ) (max_attempts : Option ℕ) (t : Task)
    (cycle_id : String) (box after : Outbox) (e : Ending)
    → execute notify clock max_attempts t cycle_id box ≡ ok (after, e)
    → (length after.sent ≤ length box.sent + max_attempts_of max_attempts)
      × (max_attempts_of max_attempts ≤ 10)
      × (length box.sent ≤ length after.sent)
execute-sends notify clock max_attempts t cycle_id box after e h =
    let (_, _, done, message, _, sent, _) =
      execute-parts notify clock max_attempts t cycle_id box after e h in
    let (most, least) = send_loop-sent notify clock message _ 0 _ after done sent in
    (most, (max_attempts-bounds max_attempts).1, least)

-- An execution that completes the task has its delivery marked as delivered.
execute-IsDelivered :
    (notify : ℕ → Option (Option String)) (clock : ℕ → ℕ) (max_attempts : Option ℕ) (t : Task)
    (cycle_id : String) (box after : Outbox) (e : Ending)
    → execute notify clock max_attempts t cycle_id box ≡ ok (after, e)
    → IsCompleting e
    → IsDelivered (delivery_id t.id cycle_id "reminder") after.deliveries
execute-IsDelivered notify clock max_attempts t cycle_id box after e h c =
    let (_, to, done, message, named, sent, ending) =
      execute-parts notify clock max_attempts t cycle_id box after e h in
    let all = ending-done done _ _ e ending (fail_reminder-failing t cycle_id) c in
    let there = send_loop-IsDelivered notify clock message _ 0 _ after done sent all in
    subst (λ id. IsDelivered id after.deliveries)
      (named ∙ ensured-id (clock 0) t.id cycle_id "reminder" to box.deliveries) there

ensured_found :
    (now : ℕ) (task_id cycle_id purpose : String) (to : NotificationDestination) (ds : Deliveries)
    (d : Delivery)
    → find_delivery (delivery_id task_id cycle_id purpose) ds ≡ some d
    → ensure_pending now task_id cycle_id purpose to ds ≡ (ds, d)
unfolding ensure_pending
ensured_found now task_id cycle_id purpose to ds d e = rw (e, ensure_pending)

-- A reminder whose delivery for this cycle is already marked as delivered is not sent again, however
-- the notifier would answer: the execution sends nothing, changes no delivery, and completes the task.
execute_once :
    (notify : ℕ → Option (Option String)) (clock : ℕ → ℕ) (max_attempts : Option ℕ) (t : Task)
    (cycle_id text : String) (to : NotificationDestination) (box : Outbox)
    → reminder_of t ≡ ok (text, to)
    → IsDelivered (delivery_id t.id cycle_id "reminder") box.deliveries
    → execute notify clock max_attempts t cycle_id box
      ≡ ok (box, complete_reminder (clock (max_attempts_of max_attempts)) t cycle_id)
unfolding execute
execute_once notify clock max_attempts t cycle_id text to box r h =
    elim (Option-cases (find_delivery (delivery_id t.id cycle_id "reminder") box.deliveries)) [
      | inl absent ↦ cc (sym h, ap is_delivered absent)
      | inr (d, found) ↦
          let ensured =
            ensured_found (clock 0) t.id cycle_id "reminder" to box.deliveries d found in
          let same : d.id ≡ delivery_id t.id cycle_id "reminder" = find_delivery-id _ _ d found in
          let there : IsDelivered d.id box.deliveries = rw same h in
          let loop =
            send_loop_once notify clock (reminder_message text to d.id)
              (max_attempts_of max_attempts) 0 box (max_attempts-bounds max_attempts).0 there in
          rw (r, ensured, loop)
    ]
