-- ===== src/Scheduler/Watch/Notices.antt =====
-- The notices of a watch: how many are sent, and that a watch ends with one.

use alfred_ai.Base.{
  ℕ, ◌+◌, ◌≤◌, String, ◌≡◌, refl, ◌∙◌, sym, ap, subst, Bool, true, not, ◌&&◌, defined, Option, none,
  some, ◌∷◌, Result, ok, err, arith, inl, inr, Bool-cases, Option-cases, Result-cases, length,
}
use alfred_ai.Scheduler.Model.{Task}
use alfred_ai.Scheduler.Create.{is_watch}
use alfred_ai.Scheduler.Deliveries.{
  Delivery, Deliveries, delivery_id, find_delivery, ensure_pending, claim_sending, mark_delivered,
  mark_failed,
}
use alfred_ai.Scheduler.Deliveries.Laws.{find_delivery-id, ensure_pending-find}
use alfred_ai.Scheduler.Reminder.{Outbox, is_delivered}
use alfred_ai.Scheduler.Reminder.Sending.{IsDelivered, marked-IsDelivered}
use alfred_ai.Scheduler.Watch.{
  ProbeResult, is_unknown, WatchError, WatchEnding, completes_cycle, fails_cycle, wakes, reschedule,
  settle_notice, fail_notice, watch_message, after_notice, may_wake, notify_owner, is_herdr_watch,
  was_running, shows_idle, unknown_failure, execute_watch,
}

-- The notice of a watch, when `notify` returns.
settle_notice-lem :
    (now : ℕ) (id : String) (answer : Option (Option String)) (box : Outbox)
    → ((settle_notice now id answer box).0.sent ≡ box.sent)
      × ((settle_notice now id answer box).1 ≡ ok tt
          → IsDelivered id (settle_notice now id answer box).0.deliveries)
unfolding settle_notice fail_notice
settle_notice-lem now id none box =
    elim (Result-cases (mark_failed now id "notification_failed" box.deliveries)) [
      | inl (r, e) ↦ rw (e, settle_notice, fail_notice) (refl, λ h. cc)
      | inr (x, e) ↦ rw (e, settle_notice, fail_notice) (refl, λ h. cc)
    ]
settle_notice-lem now id (some message) box =
    elim (Result-cases (mark_delivered now id message box.deliveries)) [
      | inl (r, e) ↦
          rw (e, settle_notice) (refl, λ h. marked-IsDelivered now id message box.deliveries r e)
      | inr (x, e) ↦ elim (Result-cases (mark_failed now id "notification_failed" box.deliveries)) [
        | inl (r, f) ↦ rw (e, f, settle_notice, fail_notice) (refl, λ h. cc)
        | inr (y, f) ↦ rw (e, f, settle_notice, fail_notice) (refl, λ h. cc)
      ]
    ]

claim_sending-id :
    (now : ℕ) (id : String) (again : Bool) (ds : Deliveries) (d : Delivery)
    → (claim_sending now id again ds).1 ≡ some d
    → d.id ≡ id
unfolding claim_sending
claim_sending-id now id again ds d e = elim (Option-cases (find_delivery id ds)) [
  | inl absent ↦ ground arith
  | inr (c, found) ↦ let same : c.id ≡ id = find_delivery-id id ds c found in ground (arith, same)
]

module _ (notify : ℕ → Option (Option String)) (now : ℕ) (t : Task) (cycle_id : String)
    (o : ProbeResult) (box : Outbox) where
  notified : Outbox × Result WatchError (Unit {0})
  notified = notify_owner notify now t cycle_id o box

  notify_owner-lem :
      (length box.sent ≤ length notified.0.sent)
      × (length notified.0.sent ≤ length box.sent + 1)
      × (notified.1 ≡ ok tt
          → IsDelivered (delivery_id t.id cycle_id "watch_terminal") notified.0.deliveries)
  unfolding notified notify_owner
  notify_owner-lem = elim (Option-cases t.notification_destination) [
    | inl nowhere ↦ rw (nowhere, notified, notify_owner) (omega arith, omega arith, λ h. cc)
    | inr (to, there) ↦
        let id = delivery_id t.id cycle_id "watch_terminal" in
        let ensured : Deliveries × Delivery =
          ensure_pending now t.id cycle_id "watch_terminal" to box.deliveries in
        let (d, found, same, _) =
          ensure_pending-find now t.id cycle_id "watch_terminal" to box.deliveries in
        let named : ensured.1.id ≡ id =
          ap (λ x. x.id) same ∙ find_delivery-id id ensured.0 d found in
        elim (Bool-cases (is_delivered (some ensured.1))) [
          | inl done ↦
              rw (there, done, notified, notify_owner)
                (
                  omega arith,
                  omega arith,
                  λ h. ap is_delivered found ∙ ap (λ x. is_delivered (some x)) (sym same) ∙ done,
                )
          | inr owed ↦ elim (Option-cases (claim_sending now ensured.1.id true ensured.0).1) [
            | inl refused ↦
                rw (there, owed, refused, notified, notify_owner)
                  (omega arith, omega arith, λ h. cc)
            | inr (c, claimed) ↦
                let handed : Outbox = record {
                  deliveries = (claim_sending now ensured.1.id true ensured.0).0;
                  sent = watch_message t to c.id o ∷ box.sent;
                } in
                let sent = settle_notice-lem now c.id (notify (length box.sent)) handed in
                let id' : c.id ≡ id =
                  claim_sending-id now ensured.1.id true ensured.0 c claimed ∙ named in
                rw (there, owed, claimed, notified, notify_owner, sent.0)
                  (
                    omega arith,
                    omega arith,
                    λ h.
                        subst
                          (λ x.
                            IsDelivered x
                              (settle_notice now c.id (notify (length box.sent))
                                handed).0.deliveries)
                          id' (sent.1 h),
                  )
          ]
        ]
  ]

-- The ending leaves no further cycle to the watch, and no turn of the agent decides.
abbrev pub Ends : WatchEnding → Type 0
Ends (completes_cycle input) = input.next_due_at ≡ none
Ends (fails_cycle input) = input.retry_at ≡ none
Ends (wakes snapshot digest) = ⊥

after_notice-lem :
    (ending : WatchEnding) (p : Outbox × Result WatchError (Unit {0}))
    → ((after_notice ending p).0 ≡ p.0)
      × ((e : WatchEnding) → (after_notice ending p).1 ≡ ok e → p.1 ≡ ok tt)
after_notice-lem ending (box, ok tt) = (refl, λ e h. refl)
after_notice-lem ending (box, err x) = (refl, λ e h. cc)

module _ (notify : ℕ → Option (Option String)) (can_wake : Bool) (now : ℕ) (t : Task)
    (cycle_id : String) (o : ProbeResult) (box : Outbox) where
  -- At most one notice is sent, and an end of the watch has its notice marked as delivered.
  abbrev IsNoticed : Outbox × Result WatchError WatchEnding → Type 0
  IsNoticed (after, r) =
      (length box.sent ≤ length after.sent)
      × (length after.sent ≤ length box.sent + 1)
      × ((e : WatchEnding)
          → r ≡ ok e
          → Ends e
          → IsDelivered (delivery_id t.id cycle_id "watch_terminal") after.deliveries)

  goes_on : (first : WatchEnding) → ¬ Ends first → IsNoticed (box, ok first)
  goes_on first n = (
    omega arith,
    omega arith,
    λ e q h. let same : e ≡ first = cc in absurd (n (subst Ends same h)),
  )

  noticed :
      (first : WatchEnding)
      → IsNoticed (after_notice first (notify_owner notify now t cycle_id o box))
  unfolding notified
  noticed first =
      let (least, most, there) = notify_owner-lem notify now t cycle_id o box in
      let (same, done) = after_notice-lem first (notify_owner notify now t cycle_id o box) in
      (rw same least, rw same most, λ e q h. rw same (there (done e q)))

  reschedule-goes_on : ¬ Ends (completes_cycle (reschedule now t cycle_id o))
  unfolding reschedule
  reschedule-goes_on h = cc

  unknown-goes_on : ¬ Ends (fails_cycle (unknown_failure now t cycle_id o))
  unfolding unknown_failure
  unknown-goes_on h = cc

  execute_watch-IsNoticed : IsNoticed (execute_watch notify can_wake now t cycle_id o box)
  unfolding execute_watch
  execute_watch-IsNoticed = elim (Bool-cases (is_watch t.kind)) [
    | inr other ↦ rw (other, execute_watch) (omega arith, omega arith, λ e q h. cc)
    | inl k ↦ elim (Bool-cases (is_unknown o.status)) [
      | inl u ↦ rw (k, u, execute_watch) (goes_on _ unknown-goes_on)
      | inr known ↦
          elim (Bool-cases (
            is_herdr_watch t.watch_definition
            && (shows_idle o.snapshot && not (was_running t.last_observation_status)))) [
              | inl idle ↦ rw (k, known, idle, execute_watch) (goes_on _ reschedule-goes_on)
              | inr busy ↦
                  elim (Bool-cases
                    (o.terminal && (o.changed && (defined o.snapshot && may_wake can_wake t)))) [
                      | inl up ↦ rw (k, known, busy, up, execute_watch) (goes_on _ (λ h. h))
                      | inr down ↦ elim (Bool-cases o.terminal) [
                        | inl over ↦ rw (k, known, busy, down, over, execute_watch) (noticed _)
                        | inr more ↦
                            elim (Bool-cases (
                              not (is_herdr_watch t.watch_definition)
                              && (o.changed && may_wake can_wake t))) [
                                | inl up ↦
                                    rw (k, known, busy, down, more, up, execute_watch)
                                      (goes_on _ (λ h. h))
                                | inr quiet ↦
                                    rw (k, known, busy, down, more, quiet, execute_watch)
                                      (goes_on _ reschedule-goes_on)
                              ]
                      ]
                    ]
            ]
    ]
  ]

  -- An execution of a watch sends at most one notice, whether it throws or not.
  pub execute_watch-sends :
      (length box.sent ≤ length (execute_watch notify can_wake now t cycle_id o box).0.sent)
      × (length (execute_watch notify can_wake now t cycle_id o box).0.sent ≤ length box.sent + 1)
  execute_watch-sends = (execute_watch-IsNoticed.0, execute_watch-IsNoticed.1)

  -- An execution that ends the watch, by a completion without next date or a failure without a date
  -- to retry, has the notice of its cycle marked as delivered.
  pub execute_watch-IsDelivered :
      (e : WatchEnding)
      → (execute_watch notify can_wake now t cycle_id o box).1 ≡ ok e
      → Ends e
      → IsDelivered
          (delivery_id t.id cycle_id "watch_terminal")
          (execute_watch notify can_wake now t cycle_id o box).0.deliveries
  execute_watch-IsDelivered = execute_watch-IsNoticed.2
