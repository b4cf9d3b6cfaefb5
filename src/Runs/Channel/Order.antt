-- ===== src/Runs/Channel/Order.antt =====
-- Where every push finds room, the events go to the sink in the order in which they were pushed.
use mathlib.Core.List.{append_assoc, append-nil}
use alfred_ai.Base.{
  ℕ, ◌+◌, ◌<◌, ◌≡◌, refl, ◌∙◌, sym, ap, true, false, List, [], ◌∷◌, ◌++◌, arith, inl, inr,
  Bool-cases, Option-cases, leb, ltb, length, not, ◌&&◌, subst,
}
use alfred_ai.Runs.Channel.{
  RunEventChannel, new_channel, flush_next, schedule_flush, wait_for_capacity,
  notify_capacity_waiters, sink_settled, look_again, enqueue_event, flush, ChannelStep, pushes,
  looks_again, enqueues, settles, flushes, channel_step, channel_steps,
}
use alfred_ai.Runs.Channel.Conservation.{pushed}

module _ {E : Type 0} where
  -- What has found room, in the order in which it goes to the sink.
  abbrev pub in_order : RunEventChannel E → List E
  in_order s = (s.sunk ++ s.queue) ++ s.admitted

  -- No call waits for room, or was woken and has not looked again.
  abbrev pub NoneParked : RunEventChannel E → Type 0
  NoneParked s = (s.waiting ≡ []) × (s.woken ≡ [])

  -- The two hold the same events, in the same places but for the queue and the sink.
  record HoldsAs (s t : RunEventChannel E) : Type 0 where
    buffer : s.sunk ++ s.queue ≡ t.sunk ++ t.queue
    admitted : s.admitted ≡ t.admitted
    waiting : s.waiting ≡ t.waiting
    woken : s.woken ≡ t.woken

  flush_next-HoldsAs :
      (queue : List E) (s : RunEventChannel E) → s.queue ≡ queue → HoldsAs (flush_next queue s) s
  flush_next-HoldsAs [] s e = record {
    buffer = refl;
    admitted = refl;
    waiting = refl;
    woken = refl;
  }
  flush_next-HoldsAs (x ∷ rest) s e = record {
    buffer = append_assoc s.sunk (x ∷ []) rest ∙ ap (λ q. s.sunk ++ q) (sym e);
    admitted = refl;
    waiting = refl;
    woken = refl;
  }

  schedule_flush-HoldsAs : (s : RunEventChannel E) → HoldsAs (schedule_flush s) s
  unfolding schedule_flush
  schedule_flush-HoldsAs s = elim (Bool-cases s.flushing) [
    | inl busy ↦
        let same : schedule_flush s ≡ s = ground arith in
        subst (λ t. HoldsAs t s) (sym same)
          (record { buffer = refl; admitted = refl; waiting = refl; woken = refl })
    | inr free ↦
        let t : RunEventChannel E = record s { flushing = true } in
        let same : schedule_flush s ≡ flush_next s.queue t = ground arith in
        let h = flush_next-HoldsAs s.queue t refl in
        subst (λ u. HoldsAs u s) (sym same)
          (record {
            buffer = h.buffer;
            admitted = h.admitted;
            waiting = h.waiting;
            woken = h.woken;
          })
  ]

  -- Every push finds room in the queue.
  abbrev pub Room : ℕ → RunEventChannel E → ChannelStep E → Type 0
  Room capacity s (pushes event) = length s.queue < capacity
  Room capacity s _ = Unit

  abbrev pub NeverFull : ℕ → ℕ → RunEventChannel E → List (ChannelStep E) → Type 0
  NeverFull capacity low s [] = Unit
  NeverFull capacity low s (step ∷ steps) =
      Room capacity s step × NeverFull capacity low (channel_step capacity low s step) steps

  -- Nothing is parked, and `events` are those in order.
  abbrev IsKept : List E → RunEventChannel E → Type 0
  IsKept events s = NoneParked s × (in_order s ≡ events)

  push-IsKept :
      (capacity low : ℕ) (events : List E) (x : E) (s : RunEventChannel E)
      → length s.queue < capacity
      → IsKept events s
      → IsKept (events ++ (x ∷ [])) (wait_for_capacity capacity low x s)
  unfolding wait_for_capacity
  push-IsKept capacity low events x s room (parked, e) =
      let free : leb capacity (length s.queue) ≡ false = ground arith in
      rw (free, wait_for_capacity)
        (
          parked,
          sym (append_assoc (s.sunk ++ s.queue) s.admitted (x ∷ [])) ∙ ap (λ q. q ++ (x ∷ [])) e,
        )

  IsKept-HoldsAs :
      (events : List E) (s t : RunEventChannel E) → HoldsAs s t → IsKept events t → IsKept events s
  IsKept-HoldsAs events s t h ((none_waiting, none_woken), e) = (
    (h.waiting ∙ none_waiting, h.woken ∙ none_woken),
    ap (λ q. q ++ s.admitted) h.buffer ∙ (ap (λ q. (t.sunk ++ t.queue) ++ q) h.admitted ∙ e),
  )

  enqueue-IsKept :
      (events admitted : List E) (s : RunEventChannel E)
      → s.admitted ≡ admitted
      → IsKept events s
      → IsKept events (enqueue_event admitted s)
  unfolding enqueue_event
  enqueue-IsKept events [] s a h = h
  enqueue-IsKept events (x ∷ rest) s a (parked, e) =
      let t : RunEventChannel E = record s { admitted = rest; queue = s.queue ++ (x ∷ []) } in
      IsKept-HoldsAs events (schedule_flush t) t (schedule_flush-HoldsAs t) (
        parked,
        ap (λ q. q ++ rest) (sym (append_assoc s.sunk s.queue (x ∷ [])))
            ∙ append_assoc (s.sunk ++ s.queue) (x ∷ []) rest
            ∙ ap (λ q. (s.sunk ++ s.queue) ++ q) (sym a)
            ∙ e,
      )

  look_again-IsKept :
      (capacity low : ℕ) (events woken : List E) (s : RunEventChannel E)
      → s.woken ≡ woken
      → IsKept events s
      → IsKept events (look_again capacity low woken s)
  unfolding look_again
  look_again-IsKept capacity low events [] s w h = h
  look_again-IsKept capacity low events (x ∷ rest) s w ((none_waiting, none_woken), e) = cc

  sink_settled-IsKept :
      (capacity low : ℕ) (events : List E) (s : RunEventChannel E)
      → IsKept events s
      → IsKept events (sink_settled capacity low s)
  unfolding sink_settled notify_capacity_waiters
  sink_settled-IsKept capacity low events s ((none_waiting, none_woken), e) =
      elim (Bool-cases (ltb low (length s.queue))) [
        | inl above ↦
            rw (above, sink_settled, notify_capacity_waiters)
              (IsKept-HoldsAs events _ s (flush_next-HoldsAs s.queue s refl)
                ((none_waiting, none_woken), e))
        | inr below ↦
            let t : RunEventChannel E = record s { woken = s.woken ++ s.waiting; waiting = [] } in
            let none_left : s.woken ++ s.waiting ≡ [] = rw (none_woken, none_waiting) refl in
            rw (below, sink_settled, notify_capacity_waiters)
              (IsKept-HoldsAs events _ t (flush_next-HoldsAs s.queue t refl) ((refl, none_left), e))
      ]

  flush-IsKept :
      (events : List E) (s : RunEventChannel E) → IsKept events s → IsKept events (flush s)
  unfolding flush
  flush-IsKept events s h = elim (Bool-cases (not s.flushing && leb (length s.queue) 0)) [
    | inl idle ↦ rw (idle, flush) h
    | inr busy ↦
        let t : RunEventChannel E = record s { idle_waiters = s.idle_waiters + 1 } in
        rw (busy, flush) (IsKept-HoldsAs events (schedule_flush t) t (schedule_flush-HoldsAs t) h)
  ]

  settles-IsKept :
      (capacity low : ℕ) (events : List E) (s : RunEventChannel E)
      → IsKept events s
      → IsKept events (channel_step capacity low s settles)
  unfolding channel_step
  settles-IsKept capacity low events s h = elim (Option-cases s.in_flight) [
    | inl rests ↦ rw (rests, channel_step) h
    | inr (x, busy) ↦ rw (busy, channel_step) (sink_settled-IsKept capacity low events s h)
  ]

  steps-IsKept :
      (capacity low : ℕ) (events : List E) (steps : List (ChannelStep E)) (s : RunEventChannel E)
      → NeverFull capacity low s steps
      → IsKept events s
      → IsKept (events ++ pushed steps) (channel_steps capacity low s steps)
  unfolding channel_steps channel_step
  steps-IsKept capacity low events [] s room h = subst (λ q. IsKept q s) (sym (append-nil events)) h
  steps-IsKept capacity low events (pushes x ∷ steps) s (room, later) h =
      subst (λ q. IsKept q (channel_steps capacity low (wait_for_capacity capacity low x s) steps))
        (append_assoc events (x ∷ []) (pushed steps))
        (steps-IsKept capacity low (events ++ (x ∷ [])) steps _ later
          (push-IsKept capacity low events x s room h))
  steps-IsKept capacity low events (looks_again ∷ steps) s (room, later) h =
      steps-IsKept capacity low events steps _ later
        (look_again-IsKept capacity low events s.woken s refl h)
  steps-IsKept capacity low events (enqueues ∷ steps) s (room, later) h =
      steps-IsKept capacity low events steps _ later (enqueue-IsKept events s.admitted s refl h)
  steps-IsKept capacity low events (settles ∷ steps) s (room, later) h =
      steps-IsKept capacity low events steps _ later (settles-IsKept capacity low events s h)
  steps-IsKept capacity low events (flushes ∷ steps) s (room, later) h =
      steps-IsKept capacity low events steps _ later (flush-IsKept events s h)

  -- If every push finds room in the queue when it looks, no call is ever parked, and the events
  -- given to the sink, those queued and those admitted are all that were pushed, in this order.
  events_in_order :
      (capacity low : ℕ) (steps : List (ChannelStep E))
      → NeverFull capacity low new_channel steps
      → let s = channel_steps capacity low new_channel steps in
        NoneParked s × (in_order s ≡ pushed steps)
  events_in_order capacity low steps room =
      steps-IsKept capacity low [] steps new_channel room ((refl, refl), refl)
