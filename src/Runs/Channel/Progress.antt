-- ===== src/Runs/Channel/Progress.antt =====
-- The channel does not get stuck: it always drains, and wakes those who wait.
use mathlib.Core.List.{append_assoc, append-nil}
use alfred_ai.Base.{
  ℕ, zero, suc, ◌≤◌, ◌≡◌, refl, ◌∙◌, sym, ap, true, false, Option, none, List, [], ◌∷◌, ◌++◌, arith,
  inl, inr, ◌⊎◌, Bool-cases, Option-cases, leb, ltb, length, defined,
}
use alfred_ai.Runs.Channel.{
  RunEventChannel, new_channel, flush_next, schedule_flush, wait_for_capacity,
  notify_capacity_waiters, sink_settled, look_again, enqueue_event, flush, ChannelStep, pushes,
  looks_again, enqueues, settles, flushes, channel_step, channel_steps, max_buffered_events,
  low_watermark,
}
use alfred_ai.Runs.Channel.Options.{bounds_lem}

module _ {E : Type 0} where
  -- An event is at the sink, or nothing is queued and nobody waits.
  abbrev AtSink : RunEventChannel E → Type 0
  AtSink s = (s.flushing ≡ true) × (defined s.in_flight ≡ true)

  abbrev pub AtRest : RunEventChannel E → Type 0
  AtRest s =
      (s.flushing ≡ false)
      × (s.in_flight ≡ none)
      × (s.queue ≡ [])
      × (s.waiting ≡ [])
      × (s.idle_waiters ≡ 0)

  abbrev IsLive : RunEventChannel E → Type 0
  IsLive s = AtSink s ⊎ AtRest s

  -- The sink ends as often as needed.
  abbrev pub settled : ℕ → List (ChannelStep E)
  settled zero = []
  settled (suc n) = settles ∷ settled n

  module _ (capacity low : ℕ) (roomy : 1 ≤ capacity) (above_zero : 1 ≤ low) where
    push-IsLive :
        (x : E) (s : RunEventChannel E) → IsLive s → IsLive (wait_for_capacity capacity low x s)
    unfolding wait_for_capacity
    push-IsLive x s h = elim (Bool-cases (leb capacity (length s.queue))) [
      | inr room ↦ rw (room, wait_for_capacity) h
      | inl full ↦ elim h [
        | inl busy ↦ rw (full, wait_for_capacity) (inl busy)
        | inr (a, b, empty, c, d) ↦
            let none_there : length s.queue ≡ 0 = ap length empty in absurd (ground arith)
      ]
    ]

    look_again-IsLive :
        (woken : List E) (s : RunEventChannel E)
        → IsLive s
        → IsLive (look_again capacity low woken s)
    unfolding look_again
    look_again-IsLive [] s h = h
    look_again-IsLive (x ∷ rest) s h = push-IsLive x (record s { woken = rest }) h

    enqueue-IsLive :
        (admitted : List E) (s : RunEventChannel E) → IsLive s → IsLive (enqueue_event admitted s)
    unfolding enqueue_event schedule_flush
    enqueue-IsLive [] s h = h
    enqueue-IsLive (x ∷ rest) s (inl (flushing, busy)) =
        rw (flushing, enqueue_event, schedule_flush) (inl (refl, busy))
    enqueue-IsLive (x ∷ rest) s (inr (idle, a, empty, c, d)) =
        rw (idle, empty, enqueue_event, schedule_flush) (inl (refl, refl))

    flush-IsLive : (s : RunEventChannel E) → IsLive s → IsLive (flush s)
    unfolding flush schedule_flush
    flush-IsLive s (inl (flushing, busy)) = rw (flushing, flush, schedule_flush) (inl (refl, busy))
    flush-IsLive s (inr (idle, a, empty, c, d)) =
        rw (idle, empty, flush) (inr (refl, a, refl, c, d))

    flush_next-IsLive :
        (queue : List E) (s : RunEventChannel E)
        → s.queue ≡ queue
        → s.flushing ≡ true
        → (queue ≡ [] → s.waiting ≡ [])
        → IsLive (flush_next queue s)
    flush_next-IsLive [] s e busy none_wait = inr (refl, refl, e, none_wait refl, refl)
    flush_next-IsLive (x ∷ rest) s e busy none_wait = inl (busy, refl)

    sink_settled-IsLive :
        (s : RunEventChannel E) → s.flushing ≡ true → IsLive (sink_settled capacity low s)
    unfolding sink_settled notify_capacity_waiters
    sink_settled-IsLive s busy = elim (Bool-cases (ltb low (length s.queue))) [
      | inl above ↦
          rw (above, sink_settled, notify_capacity_waiters)
            (flush_next-IsLive s.queue s refl busy (λ empty.
              let none_there : length s.queue ≡ 0 = ap length empty in absurd (ground arith)))
      | inr below ↦
          rw (below, sink_settled, notify_capacity_waiters)
            (flush_next-IsLive s.queue (record s { woken = s.woken ++ s.waiting; waiting = [] })
              refl busy (λ empty. refl))
    ]

    step-IsLive :
        (s : RunEventChannel E) (step : ChannelStep E)
        → IsLive s
        → IsLive (channel_step capacity low s step)
    unfolding channel_step
    step-IsLive s (pushes x) h = push-IsLive x s h
    step-IsLive s looks_again h = look_again-IsLive s.woken s h
    step-IsLive s enqueues h = enqueue-IsLive s.admitted s h
    step-IsLive s settles h = elim (Option-cases s.in_flight) [
      | inl rests ↦ rw (rests, channel_step) h
      | inr (x, busy) ↦
          let flushing : s.flushing ≡ true = ground arith in
          rw (busy, channel_step) (sink_settled-IsLive s flushing)
    ]
    step-IsLive s flushes h = flush-IsLive s h

    pub steps-IsLive :
        (steps : List (ChannelStep E)) (s : RunEventChannel E)
        → IsLive s
        → IsLive (channel_steps capacity low s steps)
    unfolding channel_steps
    steps-IsLive [] s h = h
    steps-IsLive (step ∷ steps) s h =
        steps-IsLive steps (channel_step capacity low s step) (step-IsLive s step h)

    flush_next_rests :
        (queue : List E) (s : RunEventChannel E)
        → s.queue ≡ queue
        → queue ≡ []
        → s.waiting ≡ []
        → AtRest (flush_next queue s) × ((flush_next queue s).sunk ≡ s.sunk)
    flush_next_rests [] s e empty none_wait = ((refl, refl, e, none_wait, refl), refl)
    flush_next_rests (x ∷ rest) s e empty none_wait = cc

    sink_settled_rests :
        (s : RunEventChannel E)
        → s.queue ≡ []
        → AtRest (sink_settled capacity low s) × ((sink_settled capacity low s).sunk ≡ s.sunk)
    unfolding sink_settled notify_capacity_waiters
    sink_settled_rests s empty =
        let none_there : length s.queue ≡ 0 = ap length empty in
        let below : ltb low (length s.queue) ≡ false = ground arith in
        rw (below, sink_settled, notify_capacity_waiters)
          (flush_next_rests s.queue (record s { woken = s.woken ++ s.waiting; waiting = [] }) refl
            empty refl)

    flush_next_goes :
        (queue : List E) (x : E) (rest : List E) (s : RunEventChannel E)
        → queue ≡ x ∷ rest
        → ((flush_next queue s).queue ≡ rest) × ((flush_next queue s).sunk ≡ s.sunk ++ (x ∷ []))
    flush_next_goes [] x rest s e = cc
    flush_next_goes (y ∷ queue) x rest s e =
        let first : y ≡ x = cc in
        let others : queue ≡ rest = cc in (others, ap (λ z. s.sunk ++ (z ∷ [])) first)

    sink_settled_goes :
        (x : E) (rest : List E) (s : RunEventChannel E)
        → s.queue ≡ x ∷ rest
        → ((sink_settled capacity low s).queue ≡ rest)
          × ((sink_settled capacity low s).sunk ≡ s.sunk ++ (x ∷ []))
    unfolding sink_settled notify_capacity_waiters
    sink_settled_goes x rest s e = elim (Bool-cases (ltb low (length s.queue))) [
      | inl above ↦
          rw (above, sink_settled, notify_capacity_waiters) (flush_next_goes s.queue x rest s e)
      | inr below ↦
          rw (below, sink_settled, notify_capacity_waiters)
            (flush_next_goes s.queue x rest
              (record s { woken = s.woken ++ s.waiting; waiting = [] }) e)
    ]

    settles_lem :
        (s : RunEventChannel E)
        → defined s.in_flight ≡ true
        → channel_step capacity low s settles ≡ sink_settled capacity low s
    unfolding channel_step
    settles_lem s busy = ground arith

    rests_lem :
        (s : RunEventChannel E) → s.in_flight ≡ none → channel_step capacity low s settles ≡ s
    unfolding channel_step
    rests_lem s rests = ground arith

    drains :
        (queue : List E) (s : RunEventChannel E)
        → s.queue ≡ queue
        → IsLive s
        → AtRest (channel_steps capacity low s (settled (suc (length queue))))
          × ((channel_steps capacity low s (settled (suc (length queue)))).sunk ≡ s.sunk ++ queue)
    unfolding channel_steps
    drains [] s e (inl (flushing, busy)) =
        let (rest, sunk) = sink_settled_rests s e in
        rw (settles_lem s busy) (rest, sunk ∙ sym (append-nil s.sunk))
    drains [] s e (inr (idle, a, empty, c, d)) =
        rw (rests_lem s a) ((idle, a, empty, c, d), sym (append-nil s.sunk))
    drains (x ∷ rest) s e (inl (flushing, busy)) =
        let (left, sunk) = sink_settled_goes x rest s e in
        let (end, all) =
          drains rest (sink_settled capacity low s) left (sink_settled-IsLive s flushing) in
        rw (channel_steps, settles_lem s busy)
          (end, all ∙ (ap (λ q. q ++ rest) sunk ∙ append_assoc s.sunk (x ∷ []) rest))
    drains (x ∷ rest) s e (inr (idle, a, empty, c, d)) = cc

  -- Whatever the options, after any steps on a new channel, if the sink ends once more than there are
  -- events queued, the channel is at rest: the events that were queued are given to the sink, in
  -- order, nobody waits for room and no call of `flush` waits.
  pub channel_drains :
      (configured watermark : Option ℕ) (steps : List (ChannelStep E))
      → let capacity = max_buffered_events configured in
        let low = low_watermark capacity watermark in
        let s = channel_steps capacity low new_channel steps in
        let t = channel_steps capacity low s (settled (suc (length s.queue))) in
        AtRest t × (t.sunk ≡ s.sunk ++ s.queue)
  channel_drains configured watermark steps =
      let capacity = max_buffered_events configured in
      let low = low_watermark capacity watermark in
      let (large, above_zero, gap) = bounds_lem configured watermark in
      let roomy : 1 ≤ capacity = omega (arith, large) in
      let s = channel_steps capacity low new_channel steps in
      let live =
        steps-IsLive capacity low roomy above_zero steps new_channel
          (inr (refl, refl, refl, refl, refl)) in
      drains capacity low roomy above_zero s.queue s refl live
