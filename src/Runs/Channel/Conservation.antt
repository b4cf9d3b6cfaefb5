-- ===== src/Runs/Channel/Conservation.antt =====
-- No event is lost or doubled.

use alfred_ai.Base.{
  ℕ, ◌+◌, ◌≡◌, refl, ap, Bool, true, List, [], ◌∷◌, ◌++◌, arith, inl, inr, Bool-cases, Option-cases,
  leb, ltb, length, filter, not, ◌&&◌,
}
use alfred_ai.Runs.Channel.{
  RunEventChannel, new_channel, flush_next, schedule_flush, wait_for_capacity,
  notify_capacity_waiters, sink_settled, look_again, enqueue_event, flush, ChannelStep, pushes,
  looks_again, enqueues, settles, flushes, channel_step, channel_steps,
}

module _ {E : Type 0} where
  -- The events that are pushed, in this order.
  abbrev pub pushed : List (ChannelStep E) → List E
  pushed [] = []
  pushed (pushes event ∷ steps) = event ∷ pushed steps
  pushed (looks_again ∷ steps) = pushed steps
  pushed (enqueues ∷ steps) = pushed steps
  pushed (settles ∷ steps) = pushed steps
  pushed (flushes ∷ steps) = pushed steps

  -- How many of the events that a channel has taken pass a test, wherever they stand.
  abbrev pub count : (E → Bool) → List E → ℕ
  count p events = length (filter p events)

  abbrev pub count_held : (E → Bool) → RunEventChannel E → ℕ
  count_held p s =
      count p s.sunk + count p s.queue + count p s.admitted + count p s.waiting + count p s.woken

  count-append : (p : E → Bool) (xs ys : List E) → count p (xs ++ ys) ≡ count p xs + count p ys
  unfolding filter
  count-append p [] ys = omega arith
  count-append p (x ∷ xs) ys = ground (arith, count-append p xs ys)

  flush_next-count :
      (p : E → Bool) (queue : List E) (s : RunEventChannel E)
      → s.queue ≡ queue
      → count_held p (flush_next queue s) ≡ count_held p s
  flush_next-count p [] s e = refl
  flush_next-count p (x ∷ rest) s e =
      let held : count p s.queue ≡ count p (x ∷ rest) = ap (count p) e in
      omega (arith, held, count-append p s.sunk (x ∷ []), count-append p (x ∷ []) rest)

  schedule_flush-count :
      (p : E → Bool) (s : RunEventChannel E) → count_held p (schedule_flush s) ≡ count_held p s
  unfolding schedule_flush
  schedule_flush-count p s = elim (Bool-cases s.flushing) [
    | inl busy ↦ rw (busy, schedule_flush) refl
    | inr free ↦
        rw (free, schedule_flush) (flush_next-count p s.queue (record s { flushing = true }) refl)
  ]

  wait_for_capacity-count :
      (p : E → Bool) (capacity low : ℕ) (event : E) (s : RunEventChannel E)
      → count_held p (wait_for_capacity capacity low event s)
        ≡ count_held p s + count p (event ∷ [])
  unfolding wait_for_capacity
  wait_for_capacity-count p capacity low event s =
      elim (Bool-cases (leb capacity (length s.queue))) [
        | inl full ↦
            rw (full, wait_for_capacity) (omega (arith, count-append p s.waiting (event ∷ [])))
        | inr room ↦
            rw (room, wait_for_capacity) (omega (arith, count-append p s.admitted (event ∷ [])))
      ]

  look_again-count :
      (p : E → Bool) (capacity low : ℕ) (woken : List E) (s : RunEventChannel E)
      → s.woken ≡ woken
      → count_held p (look_again capacity low woken s) ≡ count_held p s
  unfolding look_again
  look_again-count p capacity low [] s e = refl
  look_again-count p capacity low (x ∷ rest) s e =
      let held : count p s.woken ≡ count p (x ∷ rest) = ap (count p) e in
      let looked = wait_for_capacity-count p capacity low x (record s { woken = rest }) in
      omega (arith, held, looked, count-append p (x ∷ []) rest)

  enqueue_event-count :
      (p : E → Bool) (admitted : List E) (s : RunEventChannel E)
      → s.admitted ≡ admitted
      → count_held p (enqueue_event admitted s) ≡ count_held p s
  unfolding enqueue_event
  enqueue_event-count p [] s e = refl
  enqueue_event-count p (x ∷ rest) s e =
      let held : count p s.admitted ≡ count p (x ∷ rest) = ap (count p) e in
      let queued =
        schedule_flush-count p (record s { admitted = rest; queue = s.queue ++ (x ∷ []) }) in
      omega (arith, held, queued, count-append p (x ∷ []) rest, count-append p s.queue (x ∷ []))

  sink_settled-count :
      (p : E → Bool) (capacity low : ℕ) (s : RunEventChannel E)
      → count_held p (sink_settled capacity low s) ≡ count_held p s
  unfolding sink_settled notify_capacity_waiters filter
  sink_settled-count p capacity low s = elim (Bool-cases (ltb low (length s.queue))) [
    | inl above ↦
        rw (above, sink_settled, notify_capacity_waiters) (flush_next-count p s.queue s refl)
    | inr below ↦
        let t : RunEventChannel E = record s { woken = s.woken ++ s.waiting; waiting = [] } in
        let next = flush_next-count p s.queue t refl in
        rw (below, sink_settled, notify_capacity_waiters)
          (omega (arith, next, count-append p s.woken s.waiting))
  ]

  flush-count : (p : E → Bool) (s : RunEventChannel E) → count_held p (flush s) ≡ count_held p s
  unfolding flush
  flush-count p s = elim (Bool-cases (not s.flushing && leb (length s.queue) 0)) [
    | inl idle ↦ rw (idle, flush) refl
    | inr busy ↦
        rw (busy, flush) (schedule_flush-count p (record s { idle_waiters = s.idle_waiters + 1 }))
  ]

  channel_steps-count :
      (p : E → Bool) (capacity low : ℕ) (steps : List (ChannelStep E)) (s : RunEventChannel E)
      → count_held p (channel_steps capacity low s steps) ≡ count_held p s + count p (pushed steps)
  unfolding channel_steps channel_step filter
  channel_steps-count p capacity low [] s = omega arith
  channel_steps-count p capacity low (pushes x ∷ steps) s =
      let t = wait_for_capacity capacity low x s in
      omega (
        arith,
        channel_steps-count p capacity low steps t,
        wait_for_capacity-count p capacity low x s,
        count-append p (x ∷ []) (pushed steps),
      )
  channel_steps-count p capacity low (looks_again ∷ steps) s = omega (
    arith,
    channel_steps-count p capacity low steps (look_again capacity low s.woken s),
    look_again-count p capacity low s.woken s refl,
  )
  channel_steps-count p capacity low (enqueues ∷ steps) s = omega (
    arith,
    channel_steps-count p capacity low steps (enqueue_event s.admitted s),
    enqueue_event-count p s.admitted s refl,
  )
  channel_steps-count p capacity low (settles ∷ steps) s = elim (Option-cases s.in_flight) [
    | inl rests ↦
        rw (rests, channel_steps, channel_step) (channel_steps-count p capacity low steps s)
    | inr (x, busy) ↦
        let next = channel_steps-count p capacity low steps (sink_settled capacity low s) in
        rw (busy, channel_steps, channel_step)
          (omega (arith, next, sink_settled-count p capacity low s))
  ]
  channel_steps-count p capacity low (flushes ∷ steps) s =
      omega (arith, channel_steps-count p capacity low steps (flush s), flush-count p s)

  -- Whatever happens in whatever order, every event that is pushed to a new channel is, once, among
  -- those given to the sink or held by the channel: of those that pass a test there are as many.
  pub events_conserved :
      (p : E → Bool) (capacity low : ℕ) (steps : List (ChannelStep E))
      → count_held p (channel_steps capacity low new_channel steps) ≡ count p (pushed steps)
  unfolding filter
  events_conserved p capacity low steps =
      omega (arith, channel_steps-count p capacity low steps new_channel)
