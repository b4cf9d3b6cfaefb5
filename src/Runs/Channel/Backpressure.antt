-- ===== src/Runs/Channel/Backpressure.antt =====
-- What the bound on the buffer does not stop: more events than it, and one that overtakes another.
use mathlib.Core.List.{append_assoc, append-nil}
use alfred_ai.Base.{
  ℕ, suc, ◌+◌, ◌≤◌, ◌<◌, ◌≡◌, refl, ◌∙◌, sym, ap, true, false, Option, some, List, [], ◌∷◌, ◌++◌,
  arith, leb, ltb, length,
}
use alfred_ai.Runs.Channel.{
  RunEventChannel, new_channel, schedule_flush, wait_for_capacity, notify_capacity_waiters,
  sink_settled, enqueue_event, ChannelStep, pushes, enqueues, settles, channel_step, channel_steps,
  max_buffered_events, low_watermark,
}
use alfred_ai.Runs.Channel.Options.{bounds_lem}

module _ {E : Type 0} where
  -- Pushes that are all made before the first of them goes on.
  abbrev pub pushes_of : List E → List (ChannelStep E)
  pushes_of [] = []
  pushes_of (x ∷ xs) = pushes x ∷ pushes_of xs

  abbrev pub enqueues_of : List E → List (ChannelStep E)
  enqueues_of [] = []
  enqueues_of (x ∷ xs) = enqueues ∷ enqueues_of xs

  module _ (capacity low : ℕ) where
    steps-append :
        (s : RunEventChannel E) (xs ys : List (ChannelStep E))
        → channel_steps capacity low s (xs ++ ys)
          ≡ channel_steps capacity low (channel_steps capacity low s xs) ys
    unfolding channel_steps
    steps-append s [] ys = refl
    steps-append s (x ∷ xs) ys = steps-append (channel_step capacity low s x) xs ys

    pushes-admitted :
        (xs : List E) (s : RunEventChannel E)
        → length s.queue < capacity
        → channel_steps capacity low s (pushes_of xs) ≡ record s { admitted = s.admitted ++ xs }
    unfolding channel_steps channel_step wait_for_capacity
    pushes-admitted [] s room = ap (λ q. record s { admitted = q }) (sym (append-nil s.admitted))
    pushes-admitted (x ∷ xs) s room =
        let t : RunEventChannel E = record s { admitted = s.admitted ++ (x ∷ []) } in
        let free : leb capacity (length s.queue) ≡ false = ground arith in
        let looked : wait_for_capacity capacity low x s ≡ t = ground arith in
        ap (λ u. channel_steps capacity low u (pushes_of xs)) looked
        ∙ pushes-admitted xs t room
        ∙ ap (λ q. record s { admitted = q }) (append_assoc s.admitted (x ∷ []) xs)

    enqueues-queued :
        (xs : List E) (s : RunEventChannel E)
        → s.flushing ≡ true
        → s.admitted ≡ xs
        → channel_steps capacity low s (enqueues_of xs)
          ≡ record s { admitted = []; queue = s.queue ++ xs }
    unfolding channel_steps channel_step enqueue_event schedule_flush
    enqueues-queued [] s busy e =
        ap (λ q. record s { queue = q }) (sym (append-nil s.queue))
        ∙ ap (λ a. record s { queue = s.queue ++ []; admitted = a }) e
    enqueues-queued (x ∷ xs) s busy e =
        let t : RunEventChannel E = record s { admitted = xs; queue = s.queue ++ (x ∷ []) } in
        let queued : enqueue_event (x ∷ xs) s ≡ t = ground arith in
        ap (λ a. channel_steps capacity low (enqueue_event a s) (enqueues_of xs)) e
        ∙ ap (λ u. channel_steps capacity low u (enqueues_of xs)) queued
        ∙ enqueues-queued xs t busy refl
        ∙ ap (λ q. record s { admitted = []; queue = q }) (append_assoc s.queue (x ∷ []) xs)

    first_queued :
        (x : E) (xs : List E)
        → channel_steps capacity low
            (record new_channel { admitted = x ∷ xs })
            (enqueues_of (x ∷ xs))
          ≡ channel_steps capacity low
              (record new_channel {
                in_flight = some x;
                flushing = true;
                admitted = xs;
                sunk = x ∷ [];
              })
              (enqueues_of xs)
    unfolding channel_steps channel_step enqueue_event schedule_flush
    first_queued x xs = refl

    abbrev full_channel : E → List E → RunEventChannel E
    full_channel x xs = record new_channel {
      queue = xs;
      in_flight = some x;
      flushing = true;
      sunk = x ∷ [];
    }

    burst_lem :
        (x : E) (xs : List E)
        → 1 ≤ capacity
        → channel_steps capacity low new_channel (pushes_of (x ∷ xs) ++ enqueues_of (x ∷ xs))
          ≡ full_channel x xs
    burst_lem x xs roomy =
        let t : RunEventChannel E = record new_channel {
          in_flight = some x;
          flushing = true;
          admitted = xs;
          sunk = x ∷ [];
        } in
        steps-append new_channel (pushes_of (x ∷ xs)) (enqueues_of (x ∷ xs))
        ∙ ap (λ u. channel_steps capacity low u (enqueues_of (x ∷ xs)))
            (pushes-admitted (x ∷ xs) new_channel (omega (arith, roomy)))
        ∙ first_queued x xs
        ∙ enqueues-queued xs t refl refl

    -- Events that are pushed to a new channel in one go, before the first of them is queued, are all
    -- queued but the first, which is at the sink: no number of them has to wait for room.
    pub burst_overflows :
        (x : E) (xs : List E)
        → 1 ≤ capacity
        → let s =
            channel_steps capacity low new_channel (pushes_of (x ∷ xs) ++ enqueues_of (x ∷ xs)) in
          (s.queue ≡ xs) × (s.sunk ≡ x ∷ []) × (s.waiting ≡ [])
    burst_overflows x xs roomy = rw (burst_lem x xs roomy) (refl, refl, refl)

    overtaken :
        (x y : E) (rest : List E) (a b : E)
        → length rest + 1 ≡ capacity
        → low < capacity
        → channel_steps capacity low
            (full_channel x (y ∷ rest))
            (pushes a ∷ settles ∷ pushes b ∷ enqueues ∷ [])
          ≡ record (full_channel x (y ∷ rest)) {
            queue = rest ++ (b ∷ []);
            in_flight = some y;
            waiting = a ∷ [];
            sunk = x ∷ y ∷ [];
          }
    unfolding channel_steps channel_step wait_for_capacity sink_settled notify_capacity_waiters
        enqueue_event schedule_flush
    overtaken x y rest a b size gap =
        let full : leb capacity (suc (length rest)) ≡ true = ground arith in
        let above : ltb low (suc (length rest)) ≡ true = ground arith in
        let room : leb capacity (length rest) ≡ false = ground arith in rw (full, above, room) refl

    overtakes_lem :
        (x y : E) (rest : List E) (a b : E)
        → length rest + 1 ≡ capacity
        → low < capacity
        → let filled = pushes_of (x ∷ y ∷ rest) ++ enqueues_of (x ∷ y ∷ rest) in
          let s =
            channel_steps capacity low new_channel
              (filled ++ (pushes a ∷ settles ∷ pushes b ∷ enqueues ∷ [])) in
          (s.queue ≡ rest ++ (b ∷ [])) × (s.waiting ≡ a ∷ [])
    overtakes_lem x y rest a b size gap =
        let filled = pushes_of (x ∷ y ∷ rest) ++ enqueues_of (x ∷ y ∷ rest) in
        let late : List (ChannelStep E) = pushes a ∷ settles ∷ pushes b ∷ enqueues ∷ [] in
        let ran =
          steps-append new_channel filled late
          ∙ ap (λ u. channel_steps capacity low u late)
              (burst_lem x (y ∷ rest) (omega (arith, size)))
          ∙ overtaken x y rest a b size gap in
        rw ran (refl, refl)

  -- Whatever the options, when the buffer of a channel is full: an event `a` that is pushed has to
  -- wait, and after the sink has ended once an event `b` that is pushed later is queued while `a`
  -- still waits.
  pub push_overtakes :
      (configured watermark : Option ℕ) (x y : E) (rest : List E) (a b : E)
      → length rest + 1 ≡ max_buffered_events configured
      → let capacity = max_buffered_events configured in
        let filled = pushes_of (x ∷ y ∷ rest) ++ enqueues_of (x ∷ y ∷ rest) in
        let s =
          channel_steps capacity
            (low_watermark capacity watermark)
            new_channel
            (filled ++ (pushes a ∷ settles ∷ pushes b ∷ enqueues ∷ [])) in
        (s.queue ≡ rest ++ (b ∷ [])) × (s.waiting ≡ a ∷ [])
  push_overtakes configured watermark x y rest a b size =
      overtakes_lem (max_buffered_events configured)
        (low_watermark (max_buffered_events configured) watermark) x y rest a b size
        (bounds_lem configured watermark).2
