-- ===== src/Runs/Channel.antt =====
-- src/runs/eventChannel.ts: `RunEventChannel`, which hands events to a sink, one at a time.
--
-- A step is what runs without a pause: up to an `await`, or from one to the next. A call of `push`
-- that has found room is `admitted` until its continuation runs, one that has not is `waiting`, and
-- then `woken` until it looks again. `sunk` are the events given to the sink, in this order, and
-- whether the sink fails does not matter to the channel.
pub mod Conservation
pub mod Order
pub mod Options
pub mod Progress
pub mod Backpressure
use alfred_ai.Base.{
  ℕ, ◌+◌, ◌-◌, ◌*◌, ◌/◌, min, max, Bool, true, false, Option, none, some, List, [], ◌∷◌, ◌++◌, leb,
  ltb, if◌then◌else◌, not, ◌&&◌, length, or_else,
}

unfoldable pub max_buffered_events : Option ℕ → ℕ
max_buffered_events configured = max 20 (or_else configured 400)

unfoldable pub low_watermark : ℕ → Option ℕ → ℕ
low_watermark capacity configured =
    min (capacity - 1) (max 1 (or_else configured (capacity * 65 / 100)))

pub record RunEventChannel (E : Type 0) : Type 0 where
  pub queue : List E
  pub in_flight : Option E
  pub flushing : Bool
  pub admitted : List E
  pub waiting : List E
  pub woken : List E
  pub idle_waiters : ℕ
  pub sunk : List E

pub data ChannelStep (E : Type 0) : Type 0 where
  pushes : (event : E) → ChannelStep E
  looks_again : ChannelStep E
  enqueues : ChannelStep E
  settles : ChannelStep E
  flushes : ChannelStep E

module _ {E : Type 0} where
  abbrev pub new_channel : RunEventChannel E
  new_channel = record {
    queue = [];
    in_flight = none;
    flushing = false;
    admitted = [];
    waiting = [];
    woken = [];
    idle_waiters = 0;
    sunk = [];
  }

  -- The head of the loop of `flushLoop`, up to the sink's `await`, or the end of the loop.
  abbrev pub flush_next : List E → RunEventChannel E → RunEventChannel E
  flush_next [] s = record s { in_flight = none; flushing = false; idle_waiters = 0 }
  flush_next (event ∷ rest) s = record s {
    queue = rest;
    in_flight = some event;
    sunk = s.sunk ++ (event ∷ []);
  }

  unfoldable pub schedule_flush : RunEventChannel E → RunEventChannel E
  schedule_flush s = if s.flushing then s else flush_next s.queue (record s { flushing = true })

  module _ (capacity low : ℕ) where
    -- The test of `waitForCapacity`.
    unfoldable pub wait_for_capacity : E → RunEventChannel E → RunEventChannel E
    wait_for_capacity event s =
        if leb capacity (length s.queue)
        then record s { waiting = s.waiting ++ (event ∷ []) }
        else record s { admitted = s.admitted ++ (event ∷ []) }

    unfoldable pub notify_capacity_waiters : RunEventChannel E → RunEventChannel E
    notify_capacity_waiters s =
        if ltb low (length s.queue)
        then s
        else record s { woken = s.woken ++ s.waiting; waiting = [] }

    -- The sink has ended: the rest of the body of the loop, and its next head.
    unfoldable pub sink_settled : RunEventChannel E → RunEventChannel E
    unfolding notify_capacity_waiters
    sink_settled s = let t = notify_capacity_waiters s in flush_next t.queue t

    -- A call that was woken looks at the queue again.
    unfoldable pub look_again : List E → RunEventChannel E → RunEventChannel E
    unfolding wait_for_capacity
    look_again [] s = s
    look_again (event ∷ rest) s = wait_for_capacity event (record s { woken = rest })

  -- The continuation of a `push` that was admitted.
  unfoldable pub enqueue_event : List E → RunEventChannel E → RunEventChannel E
  unfolding schedule_flush
  enqueue_event [] s = s
  enqueue_event (event ∷ rest) s =
      schedule_flush (record s { admitted = rest; queue = s.queue ++ (event ∷ []) })

  unfoldable pub flush : RunEventChannel E → RunEventChannel E
  unfolding schedule_flush
  flush s =
      if not s.flushing && leb (length s.queue) 0
      then s
      else schedule_flush (record s { idle_waiters = s.idle_waiters + 1 })

  module _ (capacity low : ℕ) where
    unfoldable pub channel_step : RunEventChannel E → ChannelStep E → RunEventChannel E
    unfolding wait_for_capacity look_again enqueue_event sink_settled flush
    channel_step s (pushes event) = wait_for_capacity capacity low event s
    channel_step s looks_again = look_again capacity low s.woken s
    channel_step s enqueues = enqueue_event s.admitted s
    channel_step s settles = elim s.in_flight [
      | none ↦ s
      | some event ↦ sink_settled capacity low s
    ]
    channel_step s flushes = flush s

    unfoldable pub channel_steps : RunEventChannel E → List (ChannelStep E) → RunEventChannel E
    unfolding channel_step
    channel_steps s [] = s
    channel_steps s (step ∷ steps) = channel_steps (channel_step s step) steps
