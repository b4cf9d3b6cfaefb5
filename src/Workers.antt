-- ===== src/Workers.antt =====
-- src/workers/inMemoryQueue.ts: `InMemoryQueue`, which runs tasks in order, some at a time.
--
-- A task is a name; what it does is its own, and whether it fails does not matter to the queue. Tasks
-- are started by `schedule` and end at any later time, in any order: an end is a step of its own.
pub mod Order
mod Tests
use alfred_ai.Base.{ℕ, ◌+◌, ◌-◌, String, List, [], ◌∷◌, ◌++◌, leb, if◌then◌else◌}

pub record QueueState : Type 0 where
  pub active_count : ℕ
  pub queue : List String
  -- What has been started, in this order.
  pub started : List String

-- `queue.shift()` and the start of what it returns.
unfoldable pub start_next : List String → QueueState → QueueState
start_next [] s = s
start_next (task ∷ rest) s = record {
  active_count = s.active_count + 1;
  queue = rest;
  started = s.started ++ (task ∷ []);
}

module _ (concurrency : ℕ) where
  unfoldable pub schedule_next : QueueState → QueueState
  unfolding start_next
  schedule_next s = if leb concurrency s.active_count then s else start_next s.queue s

  unfoldable pub enqueue : String → QueueState → QueueState
  unfolding schedule_next
  enqueue task s = schedule_next (record s { queue = s.queue ++ (task ∷ []) })

  -- The `finally` of a task that has ended.
  unfoldable pub finish : QueueState → QueueState
  unfolding schedule_next
  finish s = schedule_next (record s { active_count = s.active_count - 1 })

  pub data QueueStep : Type 0 where
    enqueues : (task : String) → QueueStep
    finishes : QueueStep

  -- A task can end only while one is active.
  unfoldable pub take_step : QueueState → QueueStep → QueueState
  unfolding enqueue finish
  take_step s (enqueues task) = enqueue task s
  take_step s finishes = if leb 1 s.active_count then finish s else s

  unfoldable pub take_steps : QueueState → List QueueStep → QueueState
  unfolding take_step
  take_steps s [] = s
  take_steps s (step ∷ steps) = take_steps (take_step s step) steps
