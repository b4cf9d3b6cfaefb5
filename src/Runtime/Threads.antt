-- ===== src/Runtime/Threads.antt =====
-- src/runtime/threadRuntime.ts: `ThreadRuntime`, which runs the operations of one session in order.
--
-- A step is what runs between two awaits. The job that `schedule` hands to the work queue begins when
-- a worker takes it; `dispatch` of the turn runtime settles at any later time, with a reason or an
-- error. `throws` says of an event whether a watcher throws on it. The time of an event is left out.
pub mod Order
pub mod Draining
use alfred_ai.Base.{
  ℕ, suc, ◌+◌, ◌-◌, String, Bool, true, false, Option, none, some, List, [], ◌∷◌, ◌++◌, Result, ok,
  err, if◌then◌else◌, length, ltb,
}

pub record TurnOp : Type 0 where
  pub op_type : String
  pub run_id : String

pub data WatcherEventType : Type 0 where
  op_queued op_started op_completed op_failed : WatcherEventType

pub record ThreadWatcherEvent : Type 0 where
  pub event_run_id : String
  pub session_id : String
  pub event_type : WatcherEventType
  pub event_op_type : String
  pub queued_depth : ℕ
  pub detail : Option String

-- How an operation's promise is settled: resolved with the reason of the dispatch, or rejected.
abbrev pub Settlement : Type 0
Settlement = Result String (Option String)

pub record ThreadState : Type 0 where
  pub queue : List TurnOp
  pub processing : Bool
  -- The jobs handed to the work queue that have not begun, and the operation that is dispatched.
  pub jobs : ℕ
  pub dispatched : Option TurnOp
  -- The operations whose promises are settled by the loop, in order.
  pub settled : List (TurnOp × Settlement)

abbrev pub new_thread : ThreadState
new_thread = record { queue = []; processing = false; jobs = 0; dispatched = none; settled = [] }

-- `schedule`
abbrev pub schedule_job : ThreadState → ThreadState
schedule_job s = elim s.queue [
  | [] ↦ s
  | next ∷ rest ↦ if s.processing then s else record s { processing = true; jobs = s.jobs + 1 }
]

-- The `finally` of the job.
abbrev pub end_job : ThreadState → ThreadState
end_job s = schedule_job (record s { processing = false })

abbrev pub settle_op : TurnOp → Settlement → ThreadState → ThreadState
settle_op op how s = record s { settled = s.settled ++ ((op, how) ∷ []) }

module _ (session : String) (throws : ThreadWatcherEvent → Bool) where
  -- Whether `emit` throws.
  abbrev pub emit : WatcherEventType → TurnOp → ℕ → Option String → Bool
  emit type op depth detail = throws (record {
    event_run_id = op.run_id;
    session_id = session;
    event_type = type;
    event_op_type = op.op_type;
    queued_depth = depth;
    detail = detail;
  })

  -- `submit`; a watcher that throws rejects its promise, and the operation stays in the queue.
  abbrev pub submit : TurnOp → ThreadState → ThreadState
  submit op s =
      let pushed : ThreadState = record s { queue = s.queue ++ (op ∷ []) } in
      if emit op_queued op (length pushed.queue) none then pushed else schedule_job pushed

  -- The head of the loop of the job.
  abbrev pub take_next : ThreadState → ThreadState
  take_next s = elim s.queue [
    | [] ↦ end_job s
    | next ∷ rest ↦
        if emit op_started next (length rest) none
        then end_job (record s { queue = rest })
        else record s { queue = rest; dispatched = some next }
  ]

  -- The `catch` of the loop.
  abbrev pub fail_op : TurnOp → String → ThreadState → ThreadState
  fail_op op e s =
      if emit op_failed op (length s.queue) (some e)
      then end_job s
      else take_next (settle_op op (err e) s)

  -- What follows the dispatch. A watcher that throws `e` on the completion makes the operation fail.
  abbrev pub settle_dispatch : String → TurnOp → Settlement → ThreadState → ThreadState
  settle_dispatch e op (ok reason) s =
      if emit op_completed op (length s.queue) reason
      then fail_op op e s
      else take_next (settle_op op (ok reason) s)
  settle_dispatch e op (err thrown) s = fail_op op thrown s

  pub data ThreadStep : Type 0 where
    submits : TurnOp → ThreadStep
    job_begins : ThreadStep
    -- The dispatch settles; the text is what a watcher of the completion throws, if one does.
    dispatch_settles : String → Settlement → ThreadStep

  -- A step that is not due changes nothing.
  unfoldable pub thread_step : ThreadStep → ThreadState → ThreadState
  thread_step (submits op) s = submit op s
  thread_step job_begins s = if ltb 0 s.jobs then take_next (record s { jobs = s.jobs - 1 }) else s
  thread_step (dispatch_settles e how) s = elim s.dispatched [
    | none ↦ s
    | some op ↦ settle_dispatch e op how (record s { dispatched = none })
  ]

  unfoldable pub thread_steps : List ThreadStep → ThreadState → ThreadState
  thread_steps [] s = s
  thread_steps (step ∷ steps) s = thread_steps steps (thread_step step s)
