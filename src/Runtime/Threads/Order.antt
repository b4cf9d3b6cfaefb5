-- ===== src/Runtime/Threads/Order.antt =====
-- The operations of a session settle in the order of their submission, and none is left without a job.
use mathlib.Core.List.{append_assoc, append-nil}
use alfred_ai.Base.{
  String, ◌≡◌, ◌⊎◌, inl, inr, refl, sym, ap, subst, ◌∙◌, Bool, true, false, Option, none, some,
  List, [], ◌∷◌, ◌++◌, ok, err, arith,
}
use alfred_ai.Runtime.Threads.{
  TurnOp, ThreadWatcherEvent, Settlement, ThreadState, new_thread, schedule_job, submit, take_next,
  settle_op, settle_dispatch, ThreadStep, submits, job_begins, dispatch_settles, thread_step,
  thread_steps,
}

abbrev pub quiet : ThreadWatcherEvent → Bool
quiet e = false

abbrev pub op_of : List (TurnOp × Settlement) → List TurnOp
op_of [] = []
op_of (x ∷ xs) = x.0 ∷ op_of xs

abbrev pub and_then : Option TurnOp → List TurnOp → List TurnOp
and_then none ops = ops
and_then (some op) ops = op ∷ ops

-- What was settled, what is dispatched, and what waits.
abbrev pub all_ops : ThreadState → List TurnOp
all_ops s = op_of s.settled ++ and_then s.dispatched s.queue

abbrev pub submitted : {session : String} → List (ThreadStep session quiet) → List TurnOp
submitted [] = []
submitted (submits op ∷ steps) = op ∷ submitted steps
submitted (_ ∷ steps) = submitted steps

-- One job at most: it has not begun, or it waits for a dispatch; without one, nothing waits.
abbrev pub IsScheduled : ThreadState → Type 0
IsScheduled s =
    ((s.processing ≡ true) × (s.jobs ≡ 1) × (s.dispatched ≡ none))
    ⊎ (((s.processing ≡ true) × (s.jobs ≡ 0) × ((op : TurnOp) × (s.dispatched ≡ some op)))
        ⊎ ((s.processing ≡ false) × (s.jobs ≡ 0) × (s.dispatched ≡ none) × (s.queue ≡ [])))

op_of-append :
    (xs : List (TurnOp × Settlement)) (op : TurnOp) (how : Settlement)
    → op_of (xs ++ ((op, how) ∷ [])) ≡ op_of xs ++ (op ∷ [])
op_of-append [] op how = refl
op_of-append (x ∷ xs) op how = ap (λ ops. x.0 ∷ ops) (op_of-append xs op how)

schedule_job-all_ops : (s : ThreadState) → all_ops (schedule_job s) ≡ all_ops s
schedule_job-all_ops s = ground arith

and_then-append :
    (d : Option TurnOp) (q : List TurnOp) (op : TurnOp)
    → and_then d (q ++ (op ∷ [])) ≡ and_then d q ++ (op ∷ [])
and_then-append none q op = refl
and_then-append (some next) q op = refl

module _ (session : String) where
  take_next-all_ops :
      (s : ThreadState)
      → s.dispatched ≡ none
      → all_ops (take_next session quiet s) ≡ op_of s.settled ++ s.queue
  take_next-all_ops s e = ground arith

  take_next-IsScheduled :
      (s : ThreadState)
      → s.dispatched ≡ none
      → s.jobs ≡ 0
      → s.processing ≡ true
      → IsScheduled (take_next session quiet s)
  take_next-IsScheduled s e j p = ground arith

  submit-all_ops :
      (op : TurnOp) (s : ThreadState) → all_ops (submit session quiet op s) ≡ all_ops s ++ (op ∷ [])
  submit-all_ops op s =
      let pushed : ThreadState = record s { queue = s.queue ++ (op ∷ []) } in
      schedule_job-all_ops pushed
      ∙ ap (λ ops. op_of s.settled ++ ops) (and_then-append s.dispatched s.queue op)
      ∙ sym (append_assoc (op_of s.settled) (and_then s.dispatched s.queue) (op ∷ []))

  submit-IsScheduled :
      (op : TurnOp) (s : ThreadState) → IsScheduled s → IsScheduled (submit session quiet op s)
  submit-IsScheduled op s w = ground arith

  settle_dispatch-all_ops :
      (e : String) (op : TurnOp) (how : Settlement) (s : ThreadState)
      → s.dispatched ≡ none
      → all_ops (settle_dispatch session quiet e op how s) ≡ op_of s.settled ++ (op ∷ s.queue)
  settle_dispatch-all_ops e op (ok reason) s idle =
      take_next-all_ops (settle_op op (ok reason) s) idle
      ∙ ap (λ ops. ops ++ s.queue) (op_of-append s.settled op (ok reason))
      ∙ append_assoc (op_of s.settled) (op ∷ []) s.queue
  settle_dispatch-all_ops e op (err thrown) s idle =
      take_next-all_ops (settle_op op (err thrown) s) idle
      ∙ ap (λ ops. ops ++ s.queue) (op_of-append s.settled op (err thrown))
      ∙ append_assoc (op_of s.settled) (op ∷ []) s.queue

  settle_dispatch-IsScheduled :
      (e : String) (op : TurnOp) (how : Settlement) (s : ThreadState)
      → s.dispatched ≡ none
      → s.jobs ≡ 0
      → s.processing ≡ true
      → IsScheduled (settle_dispatch session quiet e op how s)
  settle_dispatch-IsScheduled e op (ok reason) s =
      take_next-IsScheduled (settle_op op (ok reason) s)
  settle_dispatch-IsScheduled e op (err thrown) s =
      take_next-IsScheduled (settle_op op (err thrown) s)

  -- What a step submits.
  abbrev pub submits_now : ThreadStep session quiet → List TurnOp
  submits_now (submits op) = op ∷ []
  submits_now _ = []

  -- What a settled dispatch comes to, when one is due and when none is.
  not_due :
      (e : String) (how : Settlement) (s : ThreadState)
      → s.dispatched ≡ none
      → thread_step session quiet (dispatch_settles e how) s ≡ s
  unfolding thread_step
  not_due e how s idle = ground arith

  pub due :
      (e : String) (how : Settlement) (s : ThreadState) (op : TurnOp)
      → s.dispatched ≡ some op
      → thread_step session quiet (dispatch_settles e how) s
        ≡ settle_dispatch session quiet e op how (record s { dispatched = none })
  unfolding thread_step
  due e how s op there = ground arith

  pub begins :
      (s : ThreadState)
      → s.jobs ≡ 1
      → thread_step session quiet job_begins s ≡ take_next session quiet (record s { jobs = 0 })
  unfolding thread_step
  begins s one = ground arith

  pub begins_none : (s : ThreadState) → s.jobs ≡ 0 → thread_step session quiet job_begins s ≡ s
  unfolding thread_step
  begins_none s zero_jobs = ground arith

  unchanged : (s t : ThreadState) → t ≡ s → all_ops t ≡ all_ops s ++ []
  unchanged s t same = ap all_ops same ∙ sym (append-nil (all_ops s))

  thread_step-all_ops :
      (step : ThreadStep session quiet) (s : ThreadState)
      → IsScheduled s
      → all_ops (thread_step session quiet step s) ≡ all_ops s ++ submits_now step
  unfolding thread_step
  thread_step-all_ops (submits op) s w = submit-all_ops op s
  thread_step-all_ops job_begins s (inl (p, j, d)) =
      ap all_ops (begins s j)
      ∙ take_next-all_ops (record s { jobs = 0 }) d
      ∙ sym (append-nil (all_ops s) ∙ ap (λ d. op_of s.settled ++ and_then d s.queue) d)
  thread_step-all_ops job_begins s (inr (inl (p, j, d))) =
      unchanged s (thread_step session quiet job_begins s) (begins_none s j)
  thread_step-all_ops job_begins s (inr (inr (p, j, d, q))) =
      unchanged s (thread_step session quiet job_begins s) (begins_none s j)
  thread_step-all_ops (dispatch_settles e how) s (inl (p, j, d)) =
      unchanged s (thread_step session quiet (dispatch_settles e how) s) (not_due e how s d)
  thread_step-all_ops (dispatch_settles e how) s (inr (inl (p, j, (op, d)))) =
      ap all_ops (due e how s op d)
      ∙ settle_dispatch-all_ops e op how (record s { dispatched = none }) refl
      ∙ sym (append-nil (all_ops s) ∙ ap (λ d. op_of s.settled ++ and_then d s.queue) d)
  thread_step-all_ops (dispatch_settles e how) s (inr (inr (p, j, d, q))) =
      unchanged s (thread_step session quiet (dispatch_settles e how) s) (not_due e how s d)

  thread_step-IsScheduled :
      (step : ThreadStep session quiet) (s : ThreadState)
      → IsScheduled s
      → IsScheduled (thread_step session quiet step s)
  unfolding thread_step
  thread_step-IsScheduled (submits op) s w = submit-IsScheduled op s w
  thread_step-IsScheduled job_begins s w = ground arith
  thread_step-IsScheduled (dispatch_settles e how) s (inl w) =
      subst IsScheduled (sym (not_due e how s w.2)) (inl w)
  thread_step-IsScheduled (dispatch_settles e how) s (inr (inl (p, j, (op, d)))) =
      subst IsScheduled (sym (due e how s op d))
        (settle_dispatch-IsScheduled e op how (record s { dispatched = none }) refl j p)
  thread_step-IsScheduled (dispatch_settles e how) s (inr (inr (p, j, d, q))) =
      subst IsScheduled (sym (not_due e how s d)) (inr (inr (p, j, d, q)))

  submitted_first :
      (step : ThreadStep session quiet) (steps : List (ThreadStep session quiet))
      → submits_now step ++ submitted steps ≡ submitted (step ∷ steps)
  submitted_first (submits op) steps = refl
  submitted_first job_begins steps = refl
  submitted_first (dispatch_settles e how) steps = refl

  pub thread_steps-all_ops :
      (steps : List (ThreadStep session quiet)) (s : ThreadState)
      → IsScheduled s
      → (all_ops (thread_steps session quiet steps s) ≡ all_ops s ++ submitted steps)
        × IsScheduled (thread_steps session quiet steps s)
  unfolding thread_steps
  thread_steps-all_ops [] s w = (sym (append-nil (all_ops s)), w)
  thread_steps-all_ops (step ∷ steps) s w =
      let t = thread_step session quiet step s in
      let (rest, scheduled) = thread_steps-all_ops steps t (thread_step-IsScheduled step s w) in
      (
        rest
            ∙ ap (λ ops. ops ++ submitted steps) (thread_step-all_ops step s w)
            ∙ append_assoc (all_ops s) (submits_now step) (submitted steps)
            ∙ ap (λ ops. all_ops s ++ ops) (submitted_first step steps),
        scheduled,
      )

  -- Whatever the order in which operations are submitted to a session, jobs begin and dispatches
  -- settle, and no watcher throws: the operations settled, the one dispatched and those that wait are,
  -- one after the other, all that were submitted, in order. And if any waits or is dispatched, there
  -- is one job for it, which has not begun or waits for its dispatch.
  pub threads_in_order :
      (steps : List (ThreadStep session quiet))
      → (all_ops (thread_steps session quiet steps new_thread) ≡ submitted steps)
        × IsScheduled (thread_steps session quiet steps new_thread)
  threads_in_order steps =
      thread_steps-all_ops steps new_thread (inr (inr (refl, refl, refl, refl)))
