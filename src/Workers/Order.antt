-- ===== src/Workers/Order.antt =====
-- The queue keeps the order, the limit, and no task waits while there is room.
use mathlib.Core.List.{append_assoc, append-nil}
use alfred_ai.Base.{
  ℕ, ◌+◌, ◌-◌, ◌≤◌, ◌<◌, String, ◌≡◌, refl, ◌∙◌, sym, ap, List, [], ◌∷◌, ◌++◌, arith, inl, inr, ◌⊎◌,
  Bool-cases, leb,
}
use alfred_ai.Workers.{
  QueueState, start_next, schedule_next, enqueue, finish, QueueStep, enqueues, finishes, take_step,
  take_steps,
}

abbrev pub empty_queue : QueueState
empty_queue = record { active_count = 0; queue = []; started = [] }

module _ (concurrency : ℕ) where
  abbrev pub submitted : List (QueueStep concurrency) → List String
  submitted [] = []
  submitted (enqueues task ∷ steps) = task ∷ submitted steps
  submitted (finishes ∷ steps) = submitted steps

  -- Nothing waits, or the limit is reached; and it is never passed.
  abbrev IsBusy : QueueState → Type 0
  IsBusy s = (s.active_count ≤ concurrency) × ((s.queue ≡ []) ⊎ (s.active_count ≡ concurrency))

  start-IsBusy :
      (waiting : List String) (s : QueueState)
      → s.active_count < concurrency
      → (waiting ≡ []) ⊎ (s.active_count + 1 ≡ concurrency)
      → s.queue ≡ waiting
      → IsBusy (start_next waiting s)
  unfolding start_next
  start-IsBusy [] s free one e = (omega arith, inl e)
  start-IsBusy (task ∷ rest) s free (inl empty) e = cc
  start-IsBusy (task ∷ rest) s free (inr full) e = (omega arith, inr full)

  schedule-IsBusy :
      (s : QueueState)
      → s.active_count ≤ concurrency
      → (s.active_count < concurrency → (s.queue ≡ []) ⊎ (s.active_count + 1 ≡ concurrency))
      → IsBusy (schedule_next concurrency s)
  unfolding schedule_next
  schedule-IsBusy s le next = elim (Bool-cases (leb concurrency s.active_count)) [
    | inl full ↦ rw (full, schedule_next) (le, inr (ground arith))
    | inr free ↦
        let less : s.active_count < concurrency = ground arith in
        rw (free, schedule_next) (start-IsBusy s.queue s less (next less) refl)
  ]

  start_one-IsBusy :
      (task : String) (s : QueueState)
      → s.active_count < concurrency
      → IsBusy (start_next (task ∷ []) s)
  unfolding start_next
  start_one-IsBusy task s free = (omega arith, inl refl)

  enqueue-IsBusy : (task : String) (s : QueueState) → IsBusy s → IsBusy (enqueue concurrency task s)
  unfolding enqueue schedule_next
  enqueue-IsBusy task s (le, b) = elim (Bool-cases (leb concurrency s.active_count)) [
    | inl full ↦ rw (full, enqueue, schedule_next) (le, inr (ground arith))
    | inr free ↦ elim b [
      | inr at_limit ↦ ground arith
      | inl empty ↦
          let less : s.active_count < concurrency = ground arith in
          rw (free, enqueue, schedule_next, empty)
            (start_one-IsBusy task (record s { queue = task ∷ [] }) less)
    ]
  ]

  finish-IsBusy : (s : QueueState) → 1 ≤ s.active_count → IsBusy s → IsBusy (finish concurrency s)
  unfolding finish
  finish-IsBusy s some_active (le, b) =
      schedule-IsBusy (record s { active_count = s.active_count - 1 }) (omega arith)
        (λ less. elim b [ inl empty ↦ inl empty | inr at_limit ↦ inr (omega arith) ])

  step-IsBusy :
      (s : QueueState) (step : QueueStep concurrency)
      → IsBusy s
      → IsBusy (take_step concurrency s step)
  unfolding take_step
  step-IsBusy s (enqueues task) b = enqueue-IsBusy task s b
  step-IsBusy s finishes b = elim (Bool-cases (leb 1 s.active_count)) [
    | inl active ↦ rw (active, take_step) (finish-IsBusy s (ground arith) b)
    | inr idle ↦ rw (idle, take_step) b
  ]

  -- All tasks, started or waiting, in order.
  abbrev all_tasks : QueueState → List String
  all_tasks s = s.started ++ s.queue

  start-all_tasks :
      (waiting : List String) (s : QueueState)
      → s.queue ≡ waiting
      → all_tasks (start_next waiting s) ≡ all_tasks s
  unfolding start_next
  start-all_tasks [] s e = refl
  start-all_tasks (task ∷ rest) s e =
      append_assoc s.started (task ∷ []) rest ∙ ap (λ q. s.started ++ q) (sym e)

  schedule-all_tasks : (s : QueueState) → all_tasks (schedule_next concurrency s) ≡ all_tasks s
  unfolding schedule_next
  schedule-all_tasks s = elim (Bool-cases (leb concurrency s.active_count)) [
    | inl full ↦ rw (full, schedule_next) refl
    | inr free ↦ rw (free, schedule_next) (start-all_tasks s.queue s refl)
  ]

  steps-all_tasks :
      (s : QueueState) (steps : List (QueueStep concurrency))
      → IsBusy s
      → (all_tasks (take_steps concurrency s steps) ≡ all_tasks s ++ submitted steps)
        × IsBusy (take_steps concurrency s steps)
  unfolding take_steps take_step enqueue finish
  steps-all_tasks s [] b = (sym (append-nil (all_tasks s)), b)
  steps-all_tasks s (enqueues task ∷ steps) b =
      let (order, busy) =
        steps-all_tasks (enqueue concurrency task s) steps (enqueue-IsBusy task s b) in
      let one : all_tasks (enqueue concurrency task s) ≡ all_tasks s ++ (task ∷ []) =
        schedule-all_tasks (record s { queue = s.queue ++ (task ∷ []) })
        ∙ sym (append_assoc s.started s.queue (task ∷ [])) in
      (
        order
            ∙ ap (λ q. q ++ submitted steps) one
            ∙ append_assoc (all_tasks s) (task ∷ []) (submitted steps),
        busy,
      )
  steps-all_tasks s (finishes ∷ steps) b = elim (Bool-cases (leb 1 s.active_count)) [
    | inr idle ↦ rw (idle, take_steps, take_step) (steps-all_tasks s steps b)
    | inl active ↦
        let (order, busy) =
          steps-all_tasks (finish concurrency s) steps (finish-IsBusy s (ground arith) b) in
        let same : all_tasks (finish concurrency s) ≡ all_tasks s =
          schedule-all_tasks (record s { active_count = s.active_count - 1 }) in
        rw (active, take_steps, take_step) (order ∙ ap (λ q. q ++ submitted steps) same, busy)
  ]

  -- From an empty queue with a limit of at least one, whatever is enqueued and whenever tasks end:
  -- the tasks started, then those that wait, are all that were enqueued, in that order; no more are
  -- active than the limit; and while a task waits, the limit is reached.
  pub queue_order :
      1 ≤ concurrency
      → (steps : List (QueueStep concurrency))
      → ((take_steps concurrency empty_queue steps).started
            ++ (take_steps concurrency empty_queue steps).queue
          ≡ submitted steps)
        × ((take_steps concurrency empty_queue steps).active_count ≤ concurrency)
        × (((take_steps concurrency empty_queue steps).queue ≡ [])
            ⊎ ((take_steps concurrency empty_queue steps).active_count ≡ concurrency))
  queue_order one steps =
      let (order, (limit, busy)) = steps-all_tasks empty_queue steps (omega arith, inl refl) in
      (order, limit, busy)
