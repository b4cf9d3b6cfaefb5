-- ===== src/Workers/Tests.antt =====
-- The queue with a limit of one.
use alfred_ai.Base.{◌≤◌, ◌≡◌, ◌⊎◌, List, [], ◌∷◌, ◌++◌, arith}
use alfred_ai.Workers.{QueueStep, enqueues, finishes, take_steps}
use alfred_ai.Workers.Order.{empty_queue, submitted, queue_order}

abbrev steps : List (QueueStep 1)
steps = enqueues "a" ∷ enqueues "b" ∷ finishes ∷ enqueues "c" ∷ []

queue_order_example :
    ((take_steps 1 empty_queue steps).started ++ (take_steps 1 empty_queue steps).queue
      ≡ submitted 1 steps)
    × ((take_steps 1 empty_queue steps).active_count ≤ 1)
    × (((take_steps 1 empty_queue steps).queue ≡ [])
        ⊎ ((take_steps 1 empty_queue steps).active_count ≡ 1))
queue_order_example = queue_order 1 (omega arith) steps
