-- ===== src/Runtime/Tests.antt =====
-- Approvals and sessions at concrete calls.
use alfred_ai.Base.{ℕ, ◌+◌, ◌≤◌, String, ◌≡◌, refl, Bool, true, none, List, [], ◌∷◌, ◌++◌, ok, err}
use alfred_ai.Runtime.Threads.{
  TurnOp, ThreadWatcherEvent, Settlement, ThreadState, new_thread, ThreadStep, submits, job_begins,
  thread_step, thread_steps,
}
use alfred_ai.Runtime.Threads.Order.{quiet, op_of, all_ops, submitted, IsScheduled}
use alfred_ai.Runtime.Threads.Draining.{IsDrained, settles, thread_drains, started_lost}
use alfred_ai.Runtime.Approvals.{
  ApprovalState, ApprovalCall, requests, approves, consumes, approval_key,
}
use alfred_ai.Runtime.Approvals.Single.{uses, grants, has, uses-le}

abbrev empty_store : ApprovalState
empty_store = record { pending = []; approved = [] }

-- Requested, approved, used, and used again.
abbrev session : List (ℕ × ApprovalCall)
session =
    (1, requests 600000 "t" "s" "k" "run it")
    ∷ (2, approves "s" "t")
    ∷ (3, consumes "s" "k")
    ∷ (4, consumes "s" "k")
    ∷ []

abbrev key : String
key = approval_key "s" "k"

uses-le_example :
    uses key empty_store session ≤ grants key empty_store session + has key empty_store
uses-le_example = uses-le key empty_store session

abbrev first : TurnOp
first = record { op_type = "UserInput"; run_id = "r1" }

abbrev second : TurnOp
second = record { op_type = "Cancel"; run_id = "r2" }

abbrev two_ops : List (ThreadStep "s" quiet)
two_ops = submits first ∷ job_begins ∷ submits second ∷ []

abbrev answers : List (String × Settlement)
answers = ("", ok none) ∷ ("", err "failed") ∷ []

thread_drains_example :
    (op_of
        (thread_steps "s" quiet
          (job_begins ∷ settles "s" answers)
          (thread_steps "s" quiet two_ops new_thread)).settled
      ≡ submitted two_ops)
    × IsDrained (
        thread_steps "s" quiet
          (job_begins ∷ settles "s" answers)
          (thread_steps "s" quiet two_ops new_thread))
unfolding thread_steps thread_step
thread_drains_example = thread_drains "s" two_ops answers refl

abbrev always : ThreadWatcherEvent → Bool
always e = true

abbrev scheduled : ThreadState
scheduled = record new_thread { queue = first ∷ second ∷ []; processing = true; jobs = 1 }

started_lost_example :
    (all_ops scheduled ≡ op_of scheduled.settled ++ (first ∷ second ∷ []))
    × (all_ops (thread_step "s" always job_begins scheduled)
        ≡ op_of scheduled.settled ++ (second ∷ []))
    × IsScheduled (thread_step "s" always job_begins scheduled)
started_lost_example = started_lost "s" always scheduled first (second ∷ []) refl refl refl refl
