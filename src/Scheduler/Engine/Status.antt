-- ===== src/Scheduler/Engine/Status.antt =====
-- src/scheduler/engine.ts, `status` and `statusWithTasks`.
use alfred_ai.Base.{ℕ, ◌+◌, ◌≡◌, Bool, true, Option, [], ◌∷◌, arith, length, filter}
use alfred_ai.Scheduler.Model.{
  Snapshot, Status, pending, claimed, running, completed, failed, cancelled, expired, is_terminal,
  is_active, is_pending,
}

pub record TaskCounts : Type 0 where
  pub pending_count : ℕ
  pub claimed_count : ℕ
  pub running_count : ℕ
  pub completed_count : ℕ
  pub failed_count : ℕ
  pub cancelled_count : ℕ
  pub expired_count : ℕ

pub record SchedulerStatusSnapshot : Type 0 where
  pub enabled : Bool
  pub is_running : Bool
  pub active_count : ℕ
  pub max_concurrency : ℕ
  pub last_tick_at : Option ℕ
  pub next_tick_at : Option ℕ
  pub task_counts : TaskCounts

abbrev pub no_counts : TaskCounts
no_counts = record {
  pending_count = 0;
  claimed_count = 0;
  running_count = 0;
  completed_count = 0;
  failed_count = 0;
  cancelled_count = 0;
  expired_count = 0;
}

-- `status`
unfoldable pub status_of : Bool → ℕ → ℕ → Option ℕ → Option ℕ → SchedulerStatusSnapshot
status_of is_running active_count max_concurrency last_tick_at next_tick_at = record {
  enabled = true;
  is_running = is_running;
  active_count = active_count;
  max_concurrency = max_concurrency;
  last_tick_at = last_tick_at;
  next_tick_at = next_tick_at;
  task_counts = no_counts;
}

-- `counts[task.status] += 1`
unfoldable pub count_status : Status → TaskCounts → TaskCounts
count_status pending c = record c { pending_count = c.pending_count + 1 }
count_status claimed c = record c { claimed_count = c.claimed_count + 1 }
count_status running c = record c { running_count = c.running_count + 1 }
count_status completed c = record c { completed_count = c.completed_count + 1 }
count_status failed c = record c { failed_count = c.failed_count + 1 }
count_status cancelled c = record c { cancelled_count = c.cancelled_count + 1 }
count_status expired c = record c { expired_count = c.expired_count + 1 }

unfoldable pub count_tasks : Snapshot → TaskCounts → TaskCounts
unfolding count_status
count_tasks [] c = c
count_tasks (t ∷ ts) c = count_tasks ts (count_status t.status c)

-- `tasks` is what `listAll` returns, terminal tasks included.
unfoldable pub status_with_tasks : SchedulerStatusSnapshot → Snapshot → SchedulerStatusSnapshot
unfolding count_tasks
status_with_tasks s tasks = record s { task_counts = count_tasks tasks no_counts }

abbrev pub active_counts : TaskCounts → ℕ
active_counts c = c.claimed_count + c.running_count

abbrev pub terminal_counts : TaskCounts → ℕ
terminal_counts c = c.completed_count + c.failed_count + c.cancelled_count + c.expired_count

count_tasks-lem :
    (ts : Snapshot) (c : TaskCounts)
    → ((count_tasks ts c).pending_count
        ≡ c.pending_count + length (filter (λ t. is_pending t.status) ts))
      × (active_counts (count_tasks ts c)
          ≡ active_counts c + length (filter (λ t. is_active t.status) ts))
      × (terminal_counts (count_tasks ts c)
          ≡ terminal_counts c + length (filter (λ t. is_terminal t.status) ts))
unfolding count_tasks filter
count_tasks-lem [] c = (omega arith, omega arith, omega arith)
count_tasks-lem (t ∷ ts) c = ground (arith, count_tasks-lem ts (count_status t.status c))

-- The counts of `statusWithTasks`: the pending ones are the tasks that are pending, those claimed and
-- running are the active ones, and the other four are the terminal ones.
pub status_counts :
    (s : SchedulerStatusSnapshot) (ts : Snapshot)
    → ((status_with_tasks s ts).task_counts.pending_count
        ≡ length (filter (λ t. is_pending t.status) ts))
      × (active_counts (status_with_tasks s ts).task_counts
          ≡ length (filter (λ t. is_active t.status) ts))
      × (terminal_counts (status_with_tasks s ts).task_counts
          ≡ length (filter (λ t. is_terminal t.status) ts))
unfolding status_with_tasks
status_counts s ts =
    let (waiting, active, over) = count_tasks-lem ts no_counts in
    (omega arith, omega arith, omega arith)
