-- ===== src/Runs/Tests.antt =====
-- The theorems on the event channel, the journal and the store of runs at concrete inputs.
use alfred_ai.Base.{
  ◌⊎◌, ℕ, suc, String, ◌≡◌, ◌≢◌, refl, Bool, true, false, Option, none, some, List, [], ◌∷◌, ◌++◌,
  arith, ◌⊎◌, All, str_eq, eq_iff, Result, length, map, lookup, remove, if◌then◌else◌, ltb,
}
use alfred_ai.Runs.Channel.{
  new_channel, ChannelStep, pushes, enqueues, settles, flushes, channel_steps, max_buffered_events,
  low_watermark,
}
use alfred_ai.Runs.Channel.Conservation.{pushed, count, count_held, events_conserved}
use alfred_ai.Runs.Channel.Progress.{AtRest, settled, channel_drains}
use alfred_ai.Runs.Channel.Backpressure.{pushes_of, enqueues_of, push_overtakes}
use alfred_ai.Runs.Journal.{read_changes, record_changes, new_journal}
use alfred_ai.Runs.Journal.Complete.{IsCurrent, changes_complete}
use alfred_ai.Runs.Store.{
  RunRecord, RunFiles, RunPatch, SchedulerRef, queued, running, no_patch, new_usage,
  find_run_by_cycle, update_run, recover_interrupted_runs, failed,
}
use alfred_ai.Runs.Store.Cycles.{update_forgets_cycle}
use alfred_ai.Runs.Store.Recovery.{IsAbandoned, IsLeftAlone, interrupted_text, recovers_runs}
use alfred_ai.Runs.History.{
  HistoryError, HistoryPage, position_after, list_history, history_of, create_run,
}
use alfred_ai.Runs.History.Pages.{follow_pages, pages_complete}
use alfred_ai.Runs.History.Newest.{IsOlder, create_run_first}

abbrev steps : List (ChannelStep ℕ)
steps = pushes 7 ∷ pushes 8 ∷ enqueues ∷ enqueues ∷ flushes ∷ settles ∷ pushes 9 ∷ enqueues ∷ []

abbrev is_eight : ℕ → Bool
is_eight n = ltb 7 n

events_conserved_example :
    count_held is_eight (channel_steps 400 260 new_channel steps) ≡ count is_eight (pushed steps)
events_conserved_example = events_conserved is_eight 400 260 steps

channel_drains_example :
    let s = channel_steps 20 13 new_channel steps in
    let t = channel_steps 20 13 s (settled (suc (length s.queue))) in
    AtRest t × (t.sunk ≡ s.sunk ++ s.queue)
unfolding max_buffered_events low_watermark
channel_drains_example = channel_drains (some 8) none steps

abbrev nineteen : List ℕ
nineteen = 0 ∷ 1 ∷ 2 ∷ 3 ∷ 4 ∷ 5 ∷ 6 ∷ 7 ∷ 8 ∷ 9 ∷ 10 ∷ 11 ∷ 12 ∷ 13 ∷ 14 ∷ 15 ∷ 16 ∷ 17 ∷ 18 ∷ []

push_overtakes_example :
    let filled = pushes_of (50 ∷ 51 ∷ nineteen) ++ enqueues_of (50 ∷ 51 ∷ nineteen) in
    let s =
      channel_steps 20 3 new_channel
        (filled ++ (pushes 98 ∷ settles ∷ pushes 99 ∷ enqueues ∷ [])) in
    (s.queue ≡ nineteen ++ (99 ∷ [])) × (s.waiting ≡ 98 ∷ [])
unfolding max_buffered_events low_watermark
push_overtakes_example = push_overtakes (some 8) (some 3) 50 51 nineteen 98 99 refl

changes_complete_example :
    let seen = read_changes 1 (record_changes ("a" ∷ "b" ∷ "a" ∷ []) new_journal) in
    ((seen.reset ≡ false)
      × IsCurrent 1 ("a" ∷ "b" ∷ "a" ∷ [])
      × (map (λ c. c.run_id) seen.changes ≡ "b" ∷ "a" ∷ []))
    ⊎ ((seen.reset ≡ true) × (¬ IsCurrent 1 ("a" ∷ "b" ∷ "a" ∷ [])))
changes_complete_example = changes_complete 1 ("a" ∷ "b" ∷ "a" ∷ [])

abbrev cycle : SchedulerRef
cycle = record { task_id = "t1"; cycle_id = "t1:1" }

abbrev first_run : RunRecord
first_run = record {
  run_id = "r1";
  session_id = "s";
  message = "hello";
  status = running;
  created_at = 5;
  updated_at = 5;
  cancel_requested_at = none;
  assistant_text = none;
  llm_usage = some new_usage;
  tool_calls = [];
  ingress = none;
  scheduler = none;
}

abbrev cycle_run : RunRecord
cycle_run = record first_run {
  run_id = "r2";
  status = queued;
  created_at = 9;
  scheduler = some cycle;
}

abbrev files : RunFiles
files = record { runs = ("r1", first_run) ∷ ("r2", cycle_run) ∷ []; journals = [] }

-- Replaces the cycle id and leaves any other text.
abbrev hides_cycle : String → String
hides_cycle s = if str_eq s "t1:1" then "[REDACTED:high-entropy]" else s

abbrev started : RunPatch
started = record no_patch { status = some running }

hidden : ◌≢◌ {A = String} (hides_cycle "t1:1") "t1:1"
hidden e = ground (arith, eq_iff "[REDACTED:high-entropy]" "t1:1")

update_forgets_cycle_example :
    (find_run_by_cycle "t1" "t1:1" files.runs ≡ some cycle_run)
    × (find_run_by_cycle "t1" "t1:1" (update_run hides_cycle 12 "r2" started files).0.runs ≡ none)
unfolding lookup find_run_by_cycle remove
update_forgets_cycle_example =
    update_forgets_cycle hides_cycle 12 "r2" started files cycle_run cycle (refl, (refl, tt)) refl
      refl refl refl hidden

recovers_runs_example :
    (u : RunRecord) × (lookup "r1" (recover_interrupted_runs hides_cycle 12 files).0.runs ≡ some u)
    × ((IsAbandoned hides_cycle 12 first_run
          × (u.status ≡ failed)
          × (u.assistant_text ≡ some (interrupted_text hides_cycle 12))
          × (u.updated_at ≡ 12))
        ⊎ (IsLeftAlone hides_cycle 12 first_run × (u ≡ first_run)))
unfolding lookup
recovers_runs_example = recovers_runs hides_cycle 12 files "r1" first_run (refl, (refl, tt)) refl

abbrev never : String → String → Bool
never a b = false

pages_complete_example :
    let runs = history_of never "s" false files in
    let ask : Option String → Result HistoryError HistoryPage = λ cursor.
      list_history never "s"
        (record { before = cursor; limit = some 1; terminal_only = false })
        files in
    follow_pages ask (suc (length runs)) none ≡ some runs
unfolding history_of position_after
pages_complete_example = pages_complete never "s" (some 1) false files (refl, (refl, tt))

create_run_first_example :
    let made = create_run never hides_cycle 4 "r3" "s" "next" queued none none files in
    (history_of never "s" false made.0 ≡ made.1 ∷ history_of never "s" false files)
    × All (IsOlder made.1.created_at) (history_of never "s" false files)
unfolding lookup
create_run_first_example =
    create_run_first never hides_cycle 4 "r3" "s" "next" queued none none files refl refl
