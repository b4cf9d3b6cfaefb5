-- ===== src/Runs/History.antt =====
-- src/runs/runStore.ts: `listHistory`, the pages of a session's runs, and `createRun`.
--
-- `id_after a b` is `a.localeCompare(b) > 0`. The sort by the time of the update, in `listRuns`, comes
-- before the sort here and does not show in it.
pub mod Pages
pub mod Newest
use alfred_ai.Base.{
  ℕ, zero, suc, ◌+◌, min, max, String, Bool, true, false, not, ◌&&◌, ◌||◌, Option, none, some, List,
  [], ◌∷◌, ◌++◌, Result, ok, err, if◌then◌else◌, or_else, defined, str_eq, ltb, leb, ◌==◌, filter,
  take, drop, length,
}
use alfred_ai.Runs.Store.{
  RunRecord, RunStatus, RunFiles, SchedulerRef, Ingress, is_live_status, new_usage, redact_run,
  kept_if, write_run,
}

pub data HistoryError : Type 0 where
  invalid_history_cursor : HistoryError

pub record HistoryOptions : Type 0 where
  pub before : Option String
  pub limit : Option ℕ
  pub terminal_only : Bool

pub record HistoryPage : Type 0 where
  pub runs : List RunRecord
  pub next_cursor : Option String

abbrev pub run_records : List (String × RunRecord) → List RunRecord
run_records [] = []
run_records ((id, run) ∷ runs) = run ∷ run_records runs

-- `!options.terminalOnly || !run.scheduler && run.status !== "running" && run.status !== "queued"`
abbrev pub is_shown : Bool → RunRecord → Bool
is_shown terminal_only run =
    not terminal_only || (not (defined run.scheduler) && not (is_live_status run.status))

-- `runs.findIndex((run) => run.runId === id) + 1`, where there is such a run.
unfoldable pub position_after : String → List RunRecord → Option ℕ
position_after id [] = none
position_after id (run ∷ runs) =
    let rest = position_after id runs in
    if str_eq run.run_id id then some 1 else elim rest [ none ↦ none | some n ↦ some (n + 1) ]

unfoldable pub start_of : Option String → List RunRecord → Result HistoryError ℕ
unfolding position_after
start_of none runs = ok 0
start_of (some id) runs = elim (position_after id runs) [
  | none ↦ err invalid_history_cursor
  | some n ↦ ok n
]

abbrev pub page_limit : Option ℕ → ℕ
page_limit limit = max 1 (min 100 (or_else limit 50))

-- `page.at(-1)?.runId`
abbrev pub last_id : List RunRecord → Option String
last_id [] = none
last_id (run ∷ []) = some run.run_id
last_id (run ∷ next ∷ runs) = last_id (next ∷ runs)

abbrev pub page_at : ℕ → ℕ → List RunRecord → HistoryPage
page_at start limit runs =
    let page = take limit (drop start runs) in
    record {
      runs = page;
      next_cursor = if ltb (start + limit) (length runs) then last_id page else none;
    }

-- A page of runs that are sorted.
unfoldable pub history_page : Option String → ℕ → List RunRecord → Result HistoryError HistoryPage
unfolding start_of
history_page before limit runs = elim (start_of before runs) [
  | err e ↦ err e
  | ok start ↦ ok (page_at start limit runs)
]

module _ (id_after : String → String → Bool) where
  -- Newer, or as old and with an id that is not before the other's.
  abbrev pub comes_first : RunRecord → RunRecord → Bool
  comes_first a b =
      ltb b.created_at a.created_at
      || ((a.created_at == b.created_at) && not (id_after b.run_id a.run_id))

  unfoldable pub insert_run : RunRecord → List RunRecord → List RunRecord
  insert_run run [] = run ∷ []
  insert_run run (next ∷ runs) =
      let rest = insert_run run runs in
      if comes_first run next then run ∷ next ∷ runs else next ∷ rest

  unfoldable pub sort_runs : List RunRecord → List RunRecord
  unfolding insert_run
  sort_runs [] = []
  sort_runs (run ∷ runs) = insert_run run (sort_runs runs)

  -- The runs of a session, newest first.
  unfoldable pub history_of : String → Bool → RunFiles → List RunRecord
  unfolding sort_runs filter
  history_of session_id terminal_only s = sort_runs (
      filter (is_shown terminal_only)
        (filter (λ run. str_eq run.session_id session_id) (run_records s.runs)))

  unfoldable pub list_history : String → HistoryOptions → RunFiles → Result HistoryError HistoryPage
  unfolding history_of history_page
  list_history session_id options s =
      history_page options.before (page_limit options.limit)
        (history_of session_id options.terminal_only s)

  abbrev pub previous_time : List RunRecord → ℕ
  previous_time [] = 0
  previous_time (run ∷ runs) = run.created_at

  -- `createRun`: the new record, before redaction.
  abbrev pub new_run : ℕ → String → String → String → RunStatus → Option SchedulerRef → RunRecord
  new_run now run_id session_id message status scheduler = record {
    run_id = run_id;
    session_id = session_id;
    message = message;
    status = status;
    created_at = now;
    updated_at = now;
    cancel_requested_at = none;
    assistant_text = none;
    llm_usage = some new_usage;
    tool_calls = [];
    ingress = none;
    scheduler = scheduler;
  }

  abbrev pub safe_run :
      (String → String) → Option SchedulerRef → Option Ingress → RunRecord → RunRecord
  safe_run redact scheduler ingress run =
      let safe = redact_run redact run in
      record safe {
        scheduler = kept_if scheduler safe.scheduler;
        ingress = kept_if ingress safe.ingress;
      }

  -- `run_id` is the new random id; `listHistory` with limit 1 reads the newest run.
  unfoldable pub create_run :
      (String → String)
      → ℕ
      → String
      → String
      → String
      → RunStatus
      → Option SchedulerRef
      → Option Ingress
      → RunFiles
      → RunFiles × RunRecord
  unfolding history_of write_run
  create_run redact clock run_id session_id message status scheduler ingress s =
      let latest = take (page_limit (some 1)) (history_of session_id false s) in
      let now = max clock (previous_time latest + 1) in
      let run =
        safe_run redact scheduler ingress
          (new_run now run_id session_id message status scheduler) in
      (write_run run.run_id run s, run)
