-- ===== src/Runs/Store.antt =====
-- src/runs/runStore.ts: `RunStore`, the records of runs.
--
-- `redact` is what `redactValue` of src/utils/redact.ts does to one text; it leaves the ids of runs and
-- timestamps as they are. The files of the runs are a map from ids, in the order in which the
-- directory lists them. Of a record, the fields that the store itself reads or writes are modelled,
-- and of a patch those that the store's callers set. A mutation is under a file lock.
pub mod Cycles
pub mod Recovery
use alfred_ai.Base.{
  ℕ, ◌+◌, max, String, Bool, true, false, not, ◌&&◌, ◌||◌, Option, none, some, List, [], ◌∷◌, ◌++◌,
  Result, ok, err, map, if◌then◌else◌, is_text, defined, or_else, str_eq, lookup, put_in,
}
use mathlib.Core.Option.{map as map_option}
use alfred_ai.Runs.Journal.{ChangeJournal, new_journal, record_change}

pub data RunStatus : Type 0 where
  queued running completed cancelled failed needs_approval : RunStatus

pub record SchedulerRef : Type 0 where
  pub task_id : String
  pub cycle_id : String

pub record Ingress : Type 0 where
  pub request_id : Option String
  pub principal_id : String
  pub channel_key : Option String

pub record LlmUsage : Type 0 where
  pub prompt_tokens : ℕ
  pub completion_tokens : ℕ
  pub total_tokens : ℕ
  pub cached_tokens : ℕ
  pub reasoning_tokens : ℕ

pub record LlmUsageTotals : Type 0 where
  pub usage : LlmUsage
  pub call_count : ℕ

pub record RunRecord : Type 0 where
  pub run_id : String
  pub session_id : String
  pub message : String
  pub status : RunStatus
  pub created_at : ℕ
  pub updated_at : ℕ
  pub cancel_requested_at : Option ℕ
  pub assistant_text : Option String
  pub llm_usage : Option LlmUsageTotals
  pub tool_calls : List String
  pub ingress : Option Ingress
  pub scheduler : Option SchedulerRef

-- The fields that a patch names; a field that it names as undefined is `some none`.
pub record RunPatch : Type 0 where
  pub status : Option RunStatus
  pub cancel_requested_at : Option (Option ℕ)
  pub assistant_text : Option String
  pub scheduler : Option SchedulerRef

abbrev pub no_patch : RunPatch
no_patch = record {
  status = none;
  cancel_requested_at = none;
  assistant_text = none;
  scheduler = none;
}

pub data RunError : Type 0 where
  run_not_found : RunError

pub record RunFiles : Type 0 where
  pub runs : List (String × RunRecord)
  pub journals : List (String × ChangeJournal)

abbrev pub is_live_status : RunStatus → Bool
is_live_status queued = true
is_live_status running = true
is_live_status _ = false

abbrev pub new_usage : LlmUsageTotals
new_usage = record {
  usage = record {
    prompt_tokens = 0;
    completion_tokens = 0;
    total_tokens = 0;
    cached_tokens = 0;
    reasoning_tokens = 0;
  };
  call_count = 0;
}

-- `mergeLlmUsage`: the counts are whole numbers.
abbrev pub add_usage : LlmUsage → LlmUsage → LlmUsage
add_usage u v = record {
  prompt_tokens = u.prompt_tokens + v.prompt_tokens;
  completion_tokens = u.completion_tokens + v.completion_tokens;
  total_tokens = u.total_tokens + v.total_tokens;
  cached_tokens = u.cached_tokens + v.cached_tokens;
  reasoning_tokens = u.reasoning_tokens + v.reasoning_tokens;
}

abbrev pub merge_llm_usage : Option LlmUsageTotals → LlmUsage → ℕ → LlmUsageTotals
merge_llm_usage current usage calls =
    let before = or_else current new_usage in
    record { usage = add_usage before.usage usage; call_count = before.call_count + calls }

-- `JsonFileRunStorage.writeRun`
unfoldable pub write_run : String → RunRecord → RunFiles → RunFiles
write_run id run s = record {
  runs = put_in id run s.runs;
  journals =
      put_in run.session_id
        (record_change id (or_else (lookup run.session_id s.journals) new_journal)) s.journals;
}

-- `{ ...current, ...patch }`
abbrev pub patched : RunPatch → RunRecord → RunRecord
patched patch run = record run {
  status = or_else patch.status run.status;
  cancel_requested_at = or_else patch.cancel_requested_at run.cancel_requested_at;
  assistant_text = elim patch.assistant_text [ none ↦ run.assistant_text | some t ↦ some t ];
  scheduler = elim patch.scheduler [ none ↦ run.scheduler | some ref ↦ some ref ];
}

-- `if (value) target = value`
abbrev pub kept_if {ℓ} : {A : Type ℓ} → Option A → Option A → Option A
kept_if none before = before
kept_if (some a) before = some a

module _ (redact : String → String) where
  abbrev pub redact_ref : SchedulerRef → SchedulerRef
  redact_ref ref = record { task_id = redact ref.task_id; cycle_id = redact ref.cycle_id }

  abbrev pub redact_ingress : Ingress → Ingress
  redact_ingress ingress = record {
    request_id = map_option redact ingress.request_id;
    principal_id = redact ingress.principal_id;
    channel_key = map_option redact ingress.channel_key;
  }

  -- `redactValue` of a record.
  abbrev pub redact_run : RunRecord → RunRecord
  redact_run run = record run {
    session_id = redact run.session_id;
    message = redact run.message;
    assistant_text = map_option redact run.assistant_text;
    tool_calls = map redact run.tool_calls;
    ingress = map_option redact_ingress run.ingress;
    scheduler = map_option redact_ref run.scheduler;
  }

  abbrev pub redact_patch : RunPatch → RunPatch
  redact_patch patch = record patch {
    assistant_text = map_option redact patch.assistant_text;
    scheduler = map_option redact_ref patch.scheduler;
  }

  -- What `updateRun` writes.
  unfoldable pub updated_run : ℕ → RunPatch → RunRecord → RunRecord
  updated_run now patch current =
      let safe = redact_run (record (patched (redact_patch patch) current) { updated_at = now }) in
      record safe {
        scheduler = kept_if patch.scheduler safe.scheduler;
        ingress = kept_if current.ingress safe.ingress;
      }

  unfoldable pub update_run :
      ℕ → String → RunPatch → RunFiles → RunFiles × Result RunError RunRecord
  unfolding updated_run write_run
  update_run now id patch s = elim (lookup id s.runs) [
    | none ↦ (s, err run_not_found)
    | some current ↦
        (write_run id (updated_run now patch current) s, ok (updated_run now patch current))
  ]

  unfoldable pub request_cancellation : ℕ → String → RunFiles → RunFiles × Result RunError RunRecord
  unfolding update_run
  request_cancellation now id =
      update_run now id (record no_patch { cancel_requested_at = some (some now) })

  unfoldable pub clear_cancellation : ℕ → String → RunFiles → RunFiles × Result RunError RunRecord
  unfolding update_run
  clear_cancellation now id =
      update_run now id (record no_patch { cancel_requested_at = some none })

  -- What `addToolCall` and `addLlmUsage` write: no more than the ingress is put back.
  abbrev pub rewritten : ℕ → RunRecord → RunRecord → RunRecord
  rewritten now current changed =
      let safe = redact_run (record changed { updated_at = now }) in
      record safe { ingress = kept_if current.ingress safe.ingress }

  unfoldable pub add_tool_call :
      ℕ → String → String → RunFiles → RunFiles × Result RunError (Unit {0})
  unfolding write_run
  add_tool_call now id call s = elim (lookup id s.runs) [
    | none ↦ (s, err run_not_found)
    | some current ↦ (
      write_run id
          (rewritten now current
            (record current { tool_calls = current.tool_calls ++ (redact call ∷ []) }))
          s,
      ok tt,
    )
  ]

  unfoldable pub add_llm_usage :
      ℕ → String → LlmUsage → ℕ → RunFiles → RunFiles × Result RunError (Unit {0})
  unfolding write_run
  add_llm_usage now id usage calls s = elim (lookup id s.runs) [
    | none ↦ (s, err run_not_found)
    | some current ↦ (
      write_run id
          (rewritten now current
            (record current { llm_usage = some (merge_llm_usage current.llm_usage usage calls) }))
          s,
      ok tt,
    )
  ]

  -- A run that a restart of the server has interrupted.
  abbrev pub is_interrupted : RunRecord → Bool
  is_interrupted run = not (defined run.scheduler) && is_live_status run.status

  abbrev pub interruption : RunPatch
  interruption = record no_patch {
    status = some failed;
    assistant_text = some "Run interrupted by server restart.";
  }

  -- The loop of `recoverInterruptedRuns` over the ids that it has listed.
  unfoldable pub recover_runs : ℕ → List (String × RunRecord) → RunFiles → RunFiles × ℕ
  unfolding update_run
  recover_runs now [] s = (s, 0)
  recover_runs now ((id, listed) ∷ ids) s = elim (lookup id s.runs) [
    | none ↦ recover_runs now ids s
    | some run ↦ elim (is_interrupted run) [
      | false ↦ recover_runs now ids s
      | true ↦
          let (s', n) = recover_runs now ids (update_run now id interruption s).0 in (s', n + 1)
    ]
  ]

  unfoldable pub recover_interrupted_runs : ℕ → RunFiles → RunFiles × ℕ
  unfolding recover_runs
  recover_interrupted_runs now s = recover_runs now s.runs s

abbrev pub is_cycle : String → String → RunRecord → Bool
is_cycle task_id cycle_id run = elim run.scheduler [
  | none ↦ false
  | some ref ↦ str_eq ref.task_id task_id && str_eq ref.cycle_id cycle_id
]

-- `findRunBySchedulerCycle`
unfoldable pub find_run_by_cycle : String → String → List (String × RunRecord) → Option RunRecord
find_run_by_cycle task_id cycle_id [] = none
find_run_by_cycle task_id cycle_id ((id, run) ∷ runs) =
    if is_cycle task_id cycle_id run then some run else find_run_by_cycle task_id cycle_id runs

abbrev pub is_request : String → String → String → RunRecord → Bool
is_request session_id principal_id request_id run =
    str_eq run.session_id session_id && elim run.ingress [
      | none ↦ false
      | some ingress ↦
          str_eq ingress.principal_id principal_id && is_text ingress.request_id request_id
    ]

unfoldable pub find_request :
    String → String → String → List (String × RunRecord) → Option RunRecord
find_request session_id principal_id request_id [] = none
find_request session_id principal_id request_id ((id, run) ∷ runs) =
    if is_request session_id principal_id request_id run
    then some run
    else find_request session_id principal_id request_id runs
