-- ===== src/Scheduler/Engine/Timers.antt =====
-- src/scheduler/engine.ts: start, stop, the timer, and the counts of `tick` around them.
--
-- A step is what runs between two awaits. `recovering` counts the calls of start that wait for
-- `recover`, `initializing` those that wait for the stores; a run is named by its cycle id. The tick
-- itself is the module above: here it starts runs and ends.
pub mod Awake
pub mod Stopping
use alfred_ai.Base.{
  ℕ, zero, suc, ◌+◌, ◌-◌, String, Bool, true, false, not, ◌&&◌, ◌||◌, Option, none, some, List, [],
  ◌∷◌, if◌then◌else◌, min, max, ltb, filter, str_eq, or_else, map, defined,
}
use alfred_ai.Scheduler.Schema.{map_option}
use alfred_ai.Scheduler.Model.{default_tick_max_ms}

pub record EngineTimers : Type 0 where
  pub running : Bool
  pub ticking : Bool
  pub timer : Option ℕ
  pub active_count : ℕ
  pub active_runs : List String
  pub stopping : Option (List String)
  pub initializing : ℕ
  pub recovering : ℕ

abbrev pub new_engine : EngineTimers
new_engine = record {
  running = false;
  ticking = false;
  timer = none;
  active_count = 0;
  active_runs = [];
  stopping = none;
  initializing = 0;
  recovering = 0;
}

abbrev pub tick_max_of : Option ℕ → ℕ
tick_max_of tick_max = max 1000 (or_else tick_max default_tick_max_ms)

-- `armTimer`: an armed timer is replaced.
abbrev pub arm_timer : ℕ → ℕ → EngineTimers → EngineTimers
arm_timer tick_max delay s =
    if s.running then record s { timer = some (max 0 (min delay tick_max)) } else s

abbrev pub next_delay : ℕ → ℕ
next_delay tick_max = min tick_max tick_max

pub data EngineStep : Type 0 where
  start_called stores_ready stores_failed recovered recover_failed timer_fired tick_ended :
      EngineStep
  stop_called stop_settled : EngineStep
  run_started run_ended : String → EngineStep

abbrev pub without : String → List String → List String
without id = filter (λ other. not (str_eq other id))

-- `tick` up to its first await.
abbrev pub begin_tick : EngineTimers → EngineTimers
begin_tick s = if not s.running || s.ticking then s else record s { ticking = true }

-- The `finally` of a run.
abbrev pub end_run : ℕ → String → EngineTimers → EngineTimers
end_run tick_max id s = arm_timer tick_max 0 (record s {
  active_count = s.active_count - 1;
  active_runs = without id s.active_runs;
  stopping = map_option (without id) s.stopping;
})

abbrev pub call_stop : EngineTimers → EngineTimers
call_stop s = elim s.stopping [
  | some waited ↦ s
  | none ↦ record s { running = false; timer = none; stopping = some s.active_runs }
]

abbrev pub settle_stop : EngineTimers → EngineTimers
settle_stop s = elim s.stopping [ some [] ↦ record s { active_runs = []; stopping = none } | _ ↦ s ]

-- A step that is not due changes nothing.
unfoldable pub engine_step : ℕ → ℕ → EngineStep → EngineTimers → EngineTimers
engine_step concurrency tick_max start_called s =
    if s.running then s else record s { initializing = s.initializing + 1 }
engine_step concurrency tick_max stores_ready s =
    if ltb 0 s.initializing
    then record s {
      running = true;
      initializing = s.initializing - 1;
      recovering = s.recovering + 1;
    }
    else s
engine_step concurrency tick_max stores_failed s = record s { initializing = s.initializing - 1 }
engine_step concurrency tick_max recovered s =
    if ltb 0 s.recovering
    then arm_timer tick_max 0 (record s { recovering = s.recovering - 1 })
    else s
engine_step concurrency tick_max recover_failed s = record s { recovering = s.recovering - 1 }
engine_step concurrency tick_max timer_fired s = elim s.timer [
  | none ↦ s
  | some delay ↦ begin_tick (record s { timer = none })
]
engine_step concurrency tick_max (run_started id) s =
    if s.ticking && ltb s.active_count concurrency
    then record s { active_count = s.active_count + 1; active_runs = id ∷ s.active_runs }
    else s
engine_step concurrency tick_max tick_ended s =
    if s.ticking then arm_timer tick_max (next_delay tick_max) (record s { ticking = false }) else s
engine_step concurrency tick_max (run_ended id) s =
    if ltb 0 s.active_count then end_run tick_max id s else s
engine_step concurrency tick_max stop_called s = call_stop s
engine_step concurrency tick_max stop_settled s = settle_stop s

unfoldable pub engine_steps : ℕ → ℕ → List EngineStep → EngineTimers → EngineTimers
engine_steps concurrency tick_max [] s = s
engine_steps concurrency tick_max (step ∷ steps) s =
    engine_steps concurrency tick_max steps (engine_step concurrency tick_max step s)
