-- ===== src/Scheduler/Tests/Timers.antt =====
-- The engine's timers at concrete steps.
use alfred_ai.Base.{
  ◌+◌, ◌≢◌, String, ◌≡◌, refl, true, false, none, some, List, [], ◌∷◌, arith, includes, eq_iff,
}
use alfred_ai.Scheduler.Engine.Timers.{
  EngineTimers, EngineStep, new_engine, start_called, stores_ready, recovered, timer_fired,
  run_started, tick_ended, run_ended, stop_called, stop_settled, engine_steps,
}
use alfred_ai.Scheduler.Engine.Timers.Awake.{IsAwake, new_engine-IsAwake}
use alfred_ai.Scheduler.Engine.Timers.Stopping.{
  IsWaitedFor, stop_with_run, stop_waits, stop_leaves_run,
}

-- A tick starts a run, and ends; the run ends, and the timer starts another tick.
abbrev a_day : List EngineStep
a_day =
    start_called
    ∷ stores_ready
    ∷ recovered
    ∷ timer_fired
    ∷ run_started "c"
    ∷ tick_ended
    ∷ run_ended "c"
    ∷ timer_fired
    ∷ []

new_engine-IsAwake_example : IsAwake 1 15000 (engine_steps 1 15000 a_day new_engine)
new_engine-IsAwake_example = new_engine-IsAwake 1 15000 a_day tt

abbrev busy : EngineTimers
busy = record new_engine {
  running = true;
  active_count = 1;
  active_runs = "c" ∷ [];
  timer = some 15000;
}

d-c : ◌≢◌ {A = String} "d" "c"
d-c = ground (arith, eq_iff "d" "c")

stop_waits_example :
    IsWaitedFor "c" (engine_steps 2 15000 (stop_called ∷ run_ended "d" ∷ stop_settled ∷ []) busy)
unfolding includes
stop_waits_example =
    stop_waits 2 15000 "c" (run_ended "d" ∷ stop_settled ∷ []) busy refl refl (d-c, tt)

abbrev looking : EngineTimers
looking = record new_engine { running = true; ticking = true }

stop_leaves_run_example :
    ((stop_with_run 1 15000 "c" looking).running ≡ false)
    × ((stop_with_run 1 15000 "c" looking).stopping ≡ none)
    × ((stop_with_run 1 15000 "c" looking).active_count ≡ looking.active_count + 1)
    × ((stop_with_run 1 15000 "c" looking).active_runs ≡ [])
stop_leaves_run_example = stop_leaves_run 1 15000 "c" looking refl refl refl (omega arith)
