-- ===== src/Scheduler/Engine/Timers/Awake.antt =====
-- A running engine has a tick under way or a timer that will start one.
use alfred_ai.Base.{
  ℕ, ◌<◌, ◌≤◌, ◌≡◌, ◌⊎◌, inl, refl, true, false, Option, none, some, List, [], ◌∷◌, arith,
}
use alfred_ai.Scheduler.Engine.Timers.{
  EngineTimers, new_engine, EngineStep, start_called, stores_ready, stores_failed, recovered,
  recover_failed, timer_fired, run_started, tick_ended, run_ended, stop_called, stop_settled,
  engine_step, engine_steps,
}

abbrev pub IsWithin : ℕ → Option ℕ → Type 0
IsWithin tick_max none = Unit
IsWithin tick_max (some delay) = delay ≤ tick_max

-- The engine is stopped and has no timer; or it is recovering; or a tick is under way; or the timer is
-- set. The timer's delay is within the longest tick, and the runs within the concurrency.
pub record IsAwake (concurrency tick_max : ℕ) (s : EngineTimers) : Type 0 where
  pub awake :
      ((s.running ≡ false) × (s.timer ≡ none))
      ⊎ ((s.running ≡ true)
          × ((0 < s.recovering) ⊎ ((s.ticking ≡ true) ⊎ ((delay : ℕ) × (s.timer ≡ some delay)))))
  pub within : IsWithin tick_max s.timer
  pub room : s.active_count ≤ concurrency

abbrev pub Recovers : List EngineStep → Type 0
Recovers [] = Unit
Recovers (recover_failed ∷ steps) = ⊥
Recovers (_ ∷ steps) = Recovers steps

engine_step-IsAwake :
    (concurrency tick_max : ℕ) (step : EngineStep) (steps : List EngineStep) (s : EngineTimers)
    → Recovers (step ∷ steps)
    → IsAwake concurrency tick_max s
    → IsAwake concurrency tick_max (engine_step concurrency tick_max step s)
unfolding engine_step
engine_step-IsAwake concurrency tick_max start_called steps s r w = ground arith
engine_step-IsAwake concurrency tick_max stores_ready steps s r w = ground arith
engine_step-IsAwake concurrency tick_max stores_failed steps s r w = ground arith
engine_step-IsAwake concurrency tick_max recovered steps s r w = ground arith
engine_step-IsAwake concurrency tick_max recover_failed steps s r w = elim r [ ]
engine_step-IsAwake concurrency tick_max timer_fired steps s r w = ground arith
engine_step-IsAwake concurrency tick_max tick_ended steps s r w = ground arith
engine_step-IsAwake concurrency tick_max stop_called steps s r w = ground arith
engine_step-IsAwake concurrency tick_max stop_settled steps s r w = ground arith
engine_step-IsAwake concurrency tick_max (run_started id) steps s r w = ground arith
engine_step-IsAwake concurrency tick_max (run_ended id) steps s r w = ground arith

Recovers-rest :
    (step : EngineStep) (steps : List EngineStep) → Recovers (step ∷ steps) → Recovers steps
Recovers-rest recover_failed steps r = elim r [ ]
Recovers-rest start_called steps r = r
Recovers-rest stores_ready steps r = r
Recovers-rest stores_failed steps r = r
Recovers-rest recovered steps r = r
Recovers-rest timer_fired steps r = r
Recovers-rest tick_ended steps r = r
Recovers-rest stop_called steps r = r
Recovers-rest stop_settled steps r = r
Recovers-rest (run_started id) steps r = r
Recovers-rest (run_ended id) steps r = r

engine_steps-IsAwake :
    (concurrency tick_max : ℕ) (steps : List EngineStep) (s : EngineTimers)
    → Recovers steps
    → IsAwake concurrency tick_max s
    → IsAwake concurrency tick_max (engine_steps concurrency tick_max steps s)
unfolding engine_steps
engine_steps-IsAwake concurrency tick_max [] s r w = w
engine_steps-IsAwake concurrency tick_max (step ∷ steps) s r w =
    engine_steps-IsAwake concurrency tick_max steps (engine_step concurrency tick_max step s)
      (Recovers-rest step steps r) (engine_step-IsAwake concurrency tick_max step steps s r w)

-- Whatever steps a new engine takes, in any order, if no recovery throws: it is stopped and has no
-- timer; or it is recovering, or a tick is under way, or its timer is set, for no longer than the
-- longest tick. And never more runs are in progress than the concurrency allows.
pub new_engine-IsAwake :
    (concurrency tick_max : ℕ) (steps : List EngineStep)
    → Recovers steps
    → IsAwake concurrency tick_max (engine_steps concurrency tick_max steps new_engine)
new_engine-IsAwake concurrency tick_max steps r =
    engine_steps-IsAwake concurrency tick_max steps new_engine r
      (record { awake = inl (refl, refl); within = tt; room = omega arith })
