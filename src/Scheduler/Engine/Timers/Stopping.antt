-- ===== src/Scheduler/Engine/Timers/Stopping.antt =====
-- What `stop` waits for, and what it does not.
use alfred_ai.Base.{
  ℕ, ◌+◌, ◌<◌, String, ◌≡◌, ◌≢◌, refl, ◌∙◌, ap, subst, true, false, Option, none, some, List, [],
  ◌∷◌, arith, inl, inr, Bool-cases, includes, eq_iff, filter, ltb,
}
use alfred_ai.Scheduler.Schema.{map_option}
use alfred_ai.Scheduler.Engine.Timers.{
  EngineTimers, EngineStep, start_called, stores_ready, stores_failed, recovered, recover_failed,
  timer_fired, run_started, tick_ended, run_ended, stop_called, stop_settled, without, end_run,
  engine_step, engine_steps,
}

-- A call of stop waits for this run.
abbrev pub IsWaitedFor : String → EngineTimers → Type 0
IsWaitedFor id s = (waited : List String) × (s.stopping ≡ some waited) × (includes waited id ≡ true)

-- The run does not end during the steps.
abbrev pub Goes : String → List EngineStep → Type 0
Goes id [] = Unit
Goes id (run_ended other ∷ steps) = (other ≢ id) × Goes id steps
Goes id (_ ∷ steps) = Goes id steps

includes-without :
    (id other : String) (ids : List String)
    → other ≢ id
    → includes ids id ≡ true
    → includes (without other ids) id ≡ true
unfolding includes filter
includes-without id other [] ne h = h
includes-without id other (x ∷ ids) ne h =
    let rest = includes-without id other ids ne in ground (arith, rest, eq_iff x other, eq_iff x id)

end_run-stopping :
    (tick_max : ℕ) (id : String) (s : EngineTimers)
    → (end_run tick_max id s).stopping ≡ map_option (without id) s.stopping
end_run-stopping tick_max id s = ground arith

engine_step-IsWaitedFor :
    (concurrency tick_max : ℕ) (id : String) (step : EngineStep) (s : EngineTimers)
    → Goes id (step ∷ [])
    → IsWaitedFor id s
    → IsWaitedFor id (engine_step concurrency tick_max step s)
unfolding engine_step includes
engine_step-IsWaitedFor concurrency tick_max id start_called s g w = ground arith
engine_step-IsWaitedFor concurrency tick_max id stores_ready s g w = ground arith
engine_step-IsWaitedFor concurrency tick_max id stores_failed s g w = ground arith
engine_step-IsWaitedFor concurrency tick_max id recovered s g w = ground arith
engine_step-IsWaitedFor concurrency tick_max id recover_failed s g w = ground arith
engine_step-IsWaitedFor concurrency tick_max id timer_fired s g w = ground arith
engine_step-IsWaitedFor concurrency tick_max id tick_ended s g w = ground arith
engine_step-IsWaitedFor concurrency tick_max id stop_called s g w = ground arith
engine_step-IsWaitedFor concurrency tick_max id stop_settled s g (waited, is, there) =
    settled_waits s.stopping refl
  where
    settled_waits :
        (w : Option (List String))
        → s.stopping ≡ w
        → IsWaitedFor id (engine_step concurrency tick_max stop_settled s)
    settled_waits none e = cc
    settled_waits (some []) e =
        let empty : waited ≡ [] = cc in
        let absurd_case : false ≡ true = subst (λ ids. includes ids id ≡ true) empty there in cc
    settled_waits (some (x ∷ xs)) e =
        let same : waited ≡ x ∷ xs = cc in
        rw (e, engine_step) (x ∷ xs, refl, subst (λ ids. includes ids id ≡ true) same there)
engine_step-IsWaitedFor concurrency tick_max id (run_started other) s g w = ground arith
engine_step-IsWaitedFor concurrency tick_max id (run_ended other) s g (waited, is, there) =
    elim (Bool-cases (ltb 0 s.active_count)) [
      | inr stays ↦ rw (stays, engine_step) (waited, is, there)
      | inl ends ↦
          rw (ends, engine_step)
            (
              without other waited,
              end_run-stopping tick_max other s ∙ ap (map_option (without other)) is,
              includes-without id other waited g.0 there,
            )
    ]

Goes-split :
    (id : String) (step : EngineStep) (steps : List EngineStep)
    → Goes id (step ∷ steps)
    → Goes id (step ∷ []) × Goes id steps
Goes-split id start_called steps g = (tt, g)
Goes-split id stores_ready steps g = (tt, g)
Goes-split id stores_failed steps g = (tt, g)
Goes-split id recovered steps g = (tt, g)
Goes-split id recover_failed steps g = (tt, g)
Goes-split id timer_fired steps g = (tt, g)
Goes-split id tick_ended steps g = (tt, g)
Goes-split id stop_called steps g = (tt, g)
Goes-split id stop_settled steps g = (tt, g)
Goes-split id (run_started other) steps g = (tt, g)
Goes-split id (run_ended other) steps g = ((g.0, tt), g.1)

stop_called_waits :
    (concurrency tick_max : ℕ) (id : String) (s : EngineTimers)
    → s.stopping ≡ none
    → includes s.active_runs id ≡ true
    → IsWaitedFor id (engine_step concurrency tick_max stop_called s)
unfolding engine_step
stop_called_waits concurrency tick_max id s idle there =
    rw (idle, engine_step) (s.active_runs, refl, there)

engine_steps-IsWaitedFor :
    (concurrency tick_max : ℕ) (id : String) (steps : List EngineStep) (s : EngineTimers)
    → Goes id steps
    → IsWaitedFor id s
    → IsWaitedFor id (engine_steps concurrency tick_max steps s)
unfolding engine_steps
engine_steps-IsWaitedFor concurrency tick_max id [] s g w = w
engine_steps-IsWaitedFor concurrency tick_max id (step ∷ steps) s g w =
    let (now, later) = Goes-split id step steps g in
    engine_steps-IsWaitedFor concurrency tick_max id steps (engine_step concurrency tick_max step s)
      later (engine_step-IsWaitedFor concurrency tick_max id step s now w)

-- A call of stop, made while no other is under way, waits for each run that is then in the set of
-- active runs: whatever steps come after, as long as that run has not ended among them, the stop is
-- under way and waits for it. Of runs that are not in the set, or that start later, it says nothing.
pub stop_waits :
    (concurrency tick_max : ℕ) (id : String) (steps : List EngineStep) (s : EngineTimers)
    → s.stopping ≡ none
    → includes s.active_runs id ≡ true
    → Goes id steps
    → IsWaitedFor id (engine_steps concurrency tick_max (stop_called ∷ steps) s)
unfolding engine_steps
stop_waits concurrency tick_max id steps s idle there g =
    engine_steps-IsWaitedFor concurrency tick_max id steps
      (engine_step concurrency tick_max stop_called s) g
      (stop_called_waits concurrency tick_max id s idle there)

abbrev pub stop_with_run : ℕ → ℕ → String → EngineTimers → EngineTimers
stop_with_run concurrency tick_max id =
    engine_steps concurrency tick_max (stop_called ∷ run_started id ∷ stop_settled ∷ [])

-- When stop is called while a tick is under way and no run is in progress, the tick may still start a
-- run, since it does not look whether the engine is running; stop then settles, and leaves the engine
-- stopped, with that run in progress and forgotten by the set of runs.
pub stop_leaves_run :
    (concurrency tick_max : ℕ) (id : String) (s : EngineTimers)
    → s.stopping ≡ none
    → s.ticking ≡ true
    → s.active_runs ≡ []
    → s.active_count < concurrency
    → ((stop_with_run concurrency tick_max id s).running ≡ false)
      × ((stop_with_run concurrency tick_max id s).stopping ≡ none)
      × ((stop_with_run concurrency tick_max id s).active_count ≡ s.active_count + 1)
      × ((stop_with_run concurrency tick_max id s).active_runs ≡ [])
unfolding engine_steps engine_step
stop_leaves_run concurrency tick_max id s idle ticks none_active room = ground arith
