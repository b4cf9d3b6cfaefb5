-- ===== src/Scheduler/Tests/Creation.antt =====
-- `create` at concrete inputs.
use alfred_ai.Base.{refl, ◌≡◌, ◌≢◌, none, some, [], ◌∷◌, ok, arith, find, units}
use alfred_ai.Scheduler.Model.{Task, default_watch_lifetime_ms}
use alfred_ai.Scheduler.Schema.{
  parse_task, trim_task, valid_task, trim_owner, trim_destination, trim_watch, valid_watch,
  is_safe_relative,
}
use alfred_ai.Scheduler.Create.{
  create, build_task, parse_create, trim_create, valid_create, expiry_for, new_task,
}
use alfred_ai.Scheduler.Create.WatchLifetime.{watch_never_claimed}
use alfred_ai.Scheduler.TaskStore.{granted, claim}
use alfred_ai.Scheduler.Samples.{plain_zod, watch_input}

abbrev watch_task : Task
watch_task = new_task 0 "t3" watch_input (some default_watch_lifetime_ms)

watch_never_claimed_example :
    (create plain_zod 0 "t3" watch_input [] ≡ ok (watch_task ∷ [], watch_task))
    × (claim 90000001 "a" "t3" none (watch_task ∷ [])
        ≢ ok ((watch_task ∷ []), granted watch_task "c"))
unfolding create build_task parse_create trim_create valid_create expiry_for new_task parse_task
    trim_task valid_task trim_owner trim_destination trim_watch valid_watch is_safe_relative find
    units
watch_never_claimed_example =
    watch_never_claimed plain_zod 0 90000001 "a" "t3" "c" none watch_input watch_input watch_task
      watch_task [] (watch_task ∷ []) (watch_task ∷ []) refl refl refl (omega arith) (omega arith)
      refl refl
