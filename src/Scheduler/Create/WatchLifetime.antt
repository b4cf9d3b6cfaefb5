-- ===== src/Scheduler/Create/WatchLifetime.antt =====
-- The expiry that `create` gives a watch for which the caller names none.
use alfred_ai.Base.{
  [], ◌∷◌, ◌++◌, leb, ℕ, ◌+◌, ◌≤◌, String, ◌≡◌, refl, ◌≢◌, true, false, Option, none, some, ok,
  arith,
}
use alfred_ai.Scheduler.Model.{
  Task, Snapshot, Stamp, watch, default_watch_lifetime_ms, stamp_le, min_delay_ms, max_horizon_ms,
}
use alfred_ai.Scheduler.Schema.{Zod, parse_task, trim_task}
use alfred_ai.Scheduler.TaskStore.{find_task, granted, claim, has_expired}
use alfred_ai.Scheduler.TaskStore.Claims.{claim-granted}
use alfred_ai.Scheduler.Create.{
  CreateInput, instant, expires_too_soon, parse_create, expiry_for, new_task, build_task, create,
}

made-dates :
    (z : Zod) (now : ℕ) (id : String) (i : CreateInput) (x : Option ℕ) (t : Task)
    → parse_task z (new_task now id i x) ≡ some t
    → (t.due_at ≡ i.due_at) × (t.expires_at ≡ x) × (t.id ≡ id)
unfolding parse_task new_task trim_task
made-dates z now id i x t e = ground arith

watch_expiry :
    (now : ℕ) (i : CreateInput)
    → i.kind ≡ watch
    → i.expires_at ≡ none
    → expiry_for now i.kind i.expires_at ≡ ok (some (now + default_watch_lifetime_ms))
unfolding expiry_for
watch_expiry now i k n = ground arith

-- A watch that passes the checks of its input, without an expiry of its own and due at least as late as
-- the expiry that it is given, is accepted and stored.
watch_created :
    (z : Zod) (now : ℕ) (id : String) (input i : CreateInput) (t : Task) (ts : Snapshot)
    → parse_create z input ≡ ok i
    → i.kind ≡ watch
    → i.expires_at ≡ none
    → now + default_watch_lifetime_ms ≤ instant i.due_at
    → instant i.due_at ≤ now + max_horizon_ms
    → parse_task z (new_task now id i (some (now + default_watch_lifetime_ms))) ≡ some t
    → create z now id input ts ≡ ok (ts ++ (t ∷ []), t)
unfolding create build_task
watch_created z now id input i t ts parsed k n le far made =
    let late : leb (now + min_delay_ms) (instant i.due_at) ≡ true = ground arith in
    let near : leb (instant i.due_at) (now + max_horizon_ms) ≡ true = ground arith in
    let soon : expires_too_soon i.expires_at (instant i.due_at) ≡ false = rw n refl in
    rw (parsed, late, near, soon, watch_expiry now i k n, made) refl

due_before_expiry :
    (due : Stamp) (at later : ℕ)
    → at ≤ instant due
    → stamp_le due later ≡ true
    → has_expired (some at) later ≡ true
due_before_expiry due at later h e = ground arith

-- A watch whose input passes its checks and names no expiry, which is due a day or more after its
-- creation and within the horizon, and whose record passes the schema: create accepts and stores it;
-- and it never runs, since no claim of it is granted, at any time, by anyone, in any snapshot that
-- holds it as it was created.
pub watch_never_claimed :
    (z : Zod) (now later : ℕ) (instance id cycle_id : String) (expected : Option ℕ)
    (input i : CreateInput) (t w : Task) (ts vs us : Snapshot)
    → parse_create z input ≡ ok i
    → i.kind ≡ watch
    → i.expires_at ≡ none
    → now + default_watch_lifetime_ms ≤ instant i.due_at
    → instant i.due_at ≤ now + max_horizon_ms
    → parse_task z (new_task now id i (some (now + default_watch_lifetime_ms))) ≡ some t
    → find_task id vs ≡ some t
    → (create z now id input ts ≡ ok (ts ++ (t ∷ []), t))
      × (claim later instance id expected vs ≢ ok (us, granted w cycle_id))
watch_never_claimed z now later instance id cycle_id expected input i t w ts vs us parsed k n le far
      made found =
    let (due, at, _) = made-dates z now id i (some (now + default_watch_lifetime_ms)) t made in
    (
      watch_created z now id input i t ts parsed k n le far made,
      λ g.
          let (s, there, c, _, _, _) =
            claim-granted later instance id cycle_id expected vs us w g in
          let same : s ≡ t = cc in
          let over : has_expired (some (now + default_watch_lifetime_ms)) later ≡ true =
            due_before_expiry i.due_at _ later le (rw (← due, ← same) c.due) in
          let ended : has_expired t.expires_at later ≡ true = rw at over in
          let alive : has_expired t.expires_at later ≡ false = rw (← same) c.alive in
          cc (ended, alive),
    )
