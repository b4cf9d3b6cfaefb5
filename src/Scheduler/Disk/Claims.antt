-- ===== src/Scheduler/Disk/Claims.antt =====
-- Claims on the file: a granted claim excludes every other, and the claims of one task are bounded.
use alfred_ai.Base.{ℕ, ◌+◌, String, ◌≡◌, refl, ◌≢◌, ◌∙◌, sym, Option, none, some, map, Result, ok}
use alfred_ai.Scheduler.Model.{Task, Snapshot, pending, claimed, StoreError}
use alfred_ai.Scheduler.Schema.{Zod, parse_snapshot, trim_task}
use alfred_ai.Scheduler.TaskStore.{find_task, ClaimResult, granted, claimed_task, claim}
use alfred_ai.Scheduler.TaskStore.Snapshots.{find_task-replace_self, find_task-id}
use alfred_ai.Scheduler.TaskStore.Claims.{IsClaimable, claim-granted}
use alfred_ai.Scheduler.Disk.{Content, not_json, not_a_snapshot, stored, Disk, redact_task, mutate}
use alfred_ai.Scheduler.Disk.Reading.{
  Outcome, unreadable, threw, rejected, written, mutate-Outcome, reads,
}
use alfred_ai.Scheduler.Disk.Lifecycle.{task_at, redact-find, parse-find}

claimed_task-status :
    (now : ℕ) (instance : String) (t : Task)
    → ((claimed_task now instance t).status ≡ claimed)
      × ((claimed_task now instance t).cycle_count ≡ t.cycle_count + 1)
      × ((claimed_task now instance t).id ≡ t.id)
      × ((claimed_task now instance t).max_cycles ≡ t.max_cycles)
unfolding claimed_task
claimed_task-status now instance t = (refl, refl, refl, refl)

-- The task with this id in a content is claimed, with the cycles given.
abbrev pub IsHeld : String → ℕ → Option Content → Type 0
IsHeld id n c = (u : Task) × (task_at id c ≡ some u) × (u.status ≡ claimed) × (u.cycle_count ≡ n)

module _ (z : Zod) (redact : String → String) where
  written-kept :
      (id : String) (ts us : Snapshot) (t : Task)
      → parse_snapshot z (map (redact_task redact) ts) ≡ some us
      → find_task id ts ≡ some t
      → (u : Task) × (find_task id us ≡ some u)
        × (u.status ≡ t.status)
        × (u.cycle_count ≡ t.cycle_count)
  unfolding trim_task redact_task
  written-kept id ts us t p e = (
    trim_task z (redact_task redact t),
    parse-find z id _ us _ p (redact-find redact id ts t e),
    refl,
    refl,
  )

  -- What the outcome of a granted claim says about the file before and after.
  pub Outcome-granted :
      (now : ℕ) (instance id cycle_id : String) (expected : Option ℕ) (d : Disk) (w : Task)
      (out : Disk × Result StoreError ClaimResult)
      → Outcome z redact (claim now instance id expected) d out
      → out.1 ≡ ok (granted w cycle_id)
      → (ts : Snapshot) × (t : Task) × (reads z d.tasks_file ≡ some ts)
        × (find_task id ts ≡ some t)
        × IsClaimable now expected t
        × IsHeld id (t.cycle_count + 1) out.0.tasks_file
  Outcome-granted now instance id cycle_id expected d w out (unreadable c a q b o) g = cc
  Outcome-granted now instance id cycle_id expected d w out (threw ts x q f a o) g = cc
  Outcome-granted now instance id cycle_id expected d w out (rejected ts r q f b a o) g = cc
  Outcome-granted now instance id cycle_id expected d w out (written ts us r a done parsed b o) g =
      let given : r.1 ≡ granted w cycle_id = cc in
      let whole : claim now instance id expected ts ≡ ok (r.0, granted w cycle_id) =
        rw (← given) done in
      let (t, found, c, moved, _, _) =
        claim-granted now instance id cycle_id expected ts r.0 w whole in
      let (status, cycles, same, _) = claimed_task-status now instance t in
      let there : find_task id r.0 ≡ some (claimed_task now instance t) = rw moved (
        find_task-replace_self id (claimed_task now instance t) t ts
          (same ∙ find_task-id id ts t found) found) in
      let (u, kept, still, count) =
        written-kept id r.0 us (claimed_task now instance t) parsed there in
      (ts, t, a, found, c, rw b (u, kept, still ∙ status, count ∙ cycles))

  trim_task-status : (u : Task) → (trim_task z u).status ≡ u.status
  unfolding trim_task
  trim_task-status u = refl

  -- A read gives a task with the status that the file holds.
  reads-status :
      (id : String) (c : Option Content) (ts : Snapshot) (t u : Task)
      → reads z c ≡ some ts
      → task_at id c ≡ some u
      → find_task id ts ≡ some t
      → u.status ≡ t.status
  reads-status id none ts t u a e f = cc
  reads-status id (some not_json) ts t u a e f = cc
  reads-status id (some not_a_snapshot) ts t u a e f = cc
  reads-status id (some (stored us)) ts t u a e f =
      let same : t ≡ trim_task z u = cc (parse-find z id us ts u a e) in
      rw same (sym (trim_task-status u))

  -- No claim is granted on a task that the file holds as claimed.
  held-refused :
      (now n : ℕ) (instance id cycle_id : String) (expected : Option ℕ) (d : Disk) (w : Task)
      → IsHeld id n d.tasks_file
      → (mutate z redact (claim now instance id expected) d).1 ≢ ok (granted w cycle_id)
  held-refused now n instance id cycle_id expected d w h g =
      let (ts, t, a, found, c, _) =
        Outcome-granted now instance id cycle_id expected d w _
          (mutate-Outcome z redact (claim now instance id expected) d) g in
      let waiting : h.0.status ≡ pending =
        reads-status id d.tasks_file ts t h.0 a h.1 found ∙ c.waits in
      cc (waiting, h.2)

  -- After a granted claim on a task no other claim on it is granted at once, whoever makes it and
  -- whenever, whatever redaction and zod's trim do to the texts of the task.
  pub claim_exclusive :
      (now later : ℕ) (instance other id cycle_id cycle_id' : String)
      (expected expected' : Option ℕ) (d : Disk) (w v : Task)
      → (mutate z redact (claim now instance id expected) d).1 ≡ ok (granted w cycle_id)
      → (mutate z redact
          (claim later other id expected')
          (mutate z redact (claim now instance id expected) d).0).1
        ≢ ok (granted v cycle_id')
  claim_exclusive now later instance other id cycle_id cycle_id' expected expected' d w v g =
      let (_, t, _, _, _, held) =
        Outcome-granted now instance id cycle_id expected d w _
          (mutate-Outcome z redact (claim now instance id expected) d) g in
      held-refused later (t.cycle_count + 1) other id cycle_id' expected' _ v held
