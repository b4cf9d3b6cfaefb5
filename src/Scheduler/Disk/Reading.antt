-- ===== src/Scheduler/Disk/Reading.antt =====
-- What a mutation leaves in the file: its outcomes one by one, and that a file which the schema
-- accepts, or which reads back as it was written, keeps doing so.
use alfred_ai.Base.{
  ℕ, String, ◌≡◌, refl, Option, none, some, List, [], ◌∷◌, map, Result, ok, err, inl, inr,
  Option-cases, Result-cases, ◌≢◌, ◌∙◌,
}
use alfred_ai.Scheduler.Model.{
  Snapshot, StoreError, rejected_snapshot, malformed_snapshot, invalid_snapshot,
}
use alfred_ai.Scheduler.Schema.{Zod, parse_snapshot}
use alfred_ai.Scheduler.Schema.Trimmed.{parse_snapshot_idem}
use alfred_ai.Scheduler.Disk.{
  Content, not_json, not_a_snapshot, stored, Disk, redact_task, quarantine, read_content,
  read_snapshot, write_back, mutate_read, mutate, Call, mutation_of, step, run,
}

-- The tasks that a read of the file gives, if it gives any: none for a file that is not there.
abbrev pub reads : Zod → Option Content → Option Snapshot
reads z none = some []
reads z (some not_json) = none
reads z (some not_a_snapshot) = none
reads z (some (stored ts)) = parse_snapshot z ts

-- The error for a file that cannot be read: text that is no JSON is told from other content.
abbrev pub reading_error : Content → StoreError
reading_error not_json = malformed_snapshot
reading_error not_a_snapshot = invalid_snapshot
reading_error (stored ts) = invalid_snapshot

-- The four ways in which `mutate` ends.
pub data Outcome {R : Type 0} (z : Zod) (redact : String → String)
    (m : Snapshot → Result StoreError (Snapshot × R)) (d : Disk) (out : Disk × Result StoreError R)
    : Type 0 where
  unreadable :
      (c : Content)
      → d.tasks_file ≡ some c
      → reads z d.tasks_file ≡ none
      → out.0 ≡ record { tasks_file = none; quarantined = c ∷ d.quarantined }
      → out.1 ≡ err (reading_error c)
      → Outcome z redact m d out
  threw :
      (ts : Snapshot) (e : StoreError)
      → reads z d.tasks_file ≡ some ts
      → m ts ≡ err e
      → out.0 ≡ d
      → out.1 ≡ err e
      → Outcome z redact m d out
  rejected :
      (ts : Snapshot) (r : Snapshot × R)
      → reads z d.tasks_file ≡ some ts
      → m ts ≡ ok r
      → parse_snapshot z (map (redact_task redact) r.0) ≡ none
      → out.0 ≡ d
      → out.1 ≡ err rejected_snapshot
      → Outcome z redact m d out
  written :
      (ts us : Snapshot) (r : Snapshot × R)
      → reads z d.tasks_file ≡ some ts
      → m ts ≡ ok r
      → parse_snapshot z (map (redact_task redact) r.0) ≡ some us
      → out.0 ≡ record d { tasks_file = some (stored us) }
      → out.1 ≡ ok r.1
      → Outcome z redact m d out

module _ {R : Type 0} (z : Zod) (redact : String → String)
    (m : Snapshot → Result StoreError (Snapshot × R)) (d : Disk) where
  mutate_read-Outcome :
      (ts : Snapshot)
      → reads z d.tasks_file ≡ some ts
      → Outcome z redact m d (mutate_read z redact m (d, ok ts))
  unfolding mutate_read write_back
  mutate_read-Outcome ts p = elim (Result-cases (m ts)) [
    | inr (e, thrown) ↦ threw ts e p thrown (rw (thrown, mutate_read)) (rw (thrown, mutate_read))
    | inl (r, done) ↦ elim (Option-cases (parse_snapshot z (map (redact_task redact) r.0))) [
      | inl broken ↦
          rejected ts r p done broken (rw (done, mutate_read) (rw (broken, write_back)))
            (rw (done, mutate_read) (rw (broken, write_back)))
      | inr (us, parsed) ↦
          written ts us r p done parsed (rw (done, mutate_read) (rw (parsed, write_back)))
            (rw (done, mutate_read) (rw (parsed, write_back)))
    ]
  ]

  mutate_content-Outcome :
      (c : Option Content)
      → d.tasks_file ≡ c
      → Outcome z redact m d (mutate_read z redact m (read_content z d c))
  unfolding mutate_read read_content quarantine
  mutate_content-Outcome none p = mutate_read-Outcome [] (rw p)
  mutate_content-Outcome (some not_json) p = unreadable not_json p (rw p) refl refl
  mutate_content-Outcome (some not_a_snapshot) p = unreadable not_a_snapshot p (rw p) refl refl
  mutate_content-Outcome (some (stored ts)) p = elim (Option-cases (parse_snapshot z ts)) [
    | inl broken ↦ rw (broken, read_content) (unreadable (stored ts) p (rw p broken) refl refl)
    | inr (us, parsed) ↦ rw (parsed, read_content) (mutate_read-Outcome us (rw p parsed))
  ]

  -- A mutation, once the lock is held, ends in one of four ways. A file that is no JSON, or that the
  -- schema refuses, is moved away whole, and the call fails with the error for that. Or the file was
  -- read, the mutation threw on its tasks, nothing is changed, and the call fails with that error. Or
  -- the mutation returned, the schema refuses its redacted result, nothing is changed, and the call
  -- fails as rejected. Or the file now holds the result, redacted and checked, and the call returns.
  pub mutate-Outcome : Outcome z redact m d (mutate z redact m d)
  unfolding mutate read_snapshot
  mutate-Outcome = mutate_content-Outcome d.tasks_file refl

-- A file that reads back as it was written. One that is not there is such a file.
abbrev pub IsReadable : Zod → Option Content → Type 0
IsReadable z none = Unit
IsReadable z (some not_json) = ⊥
IsReadable z (some not_a_snapshot) = ⊥
IsReadable z (some (stored ts)) = parse_snapshot z ts ≡ some ts

pub IsReadable-reads : (z : Zod) (c : Option Content) → IsReadable z c → reads z c ≢ none
IsReadable-reads z none h = cc
IsReadable-reads z (some not_json) h = absurd h
IsReadable-reads z (some not_a_snapshot) h = absurd h
IsReadable-reads z (some (stored ts)) h = cc h

module _ (z : Zod) (trim_trim : (s : String) → z.trim (z.trim s) ≡ z.trim s)
    (redact : String → String) where
  Outcome-IsReadable :
      {R : Type 0} (m : Snapshot → Result StoreError (Snapshot × R)) (d : Disk)
      (out : Disk × Result StoreError R)
      → IsReadable z d.tasks_file
      → Outcome z redact m d out
      → IsReadable z out.0.tasks_file × (out.0.quarantined ≡ d.quarantined)
  Outcome-IsReadable m d out h (unreadable c p q r s) = absurd (IsReadable-reads z d.tasks_file h q)
  Outcome-IsReadable m d out h (threw ts e q f p o) = rw p (h, refl)
  Outcome-IsReadable m d out h (rejected ts r q f b p o) = rw p (h, refl)
  Outcome-IsReadable m d out h (written ts us r p q parsed w o) =
      rw w (parse_snapshot_idem z trim_trim _ us parsed, refl)

  pub step-IsReadable :
      (d : Disk) (c : ℕ × Call)
      → IsReadable z d.tasks_file
      → IsReadable z (step z redact d c).tasks_file
        × ((step z redact d c).quarantined ≡ d.quarantined)
  unfolding step
  step-IsReadable d (now, c) h =
      Outcome-IsReadable (mutation_of z now c) d _ h
        (mutate-Outcome z redact (mutation_of z now c) d)

-- A file that the schema accepts, or none; its text need not be trimmed.
abbrev pub IsAccepted : Zod → Option Content → Type 0
IsAccepted z c = (ts : Snapshot) × (reads z c ≡ some ts)

module _ (z : Zod) (trim_trim : (s : String) → z.trim (z.trim s) ≡ z.trim s)
    (redact : String → String) where
  Outcome-IsAccepted :
      {R : Type 0} (m : Snapshot → Result StoreError (Snapshot × R)) (d : Disk)
      (out : Disk × Result StoreError R)
      → IsAccepted z d.tasks_file
      → Outcome z redact m d out
      → IsAccepted z out.0.tasks_file × (out.0.quarantined ≡ d.quarantined)
  Outcome-IsAccepted m d out (us, h) (unreadable c p q r s) = absurd (cc (h, q))
  Outcome-IsAccepted m d out h (threw ts e q f p o) = rw p (h, refl)
  Outcome-IsAccepted m d out h (rejected ts r q f b p o) = rw p (h, refl)
  Outcome-IsAccepted m d out h (written ts us r p q parsed w o) =
      rw w ((us, parse_snapshot_idem z trim_trim _ us parsed), refl)

  -- If zod's trim does nothing to text that it has trimmed, then from a file that is not there, or
  -- that the schema accepts, with text trimmed or not, every history of calls leaves such a file, and
  -- quarantines nothing.
  pub run-IsAccepted :
      (d : Disk) (cs : List (ℕ × Call))
      → IsAccepted z d.tasks_file
      → IsAccepted z (run z redact d cs).tasks_file
        × ((run z redact d cs).quarantined ≡ d.quarantined)
  unfolding run step
  run-IsAccepted d [] h = (h, refl)
  run-IsAccepted d ((now, c) ∷ cs) h =
      let (kept, none_moved) =
        Outcome-IsAccepted (mutation_of z now c) d _ h
          (mutate-Outcome z redact (mutation_of z now c) d) in
      let (later, none_later) = run-IsAccepted (step z redact d (now, c)) cs kept in
      (later, none_later ∙ none_moved)
