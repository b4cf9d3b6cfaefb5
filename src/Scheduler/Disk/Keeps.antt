-- ===== src/Scheduler/Disk/Keeps.antt =====
-- A property of tasks that reading, changing, redacting and checking keep, holds of the file.
use alfred_ai.Base.{
  String, ◌≡◌, refl, Option, none, some, [], ◌∷◌, map, Result, ok, arith, All, inl, inr, Bool-cases,
  Option-cases, Result-cases,
}
use alfred_ai.Scheduler.Model.{Task, Snapshot, StoreError}
use alfred_ai.Scheduler.Schema.{Zod, parse_task, parse_snapshot, trim_task, valid_task}
use alfred_ai.Scheduler.Disk.{
  Content, not_json, not_a_snapshot, stored, Disk, redact_task, read_content, write_back,
  mutate_read, mutate,
}

-- Each task that the file holds has the property; an unreadable file holds none.
abbrev pub ContentAll : (Task → Type 0) → Option Content → Type 0
ContentAll P none = Unit
ContentAll P (some not_json) = Unit
ContentAll P (some not_a_snapshot) = Unit
ContentAll P (some (stored ts)) = All P ts

module _ (P : Task → Type 0) (z : Zod) (redact : String → String)
    (trims : (t : Task) → P t → P (trim_task z t))
    (redacts : (t : Task) → P t → P (redact_task redact t)) where
  parse_snapshot-All : (ts us : Snapshot) → All P ts → parse_snapshot z ts ≡ some us → All P us
  unfolding parse_snapshot parse_task
  parse_snapshot-All [] [] h e = tt
  parse_snapshot-All [] (u ∷ us) h e = cc
  parse_snapshot-All (t ∷ ts) us h e = elim (Bool-cases (valid_task z (trim_task z t))) [
    | inr bad ↦ ground arith
    | inl good ↦ elim (Option-cases (parse_snapshot z ts)) [
      | inl broken ↦ ground arith
      | inr (vs, parsed) ↦
          let same : us ≡ trim_task z t ∷ vs = ground arith in
          rw same (trims t h.0, parse_snapshot-All ts vs h.1 parsed)
    ]
  ]

  redact-All : (ts : Snapshot) → All P ts → All P (map (redact_task redact) ts)
  redact-All [] h = tt
  redact-All (t ∷ ts) h = (redacts t h.0, redact-All ts h.1)

  write_back-All :
      {R : Type 0} (d : Disk) (out : Snapshot × R)
      → ContentAll P d.tasks_file
      → All P out.0
      → ContentAll P (write_back z redact d out).0.tasks_file
  unfolding write_back
  write_back-All d (ts, r) h k =
      elim (Option-cases (parse_snapshot z (map (redact_task redact) ts))) [
        | inl broken ↦ rw (broken, write_back) h
        | inr (us, parsed) ↦
            rw (parsed, write_back) (parse_snapshot-All _ us (redact-All ts k) parsed)
      ]

  mutate_read-All :
      {R : Type 0} (m : Snapshot → Result StoreError (Snapshot × R)) (d : Disk) (ts : Snapshot)
      → ((us : Snapshot) (out : Snapshot × R) → All P us → m us ≡ ok out → All P out.0)
      → ContentAll P d.tasks_file
      → All P ts
      → ContentAll P (mutate_read z redact m (d, ok ts)).0.tasks_file
  unfolding mutate_read
  mutate_read-All m d ts keeps h k = elim (Result-cases (m ts)) [
    | inl (out, done) ↦ rw (done, mutate_read) (write_back-All d out h (keeps ts out k done))
    | inr (e, thrown) ↦ rw (thrown, mutate_read) h
  ]

  mutate_content-All :
      {R : Type 0} (m : Snapshot → Result StoreError (Snapshot × R)) (d : Disk) (c : Option Content)
      → ((us : Snapshot) (out : Snapshot × R) → All P us → m us ≡ ok out → All P out.0)
      → d.tasks_file ≡ c
      → ContentAll P c
      → ContentAll P (mutate_read z redact m (read_content z d c)).0.tasks_file
  unfolding mutate_read read_content
  mutate_content-All m d none keeps e h = mutate_read-All m d [] keeps (rw e tt) tt
  mutate_content-All m d (some not_json) keeps e h = tt
  mutate_content-All m d (some not_a_snapshot) keeps e h = tt
  mutate_content-All m d (some (stored ts)) keeps e h = elim (Option-cases (parse_snapshot z ts)) [
    | inl broken ↦ rw (broken, read_content) tt
    | inr (us, parsed) ↦
        rw (parsed, read_content)
          (mutate_read-All m d us keeps (rw e h) (parse_snapshot-All ts us h parsed))
  ]

  pub mutate-All :
      {R : Type 0} (m : Snapshot → Result StoreError (Snapshot × R)) (d : Disk)
      → ((us : Snapshot) (out : Snapshot × R) → All P us → m us ≡ ok out → All P out.0)
      → ContentAll P d.tasks_file
      → ContentAll P (mutate z redact m d).0.tasks_file
  unfolding mutate
  mutate-All m d keeps h = mutate_content-All m d d.tasks_file keeps refl h
