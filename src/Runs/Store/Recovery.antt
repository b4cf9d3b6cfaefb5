-- ===== src/Runs/Store/Recovery.antt =====
-- What `recoverInterruptedRuns` does to each run.
use mathlib.Core.Option.{map as map_option}
use alfred_ai.Base.{
  ℕ, String, ◌≡◌, ◌≢◌, refl, ◌∙◌, ap, subst, none, some, List, [], ◌∷◌, arith, inl, inr, Option,
  ◌⊎◌, Bool-cases, Option-cases, eq_iff, str_eq, if◌then◌else◌, lookup, put_in, IsMap,
  lookup-put_in_self, lookup-put_in_ne,
}
use alfred_ai.Runs.Store.{
  RunRecord, RunStatus, SchedulerRef, queued, running, completed, failed, cancelled, needs_approval,
  RunPatch, RunFiles, write_run, updated_run, update_run, interruption, is_interrupted,
  recover_runs, recover_interrupted_runs,
}

module _ (redact : String → String) (now : ℕ) where
  -- What becomes of one run.
  abbrev pub recovered : RunRecord → RunRecord
  recovered run =
      if is_interrupted redact run then updated_run redact now (interruption redact) run else run

  update-lookup :
      (id j : String) (patch : RunPatch) (run : RunRecord) (s : RunFiles)
      → lookup id s.runs ≡ some run
      → lookup j (update_run redact now id patch s).0.runs
        ≡ lookup j (put_in id (updated_run redact now patch run) s.runs)
  unfolding update_run write_run
  update-lookup id j patch run s e = rw (e, update_run, write_run) refl

  -- A listed run that is not there any more, or not in `ids`, stays as it is.
  recover_runs-other :
      (j : String) (ids : List (String × RunRecord)) (s : RunFiles)
      → lookup j ids ≡ none
      → lookup j (recover_runs redact now ids s).0.runs ≡ lookup j s.runs
  unfolding recover_runs lookup
  recover_runs-other j [] s h = refl
  recover_runs-other j ((id, listed) ∷ ids) s h =
      let apart : id ≢ j = λ x. ground (arith, eq_iff id j) in
      let later : lookup j ids ≡ none = ground (arith, eq_iff id j) in
      elim (Option-cases (lookup id s.runs)) [
        | inl absent ↦ rw (absent, recover_runs) (recover_runs-other j ids s later)
        | inr (run, e) ↦ elim (Bool-cases (is_interrupted redact run)) [
          | inr over ↦ rw (e, over, recover_runs) (recover_runs-other j ids s later)
          | inl live ↦
              let t = (update_run redact now id (interruption redact) s).0 in
              rw (e, live, recover_runs)
                (recover_runs-other j ids t later
                  ∙ update-lookup id j (interruption redact) run s e
                  ∙ lookup-put_in_ne id j _ s.runs apart)
        ]
      ]

  recover_runs-head :
      (id : String) (listed : RunRecord) (ids : List (String × RunRecord)) (s : RunFiles)
      → lookup id ids ≡ none
      → lookup id (recover_runs redact now ((id, listed) ∷ ids) s).0.runs
        ≡ map_option recovered (lookup id s.runs)
  unfolding recover_runs
  recover_runs-head id listed ids s later = elim (Option-cases (lookup id s.runs)) [
    | inl absent ↦ rw (absent, recover_runs) (recover_runs-other id ids s later ∙ absent)
    | inr (run, e) ↦ elim (Bool-cases (is_interrupted redact run)) [
      | inr over ↦ rw (e, over, recover_runs) (recover_runs-other id ids s later ∙ e)
      | inl live ↦
          let t = (update_run redact now id (interruption redact) s).0 in
          rw (e, live, recover_runs)
            (recover_runs-other id ids t later
              ∙ update-lookup id id (interruption redact) run s e
              ∙ lookup-put_in_self id _ s.runs)
    ]
  ]

  recover_runs-tail :
      (id j : String) (listed : RunRecord) (ids : List (String × RunRecord)) (s : RunFiles)
      → id ≢ j
      → ((t : RunFiles)
          → lookup j (recover_runs redact now ids t).0.runs
            ≡ map_option recovered (lookup j t.runs))
      → lookup j (recover_runs redact now ((id, listed) ∷ ids) s).0.runs
        ≡ map_option recovered (lookup j s.runs)
  unfolding recover_runs
  recover_runs-tail id j listed ids s apart rest = elim (Option-cases (lookup id s.runs)) [
    | inl absent ↦ rw (absent, recover_runs) (rest s)
    | inr (run, e) ↦ elim (Bool-cases (is_interrupted redact run)) [
      | inr over ↦ rw (e, over, recover_runs) (rest s)
      | inl live ↦
          let t = (update_run redact now id (interruption redact) s).0 in
          rw (e, live, recover_runs)
            (rest t
              ∙ ap (map_option recovered) (
                  update-lookup id j (interruption redact) run s e
                  ∙ lookup-put_in_ne id j _ s.runs apart))
    ]
  ]

  recover_runs-one :
      (j : String) (ids : List (String × RunRecord)) (s : RunFiles) (listed : RunRecord)
      → IsMap ids
      → lookup j ids ≡ some listed
      → lookup j (recover_runs redact now ids s).0.runs ≡ map_option recovered (lookup j s.runs)
  unfolding lookup
  recover_runs-one j [] s listed u h = cc
  recover_runs-one j ((id, r) ∷ ids) s listed u h = elim (Bool-cases (str_eq id j)) [
    | inl hit ↦
        let same : id ≡ j = (eq_iff id j).0 hit in
        subst
          (λ k.
            lookup k (recover_runs redact now ((id, r) ∷ ids) s).0.runs
            ≡ map_option recovered (lookup k s.runs))
          same (recover_runs-head id r ids s u.0)
    | inr miss ↦
        let apart : id ≢ j = λ x. ground (arith, eq_iff id j) in
        recover_runs-tail id j r ids s apart
          (λ t. recover_runs-one j ids t listed u.1 (ground arith))
  ]

  -- The patch is redacted, and then the record.
  abbrev pub interrupted_text : String
  interrupted_text = redact (redact "Run interrupted by server restart.")

  -- A run that nobody will go on with: no cycle of the scheduler, and queued or running.
  abbrev pub IsAbandoned : RunRecord → Type 0
  IsAbandoned run = (run.scheduler ≡ none) × ((run.status ≡ queued) ⊎ (run.status ≡ running))

  -- A run of the scheduler, or one that is neither queued nor running.
  abbrev pub IsLeftAlone : RunRecord → Type 0
  IsLeftAlone run =
      ((ref : SchedulerRef) × (run.scheduler ≡ some ref))
      ⊎ ((run.status ≢ queued) × (run.status ≢ running))

  recovered-cases :
      (run : RunRecord)
      → (IsAbandoned run
          × ((recovered run).status ≡ failed)
          × ((recovered run).assistant_text ≡ some interrupted_text)
          × ((recovered run).updated_at ≡ now))
        ⊎ (IsLeftAlone run × (recovered run ≡ run))
  unfolding updated_run
  recovered-cases run = by_parts run.scheduler run.status refl refl
    where
      by_parts :
          (ref : Option SchedulerRef) (status : RunStatus)
          → run.scheduler ≡ ref
          → run.status ≡ status
          → (IsAbandoned run
              × ((recovered run).status ≡ failed)
              × ((recovered run).assistant_text ≡ some interrupted_text)
              × ((recovered run).updated_at ≡ now))
            ⊎ (IsLeftAlone run × (recovered run ≡ run))
      by_parts (some r) status e f = inr (inl (r, e), ground arith)
      by_parts none queued e f = inl ((e, inl f), ground arith, ground arith, ground arith)
      by_parts none running e f = inl ((e, inr f), ground arith, ground arith, ground arith)
      by_parts none completed e f = inr (inr (cc, cc), ground arith)
      by_parts none failed e f = inr (inr (cc, cc), ground arith)
      by_parts none needs_approval e f = inr (inr (cc, cc), ground arith)
      by_parts none cancelled e f = inr (inr (cc, cc), ground arith)

  -- After a restart, each run that was there is there. If it belongs to no cycle of the scheduler and
  -- was queued or running, it is failed, says that the restart interrupted it, and is updated now. If
  -- it belongs to a cycle of the scheduler, or was neither queued nor running, it is as it was.
  pub recovers_runs :
      (s : RunFiles) (j : String) (run : RunRecord)
      → IsMap s.runs
      → lookup j s.runs ≡ some run
      → (u : RunRecord) × (lookup j (recover_interrupted_runs redact now s).0.runs ≡ some u)
        × ((IsAbandoned run
              × (u.status ≡ failed)
              × (u.assistant_text ≡ some interrupted_text)
              × (u.updated_at ≡ now))
            ⊎ (IsLeftAlone run × (u ≡ run)))
  unfolding recover_interrupted_runs
  recovers_runs s j run u e = (
    recovered run,
    recover_runs-one j s.runs s run u e ∙ ap (map_option recovered) e,
    recovered-cases run,
  )
