-- ===== src/Runs/History/Newest.antt =====
-- A run that is created is the newest of its session.
use alfred_ai.Base.{
  ℕ, ◌≤◌, ◌<◌, String, ◌≡◌, refl, ◌∙◌, ap, subst, Bool, true, false, Option, none, some, List, [],
  ◌∷◌, ◌++◌, arith, inl, inr, All, Bool-cases, eq_iff, str_eq, take, filter, lookup, put_in,
}
use alfred_ai.Runs.Store.{RunRecord, RunStatus, RunFiles, SchedulerRef, Ingress, write_run}
use alfred_ai.Runs.History.{
  run_records, is_shown, comes_first, insert_run, sort_runs, history_of, previous_time, create_run,
  page_limit,
}

-- Created no later than `time`.
abbrev pub IsUpTo : ℕ → RunRecord → Type 0
IsUpTo time run = run.created_at ≤ time

module _ (id_after : String → String → Bool) where
  -- The first of the sorted runs is the newest.
  insert_run-UpTo :
      (time : ℕ) (run : RunRecord) (runs : List RunRecord)
      → run.created_at ≤ time
      → All (IsUpTo time) runs
      → All (IsUpTo time) (insert_run id_after run runs)
  unfolding insert_run
  insert_run-UpTo time run [] h k = (h, tt)
  insert_run-UpTo time run (next ∷ runs) h k = elim (Bool-cases (comes_first id_after run next)) [
    | inl first ↦ rw first (h, (k.0, k.1))
    | inr later ↦ rw later (k.0, insert_run-UpTo time run runs h k.1)
  ]

  weaker : (a b : ℕ) (runs : List RunRecord) → a ≤ b → All (IsUpTo a) runs → All (IsUpTo b) runs
  weaker a b [] h k = tt
  weaker a b (r ∷ runs) h k = (omega (arith, h, k.0), weaker a b runs h k.1)

  -- Every run of a sorted list is up to the time of the first.
  abbrev IsHeaded : List RunRecord → Type 0
  IsHeaded runs = All (IsUpTo (previous_time id_after runs)) runs

  insert_run-IsHeaded :
      (run : RunRecord) (runs : List RunRecord)
      → IsHeaded runs
      → IsHeaded (insert_run id_after run runs)
  unfolding insert_run
  insert_run-IsHeaded run [] h = (omega arith, tt)
  insert_run-IsHeaded run (next ∷ runs) h = elim (Bool-cases (comes_first id_after run next)) [
    | inl first ↦
        let newer : next.created_at ≤ run.created_at = ground arith in
        rw first (omega arith, (newer, weaker next.created_at run.created_at runs newer h.1))
    | inr later ↦
        let older : run.created_at ≤ next.created_at = ground arith in
        rw later (h.0, insert_run-UpTo next.created_at run runs older h.1)
  ]

  sort_runs-IsHeaded : (runs : List RunRecord) → IsHeaded (sort_runs id_after runs)
  unfolding sort_runs
  sort_runs-IsHeaded [] = tt
  sort_runs-IsHeaded (r ∷ runs) =
      insert_run-IsHeaded r (sort_runs id_after runs) (sort_runs-IsHeaded runs)

  insert_run-All :
      (time : ℕ) (run : RunRecord) (runs : List RunRecord)
      → All (IsUpTo time) (insert_run id_after run runs)
      → (run.created_at ≤ time) × All (IsUpTo time) runs
  unfolding insert_run
  insert_run-All time run [] h = h
  insert_run-All time run (next ∷ runs) h = elim (Bool-cases (comes_first id_after run next)) [
    | inl first ↦
        let same : insert_run id_after run (next ∷ runs) ≡ run ∷ next ∷ runs = rw first refl in
        subst (All (IsUpTo time)) same h
    | inr later ↦
        let same : insert_run id_after run (next ∷ runs) ≡ next ∷ insert_run id_after run runs =
          rw later refl in
        let (own, rest) = subst (All (IsUpTo time)) same h in
        let (this, others) = insert_run-All time run runs rest in (this, (own, others))
  ]

  sort_runs-All :
      (time : ℕ) (runs : List RunRecord)
      → All (IsUpTo time) (sort_runs id_after runs)
      → All (IsUpTo time) runs
  unfolding sort_runs
  sort_runs-All time [] h = tt
  sort_runs-All time (r ∷ runs) h =
      let (own, rest) = insert_run-All time r (sort_runs id_after runs) h in
      (own, sort_runs-All time runs rest)

  -- A run that is newer than all others comes first.
  sort_runs_append :
      (time : ℕ) (run : RunRecord) (runs : List RunRecord)
      → time < run.created_at
      → All (IsUpTo time) runs
      → sort_runs id_after (runs ++ (run ∷ [])) ≡ run ∷ sort_runs id_after runs
  unfolding sort_runs insert_run
  sort_runs_append time run [] newer h = refl
  sort_runs_append time run (r ∷ runs) newer (own, rest) =
      let behind : comes_first id_after r run ≡ false = ground arith in
      ap (insert_run id_after r) (sort_runs_append time run runs newer rest) ∙ rw behind refl

records_append :
    (id : String) (run : RunRecord) (runs : List (String × RunRecord))
    → lookup id runs ≡ none
    → run_records (put_in id run runs) ≡ run_records runs ++ (run ∷ [])
unfolding lookup put_in
records_append id run [] h = refl
records_append id run ((k, r) ∷ runs) h =
    let miss : str_eq k id ≡ false = ground arith in
    rw miss (ap (λ rs. r ∷ rs) (records_append id run runs (ground arith)))

filter_append :
    (p : RunRecord → Bool) (runs : List RunRecord) (run : RunRecord)
    → p run ≡ true
    → filter p (runs ++ (run ∷ [])) ≡ filter p runs ++ (run ∷ [])
unfolding filter
filter_append p [] run h = rw h refl
filter_append p (r ∷ runs) run h = elim (Bool-cases (p r)) [
  | inl yes_it ↦ rw yes_it (ap (λ rs. r ∷ rs) (filter_append p runs run h))
  | inr not_it ↦ rw not_it (filter_append p runs run h)
]

-- The newest of the history is what `listHistory` with limit 1 gives.
latest_lem :
    (id_after : String → String → Bool) (runs : List RunRecord)
    → previous_time id_after (take (page_limit (some 1)) runs) ≡ previous_time id_after runs
latest_lem id_after [] = refl
latest_lem id_after (r ∷ runs) = refl

abbrev pub IsOlder : ℕ → RunRecord → Type 0
IsOlder time run = run.created_at < time

IsUpTo-IsOlder :
    (a b : ℕ) (runs : List RunRecord) → a < b → All (IsUpTo a) runs → All (IsOlder b) runs
IsUpTo-IsOlder a b [] h k = tt
IsUpTo-IsOlder a b (r ∷ runs) h k = (omega (arith, h, k.0), IsUpTo-IsOlder a b runs h k.1)

-- For a new id and a session whose id redaction leaves as it is, whatever the clock says: the run that
-- `createRun` returns is newer than every run of the session, and the history of the session is then
-- that run, followed by the history before.
pub create_run_first :
    (id_after : String → String → Bool) (redact : String → String) (clock : ℕ)
    (run_id session_id message : String) (status : RunStatus) (scheduler : Option SchedulerRef)
    (ingress : Option Ingress) (s : RunFiles)
    → redact session_id ≡ session_id
    → lookup run_id s.runs ≡ none
    → let made =
        create_run id_after redact clock run_id session_id message status scheduler ingress s in
      (history_of id_after session_id false made.0
        ≡ made.1 ∷ history_of id_after session_id false s)
      × All (IsOlder made.1.created_at) (history_of id_after session_id false s)
unfolding create_run history_of write_run
create_run_first id_after redact clock run_id session_id message status scheduler ingress s kept
      fresh =
    let made =
      create_run id_after redact clock run_id session_id message status scheduler ingress s in
    let run = made.1 in
    let old = history_of id_after session_id false s in
    let mine = filter (λ r. str_eq r.session_id session_id) (run_records s.runs) in
    let shown = filter (is_shown false) mine in
    let time = previous_time id_after old in
    let newer : time < run.created_at = omega (arith, latest_lem id_after old) in
    let bounded : All (IsUpTo time) old = sort_runs-IsHeaded id_after shown in
    let here : str_eq (redact session_id) session_id ≡ true =
      ground (arith, eq_iff (redact session_id) session_id) in
    (
      ap
            (λ rs.
              sort_runs id_after
                (filter (is_shown false) (filter (λ r. str_eq r.session_id session_id) rs)))
            (records_append run_id run s.runs fresh)
          ∙ ap (λ rs. sort_runs id_after (filter (is_shown false) rs))
              (filter_append (λ r. str_eq r.session_id session_id) (run_records s.runs) run here)
          ∙ ap (sort_runs id_after) (filter_append (is_shown false) mine run refl)
          ∙ sort_runs_append id_after time run shown newer
              (sort_runs-All id_after time shown bounded),
      IsUpTo-IsOlder time run.created_at old newer bounded,
    )
