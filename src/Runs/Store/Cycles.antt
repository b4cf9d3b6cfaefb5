-- ===== src/Runs/Store/Cycles.antt =====
-- How a run is found by the cycle of the scheduler that it belongs to, before and after an update.

use alfred_ai.Base.{
  ℕ, String, ◌≡◌, ◌≢◌, refl, ap, subst, true, false, none, some, List, [], ◌∷◌, arith, inl, inr,
  Bool-cases, eq_iff, str_eq, lookup, put_in, remove, IsMap,
}
use alfred_ai.Runs.Store.{
  RunRecord, RunPatch, RunFiles, SchedulerRef, write_run, updated_run, update_run, is_cycle,
  find_run_by_cycle,
}

remove_absent :
    {A : Type 0} (id : String) (m : List (String × A)) → lookup id m ≡ none → remove id m ≡ m
unfolding lookup remove
remove_absent id [] h = refl
remove_absent id ((k, a) ∷ m) h = elim (Bool-cases (str_eq k id)) [
  | inl hit ↦ ground arith
  | inr miss ↦ rw miss (ap (λ r. (k, a) ∷ r) (remove_absent id m (ground arith)))
]

module _ (task_id cycle_id : String) where
  -- The run with this id is the only one that could be found.
  found_lem :
      (id : String) (run : RunRecord) (runs : List (String × RunRecord))
      → IsMap runs
      → lookup id runs ≡ some run
      → is_cycle task_id cycle_id run ≡ true
      → find_run_by_cycle task_id cycle_id (remove id runs) ≡ none
      → find_run_by_cycle task_id cycle_id runs ≡ some run
  unfolding find_run_by_cycle lookup remove
  found_lem id run [] u e own others = cc
  found_lem id run ((k, r) ∷ runs) u e own others = elim (Bool-cases (str_eq k id)) [
    | inl hit ↦ ground arith
    | inr miss ↦ ground (arith, found_lem id run runs u.1)
  ]

  put_in_lem :
      (id : String) (run : RunRecord) (runs : List (String × RunRecord))
      → IsMap runs
      → is_cycle task_id cycle_id run ≡ false
      → find_run_by_cycle task_id cycle_id (remove id runs) ≡ none
      → find_run_by_cycle task_id cycle_id (put_in id run runs) ≡ none
  unfolding find_run_by_cycle remove put_in
  put_in_lem id run [] u own others = ground arith
  put_in_lem id run ((k, r) ∷ runs) u own others = elim (Bool-cases (str_eq k id)) [
    | inl hit ↦
        let same : k ≡ id = (eq_iff k id).0 hit in
        let gone : lookup id runs ≡ none = subst (λ j. lookup j runs ≡ none) same u.0 in
        let rest : remove id runs ≡ runs = remove_absent id runs gone in
        let left : find_run_by_cycle task_id cycle_id runs ≡ none =
          subst (λ m. find_run_by_cycle task_id cycle_id m ≡ none) rest (ground arith) in
        ground arith
    | inr miss ↦ ground (arith, put_in_lem id run runs u.1)
  ]

-- What an update leaves of the cycle, where the patch names none.
updated-cycle :
    (redact : String → String) (now : ℕ) (patch : RunPatch) (run : RunRecord) (ref : SchedulerRef)
    → patch.scheduler ≡ none
    → run.scheduler ≡ some ref
    → redact ref.cycle_id ≢ ref.cycle_id
    → is_cycle ref.task_id ref.cycle_id (updated_run redact now patch run) ≡ false
unfolding updated_run
updated-cycle redact now patch run ref unnamed there changed =
    let other : str_eq (redact ref.cycle_id) ref.cycle_id ≡ false =
      ground (arith, eq_iff (redact ref.cycle_id) ref.cycle_id) in
    rw (unnamed, there, other) (ground arith)

own-cycle :
    (run : RunRecord) (ref : SchedulerRef)
    → run.scheduler ≡ some ref
    → is_cycle ref.task_id ref.cycle_id run ≡ true
own-cycle run ref there =
    rw there (ground (arith, eq_iff ref.task_id ref.task_id, eq_iff ref.cycle_id ref.cycle_id))

-- A run of the scheduler, the only one of its cycle, is found by that cycle; after any update that
-- names no cycle, if redaction changes the text of the cycle id, no run is found by it.
pub update_forgets_cycle :
    (redact : String → String) (now : ℕ) (id : String) (patch : RunPatch) (s : RunFiles)
    (run : RunRecord) (ref : SchedulerRef)
    → IsMap s.runs
    → lookup id s.runs ≡ some run
    → run.scheduler ≡ some ref
    → find_run_by_cycle ref.task_id ref.cycle_id (remove id s.runs) ≡ none
    → patch.scheduler ≡ none
    → redact ref.cycle_id ≢ ref.cycle_id
    → (find_run_by_cycle ref.task_id ref.cycle_id s.runs ≡ some run)
      × (find_run_by_cycle ref.task_id ref.cycle_id (update_run redact now id patch s).0.runs
          ≡ none)
unfolding update_run write_run
update_forgets_cycle redact now id patch s run ref u e there others unnamed changed =
    let next = updated_run redact now patch run in
    let lost = updated-cycle redact now patch run ref unnamed there changed in
    (
      found_lem ref.task_id ref.cycle_id id run s.runs u e (own-cycle run ref there) others,
      rw (e, update_run, write_run)
          (put_in_lem ref.task_id ref.cycle_id id next s.runs u lost others),
    )
