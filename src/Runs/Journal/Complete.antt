-- ===== src/Runs/Journal/Complete.antt =====
-- A client that is not told to reset misses nothing.
use mathlib.Core.List.{append_assoc, append-nil}
use alfred_ai.Base.{
  ℕ, zero, suc, ◌+◌, ◌-◌, ◌≤◌, ◌<◌, String, ◌≡◌, refl, ◌∙◌, sym, ap, true, false, List, [], ◌∷◌,
  ◌++◌, map, arith, inl, inr, ltb, filter, drop, length, length-drop, drop_append, drop-drop,
  length-append, subst, ◌↔◌, ◌⊎◌, Bool-cases,
}
use alfred_ai.Runs.Journal.{
  Change, ChangeJournal, new_journal, kept_changes, slice_last, record_change, record_changes,
  first_id, read_changes,
}

-- Changes with consecutive numbers.
abbrev numbered : ℕ → List String → List Change
numbered n [] = []
numbered n (run_id ∷ run_ids) = record { id = n; run_id = run_id } ∷ numbered (suc n) run_ids

length-numbered : (n : ℕ) (runs : List String) → length (numbered n runs) ≡ length runs
length-numbered n [] = refl
length-numbered n (r ∷ runs) = ap suc (length-numbered (suc n) runs)

numbered_append :
    (n : ℕ) (runs : List String) (r : String)
    → numbered n (runs ++ (r ∷ []))
      ≡ numbered n runs ++ (record { id = n + length runs; run_id = r } ∷ [])
numbered_append n [] r = ap (λ k. record { id = k; run_id = r } ∷ []) (omega arith)
numbered_append n (x ∷ runs) r =
    ap (λ cs. record { id = n; run_id = x } ∷ cs)
      (numbered_append (suc n) runs r
        ∙ ap (λ k. numbered (suc n) runs ++ (record { id = k; run_id = r } ∷ [])) (omega arith))

drop-numbered :
    (d n : ℕ) (runs : List String) → drop d (numbered n runs) ≡ numbered (n + d) (drop d runs)
drop-numbered zero n runs = ap (λ k. numbered k runs) (omega arith)
drop-numbered (suc d) n [] = refl
drop-numbered (suc d) n (r ∷ runs) =
    drop-numbered d (suc n) runs ∙ ap (λ k. numbered k (drop d runs)) (omega arith)

numbered_ids : (n : ℕ) (runs : List String) → map (λ c. c.run_id) (numbered n runs) ≡ runs
numbered_ids n [] = refl
numbered_ids n (r ∷ runs) = ap (λ rs. r ∷ rs) (numbered_ids (suc n) runs)

filter_later :
    (after n : ℕ) (runs : List String)
    → after < n
    → filter (λ c. ltb after c.id) (numbered n runs) ≡ numbered n runs
unfolding filter
filter_later after n [] h = refl
filter_later after n (r ∷ runs) h =
    let passes : ltb after n ≡ true = ground arith in
    rw (passes, filter_later after (suc n) runs (omega (arith, h))) refl

-- Of changes numbered from `n`, those after `after`.
filter-numbered :
    (after n d : ℕ) (runs : List String)
    → n + d ≡ after + 1
    → filter (λ c. ltb after c.id) (numbered n runs) ≡ numbered (after + 1) (drop d runs)
unfolding filter
filter-numbered after n zero runs h =
    filter_later after n runs (omega (arith, h)) ∙ ap (λ k. numbered k runs) (omega (arith, h))
filter-numbered after n (suc d) [] h = refl
filter-numbered after n (suc d) (r ∷ runs) h =
    let fails : ltb after n ≡ false = ground arith in
    rw fails (filter-numbered after (suc n) d runs (omega (arith, h)))

-- The journal holds the last of all changes, numbered from 1.
abbrev HoldsLast : List String → ChangeJournal → Type 0
HoldsLast runs journal =
    (journal.cursor ≡ length runs)
    × (journal.changes
        ≡ numbered (length runs - kept_changes + 1) (drop (length runs - kept_changes) runs))

record_change-HoldsLast :
    (runs : List String) (r : String) (journal : ChangeJournal)
    → HoldsLast runs journal
    → HoldsLast (runs ++ (r ∷ [])) (record_change r journal)
unfolding record_change
record_change-HoldsLast runs r journal (cursor, changes) =
    let n = length runs in
    let first = n - kept_changes in
    let size : length (runs ++ (r ∷ [])) ≡ n + 1 = length-append runs (r ∷ []) in
    let left : length (drop first runs) ≡ n - first = length-drop first runs in
    let added : List Change = record { id = journal.cursor + 1; run_id = r } ∷ [] in
    let next : journal.cursor + 1 ≡ first + 1 + length (drop first runs) =
      omega (arith, cursor, left) in
    let all = drop first runs ++ (r ∷ []) in
    let grown : journal.changes ++ added ≡ numbered (first + 1) all =
      ap (λ cs. cs ++ added) changes
      ∙ ap (λ k. numbered (first + 1) (drop first runs) ++ (record { id = k; run_id = r } ∷ []))
          next
      ∙ sym (numbered_append (first + 1) (drop first runs) r) in
    let count : length (numbered (first + 1) all) ≡ n - first + 1 =
      length-numbered (first + 1) all
      ∙ length-append (drop first runs) (r ∷ [])
      ∙ ap (λ k. k + 1) left in
    let d = length (numbered (first + 1) all) - kept_changes in
    let place : first + d ≡ length (runs ++ (r ∷ [])) - kept_changes = omega (arith, count, size) in
    let joined : drop d all ≡ drop (length (runs ++ (r ∷ [])) - kept_changes) (runs ++ (r ∷ [])) =
      ap (drop d) (sym (drop_append first runs (r ∷ []) (omega arith)))
      ∙ drop-drop d first (runs ++ (r ∷ []))
      ∙ ap (λ k. drop k (runs ++ (r ∷ []))) place in
    (
      ap (λ k. k + 1) cursor ∙ sym size,
      ap (slice_last kept_changes) grown
          ∙ drop-numbered d (first + 1) all
          ∙ ap (λ k. numbered k (drop d all)) (omega (arith, place))
          ∙ ap (numbered (length (runs ++ (r ∷ [])) - kept_changes + 1)) joined,
    )

record_changes-HoldsLast :
    (before runs : List String) (journal : ChangeJournal)
    → HoldsLast before journal
    → HoldsLast (before ++ runs) (record_changes runs journal)
unfolding record_changes
record_changes-HoldsLast before [] journal h =
    subst (λ rs. HoldsLast rs journal) (sym (append-nil before)) h
record_changes-HoldsLast before (r ∷ runs) journal h =
    subst (λ rs. HoldsLast rs (record_changes runs (record_change r journal)))
      (append_assoc before (r ∷ []) runs)
      (record_changes-HoldsLast (before ++ (r ∷ [])) runs (record_change r journal)
        (record_change-HoldsLast before r journal h))

first_id-numbered :
    (n : ℕ) (runs : List String) → (length runs ≡ 0 → n ≡ 1) → first_id (numbered n runs) ≡ n
first_id-numbered n [] h = sym (h refl)
first_id-numbered n (r ∷ runs) h = refl

-- The journal reaches back to the changes after `after`, and not less far than the reader is.
abbrev pub IsCurrent : ℕ → List String → Type 0
IsCurrent after runs = (after ≤ length runs) × (length runs ≤ after + kept_changes)

reset_iff :
    (after : ℕ) (runs : List String) (journal : ChangeJournal)
    → HoldsLast runs journal
    → ((read_changes after journal).reset ≡ false) ↔ IsCurrent after runs
unfolding read_changes
reset_iff after runs journal (cursor, changes) =
    let first = length runs - kept_changes in
    let left = length-drop first runs in
    let oldest : first_id journal.changes ≡ first + 1 =
      ap first_id changes
      ∙ first_id-numbered (first + 1) (drop first runs) (λ e. omega (arith, left, e)) in
    (λ fresh. ground (arith, cursor, oldest), λ current. ground (arith, cursor, oldest))

-- The runs that were changed after `after`.
changed_lem :
    (after : ℕ) (runs : List String) (journal : ChangeJournal)
    → HoldsLast runs journal
    → IsCurrent after runs
    → map (λ c. c.run_id) (read_changes after journal).changes ≡ drop after runs
unfolding read_changes
changed_lem after runs journal (cursor, changes) (behind, recent) =
    let first = length runs - kept_changes in
    let d = after - first in
    let there : first + d ≡ after = omega (arith, behind, recent) in
    ap (λ cs. map (λ c. c.run_id) (filter (λ c. ltb after c.id) cs)) changes
    ∙ ap (λ cs. map (λ c. c.run_id) cs)
        (filter-numbered after (first + 1) d (drop first runs) (omega (arith, there)))
    ∙ numbered_ids (after + 1) (drop d (drop first runs))
    ∙ drop-drop d first runs
    ∙ ap (λ k. drop k runs) there

-- After any writes of runs to a new journal, a reading with the cursor `after`: either it is not told
-- to reset, `after` is not ahead of the journal and at most 512 changes behind it, and the runs that
-- it names are those written after `after`, all of them, in order; or it is told to reset, and
-- `after` is ahead of the journal or more than 512 changes behind it.
pub changes_complete :
    (after : ℕ) (runs : List String)
    → let seen = read_changes after (record_changes runs new_journal) in
      ((seen.reset ≡ false)
        × IsCurrent after runs
        × (map (λ c. c.run_id) seen.changes ≡ drop after runs))
      ⊎ ((seen.reset ≡ true) × (¬ IsCurrent after runs))
changes_complete after runs =
    let journal = record_changes runs new_journal in
    let h = record_changes-HoldsLast [] runs new_journal (refl, refl) in
    let current = reset_iff after runs journal h in
    elim (Bool-cases (read_changes after journal).reset) [
      | inl reset ↦ inr (reset, λ c. let fresh = current.1 c in cc)
      | inr fresh ↦ inl (fresh, current.0 fresh, changed_lem after runs journal h (current.0 fresh))
    ]
