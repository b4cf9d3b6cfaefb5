-- ===== src/Runs/Journal.antt =====
-- src/runs/storage/jsonFileRunStorage.ts: the journal of changes that `writeRun` keeps for a session,
-- and `readChanges`, by which a client follows it. A mutation of the journal is under a file lock.
pub mod Complete
use alfred_ai.Base.{
  ℕ, ◌+◌, ◌-◌, String, Bool, true, false, ◌||◌, List, [], ◌∷◌, ◌++◌, ltb, filter, drop, length,
}

pub record Change : Type 0 where
  pub id : ℕ
  pub run_id : String

pub record ChangeJournal : Type 0 where
  pub cursor : ℕ
  pub changes : List Change

abbrev pub new_journal : ChangeJournal
new_journal = record { cursor = 0; changes = [] }

abbrev pub kept_changes : ℕ
kept_changes = 512

-- `array.slice(-count)`
abbrev pub slice_last : ℕ → List Change → List Change
slice_last count changes = drop (length changes - count) changes

unfoldable pub record_change : String → ChangeJournal → ChangeJournal
record_change run_id journal =
    let change : Change = record { id = journal.cursor + 1; run_id = run_id } in
    record {
      cursor = journal.cursor + 1;
      changes = slice_last kept_changes (journal.changes ++ (change ∷ []));
    }

-- The journal after these runs were written, in this order.
unfoldable pub record_changes : List String → ChangeJournal → ChangeJournal
unfolding record_change
record_changes [] journal = journal
record_changes (run_id ∷ run_ids) journal = record_changes run_ids (record_change run_id journal)

pub record RunChanges : Type 0 where
  pub cursor : ℕ
  pub reset : Bool
  pub changes : List Change

-- `journal.changes[0]?.id ?? 1`
abbrev pub first_id : List Change → ℕ
first_id [] = 1
first_id (change ∷ changes) = change.id

unfoldable pub read_changes : ℕ → ChangeJournal → RunChanges
unfolding filter
read_changes after journal = record {
  cursor = journal.cursor;
  reset = ltb journal.cursor after || ltb (after + 1) (first_id journal.changes);
  changes = filter (λ change. ltb after change.id) journal.changes;
}
