-- ===== src/Scheduler/Tests/Locks.antt =====
-- The lock at concrete sequences of moves.
use alfred_ai.Base.{String, ◌≡◌, refl, ◌≢◌, List, [], ◌∷◌, arith, eq_iff, units}
use alfred_ai.Scheduler.Lock.{
  held, waiting, operating, LockState, Move, opens, reads, writes, new_lock, moves, move, set_phase,
  try_open, try_read, try_write, read_lock,
}
use alfred_ai.Scheduler.Lock.Exclusion.{exclusive}
use alfred_ai.Scheduler.Lock.Takeover.{takeover, takeover_lem}
use alfred_ai.Scheduler.Samples.{old_lock}

abbrev first : String
first = "a"

abbrev second : String
second = "b"

-- One process creates the lock file; another finds it empty, before the first has written it.
abbrev contest : List Move
contest = opens first 1 5 ∷ opens second 2 6 ∷ reads second 7 ∷ writes first ∷ []

exclusive_example : first ≡ first
unfolding moves move set_phase try_open try_read try_write read_lock new_lock units
exclusive_example =
    exclusive contest first first (new_lock first 1 5) (new_lock first 1 5)
      (refl, (refl, (refl, (refl, tt)))) refl refl

abbrev left_over : LockState
left_over = record { file = held old_lock; phase = λ w. waiting }

first-second : first ≢ second
first-second = ground (arith, eq_iff "a" "b")

takeover_lem_example :
    ((moves left_over (takeover first second 1 30000)).phase first
      ≡ operating (new_lock first 1 30000))
    × ((moves left_over (takeover first second 1 30000)).phase second
        ≡ operating (new_lock second 1 30000))
unfolding units
takeover_lem_example =
    takeover_lem left_over old_lock first second 1 30000 first-second refl refl (omega arith) refl
      refl
