-- ===== src/Scheduler/Lock/Exclusion.antt =====
-- When the lock keeps two operations apart, and when it does not.
use alfred_ai.Base.{
  ℕ, String, ◌≡◌, refl, ◌∙◌, ◌≢◌, sym, some, Bool, true, false, List, [], ◌∷◌, arith, inl, inr,
  Bool-cases, str_eq, eq_iff,
}
use alfred_ai.Scheduler.Lock.{
  LockRecord, LockFile, absent, garbled, created, held, read_lock, Phase, waiting, found_file,
  found_stale, writing, operating, releasing, LockState, Move, opens, reads, writes, unlinks,
  compares, releases, set_phase, new_lock, try_open, try_read, is_stale, is_own, written_file,
  try_write, try_unlink, try_compare, try_release, move, moves,
}

-- From the creation of the file to its unlink.
abbrev pub inside : Phase → Bool
inside waiting = false
inside found_file = false
inside found_stale = false
inside (writing r) = true
inside (operating r) = true
inside (releasing r) = true

-- One process at most is inside, the file is there while it is, and nobody is about to unlink a stale
-- one.
pub record IsExclusive (s : LockState) : Type 0 where
  pub one : (w v : String) → inside (s.phase w) ≡ true → inside (s.phase v) ≡ true → w ≡ v
  pub there : (w : String) → inside (s.phase w) ≡ true → s.file ≢ absent
  pub no_takeover : (w : String) → s.phase w ≢ found_stale

-- A process goes outside, or stays there; the file that it leaves is there for whoever else is inside.
outside-IsExclusive :
    (s : LockState) (w : String) (p : Phase) (f : LockFile)
    → IsExclusive s
    → inside p ≡ false
    → p ≢ found_stale
    → ((v : String) → w ≢ v → inside (s.phase v) ≡ true → f ≢ absent)
    → IsExclusive (record { file = f; phase = set_phase w p s.phase })
unfolding set_phase
outside-IsExclusive s w p f x out ne kept = record {
  one = λ u v a b. elim (Bool-cases (str_eq w u)) [
    | inl same ↦ let never : inside p ≡ true = rw same at a in absurd (cc (never, out))
    | inr other ↦ elim (Bool-cases (str_eq w v)) [
      | inl same ↦ let never : inside p ≡ true = rw same at b in absurd (cc (never, out))
      | inr apart ↦ x.one u v (rw other at a) (rw apart at b)
    ]
  ];
  there = λ v a. elim (Bool-cases (str_eq w v)) [
    | inl same ↦ let never : inside p ≡ true = rw same at a in absurd (cc (never, out))
    | inr other ↦ kept v (λ e. ground (arith, eq_iff w v)) (rw other at a)
  ];
  no_takeover = λ v e. elim (Bool-cases (str_eq w v)) [
    | inl same ↦ ne (rw same at e)
    | inr other ↦ x.no_takeover v (rw other at e)
  ];
}

-- A process that is the only one inside, or comes inside while nobody is, and leaves the file there.
inside-IsExclusive :
    (s : LockState) (w : String) (p : Phase) (f : LockFile)
    → IsExclusive s
    → inside p ≡ true
    → f ≢ absent
    → ((v : String) → inside (s.phase v) ≡ true → w ≡ v)
    → IsExclusive (record { file = f; phase = set_phase w p s.phase })
unfolding set_phase
inside-IsExclusive s w p f x in_it kept alone = record {
  one = λ u v a b. elim (Bool-cases (str_eq w u)) [
    | inl same ↦ elim (Bool-cases (str_eq w v)) [
      | inl also ↦ sym ((eq_iff w u).0 same) ∙ (eq_iff w v).0 also
      | inr other ↦ sym ((eq_iff w u).0 same) ∙ alone v (rw other at b)
    ]
    | inr apart ↦
        let own : w ≡ u = alone u (rw apart at a) in absurd (cc ((eq_iff w u).1 own, apart))
  ];
  there = λ v a. kept;
  no_takeover = λ v e. elim (Bool-cases (str_eq w v)) [
    | inl same ↦
        let stale : p ≡ found_stale = rw same at e in
        let never : inside found_stale ≡ true = rw stale at in_it in cc
    | inr other ↦ x.no_takeover v (rw other at e)
  ];
}

-- A process outside that stays outside, while the file stays.
waits-IsExclusive :
    (s : LockState) (w : String) (p : Phase)
    → IsExclusive s
    → inside p ≡ false
    → p ≢ found_stale
    → IsExclusive (record s { phase = set_phase w p s.phase })
waits-IsExclusive s w p x out ne =
    outside-IsExclusive s w p s.file x out ne (λ v apart a. x.there v a)

was_inside :
    (s : LockState) (w : String) (p : Phase)
    → s.phase w ≡ p
    → inside p ≡ true
    → inside (s.phase w) ≡ true
was_inside s w p e h = rw e h

try_open-IsExclusive :
    (s : LockState) (f : LockFile) (p : Phase) (w : String) (pid now : ℕ)
    → IsExclusive s
    → s.file ≡ f
    → IsExclusive (try_open s f p w pid now)
unfolding try_open
try_open-IsExclusive s absent waiting w pid now x e =
    inside-IsExclusive s w (writing (new_lock w pid now)) (created (new_lock w pid now)) x refl
      (λ h. cc h) (λ v a. absurd (x.there v a e))
try_open-IsExclusive s garbled waiting w pid now x e =
    waits-IsExclusive s w found_file x refl (λ h. cc h)
try_open-IsExclusive s (created r) waiting w pid now x e =
    waits-IsExclusive s w found_file x refl (λ h. cc h)
try_open-IsExclusive s (held r) waiting w pid now x e =
    waits-IsExclusive s w found_file x refl (λ h. cc h)
try_open-IsExclusive s f found_file w pid now x e = x
try_open-IsExclusive s f found_stale w pid now x e = x
try_open-IsExclusive s f (writing r) w pid now x e = x
try_open-IsExclusive s f (operating r) w pid now x e = x
try_open-IsExclusive s f (releasing r) w pid now x e = x

written_file-there : (f : LockFile) (r : LockRecord) → f ≢ absent → written_file f r ≢ absent
written_file-there absent r h = h
written_file-there garbled r h = λ e. cc e
written_file-there (held c) r h = λ e. cc e
written_file-there (created c) r h = elim (Bool-cases (is_own (some c) r)) [
  | inl own ↦ rw own (λ e. cc e)
  | inr other ↦ rw other (λ e. cc e)
]

try_write-IsExclusive :
    (s : LockState) (p : Phase) (w : String)
    → IsExclusive s
    → s.phase w ≡ p
    → IsExclusive (try_write s p w)
unfolding try_write
try_write-IsExclusive s (writing r) w x e =
    let mine = was_inside s w (writing r) e refl in
    inside-IsExclusive s w (operating r) (written_file s.file r) x refl
      (written_file-there s.file r (x.there w mine)) (λ v a. x.one w v mine a)
try_write-IsExclusive s waiting w x e = x
try_write-IsExclusive s found_file w x e = x
try_write-IsExclusive s found_stale w x e = x
try_write-IsExclusive s (operating r) w x e = x
try_write-IsExclusive s (releasing r) w x e = x

-- Whether a move is a read that takes the lock that it sees for stale.
abbrev pub finds_stale : LockState → Move → Bool
finds_stale s (opens w pid now) = false
finds_stale s (reads w now) = is_stale (read_lock s.file) now
finds_stale s (unlinks w) = false
finds_stale s (writes w) = false
finds_stale s (compares w) = false
finds_stale s (releases w) = false

try_read-IsExclusive :
    (s : LockState) (p : Phase) (w : String) (now : ℕ)
    → IsExclusive s
    → is_stale (read_lock s.file) now ≡ false
    → IsExclusive (try_read s p w now)
unfolding try_read
try_read-IsExclusive s found_file w now x e =
    rw e (waits-IsExclusive s w waiting x refl (λ h. cc h))
try_read-IsExclusive s waiting w now x e = x
try_read-IsExclusive s found_stale w now x e = x
try_read-IsExclusive s (writing r) w now x e = x
try_read-IsExclusive s (operating r) w now x e = x
try_read-IsExclusive s (releasing r) w now x e = x

try_unlink-IsExclusive :
    (s : LockState) (p : Phase) (w : String)
    → IsExclusive s
    → s.phase w ≡ p
    → IsExclusive (try_unlink s p w)
unfolding try_unlink
try_unlink-IsExclusive s found_stale w x e = absurd (x.no_takeover w e)
try_unlink-IsExclusive s waiting w x e = x
try_unlink-IsExclusive s found_file w x e = x
try_unlink-IsExclusive s (writing r) w x e = x
try_unlink-IsExclusive s (operating r) w x e = x
try_unlink-IsExclusive s (releasing r) w x e = x

try_compare-IsExclusive :
    (s : LockState) (p : Phase) (w : String)
    → IsExclusive s
    → s.phase w ≡ p
    → IsExclusive (try_compare s p w)
unfolding try_compare
try_compare-IsExclusive s (operating r) w x e =
    let mine = was_inside s w (operating r) e refl in
    elim (Bool-cases (is_own (read_lock s.file) r)) [
      | inl own ↦ rw own (
          inside-IsExclusive s w (releasing r) s.file x refl (x.there w mine)
            (λ v a. x.one w v mine a))
      | inr other ↦ rw other (waits-IsExclusive s w waiting x refl (λ h. cc h))
    ]
try_compare-IsExclusive s waiting w x e = x
try_compare-IsExclusive s found_file w x e = x
try_compare-IsExclusive s found_stale w x e = x
try_compare-IsExclusive s (writing r) w x e = x
try_compare-IsExclusive s (releasing r) w x e = x

try_release-IsExclusive :
    (s : LockState) (p : Phase) (w : String)
    → IsExclusive s
    → s.phase w ≡ p
    → IsExclusive (try_release s p w)
unfolding try_release
try_release-IsExclusive s (releasing r) w x e =
    let mine = was_inside s w (releasing r) e refl in
    outside-IsExclusive s w waiting absent x refl (λ h. cc h)
      (λ v apart a. absurd (apart (x.one w v mine a)))
try_release-IsExclusive s waiting w x e = x
try_release-IsExclusive s found_file w x e = x
try_release-IsExclusive s found_stale w x e = x
try_release-IsExclusive s (writing r) w x e = x
try_release-IsExclusive s (operating r) w x e = x

move-IsExclusive :
    (s : LockState) (m : Move) → IsExclusive s → finds_stale s m ≡ false → IsExclusive (move s m)
unfolding move
move-IsExclusive s (opens w pid now) x h =
    try_open-IsExclusive s s.file (s.phase w) w pid now x refl
move-IsExclusive s (reads w now) x h = try_read-IsExclusive s (s.phase w) w now x h
move-IsExclusive s (writes w) x h = try_write-IsExclusive s (s.phase w) w x refl
move-IsExclusive s (unlinks w) x h = try_unlink-IsExclusive s (s.phase w) w x refl
move-IsExclusive s (compares w) x h = try_compare-IsExclusive s (s.phase w) w x refl
move-IsExclusive s (releases w) x h = try_release-IsExclusive s (s.phase w) w x refl

-- No read of the sequence finds a stale lock: no operation outlasts the time to live while others
-- try, and no lock is left over.
abbrev pub NeverStale : LockState → List Move → Type 0
NeverStale s [] = Unit
NeverStale s (m ∷ ms) = (finds_stale s m ≡ false) × NeverStale (move s m) ms

moves-IsExclusive :
    (s : LockState) (ms : List Move) → IsExclusive s → NeverStale s ms → IsExclusive (moves s ms)
unfolding moves
moves-IsExclusive s [] x h = x
moves-IsExclusive s (m ∷ ms) x h = moves-IsExclusive (move s m) ms (move-IsExclusive s m x h.0) h.1

abbrev pub unlocked : LockState
unlocked = record { file = absent; phase = λ w. waiting }

unlocked-IsExclusive : IsExclusive unlocked
unlocked-IsExclusive = record {
  one = λ w v a b. absurd (cc a);
  there = λ w a. absurd (cc a);
  no_takeover = λ w e. cc;
}

-- From no lock file and no process under way, whatever moves the processes make in whatever order:
-- as long as no read finds the lock stale, at most one process is in its operation.
pub exclusive :
    (ms : List Move) (w v : String) (r q : LockRecord)
    → NeverStale unlocked ms
    → (moves unlocked ms).phase w ≡ operating r
    → (moves unlocked ms).phase v ≡ operating q
    → w ≡ v
exclusive ms w v r q h e f =
    let x = moves-IsExclusive unlocked ms unlocked-IsExclusive h in
    x.one w v (was_inside (moves unlocked ms) w (operating r) e refl)
      (was_inside (moves unlocked ms) v (operating q) f refl)
