-- ===== src/Scheduler/Lock/Takeover.antt =====
-- The takeover of a stale lock: between `readLock` and `unlink` the file can be another's.
use alfred_ai.Base.{
  ℕ, ◌≤◌, String, ◌≡◌, refl, ◌≢◌, sym, Bool, true, some, List, [], ◌∷◌, arith, ◌∙◌, ap, ap₂, eq_iff,
  if◌then◌else◌,
}
use alfred_ai.Scheduler.Lock.{
  LockRecord, is_lock_record, LockFile, absent, created, held, read_lock, Phase, waiting,
  found_file, writing, is_own, written_file, writes, try_write, found_stale, operating, LockState,
  Move, opens, reads, unlinks, set_phase, new_lock, try_open, try_read, is_stale, try_unlink, move,
  moves,
}

-- Both find the stale lock; the first takes it over; then the second unlinks the first one's lock.
abbrev pub takeover : String → String → ℕ → ℕ → List Move
takeover w v pid now =
    opens w pid now
    ∷ reads w now
    ∷ opens v pid now
    ∷ reads v now
    ∷ unlinks w
    ∷ opens w pid now
    ∷ writes w
    ∷ unlinks v
    ∷ opens v pid now
    ∷ writes v
    ∷ []

-- The file, and the phases of two processes.
abbrev Seen : String → String → LockState → LockFile → Phase → Phase → Type 0
Seen w v s f p q = (s.file ≡ f) × (s.phase w ≡ p) × (s.phase v ≡ q)

is_own_self : (r : LockRecord) → is_own (some r) r ≡ true
is_own_self r = ground (arith, eq_iff r.owner_id r.owner_id)

module _ (w v : String) (ne : w ≢ v) (s : LockState) (q : Phase) where
  phases : (p : Phase) → (set_phase w p s.phase w ≡ p) × (set_phase w p s.phase v ≡ s.phase v)
  unfolding set_phase
  phases p = (ground (arith, eq_iff w w), ground (arith, eq_iff w v))

  open_busy :
      (r : LockRecord) (pid now : ℕ)
      → Seen w v s (held r) waiting q
      → Seen w v (move s (opens w pid now)) (held r) found_file q
  unfolding move try_open
  open_busy r pid now (file, mine, other) =
      let seen : move s (opens w pid now) ≡ record s { phase = set_phase w found_file s.phase } =
        ap₂ (λ f p. try_open s f p w pid now) file mine in
      rw seen (file, (phases found_file).0, (phases found_file).1 ∙ other)

  open_free :
      (pid now : ℕ)
      → Seen w v s absent waiting q
      → Seen w v
          (move s (opens w pid now))
          (created (new_lock w pid now))
          (writing (new_lock w pid now))
          q
  unfolding move try_open
  open_free pid now (file, mine, other) =
      let own = writing (new_lock w pid now) in
      let seen : move s (opens w pid now)
          ≡ record { file = created (new_lock w pid now); phase = set_phase w own s.phase } =
        ap₂ (λ f p. try_open s f p w pid now) file mine in
      rw seen (refl, (phases own).0, (phases own).1 ∙ other)

  write_own :
      (r : LockRecord)
      → Seen w v s (created r) (writing r) q
      → Seen w v (move s (writes w)) (held r) (operating r) q
  unfolding move try_write
  write_own r (file, mine, other) =
      let own : written_file (created r) r ≡ held r = rw (is_own_self r) refl in
      let seen : move s (writes w)
          ≡ record { file = held r; phase = set_phase w (operating r) s.phase } =
        ap (λ p. try_write s p w) mine
        ∙ ap (λ f. record { file = f; phase = set_phase w (operating r) s.phase })
            (ap (λ f. written_file f r) file ∙ own) in
      rw seen (refl, (phases (operating r)).0, (phases (operating r)).1 ∙ other)

  read_stale :
      (r : LockRecord) (now : ℕ)
      → is_stale (read_lock (held r)) now ≡ true
      → Seen w v s (held r) found_file q
      → Seen w v (move s (reads w now)) (held r) found_stale q
  unfolding move try_read
  read_stale r now stale (file, mine, other) =
      let after : Bool → LockState =
        λ b. record s { phase = set_phase w (if b then found_stale else waiting) s.phase } in
      let test : is_stale (read_lock s.file) now ≡ true = rw file stale in
      let seen : move s (reads w now) ≡ after true =
        ap (λ p. try_read s p w now) mine ∙ ap after test in
      rw seen (file, (phases found_stale).0, (phases found_stale).1 ∙ other)

  unlink_stale :
      (f : LockFile) → Seen w v s f found_stale q → Seen w v (move s (unlinks w)) absent waiting q
  unfolding move try_unlink
  unlink_stale f (file, mine, other) =
      let seen : move s (unlinks w)
          ≡ record { file = absent; phase = set_phase w waiting s.phase } =
        ap (λ p. try_unlink s p w) mine in
      rw seen (refl, (phases waiting).0, (phases waiting).1 ∙ other)

swap :
    (w v : String) (s : LockState) (f : LockFile) (p q : Phase)
    → Seen w v s f p q
    → Seen v w s f q p
swap w v s f p q (file, mine, other) = (file, other, mine)

-- Two processes that wait where a lock record has expired can both come into their operation: each
-- makes only the moves of `withLock`, and both read the record before either unlinks it.
pub takeover_lem :
    (s : LockState) (r : LockRecord) (w v : String) (pid now : ℕ)
    → w ≢ v
    → s.file ≡ held r
    → is_lock_record r ≡ true
    → r.expires_at_ms ≤ now
    → s.phase w ≡ waiting
    → s.phase v ≡ waiting
    → ((moves s (takeover w v pid now)).phase w ≡ operating (new_lock w pid now))
      × ((moves s (takeover w v pid now)).phase v ≡ operating (new_lock v pid now))
unfolding moves read_lock
takeover_lem s r w v pid now ne file valid old a b =
    let stale : is_stale (read_lock (held r)) now ≡ true = ground arith in
    let en : v ≢ w = λ e. ne (sym e) in
    let mine : Phase = operating (new_lock w pid now) in
    let s₁ = move s (opens w pid now) in
    let s₂ = move s₁ (reads w now) in
    let s₃ = move s₂ (opens v pid now) in
    let s₄ = move s₃ (reads v now) in
    let s₅ = move s₄ (unlinks w) in
    let s₆ = move s₅ (opens w pid now) in
    let s₇ = move s₆ (writes w) in
    let s₈ = move s₇ (unlinks v) in
    let s₉ = move s₈ (opens v pid now) in
    let h₁ = open_busy w v ne s waiting r pid now (file, a, b) in
    let h₂ = read_stale w v ne s₁ waiting r now stale h₁ in
    let h₃ = open_busy v w en s₂ found_stale r pid now (swap w v s₂ _ _ _ h₂) in
    let h₄ = read_stale v w en s₃ found_stale r now stale h₃ in
    let h₅ = unlink_stale w v ne s₄ found_stale (held r) (swap v w s₄ _ _ _ h₄) in
    let h₆ = open_free w v ne s₅ found_stale pid now h₅ in
    let h₇ = write_own w v ne s₆ found_stale (new_lock w pid now) h₆ in
    let h₈ = unlink_stale v w en s₇ mine _ (swap w v s₇ _ _ _ h₇) in
    let h₉ = open_free v w en s₈ mine pid now h₈ in
    let h₁₀ = write_own v w en s₉ mine (new_lock v pid now) h₉ in (h₁₀.2, h₁₀.1)
