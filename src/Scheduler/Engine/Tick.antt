-- ===== src/Scheduler/Engine/Tick.antt =====
-- `tick`: the loop ends, starts no more than the limit allows, and leaves nothing that it could start.
use alfred_ai.Base.{
  if◌then◌else◌, or_else, List, ap, ◌++◌, ℕ, ◌+◌, ◌-◌, ◌≤◌, ◌<◌, max, String, ◌≡◌, refl, ◌∙◌, sym,
  subst, ◌≢◌, Bool, true, false, none, some, [], ◌∷◌, Result, ok, arith, inl, inr, ◌⊎◌, Bool-cases,
  Option-cases, find, filter, length, All, str_eq, eq_iff, ltb,
}
use alfred_ai.Scheduler.Model.{Task, Snapshot, is_pending}
use alfred_ai.Scheduler.TaskStore.{
  find_task, replace_task, amend, claim, claim_task, ClaimResult, Refusal, granted, refused, is_due,
  list_due,
}
use alfred_ai.Scheduler.TaskStore.Listing.{list_due_lem, list_due-All}
use alfred_ai.Scheduler.Engine.{
  EngineLimits, EngineState, TickRound, TickError, may_start, candidate, start_claim,
  claim_candidate, tick_round, tick, is_wake_turn, can_start_wake,
}

-- No two tasks have the same id.
abbrev pub IsDistinct : Snapshot → Type 0
IsDistinct [] = Unit
IsDistinct (t ∷ ts) = All (λ u. u.id ≢ t.id) ts × IsDistinct ts

abbrev pub count_pending : Snapshot → ℕ
count_pending ts = length (filter (λ t. is_pending t.status) ts)

replace_task-apart :
    (id other : String) (t : Task) (ts : Snapshot)
    → t.id ≡ id
    → All (λ u. u.id ≢ other) ts
    → All (λ u. u.id ≢ other) (replace_task id t ts)
unfolding replace_task
replace_task-apart id other t [] e a = tt
replace_task-apart id other t (u ∷ ts) e a = elim (Bool-cases (str_eq u.id id)) [
  | inl hit ↦
      let same : u.id ≡ t.id = ground (arith, eq_iff u.id id) in rw hit ((λ x. a.0 (same ∙ x)), a.1)
  | inr miss ↦ rw miss (a.0, replace_task-apart id other t ts e a.1)
]

replace_task-IsDistinct :
    (id : String) (t : Task) (ts : Snapshot)
    → t.id ≡ id
    → IsDistinct ts
    → IsDistinct (replace_task id t ts)
unfolding replace_task
replace_task-IsDistinct id t [] e d = tt
replace_task-IsDistinct id t (u ∷ ts) e d = elim (Bool-cases (str_eq u.id id)) [
  | inl hit ↦
      let same : u.id ≡ t.id = ground (arith, eq_iff u.id id) in
      rw hit (subst (λ x. All (λ v. v.id ≢ x) ts) same d.0, d.1)
  | inr miss ↦
      rw miss (replace_task-apart id u.id t ts e d.0, replace_task-IsDistinct id t ts e d.1)
]

-- Each task of the list is what its id finds there.
abbrev IsFound : Snapshot → Task → Type 0
IsFound ts t = find_task t.id ts ≡ some t

later-IsFound :
    (t : Task) (us ts : Snapshot)
    → All (λ u. u.id ≢ t.id) us
    → All (IsFound ts) us
    → All (IsFound (t ∷ ts)) us
unfolding find
later-IsFound t [] ts a f = tt
later-IsFound t (u ∷ us) ts a f = (
  let apart : t.id ≢ u.id = (λ e. a.0 (sym e)) in ground (arith, f.0, eq_iff t.id u.id),
  later-IsFound t us ts a.1 f.1,
)

IsDistinct-IsFound : (ts : Snapshot) → IsDistinct ts → All (IsFound ts) ts
unfolding find
IsDistinct-IsFound [] d = tt
IsDistinct-IsFound (t ∷ ts) d =
    (ground (arith, eq_iff t.id t.id), later-IsFound t ts ts d.0 (IsDistinct-IsFound ts d.1))

replace_task-pending :
    (id : String) (t t' : Task) (ts : Snapshot)
    → find_task id ts ≡ some t
    → is_pending t.status ≡ true
    → is_pending t'.status ≡ false
    → count_pending (replace_task id t' ts) + 1 ≡ count_pending ts
unfolding find replace_task filter
replace_task-pending id t t' [] f p n = cc
replace_task-pending id t t' (u ∷ ts) f p n = elim (Bool-cases (str_eq u.id id)) [
  | inl hit ↦ let same : u ≡ t = ground arith in rw (hit, n, same, p) (omega arith)
  | inr miss ↦
      let later = replace_task-pending id t t' ts (ground arith) p n in
      elim (Bool-cases (is_pending u.status)) [
        | inl y ↦ rw (miss, y) (omega arith)
        | inr o ↦ rw (miss, o) later
      ]
]

claim_task-moves :
    (now : ℕ) (instance : String) (t : Task)
    → is_due now t ≡ true
    → (is_pending (claim_task now instance (some t.updated_at) t).0.status ≡ false)
      × ((claim_task now instance (some t.updated_at) t).0.id ≡ t.id)
unfolding claim_task
claim_task-moves now instance t d = (ground arith, ground arith)

find-All :
    (P : Task → Type 0) (p : Task → Bool) (ts : Snapshot) (t : Task)
    → All P ts
    → find p ts ≡ some t
    → P t
unfolding find
find-All P p [] t a e = cc
find-All P p (u ∷ ts) t a e = elim (Bool-cases (p u)) [
  | inl hit ↦ let same : u ≡ t = ground arith in subst P same a.0
  | inr miss ↦ find-All P p ts t a.1 (ground arith)
]

ClaimResult-cases :
    (r : ClaimResult)
    → ((t : Task) × (c : String) × (r ≡ granted t c)) ⊎ ((reason : Refusal) × (r ≡ refused reason))
ClaimResult-cases (granted t c) = inl (t, c, refl)
ClaimResult-cases (refused reason) = inr (reason, refl)

-- A round in which the clock does not run backwards from the listing to the claim, the store and the
-- run log work, and no one else changes the tasks between the two.
pub record IsQuiet (round : TickRound) : Type 0 where
  pub forward : round.listed_at ≤ round.claimed_at
  pub lists : round.list_fails ≡ false
  pub claims : round.claim_fails ≡ false
  pub logs : round.log_fails ≡ false
  pub alone : round.changed_to ≡ none

due_later : (now later : ℕ) (t : Task) → now ≤ later → is_due now t ≡ true → is_due later t ≡ true
due_later now later t le due = ground arith

module _ (limits : EngineLimits) (instance : String) where
  candidate-due :
      (round : TickRound) (s : EngineState) (t : Task)
      → IsDistinct s.tasks
      → candidate limits round s ≡ some t
      → (is_due round.listed_at t ≡ true) × (find_task t.id s.tasks ≡ some t)
  unfolding candidate
  candidate-due round s t d e =
      let now = round.listed_at in
      let limit = limits.concurrency - s.active_count in
      let (_, _, _, _, all_due, _) = list_due_lem now limit s.tasks in
      (
        find-All (λ u. is_due now u ≡ true)
            (may_start limits s.last_wake_started_at round.chosen_at) (list_due now limit s.tasks) t
            all_due e,
        find-All (IsFound s.tasks) (may_start limits s.last_wake_started_at round.chosen_at)
            (list_due now limit s.tasks) t
            (list_due-All (IsFound s.tasks) now limit s.tasks (IsDistinct-IsFound s.tasks d)) e,
      )

  -- What a round does: one pending task fewer; and one start more, or none.
  abbrev Advances : EngineState → EngineState → Type 0
  Advances s s' =
      IsDistinct s'.tasks
      × (count_pending s'.tasks + 1 ≡ count_pending s.tasks)
      × (s.active_count < limits.concurrency)
      × (((s'.active_count ≡ s.active_count + 1) × (length s'.started ≡ length s.started + 1))
          ⊎ ((s'.active_count ≡ s.active_count) × (length s'.started ≡ length s.started)))

  abbrev started_with : TickRound → Task → String → Snapshot → EngineState → EngineState
  started_with round t cycle_id us s = record {
    active_count = s.active_count + 1;
    last_wake_started_at =
        if is_wake_turn t.kind then some round.woken_at else s.last_wake_started_at;
    tasks = us;
    started = (t, cycle_id) ∷ s.started;
  }

  start_claim-started :
      (round : TickRound) (t : Task) (cycle_id : String) (us : Snapshot) (s : EngineState)
      → round.log_fails ≡ false
      → start_claim round t cycle_id us s ≡ (started_with round t cycle_id us s, ok tt)
  unfolding start_claim
  start_claim-started round t cycle_id us s h = rw (h, start_claim) refl

  claim_candidate-Advances :
      (round : TickRound) (s : EngineState) (t : Task)
      → IsQuiet round
      → IsDistinct s.tasks
      → is_due round.claimed_at t ≡ true
      → find_task t.id s.tasks ≡ some t
      → s.active_count < limits.concurrency
      → (s' : EngineState) × (claim_candidate round instance t s.tasks s ≡ (s', ok tt))
        × Advances s s'
  unfolding claim_candidate claim amend
  claim_candidate-Advances round s t q d due found free =
      let now = round.claimed_at in
      let (moved, named) = claim_task-moves now instance t due in
      let c = claim_task now instance (some t.updated_at) t in
      let us = replace_task t.id c.0 s.tasks in
      let fewer = replace_task-pending t.id t c.0 s.tasks found (ground arith) moved in
      let distinct = replace_task-IsDistinct t.id c.0 s.tasks named d in
      elim (ClaimResult-cases c.1) [
        | inl (v, cycle_id, given) ↦
            let claimed : claim_candidate round instance t s.tasks s
                ≡ start_claim round v cycle_id us s =
              rw (q.claims, found, given, claim_candidate, claim, amend) refl in
            (
              started_with round v cycle_id us s,
              claimed ∙ start_claim-started round v cycle_id us s q.logs,
              (distinct, fewer, free, inl (refl, omega arith)),
            )
        | inr (reason, denied) ↦ (
          record s { tasks = us },
          rw (q.claims, found, denied, claim_candidate, claim, amend) refl,
          (distinct, fewer, free, inr (refl, refl)),
        )
      ]

  tick_round-Advances :
      (round : TickRound) (s : EngineState) (out : EngineState × Result TickError (Unit {0}))
      → IsQuiet round
      → IsDistinct s.tasks
      → tick_round limits round instance s ≡ some out
      → (s' : EngineState) × (out ≡ (s', ok tt)) × Advances s s'
  unfolding tick_round
  tick_round-Advances round s out q d e =
      elim (Bool-cases (ltb s.active_count limits.concurrency)) [
        | inr full ↦ ground arith
        | inl free ↦ elim (Option-cases (candidate limits round s)) [
          | inl nothing ↦
              let ran : tick_round limits round instance s ≡ none =
                rw (free, q.lists, nothing, tick_round) refl in
              cc (ran, e)
          | inr (t, first) ↦
              let (due, found) = candidate-due round s t d first in
              let (s', claimed, advanced) =
                claim_candidate-Advances round s t q d
                  (due_later round.listed_at round.claimed_at t q.forward due) found
                  (ground arith) in
              let unchanged : or_else round.changed_to s.tasks ≡ s.tasks = rw q.alone refl in
              let ran : tick_round limits round instance s
                  ≡ some (claim_candidate round instance t s.tasks s) =
                rw (free, q.lists, first, tick_round) refl
                ∙ ap (λ us. some (claim_candidate round instance t us s)) unchanged in
              (s', cc (ran, e, claimed), advanced)
        ]
      ]

  -- The rounds that a tick took, and the one in which it found nothing to start.
  pub record Ended (rounds : List TickRound) (s s' : EngineState) : Type 0 where
    pub taken : List TickRound
    pub last : TickRound
    pub left : List TickRound
    pub parts : rounds ≡ taken ++ (last ∷ left)
    pub few : length taken ≤ count_pending s.tasks
    pub ran : tick rounds limits instance s ≡ some (s', ok tt)
    pub nothing : tick_round limits last instance s' ≡ none
    pub within : s'.active_count ≤ max s.active_count limits.concurrency
    pub counted : s'.active_count + length s.started ≡ s.active_count + length s'.started

  -- A tick ends: in a store where no two tasks have the same id, if the clock does not run backwards,
  -- the store and the run log work, and no one else changes the tasks meanwhile, then it takes at most
  -- as many rounds as there are pending tasks, and in the next, if the world has one in store, finds
  -- nothing that it may start. It ends without an error, each start counts as active, and the active
  -- runs stay within the limit (or what they were above it).
  pub tick_ends :
      (rounds : List TickRound) (s : EngineState)
      → All IsQuiet rounds
      → IsDistinct s.tasks
      → count_pending s.tasks < length rounds
      → (s' : EngineState) × Ended rounds s s'
  unfolding tick
  tick_ends [] s q d less = absurd (omega (arith, less))
  tick_ends (round ∷ rounds) s q d less = elim (Option-cases (tick_round limits round instance s)) [
    | inl over ↦ (
      s,
      record {
        taken = [];
        last = round;
        left = rounds;
        parts = refl;
        few = omega arith;
        ran = rw (over, tick) refl;
        nothing = over;
        within = omega arith;
        counted = omega arith;
      },
    )
    | inr (out, took) ↦
        let (s₁, ended, (distinct, fewer, free, counts)) =
          tick_round-Advances round s out q.0 d took in
        let (s', e) = tick_ends rounds s₁ q.1 distinct (omega arith) in
        let first : tick_round limits round instance s ≡ some (s₁, ok tt) = cc (took, ended) in
        let few = e.few in
        let within = e.within in
        let counted = e.counted in
        (
          s',
          record {
            taken = round ∷ e.taken;
            last = e.last;
            left = e.left;
            parts = ap (◌∷◌ round) e.parts;
            few = omega arith;
            ran = rw (first, tick) e.ran;
            nothing = e.nothing;
            within = elim counts [
              | inl (more, longer) ↦ omega arith
              | inr (same, as_long) ↦ omega arith
            ];
            counted = elim counts [
              | inl (more, longer) ↦ omega arith
              | inr (same, as_long) ↦ omega arith
            ];
          },
        )
  ]

  -- With one run left to start, a wake turn that is due first and may not start yet keeps every
  -- other due task from starting: the tick starts nothing, although a reminder is due.
  pub wake_turn_blocks :
      (round : TickRound) (rounds : List TickRound) (s : EngineState) (t u : Task)
      → round.list_fails ≡ false
      → limits.concurrency ≡ s.active_count + 1
      → list_due round.listed_at 1 s.tasks ≡ t ∷ []
      → is_wake_turn t.kind ≡ true
      → can_start_wake limits s.last_wake_started_at round.chosen_at ≡ false
      → find_task u.id s.tasks ≡ some u
      → is_due round.listed_at u ≡ true
      → is_wake_turn u.kind ≡ false
      → tick (round ∷ rounds) limits instance s ≡ some (s, ok tt)
  unfolding tick tick_round candidate find
  wake_turn_blocks round rounds s t u lists one first wake early there due other =
      let free : limits.concurrency - s.active_count ≡ 1 = omega arith in
      let slot : ltb s.active_count limits.concurrency ≡ true = ground arith in
      let blocked : candidate limits round s ≡ none =
        rw (free, first, wake, early, candidate) refl in
      let over : tick_round limits round instance s ≡ none =
        rw (slot, lists, blocked, tick_round) refl in
      rw (over, tick) refl
