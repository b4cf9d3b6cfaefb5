-- ===== src/Scheduler/Engine/Recovery.antt =====
-- `recover`: after it no task is active under an expired lease.

use alfred_ai.Base.{
  Bool, if◌then◌else◌, ℕ, String, ◌≡◌, refl, ◌∙◌, sym, ap, subst, ◌≢◌, true, false, ◌&&◌, Option,
  none, some, [], ◌∷◌, ok, arith, inl, inr, ◌⊎◌, Bool-cases, Option-cases, str_eq, eq_iff, leb,
  units, is_text, or_else,
}
use alfred_ai.Scheduler.Model.{Task, Snapshot, utc, is_active, failed}
use alfred_ai.Scheduler.TaskStore.{
  find_task, replace_task, amend, requeue, transition_to_terminal,
  transition_to_terminal_or_pending, ReconcileAction, reclaim, complete, fail, reconcile,
  reconcile_task, list_all,
}
use alfred_ai.Scheduler.TaskStore.Snapshots.{
  find_task-id, find_task-replace_self, find_task-replace_ne,
}
use alfred_ai.Scheduler.Engine.{
  RunOutcome, run_completed, run_failed, run_cancelled, run_queued, run_running, run_unknown,
  RunLookup, run_of, lease_expired, recovery, recovery_of, recover_listed, recover,
}

-- What `reconcile` makes of a task in a recovery: nothing, or a task that is not active.
abbrev Settles : ℕ → ReconcileAction → Task → Type 0
Settles later a x =
    (y : Task) × (reconcile_task later a x ≡ ok y)
    × (y.id ≡ x.id)
    × (y.cycle_count ≡ x.cycle_count)
    × ((y ≡ x) ⊎ (is_active y.status ≡ false))

reclaim-Settles :
    (now later : ℕ) (cycle_id : String) (code : Option String) (x : Task)
    → Settles later (reclaim cycle_id (utc now) code) x
unfolding reconcile_task
reclaim-Settles now later cycle_id code x = elim (Bool-cases (is_text x.active_cycle_id cycle_id)) [
  | inl mine ↦ (
    requeue (record x { last_error_code = code }) (utc now) later,
    rw (mine, reconcile_task) refl,
    refl,
    refl,
    inr refl,
  )
  | inr other ↦ (x, rw (other, reconcile_task) refl, refl, refl, inl refl)
]

complete-Settles :
    (later : ℕ) (cycle_id : String) (x : Task) → Settles later (complete cycle_id none none none) x
unfolding reconcile_task
complete-Settles later cycle_id x = elim (Bool-cases (is_text x.active_cycle_id cycle_id)) [
  | inl mine ↦ (
    transition_to_terminal_or_pending
        (record x { last_completed_at = some later; last_observation_digest = none }) none later,
    rw (mine, reconcile_task) refl,
    refl,
    refl,
    inr refl,
  )
  | inr other ↦ (x, rw (other, reconcile_task) refl, refl, refl, inl refl)
]

fail-Settles :
    (later : ℕ) (cycle_id code : String) (x : Task) → Settles later (fail cycle_id code none true) x
unfolding reconcile_task
fail-Settles later cycle_id code x = elim (Bool-cases (is_text x.active_cycle_id cycle_id)) [
  | inl mine ↦ (
    transition_to_terminal x failed later (some code),
    rw (mine, reconcile_task) refl,
    refl,
    refl,
    inr refl,
  )
  | inr other ↦ (x, rw (other, reconcile_task) refl, refl, refl, inl refl)
]

-- A recovery of the cycle that a task holds takes it out of its active state.
abbrev Frees : ℕ → ReconcileAction → String → Type 0
Frees later a c =
    (x y : Task)
    → is_text x.active_cycle_id c ≡ true
    → reconcile_task later a x ≡ ok y
    → is_active y.status ≡ false

-- What `recovery` calls, if it calls anything.
recovery-cases :
    (now later : ℕ) (cycle_id : Option String) (run : Option RunOutcome) (a : ReconcileAction)
    → recovery now cycle_id run ≡ some a
    → (x : Task) → Settles later a x
unfolding recovery
recovery-cases now later cycle_id (some run_completed) a e x =
    subst (λ b. Settles later b x) (ground arith) (complete-Settles later (or_else cycle_id "") x)
recovery-cases now later cycle_id (some run_failed) a e x =
    subst (λ b. Settles later b x) (ground arith)
      (fail-Settles later (or_else cycle_id "") "scheduled_run_recovered_failed" x)
recovery-cases now later cycle_id (some run_cancelled) a e x =
    subst (λ b. Settles later b x) (ground arith)
      (fail-Settles later (or_else cycle_id "") "scheduled_run_recovered_failed" x)
recovery-cases now later none (some run_queued) a e x = cc
recovery-cases now later none (some run_running) a e x = cc
recovery-cases now later none (some run_unknown) a e x = cc
recovery-cases now later none none a e x = cc
recovery-cases now later (some c) (some run_queued) a e x =
    subst (λ b. Settles later b x) (ground arith)
      (reclaim-Settles now later c (some "lease_expired_reclaimed") x)
recovery-cases now later (some c) (some run_running) a e x =
    subst (λ b. Settles later b x) (ground arith)
      (reclaim-Settles now later c (some "lease_expired_reclaimed") x)
recovery-cases now later (some c) (some run_unknown) a e x =
    subst (λ b. Settles later b x) (ground arith)
      (reclaim-Settles now later c (some "lease_expired_reclaimed") x)
recovery-cases now later (some c) none a e x =
    subst (λ b. Settles later b x) (ground arith)
      (reclaim-Settles now later c (some "lease_expired_reclaimed") x)

recovery-Frees :
    (now later : ℕ) (c : String) (run : Option RunOutcome)
    → leb 1 (units c) ≡ true
    → (a : ReconcileAction) × (recovery now (some c) run ≡ some a) × Frees later a c
unfolding recovery reconcile_task
recovery-Frees now later c (some run_completed) h = (_, refl, λ x y m e. ground arith)
recovery-Frees now later c (some run_failed) h = (_, refl, λ x y m e. ground arith)
recovery-Frees now later c (some run_cancelled) h = (_, refl, λ x y m e. ground arith)
recovery-Frees now later c (some run_queued) h =
    (reclaim c (utc now) (some "lease_expired_reclaimed"), rw h refl, λ x y m e. ground arith)
recovery-Frees now later c (some run_running) h =
    (reclaim c (utc now) (some "lease_expired_reclaimed"), rw h refl, λ x y m e. ground arith)
recovery-Frees now later c (some run_unknown) h =
    (reclaim c (utc now) (some "lease_expired_reclaimed"), rw h refl, λ x y m e. ground arith)
recovery-Frees now later c none h =
    (reclaim c (utc now) (some "lease_expired_reclaimed"), rw h refl, λ x y m e. ground arith)

reconcile-find :
    (later : ℕ) (id j : String) (a : ReconcileAction) (ts : Snapshot) (x : Task)
    → ((v : Task) → Settles later a v)
    → find_task j ts ≡ some x
    → (out : Snapshot × Option Task) × (y : Task) × (reconcile later id a ts ≡ ok out)
      × (find_task j out.0 ≡ some y)
      × (y.cycle_count ≡ x.cycle_count)
      × ((y ≡ x) ⊎ (is_active y.status ≡ false))
      × (id ≡ j → reconcile_task later a x ≡ ok y)
unfolding reconcile amend
reconcile-find later id j a ts x settles there = elim (Option-cases (find_task id ts)) [
  | inl absent ↦ (
    (ts, none),
    x,
    rw (absent, reconcile, amend) refl,
    there,
    refl,
    inl refl,
    λ same. let gone : find_task j ts ≡ none = rw (← same) absent in cc (gone, there),
  )
  | inr (u, found) ↦
      let (v, done, named, cycles, state) = settles u in
      let at_id = named ∙ find_task-id id ts u found in
      let ran : reconcile later id a ts ≡ ok (replace_task id v ts, some v) =
        rw (found, done, reconcile, amend) refl in
      elim (Bool-cases (str_eq id j)) [
        | inl hit ↦
            let same : id ≡ j = ground (arith, eq_iff id j) in
            let one : u ≡ x =
              (let found' : find_task j ts ≡ some u = rw (← same) found in cc (found', there)) in
            (
              (replace_task id v ts, some v),
              v,
              ran,
              rw (← same) (find_task-replace_self id v u ts at_id found),
              cycles ∙ ap (λ t. t.cycle_count) one,
              rw (← one) state,
              λ _. rw (← one) done,
            )
        | inr miss ↦
            let apart : id ≢ j = ground (arith, eq_iff id j) in
            (
              (replace_task id v ts, some v),
              x,
              ran,
              find_task-replace_ne id j v ts at_id apart ∙ there,
              refl,
              inl refl,
              λ same. absurd (apart same),
            )
      ]
]

abbrev IsListed : Task → Snapshot → Type 0
IsListed t [] = ⊥
IsListed t (u ∷ us) = (u ≡ t) ⊎ IsListed t us

-- A task as it was listed, or no longer active.
abbrev IsSettled : Task → Task → Type 0
IsSettled t x = (x ≡ t) ⊎ (is_active x.status ≡ false)

IsSettled-trans : (t x y : Task) → IsSettled t x → IsSettled x y → IsSettled t y
IsSettled-trans t x y s (inr free) = inr free
IsSettled-trans t x y s (inl same) = subst (IsSettled t) (sym same) s

-- A lookup that answers for each run, if there is one, and a store whose lock and file are there.
abbrev pub answering : Option (String → Option RunOutcome) → Option RunLookup
answering none = none
answering (some answers) = some (λ run_id. ok (answers run_id))

abbrev pub always_there : String → Bool
always_there id = false

-- What the run has come to where the lookup answers, and the call of `reconcile` for it.
abbrev answer_for : Option (String → Option RunOutcome) → Option String → Option RunOutcome
answer_for none run_id = none
answer_for (some answers) none = none
answer_for (some answers) (some run_id) = if leb 1 (units run_id) then answers run_id else none

abbrev plan : Option (String → Option RunOutcome) → ℕ → Task → Option ReconcileAction
plan answers now t =
    if is_active t.status && lease_expired t.lease_expires_at now
    then recovery now t.active_cycle_id (answer_for answers t.active_run_id)
    else none

run_of-answering :
    (answers : Option (String → Option RunOutcome)) (run_id : Option String)
    → run_of (answering answers) run_id ≡ ok (answer_for answers run_id)
run_of-answering none run_id = refl
run_of-answering (some answers) none = refl
run_of-answering (some answers) (some run_id) = ground arith

recovery_of-plan :
    (answers : Option (String → Option RunOutcome)) (now : ℕ) (t : Task)
    → recovery_of (answering answers) now t ≡ ok (plan answers now t)
unfolding recovery_of
recovery_of-plan answers now t =
    elim (Bool-cases (is_active t.status && lease_expired t.lease_expires_at now)) [
      | inl over ↦ rw (over, run_of-answering answers t.active_run_id, recovery_of) refl
      | inr fine ↦ rw (fine, recovery_of) refl
    ]

module _ (lookup : Option (String → Option RunOutcome)) (now later : ℕ) (t : Task)
    (c : String) where
  -- The task is active under an expired lease, in a cycle with an id.
  abbrev IsLeft : Type 0
  IsLeft =
      (is_active t.status ≡ true)
      × (lease_expired t.lease_expires_at now ≡ true)
      × (t.active_cycle_id ≡ some c)
      × (leb 1 (units c) ≡ true)

  recovery_of-left : IsLeft → (a : ReconcileAction) × (plan lookup now t ≡ some a) × Frees later a c
  unfolding recovery_of
  recovery_of-left (active, expired, cycle, long) =
      let (a, call, frees) = recovery-Frees now later c (answer_for lookup t.active_run_id) long in
      (a, rw (active, expired, cycle) call, frees)

  recovery_of-Settles :
      (v : Task) (a : ReconcileAction) → plan lookup now v ≡ some a → (x : Task) → Settles later a x
  unfolding recovery_of
  recovery_of-Settles v a e =
      elim (Bool-cases (is_active v.status && lease_expired v.lease_expires_at now)) [
        | inl over ↦
            recovery-cases now later v.active_cycle_id (answer_for lookup v.active_run_id) a
              (ground arith)
        | inr fine ↦ ground arith
      ]

  recover_listed-find :
      (listed ts : Snapshot) (x : Task)
      → find_task t.id ts ≡ some x
      → IsSettled t x
      → (us : Snapshot) × (y : Task) × (recover_listed
            (answering lookup)
            always_there
            now
            later
            listed
            ts
          ≡ (us, ok tt))
        × (find_task t.id us ≡ some y)
        × (y.cycle_count ≡ x.cycle_count)
        × IsSettled t y
        × (is_active x.status ≡ false → is_active y.status ≡ false)
        × (IsListed t listed → IsLeft → is_active y.status ≡ false)
  unfolding recover_listed
  recover_listed-find [] ts x there s = (ts, x, refl, there, refl, s, λ f. f, λ l. absurd l)
  recover_listed-find (v ∷ listed) ts x there s = elim (Option-cases (plan lookup now v)) [
    | inl nothing ↦
        let (us, y, ran, found, cycles, s', free, freed) =
          recover_listed-find listed ts x there s in
        (
          us,
          y,
          rw (recovery_of-plan lookup now v, nothing, recover_listed) ran,
          found,
          cycles,
          s',
          free,
          λ l left. elim l [
            | inl it ↦
                let (a, call, _) = recovery_of-left left in
                let none_for : plan lookup now t ≡ none = rw (← it) nothing in cc (none_for, call)
            | inr further ↦ freed further left
          ],
        )
    | inr (a, call) ↦
        let (out, z, ran, there', cycles, state, done) =
          reconcile-find later v.id t.id a ts x (recovery_of-Settles v a call) there in
        let s' : IsSettled t z = IsSettled-trans t x z s state in
        let (us, y, rest, found, cycles', s'', free, freed) =
          recover_listed-find listed out.0 z there' s' in
        let still : is_active x.status ≡ false → is_active z.status ≡ false =
          λ f. elim state [ inl same ↦ rw same f | inr idle ↦ idle ] in
        (
          us,
          y,
          rw (recovery_of-plan lookup now v, call, ran, recover_listed) rest,
          found,
          cycles' ∙ cycles,
          s'',
          λ f. free (still f),
          λ l left. elim l [
            | inr further ↦ freed further left
            | inl it ↦ free (elim s [
              | inr idle ↦ still idle
              | inl same ↦
                  let (b, called, frees) = recovery_of-left left in
                  let one : b ≡ a =
                    (let call' : plan lookup now t ≡ some a = rw (← it) call in
                      cc (call', called)) in
                  let held : is_text x.active_cycle_id c ≡ true =
                    rw (same, left.2) (ground (arith, eq_iff c c)) in
                  subst (λ r. Frees later r c) one frees x z held (done (ap (λ w. w.id) it))
            ])
          ],
        )
  ]

-- `recover`, under the same conditions, leaves each task
-- as it was, or not active with as many cycles as before.
pub recover_keeps :
    (lookup : Option (String → Option RunOutcome)) (now later : ℕ) (ts : Snapshot) (t : Task)
    → find_task t.id ts ≡ some t
    → (us : Snapshot) × (u : Task) × (recover (answering lookup) always_there now later ts ts
        ≡ (us, ok tt))
      × (find_task t.id us ≡ some u)
      × (u.cycle_count ≡ t.cycle_count)
      × ((u ≡ t) ⊎ (is_active u.status ≡ false))
unfolding recover
recover_keeps lookup now later ts t there =
    let (us, u, ran, found, cycles, s, _, _) =
      recover_listed-find lookup now later t "" (list_all false ts) ts t there (inl refl) in
    (us, u, ran, found, cycles, s)
