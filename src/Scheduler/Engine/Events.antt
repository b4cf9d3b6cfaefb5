-- ===== src/Scheduler/Engine/Events.antt =====
-- `handleAgentEvent`: which tasks an event of an agent nudges.
use alfred_ai.Base.{
  ℕ, String, ◌≡◌, refl, ◌∙◌, ap, ◌≢◌, Bool, true, false, ◌&&◌, ◌||◌, none, some, [], ◌∷◌, ok, arith,
  inl, inr, ◌⊎◌, Bool-cases, Option-cases, str_eq, eq_iff, if◌then◌else◌,
}
use alfred_ai.Scheduler.Model.{Task, Snapshot, utc, is_pending}
use alfred_ai.Scheduler.TaskStore.{find_task, replace_task, amend, nudge, nudge_task, list_all}
use alfred_ai.Scheduler.TaskStore.Snapshots.{
  find_task-id, find_task-replace_self, find_task-replace_ne,
}
use alfred_ai.Scheduler.Engine.{SchedulerAgentEvent, concerns, nudge_concerned, nudge_for_event}

-- Whether a listed task with this id is concerned.
unfoldable pub named_in : SchedulerAgentEvent → String → Snapshot → Bool
named_in e id [] = false
named_in e id (t ∷ ts) = (str_eq t.id id && concerns e t) || named_in e id ts

nudge_task_twice :
    (now later : ℕ) (t : Task)
    → (nudge_task later (utc now) (nudge_task later (utc now) t).0).0
      ≡ (nudge_task later (utc now) t).0
unfolding nudge_task
nudge_task_twice now later t = ground arith

nudge_task-id : (now later : ℕ) (t : Task) → (nudge_task later (utc now) t).0.id ≡ t.id
unfolding nudge_task
nudge_task-id now later t = ground arith

-- The task as it is after the event, if the event has nudged it.
abbrev pub after_event : ℕ → ℕ → Bool → Task → Task
after_event now later nudged t = if nudged then (nudge_task later (utc now) t).0 else t

nudge-find :
    (now later : ℕ) (id j : String) (ts : Snapshot) (t : Task)
    → find_task j ts ≡ some t
    → (us : Snapshot) × (moved : Bool) × (nudge later id (utc now) ts ≡ ok (us, moved))
      × (find_task j us ≡ some (after_event now later (str_eq id j) t))
unfolding nudge amend
nudge-find now later id j ts t there = elim (Option-cases (find_task id ts)) [
  | inl absent ↦ (
    ts,
    false,
    rw (absent, nudge, amend) refl,
    elim (Bool-cases (str_eq id j)) [
      | inl same ↦
          let named : id ≡ j = ground (arith, eq_iff id j) in
          let none_there : find_task j ts ≡ none = rw (← named) absent in cc
      | inr other ↦ rw other there
    ],
  )
  | inr (u, found) ↦
      let n = nudge_task later (utc now) u in
      (
        replace_task id n.0 ts,
        n.1,
        rw (found, nudge, amend) refl,
        elim (Bool-cases (str_eq id j)) [
          | inl same ↦
              let named : id ≡ j = ground (arith, eq_iff id j) in
              let one : u ≡ t = (let found' : find_task j ts ≡ some u = rw (← named) found in cc) in
              rw (same, ← named, ← one)
                (find_task-replace_self id n.0 u ts
                  (nudge_task-id now later u ∙ find_task-id id ts u found) found)
          | inr other ↦
              let apart : id ≢ j = ground (arith, eq_iff id j) in
              rw other (
                find_task-replace_ne id j n.0 ts
                  (nudge_task-id now later u ∙ find_task-id id ts u found) apart
                ∙ there)
        ],
      )
]

after_event_again :
    (now later : ℕ) (one more : Bool) (t : Task)
    → after_event now later more (after_event now later one t)
      ≡ after_event now later (one || more) t
after_event_again now later true true t = nudge_task_twice now later t
after_event_again now later true false t = refl
after_event_again now later false true t = refl
after_event_again now later false false t = refl

nudge_concerned-find :
    (now later : ℕ) (e : SchedulerAgentEvent) (j : String) (listed ts : Snapshot) (t : Task)
    → find_task j ts ≡ some t
    → (us : Snapshot) × (nudge_concerned now later e listed ts ≡ ok us)
      × (find_task j us ≡ some (after_event now later (named_in e j listed) t))
unfolding nudge_concerned named_in
nudge_concerned-find now later e j [] ts t there = (ts, refl, there)
nudge_concerned-find now later e j (u ∷ listed) ts t there = elim (Bool-cases (concerns e u)) [
  | inr not_it ↦
      let (us, done, found) = nudge_concerned-find now later e j listed ts t there in
      (
        us,
        rw not_it done,
        elim (Bool-cases (str_eq u.id j)) [
          | inl same ↦ rw (same, not_it) found
          | inr other ↦ rw other found
        ],
      )
  | inl it ↦
      let (vs, moved, nudged, now_there) = nudge-find now later u.id j ts t there in
      let (us, done, found) =
        nudge_concerned-find now later e j listed vs (after_event now later (str_eq u.id j) t)
          now_there in
      (
        us,
        rw (it, nudged) done,
        elim (Bool-cases (str_eq u.id j)) [
          | inl same ↦
              rw (same, it)
                (found
                  ∙ ap some (rw same (after_event_again now later true (named_in e j listed) t)))
          | inr other ↦ rw other (found ∙ ap some (rw other refl))
        ],
      )
]

-- Where the lock and the file of the store work, the nudges of `handleAgentEvent` end without an error,
-- and make this of each task that is in the store: if a task with its id was listed, not terminal, and
-- concerned by the event, and the task is pending, then it is due now and otherwise as it was; else it
-- is as it was.
event_nudges :
    (now later : ℕ) (e : SchedulerAgentEvent) (id : String) (listed ts : Snapshot) (t : Task)
    → find_task id ts ≡ some t
    → (us : Snapshot) × (u : Task) × (nudge_for_event now later e listed ts ≡ ok us)
      × (find_task id us ≡ some u)
      × (((named_in e id (list_all false listed) && is_pending t.status ≡ true)
            × (u ≡ record t { due_at = utc now; updated_at = later }))
          ⊎ ((named_in e id (list_all false listed) && is_pending t.status ≡ false) × (u ≡ t)))
unfolding nudge_for_event nudge_task
event_nudges now later e id listed ts t there =
    let named = named_in e id (list_all false listed) in
    let (us, done, found) =
      nudge_concerned-find now later e id (list_all false listed) ts t there in
    (
      us,
      after_event now later named t,
      done,
      found,
      elim (Bool-cases named) [
        | inr n ↦ inr (rw n refl, rw n refl)
        | inl n ↦ elim (Bool-cases (is_pending t.status)) [
          | inl p ↦ inl (rw (n, p) refl, rw (n, p, nudge_task) refl)
          | inr q ↦ inr (rw (n, q) refl, rw (n, q, nudge_task) refl)
        ]
      ],
    )
