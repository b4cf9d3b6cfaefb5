-- ===== src/Scheduler/Engine/Quota.antt =====
-- The quotas of `schedule`: what they bound, and what two calls at once make of them.
use alfred_ai.Base.{
  ltb, ℕ, ◌+◌, ◌≤◌, ◌<◌, String, ◌≡◌, refl, ◌∙◌, ap, Bool, true, false, Option, some, [], ◌∷◌, ◌++◌,
  ok, arith, inl, inr, Bool-cases, Result-cases, length, filter, eq_iff,
}
use alfred_ai.Scheduler.Model.{Task, Snapshot, is_terminal, pending}
use alfred_ai.Scheduler.Schema.{Zod, parse_task, trim_task, trim_owner}
use alfred_ai.Scheduler.Create.{
  CreateInput, create, build_task, parse_create, trim_create, valid_create, new_task,
}
use alfred_ai.Scheduler.Create.Built.{build_task-Built}
use alfred_ai.Scheduler.TaskStore.{list_all, is_listed}
use alfred_ai.Scheduler.Engine.{
  ScheduleTaskRequest, SchedulerProvenance, schedule, create_input, is_owned_by, is_scheduler,
  max_active_per_principal, max_active_global,
}

-- The tasks that count against a principal's quota, and those that count against the global one.
abbrev pub active_of : String → Snapshot → ℕ
active_of principal ts = length (filter (is_owned_by principal) (list_all false ts))

abbrev pub active_in : Snapshot → ℕ
active_in ts = length (list_all false ts)

filter-append-one :
    (p : Task → Bool) (ts : Snapshot) (t : Task)
    → p t ≡ true
    → filter p (ts ++ (t ∷ [])) ≡ filter p ts ++ (t ∷ [])
unfolding filter
filter-append-one p [] t h = rw h refl
filter-append-one p (u ∷ ts) t h = elim (Bool-cases (p u)) [
  | inl y ↦ rw (y, filter-append-one p ts t h) refl
  | inr n ↦ rw (n, filter-append-one p ts t h) refl
]

length-append_one : (ts : Snapshot) (t : Task) → length (ts ++ (t ∷ [])) ≡ length ts + 1
length-append_one [] t = refl
length-append_one (u ∷ ts) t = omega (arith, length-append_one ts t)

counts-append :
    (principal : String) (ts : Snapshot) (t : Task)
    → is_terminal t.status ≡ false
    → t.owner.principal_id ≡ principal
    → (active_of principal (ts ++ (t ∷ [])) ≡ active_of principal ts + 1)
      × (active_in (ts ++ (t ∷ [])) ≡ active_in ts + 1)
unfolding list_all
counts-append principal ts t live own =
    let listed : is_listed false t ≡ true = rw live refl in
    let owned : is_owned_by principal t ≡ true =
      ground (arith, own, eq_iff t.owner.principal_id principal) in
    let all = filter-append-one (is_listed false) ts t listed in
    (
      rw (all, filter-append-one (is_owned_by principal) (filter (is_listed false) ts) t owned)
          (length-append_one (filter (is_owned_by principal) (filter (is_listed false) ts)) t),
      rw all (length-append_one (filter (is_listed false) ts) t),
    )

made-owner :
    (z : Zod) (now : ℕ) (id : String) (i : CreateInput) (x : Option ℕ) (t : Task)
    → parse_task z (new_task now id i x) ≡ some t
    → (t.owner.principal_id ≡ z.trim i.owner.principal_id) × (t.status ≡ pending)
unfolding parse_task new_task trim_task trim_owner
made-owner z now id i x t e = ground arith

parsed-owner :
    (z : Zod) (input i : CreateInput)
    → parse_create z input ≡ ok i
    → i.owner.principal_id ≡ z.trim input.owner.principal_id
unfolding parse_create trim_create trim_owner
parsed-owner z input i e = elim (Bool-cases (valid_create (trim_create z input))) [
  | inr bad ↦ ground arith
  | inl good ↦ let same : i ≡ trim_create z input = ground arith in rw same refl
]

built-owner :
    (z : Zod) (now : ℕ) (id : String) (input : CreateInput) (t : Task)
    → z.trim input.owner.principal_id ≡ input.owner.principal_id
    → build_task z now id input ≡ ok t
    → (t.owner.principal_id ≡ input.owner.principal_id) × (t.status ≡ pending)
built-owner z now id input t trimmed e =
    let b = build_task-Built z now id input t e in
    let (owner, status) = made-owner z now id b.parsed b.expiry t b.made in
    let parsed : b.parsed.owner.principal_id ≡ input.owner.principal_id =
      parsed-owner z input b.parsed b.accepted ∙ trimmed in
    (owner ∙ ap z.trim parsed ∙ trimmed, status)

module _ (z : Zod) (now : ℕ) (id : String) (request : ScheduleTaskRequest)
    (by : SchedulerProvenance) (session_id run_id : String) where
  scheduled :
      (listed ts us : Snapshot) (t : Task)
      → z.trim by.principal_id ≡ by.principal_id
      → schedule z now id request by session_id run_id listed ts ≡ ok (us, t)
      → (is_scheduler by.origin ≡ false)
        × (active_of by.principal_id listed < max_active_per_principal)
        × (active_in listed < max_active_global)
        × (active_of by.principal_id us ≡ active_of by.principal_id ts + 1)
        × (active_in us ≡ active_in ts + 1)
        × (t.status ≡ pending)
  unfolding schedule create_input create
  scheduled listed ts us t trimmed e =
      elim (Result-cases (build_task z now id (create_input request by session_id run_id))) [
        | inr (x, bad) ↦ ground arith
        | inl (u, built) ↦
            let (own, status) =
              built-owner z now id (create_input request by session_id run_id) u trimmed built in
            let all : us ≡ ts ++ (u ∷ []) = ground arith in
            let same : t ≡ u = ground arith in
            let live : is_terminal u.status ≡ false = rw status refl in
            let (more, more_in_all) = counts-append by.principal_id ts u live own in
            (
              ground arith,
              ground arith,
              ground arith,
              rw all more,
              rw all more_in_all,
              ap (λ x. x.status) same ∙ status,
            )
      ]

  -- A call of `schedule` that succeeds, with nothing changed in the store between its reading and its
  -- creating, for a principal id without outer white space: the caller is not the scheduler itself,
  -- the new task is pending, and the store then holds at most 20 active tasks of the principal and at
  -- most 100 in all, one more of each than before.
  pub schedule_quota :
      (ts us : Snapshot) (t : Task)
      → z.trim by.principal_id ≡ by.principal_id
      → schedule z now id request by session_id run_id ts ts ≡ ok (us, t)
      → (is_scheduler by.origin ≡ false)
        × (t.status ≡ pending)
        × (active_of by.principal_id us ≡ active_of by.principal_id ts + 1)
        × (active_in us ≡ active_in ts + 1)
        × (active_of by.principal_id us ≤ max_active_per_principal)
        × (active_in us ≤ max_active_global)
  schedule_quota ts us t trimmed e =
      let (origin, few, few_in_all, more, more_in_all, status) = scheduled ts ts us t trimmed e in
      (origin, status, more, more_in_all, omega arith, omega arith)

-- A request that passes the quotas on what was read, and whose task `create` accepts, is scheduled.
schedule-accepts :
    (z : Zod) (now : ℕ) (id : String) (request : ScheduleTaskRequest) (by : SchedulerProvenance)
    (session_id run_id : String) (listed ts : Snapshot) (t : Task)
    → is_scheduler by.origin ≡ false
    → active_of by.principal_id listed < max_active_per_principal
    → active_in listed < max_active_global
    → build_task z now id (create_input request by session_id run_id) ≡ ok t
    → schedule z now id request by session_id run_id listed ts ≡ ok (ts ++ (t ∷ []), t)
unfolding schedule create
schedule-accepts z now id request by session_id run_id listed ts t origin few few_in_all built =
    let mine : ltb (active_of by.principal_id listed) max_active_per_principal ≡ true =
      ground arith in
    let all : ltb (active_in listed) max_active_global ≡ true = ground arith in
    rw (origin, mine, all, built) refl

-- Two calls of `schedule` for one principal, made by a turn that the scheduler did not start, that
-- have read the same store, with 19 active tasks of the principal and fewer than 100 in all. If both
-- requests are well formed, both calls succeed, the second creating its task in the store that the
-- first has left; and the principal then has 21 active tasks.
pub quota_race :
    (z : Zod) (now later : ℕ) (id other : String) (request second : ScheduleTaskRequest)
    (by : SchedulerProvenance) (session_id run_id : String) (ts : Snapshot) (t u : Task)
    → z.trim by.principal_id ≡ by.principal_id
    → is_scheduler by.origin ≡ false
    → active_of by.principal_id ts ≡ 19
    → active_in ts < max_active_global
    → build_task z now id (create_input request by session_id run_id) ≡ ok t
    → build_task z later other (create_input second by session_id run_id) ≡ ok u
    → (schedule z now id request by session_id run_id ts ts ≡ ok (ts ++ (t ∷ []), t))
      × (schedule z later other second by session_id run_id ts (ts ++ (t ∷ []))
          ≡ ok ((ts ++ (t ∷ [])) ++ (u ∷ []), u))
      × (active_of by.principal_id ((ts ++ (t ∷ [])) ++ (u ∷ [])) ≡ 21)
quota_race z now later id other request second by session_id run_id ts t u trimmed origin full
      few_in_all built built_too =
    let us = ts ++ (t ∷ []) in
    let first =
      schedule-accepts z now id request by session_id run_id ts ts t origin (omega arith) few_in_all
        built in
    let next =
      schedule-accepts z later other second by session_id run_id ts us u origin (omega arith)
        few_in_all built_too in
    let (_, _, _, one, _, _) =
      scheduled z now id request by session_id run_id ts ts us t trimmed first in
    let (_, _, _, two, _, _) =
      scheduled z later other second by session_id run_id ts us (us ++ (u ∷ [])) u trimmed next in
    (first, next, omega arith)
