-- ===== src/Scheduler/Create/Built.antt =====
-- What `create` has checked about a task that it stores.
use alfred_ai.Base.{
  ℕ, ◌+◌, ◌≤◌, String, ◌≡◌, false, Option, some, ok, arith, inl, inr, Result-cases, Option-cases,
}
use alfred_ai.Scheduler.Model.{Task, min_delay_ms, max_horizon_ms}
use alfred_ai.Scheduler.Schema.{Zod, parse_task}
use alfred_ai.Scheduler.Create.{
  CreateInput, instant, parse_create, expires_too_soon, expiry_for, new_task, build_task,
}

pub record Built (z : Zod) (now : ℕ) (id : String) (input : CreateInput) (t : Task) : Type 0 where
  pub parsed : CreateInput
  pub expiry : Option ℕ
  pub accepted : parse_create z input ≡ ok parsed
  pub not_soon : now + min_delay_ms ≤ instant parsed.due_at
  pub not_far : instant parsed.due_at ≤ now + max_horizon_ms
  pub in_order : expires_too_soon parsed.expires_at (instant parsed.due_at) ≡ false
  pub bounded : expiry_for now parsed.kind parsed.expires_at ≡ ok expiry
  pub made : parse_task z (new_task now id parsed expiry) ≡ some t

-- The tests and the last parse, for a parsed input and an expiry.
Built-of :
    (z : Zod) (now : ℕ) (id : String) (input i : CreateInput) (x : Option ℕ) (t : Task)
    → parse_create z input ≡ ok i
    → expiry_for now i.kind i.expires_at ≡ ok x
    → build_task z now id input ≡ ok t
    → Built z now id input t
unfolding build_task
Built-of z now id input i x t p q e = elim (Option-cases (parse_task z (new_task now id i x))) [
  | inl broken ↦ ground arith
  | inr (u, made) ↦ record {
    parsed = i;
    expiry = x;
    accepted = p;
    not_soon = ground arith;
    not_far = ground arith;
    in_order = ground arith;
    bounded = q;
    made = ground arith;
  }
]

pub build_task-Built :
    (z : Zod) (now : ℕ) (id : String) (input : CreateInput) (t : Task)
    → build_task z now id input ≡ ok t
    → Built z now id input t
unfolding build_task
build_task-Built z now id input t e = elim (Result-cases (parse_create z input)) [
  | inr (x, bad) ↦ ground arith
  | inl (i, p) ↦ elim (Result-cases (expiry_for now i.kind i.expires_at)) [
    | inr (x, bad) ↦ ground arith
    | inl (x, q) ↦ Built-of z now id input i x t p q e
  ]
]
