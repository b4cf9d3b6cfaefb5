-- ===== src/Scheduler/TaskStore/Life.antt =====
-- An abstract life cycle: what the task store promises of a task, with its fields left out.
--
-- A task is idle, held by an engine, or over; `n` counts the cycles it was given.
use alfred_ai.Base.{ℕ, ◌+◌, ◌≤◌, ◌<◌, min, arith}
use alfred_ai.Scheduler.Model.{Task, Status, pending, claimed, running, scheduler_max_cycles}

pub data Life : Type 0 where
  idle : (cycles : ℕ) → Life
  held : (cycles : ℕ) → Life
  over : (cycles : ℕ) → Life

-- One step of the life of a task that has at most `limit` cycles. Only taking an idle task counts a
-- cycle, a held task is released before it is taken again, and nothing leaves `over`.
pub data Moves (limit : ℕ) : Life → Life → Type 0 where
  take : {n : ℕ} → n < limit → Moves limit (idle n) (held (n + 1))
  release : {n : ℕ} → Moves limit (held n) (idle n)
  finish : {n : ℕ} → Moves limit (held n) (over n)
  drop : {n : ℕ} → Moves limit (idle n) (over n)

-- At most `n` moves, one after the other.
pub data Lives (limit : ℕ) : ℕ → Life → Life → Type 0 where
  still : {n : ℕ} {a : Life} → Lives limit n a a
  then : {m n : ℕ} {a b c : Life} → Lives limit m a b → Moves limit b c → m < n → Lives limit n a c

pub Lives-trans :
    {limit m n : ℕ} {a b c : Life} → Lives limit m a b → Lives limit n b c → Lives limit (m + n) a c
Lives-trans still still = still
Lives-trans (then p move less) still = then p move (omega (arith, less))
Lives-trans p (then q move less) = then (Lives-trans p q) move (omega (arith, less))

-- Where in its life a stored task is, and the most cycles that it may be given.
abbrev pub life_in : Status → ℕ → Life
life_in pending n = idle n
life_in claimed n = held n
life_in running n = held n
life_in _ n = over n

abbrev pub life_of : Task → Life
life_of t = life_in t.status t.cycle_count

abbrev pub cycles_allowed : Task → ℕ
cycles_allowed t = min t.max_cycles scheduler_max_cycles

one : {limit : ℕ} {a b : Life} → Moves limit a b → Lives limit 1 a b
one m = then {m = 0} still m (omega arith)

pub taken : (limit n : ℕ) → n < limit → Lives limit 1 (idle n) (held (n + 1))
taken limit n h = one (take h)

pub released : (limit n : ℕ) → Lives limit 1 (held n) (idle n)
released limit n = one release

pub finished : (limit n : ℕ) → Lives limit 1 (held n) (over n)
finished limit n = one finish

pub dropped : (limit n : ℕ) → Lives limit 1 (idle n) (over n)
dropped limit n = one drop

pub stays : (limit : ℕ) (a : Life) → Lives limit 1 a a
stays limit a = still

pub ruleset steps = (taken, released, finished, dropped, stays)

-- The abstract life alone: what a step or a history of steps does to the count of cycles.
abbrev pub cycles_in : Life → ℕ
cycles_in (idle n) = n
cycles_in (held n) = n
cycles_in (over n) = n

Moves-cycles :
    {limit : ℕ} {a b : Life}
    → Moves limit a b
    → (cycles_in a ≤ cycles_in b) × (cycles_in a ≤ limit → cycles_in b ≤ limit)
Moves-cycles (take h) = (omega arith, λ x. omega arith)
Moves-cycles release = (omega arith, λ x. x)
Moves-cycles finish = (omega arith, λ x. x)
Moves-cycles drop = (omega arith, λ x. x)

pub Lives-cycles :
    {limit n : ℕ} {a b : Life}
    → Lives limit n a b
    → (cycles_in a ≤ cycles_in b) × (cycles_in a ≤ limit → cycles_in b ≤ limit)
Lives-cycles still = (omega arith, λ x. x)
Lives-cycles (then q m less) =
    let (up, within) = Lives-cycles q in
    let (up', within') = Moves-cycles m in (omega arith, λ x. within' (within x))
