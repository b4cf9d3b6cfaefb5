-- ===== src/Scheduler/TaskStore/Listing.antt =====
-- `listDue`: the due tasks, earliest first, and no more than asked for.
use mathlib.Core.List.{Perm}
use mathlib.Core.List.Perm
use alfred_ai.Base.{
  ℕ, ◌≤◌, ◌≡◌, refl, Bool, true, [], ◌∷◌, arith, All, All-take, length, take, length-take-le,
  filter, inl, inr, Bool-cases, leb, leb→le,
}
use alfred_ai.Scheduler.Model.{Task, Snapshot}
use alfred_ai.Scheduler.TaskStore.{is_due, due_key, insert_due, sort_due, list_due}

filter-All : (p : Task → Bool) (ts : Snapshot) → All (λ t. p t ≡ true) (filter p ts)
unfolding filter
filter-All p [] = tt
filter-All p (t ∷ ts) = elim (Bool-cases (p t)) [
  | inl h ↦ rw h (h, filter-All p ts)
  | inr h ↦ rw h (filter-All p ts)
]

insert_due-perm : (t : Task) (ts : Snapshot) → Perm (insert_due t ts) (t ∷ ts)
unfolding insert_due
insert_due-perm t [] = Perm.refl _
insert_due-perm t (u ∷ us) = elim (Bool-cases (leb (due_key t) (due_key u))) [
  | inl h ↦ rw h (Perm.refl _)
  | inr h ↦ rw h (Perm.trans (Perm.cons u (insert_due-perm t us)) (Perm.swap t u us))
]

sort_due-perm : (ts : Snapshot) → Perm (sort_due ts) ts
unfolding sort_due
sort_due-perm [] = Perm.refl _
sort_due-perm (t ∷ ts) =
    Perm.trans (insert_due-perm t (sort_due ts)) (Perm.cons t (sort_due-perm ts))

-- Each date is at most every later one.
abbrev pub IsOrdered : Snapshot → Type 0
IsOrdered [] = Unit
IsOrdered (t ∷ ts) = All (λ u. due_key t ≤ due_key u) ts × IsOrdered ts

All-le_trans :
    (m n : ℕ) (ts : Snapshot) → m ≤ n → All (λ u. n ≤ due_key u) ts → All (λ u. m ≤ due_key u) ts
All-le_trans m n [] h a = tt
All-le_trans m n (t ∷ ts) h a = (omega (arith, a.0), All-le_trans m n ts h a.1)

insert_due-All :
    (P : Task → Type 0) (t : Task) (ts : Snapshot) → P t → All P ts → All P (insert_due t ts)
unfolding insert_due
insert_due-All P t [] p a = (p, tt)
insert_due-All P t (u ∷ us) p a = elim (Bool-cases (leb (due_key t) (due_key u))) [
  | inl h ↦ rw h (p, a)
  | inr h ↦ rw h (a.0, insert_due-All P t us p a.1)
]

sort_due-All : (P : Task → Type 0) (ts : Snapshot) → All P ts → All P (sort_due ts)
unfolding sort_due
sort_due-All P [] a = tt
sort_due-All P (t ∷ ts) a = insert_due-All P t (sort_due ts) a.0 (sort_due-All P ts a.1)

insert_due-IsOrdered : (t : Task) (ts : Snapshot) → IsOrdered ts → IsOrdered (insert_due t ts)
unfolding insert_due
insert_due-IsOrdered t [] o = (tt, tt)
insert_due-IsOrdered t (u ∷ us) o = elim (Bool-cases (leb (due_key t) (due_key u))) [
  | inl h ↦
      let le = leb→le (due_key t) (due_key u) h in
      rw h ((le, All-le_trans (due_key t) (due_key u) us le o.0), o)
  | inr h ↦
      let le : due_key u ≤ due_key t = ground arith in
      rw h (insert_due-All _ t us le o.0, insert_due-IsOrdered t us o.1)
]

sort_due-IsOrdered : (ts : Snapshot) → IsOrdered (sort_due ts)
unfolding sort_due
sort_due-IsOrdered [] = tt
sort_due-IsOrdered (t ∷ ts) = insert_due-IsOrdered t (sort_due ts) (sort_due-IsOrdered ts)

filter-All_of :
    (P : Task → Type 0) (p : Task → Bool) (ts : Snapshot) → All P ts → All P (filter p ts)
unfolding filter
filter-All_of P p [] a = tt
filter-All_of P p (t ∷ ts) a = elim (Bool-cases (p t)) [
  | inl h ↦ rw h (a.0, filter-All_of P p ts a.1)
  | inr h ↦ rw h (filter-All_of P p ts a.1)
]

pub list_due-All :
    (P : Task → Type 0) (now limit : ℕ) (ts : Snapshot) → All P ts → All P (list_due now limit ts)
unfolding list_due
list_due-All P now limit ts a =
    All-take P limit (sort_due (filter (is_due now) ts))
      (sort_due-All P _ (filter-All_of P (is_due now) ts a))

-- What `listDue` returns are the first tasks, at most `limit` of them, of a list that holds exactly
-- the pending tasks whose date has come, each as often as the store does, earliest date first.
pub list_due_lem :
    (now limit : ℕ) (ts : Snapshot)
    → (all : Snapshot) × (list_due now limit ts ≡ take limit all)
      × Perm all (filter (is_due now) ts)
      × IsOrdered all
      × All (λ t. is_due now t ≡ true) (list_due now limit ts)
      × (length (list_due now limit ts) ≤ limit)
unfolding list_due
list_due_lem now limit ts =
    let due = filter (is_due now) ts in
    (
      sort_due due,
      refl,
      sort_due-perm due,
      sort_due-IsOrdered due,
      All-take (λ t. is_due now t ≡ true) limit (sort_due due)
          (sort_due-All _ due (filter-All (is_due now) ts)),
      length-take-le limit (sort_due due),
    )
