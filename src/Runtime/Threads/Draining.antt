-- ===== src/Runtime/Threads/Draining.antt =====
-- A session comes to rest when its dispatches settle; and what a watcher that throws does to it.
use mathlib.Core.List.{append-nil}
use alfred_ai.Base.{
  suc, String, ◌≡◌, inl, inr, refl, sym, ap, subst, ◌∙◌, Bool, true, false, none, some, List, [],
  ◌∷◌, ◌++◌, ok, err, arith, length,
}
use alfred_ai.Runtime.Threads.{
  TurnOp, ThreadWatcherEvent, Settlement, ThreadState, new_thread, op_started, emit, take_next,
  settle_dispatch, ThreadStep, job_begins, dispatch_settles, thread_step, thread_steps,
}
use alfred_ai.Runtime.Threads.Order.{
  quiet, op_of, and_then, all_ops, submitted, IsScheduled, due, begins, begins_none,
  threads_in_order, thread_steps-all_ops,
}

abbrev pub IsDrained : ThreadState → Type 0
IsDrained s = (s.dispatched ≡ none) × (s.queue ≡ []) × (s.processing ≡ false)

abbrev pub waiting : ThreadState → List TurnOp
waiting s = and_then s.dispatched s.queue

abbrev pub settles :
    (session : String) → List (String × Settlement) → List (ThreadStep session quiet)
settles session [] = []
settles session ((e, how) ∷ rest) = dispatch_settles e how ∷ settles session rest

module _ (session : String) where
  last_settles :
      (e : String) (op : TurnOp) (how : Settlement) (s : ThreadState)
      → s.dispatched ≡ none
      → s.queue ≡ []
      → IsDrained (settle_dispatch session quiet e op how s)
  last_settles e op (ok reason) s d q = ground arith
  last_settles e op (err thrown) s d q = ground arith

  next_starts :
      (e : String) (op : TurnOp) (how : Settlement) (s : ThreadState) (next : TurnOp)
      (rest : List TurnOp)
      → s.queue ≡ next ∷ rest
      → ((settle_dispatch session quiet e op how s).dispatched ≡ some next)
        × ((settle_dispatch session quiet e op how s).queue ≡ rest)
  next_starts e op (ok reason) s next rest q = ground arith
  next_starts e op (err thrown) s next rest q = ground arith

  dispatches_drain :
      (outcomes : List (String × Settlement)) (s : ThreadState) (op : TurnOp) (queue : List TurnOp)
      → s.dispatched ≡ some op
      → s.queue ≡ queue
      → length outcomes ≡ suc (length queue)
      → IsDrained (thread_steps session quiet (settles session outcomes) s)
  unfolding thread_steps
  dispatches_drain [] s op queue d q n = absurd (omega (arith, n))
  dispatches_drain ((e, how) ∷ []) s op [] d q n =
      subst IsDrained (sym (due session e how s op d))
        (last_settles e op how (record s { dispatched = none }) refl q)
  dispatches_drain (x ∷ y ∷ more) s op [] d q n = absurd (omega (arith, n))
  dispatches_drain ((e, how) ∷ more) s op (next ∷ rest) d q n =
      let (d', q') = next_starts e op how (record s { dispatched = none }) next rest q in
      let t = thread_step session quiet (dispatch_settles e how) s in
      let same = sym (due session e how s op d) in
      dispatches_drain more t next rest (subst (λ u. u.dispatched ≡ some next) same d')
        (subst (λ u. u.queue ≡ rest) same q') (omega (arith, n))

  begun_drains :
      (outcomes : List (String × Settlement)) (s : ThreadState) (queue : List TurnOp)
      → s.dispatched ≡ none
      → s.queue ≡ queue
      → length outcomes ≡ length queue
      → IsDrained
          (thread_steps session quiet (settles session outcomes) (take_next session quiet s))
  unfolding thread_steps
  begun_drains [] s [] d q n = ground arith
  begun_drains (x ∷ more) s [] d q n = absurd (omega (arith, n))
  begun_drains outcomes s (op ∷ rest) d q n =
      dispatches_drain outcomes (take_next session quiet s) op rest (ground arith) (ground arith) n

  scheduled_drains :
      (outcomes : List (String × Settlement)) (s : ThreadState)
      → IsScheduled s
      → length outcomes ≡ length (waiting s)
      → IsDrained (thread_steps session quiet (job_begins ∷ settles session outcomes) s)
  unfolding thread_steps
  scheduled_drains outcomes s (inl (p, j, d)) n =
      subst (λ t. IsDrained (thread_steps session quiet (settles session outcomes) t))
        (sym (begins session s j))
        (begun_drains outcomes (record s { jobs = 0 }) s.queue d refl
          (n ∙ ap (λ o. length (and_then o s.queue)) d))
  scheduled_drains outcomes s (inr (inl (p, j, (op, d)))) n =
      subst (λ t. IsDrained (thread_steps session quiet (settles session outcomes) t))
        (sym (begins_none session s j))
        (dispatches_drain outcomes s op s.queue d refl
          (n ∙ ap (λ o. length (and_then o s.queue)) d))
  scheduled_drains [] s (inr (inr (p, j, d, q))) n =
      subst IsDrained (sym (begins_none session s j)) (d, q, p)
  scheduled_drains (x ∷ more) s (inr (inr (p, j, d, q))) n =
      let none_waits : length (waiting s) ≡ 0 =
        ap (λ o. length (and_then o s.queue)) d ∙ ap length q in
      absurd (omega (arith, n, none_waits))

  submits_nothing :
      (outcomes : List (String × Settlement)) → submitted (settles session outcomes) ≡ []
  submits_nothing [] = refl
  submits_nothing ((e, how) ∷ rest) = submits_nothing rest

  -- After any steps of a new session whose watchers do not throw, if the job begins, when it has not,
  -- and one dispatch settles for each operation that is dispatched or waits, then every operation
  -- submitted has been settled, in order, nothing waits and nothing is processing.
  pub thread_drains :
      (steps : List (ThreadStep session quiet)) (outcomes : List (String × Settlement))
      → length outcomes ≡ length (waiting (thread_steps session quiet steps new_thread))
      → (op_of
            (thread_steps session quiet
              (job_begins ∷ settles session outcomes)
              (thread_steps session quiet steps new_thread)).settled
          ≡ submitted steps)
        × IsDrained (
            thread_steps session quiet
              (job_begins ∷ settles session outcomes)
              (thread_steps session quiet steps new_thread))
  thread_drains steps outcomes n =
      let s = thread_steps session quiet steps new_thread in
      let (in_order, scheduled) = threads_in_order session steps in
      let drained = scheduled_drains outcomes s scheduled n in
      let (kept, w) =
        thread_steps-all_ops session (job_begins ∷ settles session outcomes) s scheduled in
      let t = thread_steps session quiet (job_begins ∷ settles session outcomes) s in
      let rested : all_ops t ≡ op_of t.settled =
        ap (λ o. op_of t.settled ++ and_then o t.queue) drained.0
        ∙ ap (λ q. op_of t.settled ++ q) drained.1
        ∙ append-nil (op_of t.settled) in
      (
        sym rested
            ∙ kept
            ∙ ap (λ ops. all_ops s ++ ops) (submits_nothing outcomes)
            ∙ append-nil (all_ops s)
            ∙ in_order,
        drained,
      )

-- When a watcher throws as an operation starts, the job ends there, and the operation is lost: those
-- that are settled, dispatched or waiting afterwards are those from before without it, so its promise
-- is neither resolved nor rejected. If others wait, there is another job for them.
pub started_lost :
    (session : String) (throws : ThreadWatcherEvent → Bool) (s : ThreadState) (op : TurnOp)
    (rest : List TurnOp)
    → s.queue ≡ op ∷ rest
    → s.dispatched ≡ none
    → s.jobs ≡ 1
    → emit session throws op_started op (length rest) none ≡ true
    → (all_ops s ≡ op_of s.settled ++ (op ∷ rest))
      × (all_ops (thread_step session throws job_begins s) ≡ op_of s.settled ++ rest)
      × IsScheduled (thread_step session throws job_begins s)
unfolding thread_step
started_lost session throws s op rest waits idle one thrown = (
  ap (λ d. op_of s.settled ++ and_then d s.queue) idle ∙ ap (λ q. op_of s.settled ++ q) waits,
  (lost rest refl).0,
  (lost rest refl).1,
)
  where
    lost :
        (r : List TurnOp)
        → rest ≡ r
        → (all_ops (thread_step session throws job_begins s) ≡ op_of s.settled ++ rest)
          × IsScheduled (thread_step session throws job_begins s)
    lost [] e = ground arith
    lost (x ∷ xs) e = ground arith
