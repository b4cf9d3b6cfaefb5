-- ===== src/Scheduler/Deliveries/File.antt =====
-- src/scheduler/deliveryStore.ts: the file of the deliveries, `mutate` and its lock.
--
-- `lock_at k` is what the lock file is at the k-th attempt to create it: absent, or there, with a
-- record of its owner and its expiry or with other text. `redact` is `redactValue` of
-- src/utils/redact.ts on one text. A write goes to a temporary file that is renamed over the old one.
use alfred_ai.Base.{
  ℕ, zero, suc, ◌+◌, ◌<◌, ◌≤◌, String, ◌≡◌, ◌≢◌, refl, ◌∙◌, sym, subst, Bool, true, false, ◌&&◌,
  Option, none, some, [], ◌∷◌, map, Result, ok, err, arith, ◌⊎◌, inl, inr, leb, Option-cases,
  Result-cases,
}
use alfred_ai.Scheduler.Schema.{
  Zod, sized, when_defined, map_option, valid_destination, trim_destination,
}
use alfred_ai.Scheduler.Lock.{LockFile, absent, garbled, created, held}
use alfred_ai.Scheduler.Deliveries.{
  Delivery, Deliveries, DeliveryError, unreadable_deliveries, rejected_deliveries, lock_timeout,
}

pub data DeliveryContent : Type 0 where
  not_json not_a_snapshot : DeliveryContent
  stored : Deliveries → DeliveryContent

pub record DeliveryDisk : Type 0 where
  pub deliveries_file : Option DeliveryContent

-- `redactDeliverySnapshot`, for one delivery.
abbrev pub redact_delivery : (String → String) → Delivery → Delivery
redact_delivery redact d = record d { safe_error_code = map_option redact d.safe_error_code }

abbrev pub lock_attempts : ℕ
lock_attempts = 200

module _ (z : Zod) where
  -- `ScheduledDeliverySchema`
  unfoldable pub valid_delivery : Delivery → Bool
  valid_delivery d =
      sized 1 768 d.id
      && (z.is_uuid d.task_id
          && (sized 1 512 d.cycle_id
              && (sized 1 128 d.purpose
                  && (valid_destination d.destination
                      && (leb d.attempts 100
                          && (when_defined (sized 1 128) d.safe_error_code
                              && when_defined (sized 0 256) d.external_message_id))))))

  unfoldable pub trim_delivery : Delivery → Delivery
  trim_delivery d = record d {
    purpose = z.trim d.purpose;
    destination = trim_destination z d.destination;
    safe_error_code = map_option z.trim d.safe_error_code;
    external_message_id = map_option z.trim d.external_message_id;
  }

  -- `DeliverySnapshotSchema.parse`
  unfoldable pub parse_deliveries : Deliveries → Option Deliveries
  unfolding valid_delivery trim_delivery
  parse_deliveries [] = some []
  parse_deliveries (d ∷ ds) = elim (valid_delivery (trim_delivery d)) [
    | false ↦ none
    | true ↦ map_option (λ rest. trim_delivery d ∷ rest) (parse_deliveries ds)
  ]

  -- `readSnapshot`: unlike the task store, it moves no file away.
  unfoldable pub read_deliveries : DeliveryDisk → Result DeliveryError Deliveries
  unfolding parse_deliveries
  read_deliveries d = elim d.deliveries_file [
    | none ↦ ok []
    | some not_json ↦ err unreadable_deliveries
    | some not_a_snapshot ↦ err unreadable_deliveries
    | some (stored ds) ↦ elim (parse_deliveries ds) [
      | none ↦ err unreadable_deliveries
      | some parsed ↦ ok parsed
    ]
  ]

  -- The check and the write of a mutation's result.
  unfoldable pub write_deliveries :
      {R : Type 0}
      → (String → String)
      → DeliveryDisk
      → Deliveries × R
      → DeliveryDisk × Result DeliveryError R
  unfolding parse_deliveries
  write_deliveries redact d (ds, r) = elim (parse_deliveries (map (redact_delivery redact) ds)) [
    | none ↦ (d, err rejected_deliveries)
    | some parsed ↦ (record { deliveries_file = some (stored parsed) }, ok r)
  ]

  -- `mutate`, once the lock is held.
  unfoldable pub mutate_locked :
      {R : Type 0}
      → (String → String)
      → (Deliveries → Result DeliveryError (Deliveries × R))
      → DeliveryDisk
      → DeliveryDisk × Result DeliveryError R
  unfolding read_deliveries write_deliveries
  mutate_locked redact mutation d = elim (read_deliveries d) [
    | err e ↦ (d, err e)
    | ok ds ↦ elim (mutation ds) [ err e ↦ (d, err e) | ok out ↦ write_deliveries redact d out ]
  ]

-- `withLock` from the k-th attempt on.
unfoldable pub with_lock :
    {R : Type 0}
    → ℕ
    → ℕ
    → (ℕ → LockFile)
    → (DeliveryDisk → DeliveryDisk × Result DeliveryError R)
    → DeliveryDisk
    → DeliveryDisk × Result DeliveryError R
with_lock zero k lock_at operation d = (d, err lock_timeout)
with_lock (suc left) k lock_at operation d = elim (lock_at k) [
  | absent ↦ operation d
  | garbled ↦ with_lock left (k + 1) lock_at operation d
  | created record_of_owner ↦ with_lock left (k + 1) lock_at operation d
  | held record_of_owner ↦ with_lock left (k + 1) lock_at operation d
]

unfoldable pub mutate_deliveries :
    {R : Type 0}
    → Zod
    → (ℕ → LockFile)
    → (String → String)
    → (Deliveries → Result DeliveryError (Deliveries × R))
    → DeliveryDisk
    → DeliveryDisk × Result DeliveryError R
unfolding with_lock mutate_locked
mutate_deliveries z lock_at redact mutation =
    with_lock lock_attempts 0 lock_at (mutate_locked z redact mutation)

-- The lock file is there at `n` attempts from the k-th on.
abbrev pub AllLocked : (ℕ → LockFile) → ℕ → ℕ → Type 0
AllLocked lock_at zero k = Unit
AllLocked lock_at (suc n) k = (lock_at k ≢ absent) × AllLocked lock_at n (k + 1)

-- The lock file is absent at one of `n` attempts from the k-th on.
abbrev pub GotIn : (ℕ → LockFile) → ℕ → ℕ → Type 0
GotIn lock_at n k = (j : ℕ) × (k ≤ j) × (j < k + n) × (lock_at j ≡ absent)

LockFile-cases : (file : LockFile) → (file ≡ absent) ⊎ (file ≢ absent)
LockFile-cases absent = inl refl
LockFile-cases garbled = inr (λ e. cc e)
LockFile-cases (created r) = inr (λ e. cc e)
LockFile-cases (held r) = inr (λ e. cc e)

-- A lock file that is there makes `withLock` try again, whatever it holds.
tries_again :
    {R : Type 0} (n k : ℕ) (lock_at : ℕ → LockFile)
    (operation : DeliveryDisk → DeliveryDisk × Result DeliveryError R) (d : DeliveryDisk)
    → lock_at k ≢ absent
    → with_lock (suc n) k lock_at operation d ≡ with_lock n (k + 1) lock_at operation d
unfolding with_lock
tries_again n k lock_at operation d there = by_file (lock_at k) refl
  where
    by_file :
        (file : LockFile)
        → lock_at k ≡ file
        → with_lock (suc n) k lock_at operation d ≡ with_lock n (k + 1) lock_at operation d
    by_file absent e = absurd (there e)
    by_file garbled e = rw (e, with_lock) refl
    by_file (created r) e = rw (e, with_lock) refl
    by_file (held r) e = rw (e, with_lock) refl

with_lock_lem :
    {R : Type 0} (n k : ℕ) (lock_at : ℕ → LockFile)
    (operation : DeliveryDisk → DeliveryDisk × Result DeliveryError R) (d : DeliveryDisk)
    → (GotIn lock_at n k × (with_lock n k lock_at operation d ≡ operation d))
      ⊎ (AllLocked lock_at n k × (with_lock n k lock_at operation d ≡ (d, err lock_timeout)))
unfolding with_lock
with_lock_lem zero k lock_at operation d = inr (tt, refl)
with_lock_lem (suc n) k lock_at operation d = elim (LockFile-cases (lock_at k)) [
  | inl free ↦ inl ((k, omega arith, omega arith, free), rw (free, with_lock) refl)
  | inr there ↦
      let again = tries_again n k lock_at operation d there in
      elim (with_lock_lem n (k + 1) lock_at operation d) [
        | inl ((j, low, high, free), ran) ↦
            inl ((j, omega (arith, low), omega (arith, high), free), again ∙ ran)
        | inr (all, timed_out) ↦ inr ((there, all), again ∙ timed_out)
      ]
]

-- The deliveries that the file holds: none if it is not there, nothing if the schema refuses it.
abbrev pub deliveries_in : Zod → DeliveryDisk → Option Deliveries
deliveries_in z d = elim d.deliveries_file [
  | none ↦ some []
  | some not_json ↦ none
  | some not_a_snapshot ↦ none
  | some (stored ds) ↦ parse_deliveries z ds
]

-- What a mutation that has the lock comes to: the file cannot be read; or the mutation throws on what
-- it holds; or the schema refuses the redacted result; or the file holds that result, and what the
-- mutation returned is returned. The file stays as it was in the first three.
pub data Settled {R : Type 0} (z : Zod) (redact : String → String)
    (mutation : Deliveries → Result DeliveryError (Deliveries × R)) (d : DeliveryDisk)
    (after : DeliveryDisk × Result DeliveryError R) : Type 0 where
  unread :
      deliveries_in z d ≡ none
      → after ≡ (d, err unreadable_deliveries)
      → Settled z redact mutation d after
  threw :
      (ds : Deliveries) (e : DeliveryError)
      → deliveries_in z d ≡ some ds
      → mutation ds ≡ err e
      → after ≡ (d, err e)
      → Settled z redact mutation d after
  refused :
      (ds : Deliveries) (out : Deliveries × R)
      → deliveries_in z d ≡ some ds
      → mutation ds ≡ ok out
      → parse_deliveries z (map (redact_delivery redact) out.0) ≡ none
      → after ≡ (d, err rejected_deliveries)
      → Settled z redact mutation d after
  written :
      (ds : Deliveries) (out : Deliveries × R) (parsed : Deliveries)
      → deliveries_in z d ≡ some ds
      → mutation ds ≡ ok out
      → parse_deliveries z (map (redact_delivery redact) out.0) ≡ some parsed
      → after ≡ (record { deliveries_file = some (stored parsed) }, ok out.1)
      → Settled z redact mutation d after

read_deliveries-none :
    (z : Zod) (d : DeliveryDisk)
    → deliveries_in z d ≡ none
    → read_deliveries z d ≡ err unreadable_deliveries
unfolding read_deliveries
read_deliveries-none z d e = ground arith

read_deliveries-some :
    (z : Zod) (d : DeliveryDisk) (ds : Deliveries)
    → deliveries_in z d ≡ some ds
    → read_deliveries z d ≡ ok ds
unfolding read_deliveries
read_deliveries-some z d ds e = ground arith

mutate_locked-Settled :
    {R : Type 0} (z : Zod) (redact : String → String)
    (mutation : Deliveries → Result DeliveryError (Deliveries × R)) (d : DeliveryDisk)
    → Settled z redact mutation d (mutate_locked z redact mutation d)
unfolding mutate_locked write_deliveries
mutate_locked-Settled z redact mutation d = elim (Option-cases (deliveries_in z d)) [
  | inl broken ↦ unread broken (rw (read_deliveries-none z d broken, mutate_locked) refl)
  | inr (ds, held_now) ↦
      let loaded = read_deliveries-some z d ds held_now in
      elim (Result-cases (mutation ds)) [
        | inr (e, thrown) ↦ threw ds e held_now thrown (rw (loaded, thrown, mutate_locked) refl)
        | inl (out, done) ↦
            elim (Option-cases (parse_deliveries z (map (redact_delivery redact) out.0))) [
              | inl bad ↦
                  refused ds out held_now done bad
                    (rw (loaded, done, bad, mutate_locked, write_deliveries) refl)
              | inr (parsed, accepted) ↦
                  written ds out parsed held_now done accepted
                    (rw (loaded, done, accepted, mutate_locked, write_deliveries) refl)
            ]
      ]
]

-- A mutation of the deliveries tries for its lock 200 times. If the lock file is absent at any of these
-- attempts, however many before it failed, the mutation does what it does under the lock: the file
-- cannot be read, or the mutation throws, or its redacted result is refused, each of which leaves the
-- file as it was, or the result is written. If the lock file is there each time, then, whatever owner
-- and expiry it has, the mutation throws a lock timeout and leaves the file as it was.
pub mutate_deliveries-Settled :
    {R : Type 0} (z : Zod) (lock_at : ℕ → LockFile) (redact : String → String)
    (mutation : Deliveries → Result DeliveryError (Deliveries × R)) (d : DeliveryDisk)
    → (GotIn lock_at lock_attempts 0
        × (mutate_deliveries z lock_at redact mutation d ≡ mutate_locked z redact mutation d)
        × Settled z redact mutation d (mutate_deliveries z lock_at redact mutation d))
      ⊎ (AllLocked lock_at lock_attempts 0
          × (mutate_deliveries z lock_at redact mutation d ≡ (d, err lock_timeout)))
unfolding mutate_deliveries
mutate_deliveries-Settled z lock_at redact mutation d =
    elim (with_lock_lem lock_attempts 0 lock_at (mutate_locked z redact mutation) d) [
      | inr blocked ↦ inr blocked
      | inl (got, ran) ↦ inl (
        got,
        ran,
        subst (Settled z redact mutation d) (sym ran) (mutate_locked-Settled z redact mutation d),
      )
    ]
