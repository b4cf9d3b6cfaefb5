-- ===== src/Scheduler/Deliveries/Laws.antt =====
-- Lookup after the operations on deliveries.
use alfred_ai.Base.{
  ℕ, String, ◌≡◌, refl, none, some, [], ◌∷◌, ◌++◌, arith, inl, inr, ◌⊎◌, Option-cases, eq_iff, find,
}
use alfred_ai.Scheduler.Model.{NotificationDestination}
use alfred_ai.Scheduler.Deliveries.{
  owed, Delivery, Deliveries, delivery_id, find_delivery, replace_delivery, new_delivery,
  ensure_pending,
}

pub find_delivery-id :
    (id : String) (ds : Deliveries) (d : Delivery) → find_delivery id ds ≡ some d → d.id ≡ id
unfolding find
find_delivery-id id [] d e = cc
find_delivery-id id (x ∷ ds) d e = ground (arith, find_delivery-id id ds d, eq_iff x.id id)

pub find_delivery-replace :
    (id : String) (d e : Delivery) (ds : Deliveries)
    → d.id ≡ id
    → find_delivery id ds ≡ some e
    → find_delivery id (replace_delivery id d ds) ≡ some d
unfolding find replace_delivery
find_delivery-replace id d e [] p h = cc
find_delivery-replace id d e (x ∷ ds) p h =
    ground (arith, find_delivery-replace id d e ds, eq_iff d.id id, eq_iff x.id id)

pub find_delivery-append :
    (id : String) (d : Delivery) (ds : Deliveries)
    → d.id ≡ id
    → find_delivery id ds ≡ none
    → find_delivery id (ds ++ (d ∷ [])) ≡ some d
unfolding find
find_delivery-append id d [] p h = ground (arith, eq_iff d.id id)
find_delivery-append id d (x ∷ ds) p h = ground (arith, find_delivery-append id d ds)

new_delivery-id :
    (now : ℕ) (task_id cycle_id purpose : String) (to : NotificationDestination)
    → (new_delivery now task_id cycle_id purpose to).id ≡ delivery_id task_id cycle_id purpose
unfolding new_delivery
new_delivery-id now task_id cycle_id purpose to = refl

new_delivery-owed :
    (now : ℕ) (task_id cycle_id purpose : String) (to : NotificationDestination)
    → (new_delivery now task_id cycle_id purpose to).status ≡ owed
unfolding new_delivery
new_delivery-owed now task_id cycle_id purpose to = refl

-- After `ensurePending` the delivery is there, under the id of task, cycle and purpose; a delivery
-- that was there before is returned as it was.
pub ensure_pending-find :
    (now : ℕ) (task_id cycle_id purpose : String) (to : NotificationDestination) (ds : Deliveries)
    → (d : Delivery) × (find_delivery
          (delivery_id task_id cycle_id purpose)
          (ensure_pending now task_id cycle_id purpose to ds).0
        ≡ some d)
      × ((ensure_pending now task_id cycle_id purpose to ds).1 ≡ d)
      × ((find_delivery (delivery_id task_id cycle_id purpose) ds ≡ some d)
          ⊎ ((find_delivery (delivery_id task_id cycle_id purpose) ds ≡ none) × (d.status ≡ owed)))
unfolding ensure_pending
ensure_pending-find now task_id cycle_id purpose to ds =
    elim (Option-cases (find_delivery (delivery_id task_id cycle_id purpose) ds)) [
      | inr (d, found) ↦
          (d, rw (found, ensure_pending) found, rw (found, ensure_pending), inl found)
      | inl absent ↦
          let d = new_delivery now task_id cycle_id purpose to in
          (
            d,
            rw (absent, ensure_pending)
                (find_delivery-append (delivery_id task_id cycle_id purpose) d ds
                  (new_delivery-id now task_id cycle_id purpose to) absent),
            rw (absent, ensure_pending),
            inr (absent, new_delivery-owed now task_id cycle_id purpose to),
          )
    ]
