-- ===== src/Scheduler/Tests/Reminders.antt =====
-- The file of the deliveries and its lock at concrete inputs.
use alfred_ai.Base.{ltb, if◌then◌else◌, Result, ℕ, String, ◌≡◌, some, [], ◌∷◌, ◌⊎◌, err}
use alfred_ai.Scheduler.Deliveries.{
  DeliveryError, delivered, Delivery, new_delivery, mark_failed, lock_timeout,
}
use alfred_ai.Scheduler.Lock.{LockFile, absent, held}
use alfred_ai.Scheduler.Deliveries.File.{
  stored, DeliveryDisk, lock_attempts, GotIn, AllLocked, Settled, mutate_locked, mutate_deliveries,
  mutate_deliveries-Settled,
}
use alfred_ai.Scheduler.Samples.{plain_zod, channel}

abbrev made : Delivery
made = record (new_delivery 9000 "t1" "c" "reminder" channel) {
  status = delivered;
  attempts = 1;
  sending_at = some 9000;
  delivered_at = some 9000;
  external_message_id = some "m";
}

-- A lock that another process holds at the first three attempts.
abbrev busy_thrice : ℕ → LockFile
busy_thrice k =
    if ltb k 3
    then held (record { owner_id = "o"; pid = 7; created_at_ms = 0; expires_at_ms = 30000 })
    else absent

abbrev deliveries_disk : DeliveryDisk
deliveries_disk = record { deliveries_file = some (stored (made ∷ [])) }

abbrev same_text : String → String
same_text x = x

abbrev late_mark : DeliveryDisk × Result DeliveryError Delivery
late_mark =
    mutate_deliveries plain_zod busy_thrice same_text (mark_failed 9500 made.id "late")
      deliveries_disk

mutate_deliveries-Settled_example :
    (GotIn busy_thrice lock_attempts 0
      × (late_mark
          ≡ mutate_locked plain_zod same_text (mark_failed 9500 made.id "late") deliveries_disk)
      × Settled plain_zod same_text (mark_failed 9500 made.id "late") deliveries_disk late_mark)
    ⊎ (AllLocked busy_thrice lock_attempts 0 × (late_mark ≡ (deliveries_disk, err lock_timeout)))
mutate_deliveries-Settled_example =
    mutate_deliveries-Settled plain_zod busy_thrice same_text (mark_failed 9500 made.id "late")
      deliveries_disk
