-- ===== src/Scheduler/Deliveries.antt =====
-- src/scheduler/deliveryStore.ts: the notifications that tasks owe, and their states.
--
-- The mutations of a delivery snapshot are functions of the clock's value; the file around them, with
-- its redaction, check and lock, is in File. The parse of a new delivery in `ensurePending` is not
-- modelled: the parse of the whole snapshot, which File has, refuses and trims the same.
pub mod Laws
pub mod File
use Prim.Native.String.{◌++◌ as append_text}
use alfred_ai.Base.{
  ℕ, ◌+◌, String, ◌≡◌, Bool, true, false, not, ◌&&◌, ◌||◌, Option, none, some, List, [], ◌∷◌, ◌++◌,
  Result, ok, err, ◌>>=◌, ltb, leb, if◌then◌else◌, find, filter, str_eq, cut,
}
use alfred_ai.Scheduler.Model.{NotificationDestination, lock_ttl_ms}

pub data DeliveryStatus : Type 0 where
  owed sending delivered undelivered : DeliveryStatus

pub record Delivery : Type 0 where
  pub id : String
  pub task_id : String
  pub cycle_id : String
  pub purpose : String
  pub destination : NotificationDestination
  pub status : DeliveryStatus
  pub attempts : ℕ
  pub created_at : ℕ
  pub updated_at : ℕ
  pub sending_at : Option ℕ
  pub delivered_at : Option ℕ
  pub failed_at : Option ℕ
  pub safe_error_code : Option String
  pub external_message_id : Option String

pub data DeliveryError : Type 0 where
  delivery_not_found unreadable_deliveries rejected_deliveries lock_timeout : DeliveryError

abbrev pub Deliveries : Type 0
Deliveries = List Delivery

-- `${taskId}:${cycleId}:${purpose}`
unfoldable pub delivery_id : String → String → String → String
delivery_id task_id cycle_id purpose =
    append_text task_id (append_text ":" (append_text cycle_id (append_text ":" purpose)))

-- `get`
abbrev pub find_delivery : String → Deliveries → Option Delivery
find_delivery id = find (λ d. str_eq d.id id)

unfoldable pub replace_delivery : String → Delivery → Deliveries → Deliveries
replace_delivery id d' [] = []
replace_delivery id d' (d ∷ ds) = if str_eq d.id id then d' ∷ ds else d ∷ replace_delivery id d' ds

unfoldable pub new_delivery : ℕ → String → String → String → NotificationDestination → Delivery
unfolding delivery_id
new_delivery now task_id cycle_id purpose destination = record {
  id = delivery_id task_id cycle_id purpose;
  task_id = task_id;
  cycle_id = cycle_id;
  purpose = purpose;
  destination = destination;
  status = owed;
  attempts = 0;
  created_at = now;
  updated_at = now;
  sending_at = none;
  delivered_at = none;
  failed_at = none;
  safe_error_code = none;
  external_message_id = none;
}

unfoldable pub ensure_pending :
    ℕ → String → String → String → NotificationDestination → Deliveries → Deliveries × Delivery
ensure_pending now task_id cycle_id purpose destination ds =
    elim (find_delivery (delivery_id task_id cycle_id purpose) ds) [
      | some d ↦ (ds, d)
      | none ↦ (
        ds ++ (new_delivery now task_id cycle_id purpose destination ∷ []),
        new_delivery now task_id cycle_id purpose destination,
      )
    ]

-- Whether `claimSending` goes ahead.
abbrev pub may_send : DeliveryStatus → Bool → Bool
may_send owed retry_failed = true
may_send sending retry_failed = false
may_send delivered retry_failed = false
may_send undelivered retry_failed = retry_failed

unfoldable pub sending_delivery : ℕ → Delivery → Delivery
sending_delivery now d = record d {
  status = sending;
  attempts = d.attempts + 1;
  sending_at = some now;
  updated_at = now;
  safe_error_code = none;
}

unfoldable pub claim_sending : ℕ → String → Bool → Deliveries → Deliveries × Option Delivery
unfolding sending_delivery
claim_sending now id retry_failed ds = elim (find_delivery id ds) [
  | none ↦ (ds, none)
  | some d ↦
      if may_send d.status retry_failed
      then (replace_delivery id (sending_delivery now d) ds, some (sending_delivery now d))
      else (ds, none)
]

unfoldable pub mark_delivered :
    ℕ → String → Option String → Deliveries → Result DeliveryError (Deliveries × Delivery)
mark_delivered now id external_message_id ds = elim (find_delivery id ds) [
  | none ↦ err delivery_not_found
  | some d ↦
      let d' : Delivery = record d {
        status = delivered;
        delivered_at = some now;
        updated_at = now;
        external_message_id = external_message_id;
        safe_error_code = none;
      } in
      ok (replace_delivery id d' ds, d')
]

unfoldable pub mark_failed :
    ℕ → String → String → Deliveries → Result DeliveryError (Deliveries × Delivery)
mark_failed now id safe_error_code ds = elim (find_delivery id ds) [
  | none ↦ err delivery_not_found
  | some d ↦
      let d' : Delivery = record d {
        status = undelivered;
        failed_at = some now;
        updated_at = now;
        safe_error_code = some (cut 128 safe_error_code);
      } in
      ok (replace_delivery id d' ds, d')
]

-- `Date.parse(delivery.sendingAt) + SCHEDULER_LOCK_TTL_MS < nowMs`, where it is defined.
abbrev pub sent_long_ago : Option ℕ → ℕ → Bool
sent_long_ago none now = false
sent_long_ago (some at) now = ltb (at + lock_ttl_ms) now

abbrev pub is_outstanding : ℕ → Delivery → Bool
is_outstanding now d = elim d.status [
  | owed ↦ true
  | sending ↦ sent_long_ago d.sending_at now
  | delivered ↦ false
  | undelivered ↦ false
]

unfoldable pub list_pending : ℕ → Deliveries → Deliveries
list_pending now = filter (is_outstanding now)
