-- ===== src/WedapDelivery/Enqueue.antt =====
-- `enqueue_delivery` and `enqueue_and_serialize` of app/services/wedap_delivery.py: recon hands over a
-- batch.
use lending_bank_gateway.Prelude.{
  ℕ, ◌≡◌, Bool, ◌&&◌, String, str_eq, eq_refl, Option, none, some, List, [], ◌∷◌, ◌++◌, find,
  find-append, is_some, if◌then◌else◌, arith,
}
use lending_bank_gateway.WedapDelivery.{DeliveryStatus, Batch, WedapImportDeliveryTask}

-- the key of `uq_wedap_delivery_batch`
abbrev pub is_batch : String → String → WedapImportDeliveryTask → Bool
is_batch tenant_id import_batch_no r =
    str_eq r.batch.tenant_id tenant_id && str_eq r.batch.import_batch_no import_batch_no

-- the key of `uq_wedap_delivery_request`
abbrev pub is_request : String → String → WedapImportDeliveryTask → Bool
is_request tenant_id request_id r =
    str_eq r.batch.tenant_id tenant_id && str_eq r.batch.request_id request_id

abbrev pub new_task : ℕ → ℕ → Batch → WedapImportDeliveryTask
new_task id now batch = record {
  id = id;
  batch = batch;
  status = DeliveryStatus.pending;
  attempts = 0;
  next_retry_at = none;
  last_error = none;
  locked_at = none;
  notified_at = none;
  accepted_at = none;
  result_file_path = none;
  result_deadline_at = none;
  result_collected_at = none;
  result_locked_at = none;
  result_lock_token = none;
  callback_sent_at = none;
  callback_locked_at = none;
  created_at = now;
}

-- The task that answers the call, and the rows; the id and the time are the database's. `none` where
-- the request id is taken by a task of another batch: the insert fails, and `scalar_one` finds no
-- task of this batch and raises.
unfoldable pub enqueue_delivery :
    ℕ
    → ℕ
    → Batch
    → List WedapImportDeliveryTask
    → Option (WedapImportDeliveryTask × List WedapImportDeliveryTask)
enqueue_delivery id now batch rows =
    elim (find (is_batch batch.tenant_id batch.import_batch_no) rows) [
      | some existing ↦ some (existing, rows)
      | none ↦
          if is_some (find (is_request batch.tenant_id batch.request_id) rows)
          then none
          else some (new_task id now batch, rows ++ new_task id now batch ∷ [])
    ]

pub record EnqueueAnswer : Type 0 where
  pub import_batch_no : String
  pub request_id : String
  pub status : DeliveryStatus
  pub task_id : ℕ

abbrev serialized : WedapImportDeliveryTask → EnqueueAnswer
serialized task = record {
  import_batch_no = task.batch.import_batch_no;
  request_id = task.batch.request_id;
  status = task.status;
  task_id = task.id;
}

unfoldable pub enqueue_and_serialize :
    ℕ
    → ℕ
    → Batch
    → List WedapImportDeliveryTask
    → Option EnqueueAnswer × List WedapImportDeliveryTask
unfolding enqueue_delivery
enqueue_and_serialize id now batch rows = elim (enqueue_delivery id now batch rows) [
  | none ↦ (none, rows)
  | some (task, rows') ↦ (some (serialized task), rows')
]

-- Handing over a batch again, with the same tenant and number and whatever else it says, at any time,
-- gives the answer of the first time and adds no task, if the first was taken.
enqueue_and_serialize-again :
    (id id' now now' : ℕ) (batch batch' : Batch) (rows rows' : List WedapImportDeliveryTask)
    (answer : EnqueueAnswer)
    → batch'.tenant_id ≡ batch.tenant_id
    → batch'.import_batch_no ≡ batch.import_batch_no
    → enqueue_and_serialize id now batch rows ≡ (some answer, rows')
    → enqueue_and_serialize id' now' batch' rows' ≡ (some answer, rows')
unfolding enqueue_and_serialize
enqueue_and_serialize-again id id' now now' batch batch' rows rows' answer et eb first = ground (
  arith,
  eq_refl batch.tenant_id,
  eq_refl batch.import_batch_no,
  find-append (is_batch batch.tenant_id batch.import_batch_no) rows (new_task id now batch ∷ []),
)
