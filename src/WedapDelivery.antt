-- ===== src/WedapDelivery.antt =====
-- app/services/wedap_delivery.py: files on their way to wedap, a task for each, and the collection of
-- wedap's results. Each function on the rows here is one transaction.
pub mod Enqueue
pub mod Receipts
pub mod Send
pub mod Rounds
pub mod ImportResult
pub mod Alerts
pub mod Collector
pub mod Collection
pub mod Turns
use lending_bank_gateway.Prelude.{
  ℕ, ◌+◌, ◌*◌, ◌-◌, ◌^◌, ◌==◌, leb, ltb, Bool, true, false, ◌&&◌, ◌||◌, String, str_eq, Option,
  none, some, List, [], ◌∷◌, ◌++◌, find, update_where, is_some, is_none, if◌then◌else◌,
}

pub data DeliveryStatus : Type 0 where
  pending sending delivered failed : DeliveryStatus

-- what recon hands over; app/models/wedap_delivery.py
pub record Batch : Type 0 where
  pub tenant_id : String
  pub request_id : String
  pub import_batch_no : String
  pub data_type : String
  pub import_date : String
  pub staging_key : String
  pub file_checksum : String
  pub file_size : ℕ
  pub total_count : ℕ

pub record WedapImportDeliveryTask : Type 0 where
  pub id : ℕ
  pub batch : Batch
  pub status : DeliveryStatus
  pub attempts : ℕ
  pub next_retry_at : Option ℕ
  pub last_error : Option String
  pub locked_at : Option ℕ
  pub notified_at : Option ℕ
  pub accepted_at : Option ℕ
  pub result_file_path : Option String
  pub result_deadline_at : Option ℕ
  pub result_collected_at : Option ℕ
  pub result_locked_at : Option ℕ
  pub result_lock_token : Option String
  pub callback_sent_at : Option ℕ
  pub callback_locked_at : Option ℕ
  pub created_at : ℕ

abbrev pub is_pending : DeliveryStatus → Bool
is_pending DeliveryStatus.pending = true
is_pending _ = false

abbrev pub is_sending : DeliveryStatus → Bool
is_sending DeliveryStatus.sending = true
is_sending _ = false

abbrev pub has_id : ℕ → WedapImportDeliveryTask → Bool
has_id id r = r.id == id

unfoldable pub compute_next_retry : ℕ → ℕ → ℕ → ℕ
compute_next_retry now attempts base = now + base * 2 ^ (attempts - 1)

abbrev pub is_older : ℕ → ℕ → Option ℕ → Bool
is_older now timeout none = false
is_older now timeout (some at) = ltb (at + timeout) now

abbrev pub is_stale : ℕ → ℕ → WedapImportDeliveryTask → Bool
is_stale now timeout r = is_sending r.status && is_older now timeout r.locked_at

unfoldable pub reclaim_stale_sending :
    ℕ → ℕ → List WedapImportDeliveryTask → List WedapImportDeliveryTask
reclaim_stale_sending now timeout rows =
    update_where (is_stale now timeout)
      (λ r. record r { status = DeliveryStatus.pending; locked_at = none }) rows

abbrev pub is_claimable : ℕ → WedapImportDeliveryTask → Bool
is_claimable id r = has_id id r && is_pending r.status

-- `_claim`
unfoldable pub claim : ℕ → ℕ → List WedapImportDeliveryTask → Bool × List WedapImportDeliveryTask
claim id now rows = (
  is_some (find (is_claimable id) rows),
  update_where (is_claimable id)
      (λ r. record r { status = DeliveryStatus.sending; locked_at = some now }) rows,
)

-- how `deliver` ends: wedap has accepted the file, with no response or one that may name the path of
-- its result, or an exception with its text
pub data Delivered : Type 0 where
  accepted : Option (Option String) → Delivered
  raised : String → Delivered

-- `compute_result_deadline`: hours and minutes in seconds
unfoldable pub compute_result_deadline : ℕ → ℕ → ℕ → ℕ
compute_result_deadline watchdog_hours buffer_minutes accepted_at =
    accepted_at + (watchdog_hours * 3600 + buffer_minutes * 60)

-- what `result_deadline` is bound to, where it is given
pub record Window : Type 0 where
  pub watchdog_hours : ℕ
  pub buffer_minutes : ℕ

pub record Policy : Type 0 where
  pub max_attempts : ℕ
  pub base_seconds : ℕ
  pub result_deadline : Option Window

abbrev path_after : Option (Option String) → Option String → Option String
path_after none path = path
path_after (some named) path = named

abbrev pub deadline_after : Option Window → ℕ → Option ℕ → Option ℕ
deadline_after none accepted_at deadline = deadline
deadline_after (some w) accepted_at deadline =
    some (compute_result_deadline w.watchdog_hours w.buffer_minutes accepted_at)

-- the row after the result of `deliver`
unfoldable pub settle :
    Policy → ℕ → ℕ → Delivered → WedapImportDeliveryTask → WedapImportDeliveryTask
unfolding compute_next_retry compute_result_deadline
settle policy now accepted_now (accepted response) r = record r {
  attempts = r.attempts + 1;
  locked_at = none;
  status = DeliveryStatus.delivered;
  notified_at = some accepted_now;
  accepted_at = some accepted_now;
  result_file_path = path_after response r.result_file_path;
  result_deadline_at = deadline_after policy.result_deadline accepted_now r.result_deadline_at;
  last_error = none;
}
settle policy now accepted_now (raised error) r =
    let new_attempts = r.attempts + 1 in
    if leb policy.max_attempts new_attempts
    then record r {
      attempts = new_attempts;
      locked_at = none;
      status = DeliveryStatus.failed;
      last_error = some error;
    }
    else record r {
      attempts = new_attempts;
      locked_at = none;
      status = DeliveryStatus.pending;
      next_retry_at = some (compute_next_retry now new_attempts policy.base_seconds);
      last_error = some error;
    }

-- the transaction after `deliver`, which the id alone names
unfoldable pub finish_delivery :
    Policy → ℕ → ℕ → ℕ → Delivered → List WedapImportDeliveryTask → List WedapImportDeliveryTask
unfolding settle
finish_delivery policy now accepted_now id result rows =
    update_where (has_id id) (settle policy now accepted_now result) rows

-- `_claim_result`
abbrev pub is_collectable : ℕ → ℕ → ℕ → WedapImportDeliveryTask → Bool
is_collectable now timeout id r =
    has_id id r
    && (is_none r.result_collected_at
        && (is_none r.result_locked_at || is_older now timeout r.result_locked_at))

unfoldable pub claim_result :
    ℕ → ℕ → ℕ → String → List WedapImportDeliveryTask → Bool × List WedapImportDeliveryTask
claim_result now timeout id token rows = (
  is_some (find (is_collectable now timeout id) rows),
  update_where (is_collectable now timeout id)
      (λ r. record r { result_locked_at = some now; result_lock_token = some token }) rows,
)

abbrev pub has_token : String → Option String → Bool
has_token token none = false
has_token token (some t) = str_eq t token

abbrev pub is_own_lock : ℕ → String → WedapImportDeliveryTask → Bool
is_own_lock id token r =
    has_id id r && (has_token token r.result_lock_token && is_none r.result_collected_at)

-- `_release_result_lock`
unfoldable pub release_result_lock :
    ℕ → String → List WedapImportDeliveryTask → List WedapImportDeliveryTask
release_result_lock id token rows =
    update_where (is_own_lock id token)
      (λ r. record r { result_locked_at = none; result_lock_token = none }) rows

unfoldable pub mark_result_collected :
    ℕ → ℕ → String → List WedapImportDeliveryTask → Bool × List WedapImportDeliveryTask
mark_result_collected now id token rows = (
  is_some (find (is_own_lock id token) rows),
  update_where (is_own_lock id token)
      (λ r. record r {
        result_collected_at = some now;
        result_locked_at = none;
        result_lock_token = none;
      })
      rows,
)
