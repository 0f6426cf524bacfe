-- ===== src/Outbox.antt =====
-- app/services/outbox.py: the rows that carry events to the downstream services.
-- `enqueue_forward` runs in the caller's transaction. The insert that loses a race against another
-- transaction of the same key finds that transaction's row, as if it had come after it.
pub mod Enqueue
pub mod Dispatch
use lending_bank_gateway.Prelude.{
  ℕ, ◌+◌, Bool, false, ◌&&◌, String, str_eq, Option, none, some, [], ◌∷◌, ◌++◌, find,
}
use lending_bank_gateway.Json.{Payload}
use lending_bank_gateway.Db.{Db, CallbackOutbox, OutboxStatus}

abbrev has_key : String → Option String → Bool
has_key key none = false
has_key key (some k) = str_eq k key

-- the key of `uq_outbox_dedup`
abbrev pub is_event : String → String → String → CallbackOutbox → Bool
is_event tenant_id target key r =
    str_eq r.tenant_id tenant_id && str_eq r.target target && has_key key r.dedup_key

abbrev pub new_row : ℕ → String → String → Payload → Option String → Option String → CallbackOutbox
new_row id tenant_id target payload dedup_key trace_id = record {
  id = id;
  tenant_id = tenant_id;
  target = target;
  payload = payload;
  dedup_key = dedup_key;
  trace_id = trace_id;
  status = OutboxStatus.pending;
  attempts = 0;
  next_retry_at = none;
  last_error = none;
  locked_at = none;
  claim_token = none;
}

add_row : String → String → Payload → Option String → Option String → Db → Db
add_row tenant_id target payload dedup_key trace_id db = record db {
  outbox = db.outbox ++ new_row db.next_outbox_id tenant_id target payload dedup_key trace_id ∷ [];
  next_outbox_id = db.next_outbox_id + 1;
}

unfoldable pub enqueue_forward : String → String → Payload → Option String → Option String → Db → Db
unfolding add_row
enqueue_forward tenant_id target payload none trace_id db =
    add_row tenant_id target payload none trace_id db
enqueue_forward tenant_id target payload (some key) trace_id db =
    elim (find (is_event tenant_id target key) db.outbox) [
      | some _ ↦ db
      | none ↦ add_row tenant_id target payload (some key) trace_id db
    ]
