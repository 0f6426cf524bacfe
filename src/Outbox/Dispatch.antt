-- ===== src/Outbox/Dispatch.antt =====
-- `dispatch_once`, `_finalize_after_send`, `_reclaim_stale_sending` and `replay_dead` of
-- app/services/outbox.py. The HTTP client and the table of URLs are parameters; a replica's tokens
-- and clock readings are data of its attempts. `id` is the primary key, so `rowcount` is 0 or 1.
pub mod Loop
pub mod Ownership
pub mod Rows
pub mod Round
pub mod Events
use lending_bank_gateway.Prelude.{
  ℕ, ◌+◌, ◌*◌, ◌-◌, ◌^◌, ◌==◌, leb, ltb, Bool, true, false, ◌&&◌, ◌||◌, String, str_eq, Option,
  none, some, List, [], ◌∷◌, find, update_where, is_some, if◌then◌else◌,
}
use lending_bank_gateway.Json.{Payload}
use lending_bank_gateway.Db.{
  Db, CallbackOutbox, OutboxStatus, SendError, no_url, http_status, exception,
  reclaimed_stale_sending,
}

abbrev pub is_pending : OutboxStatus → Bool
is_pending OutboxStatus.pending = true
is_pending _ = false

abbrev pub is_failed : OutboxStatus → Bool
is_failed OutboxStatus.failed = true
is_failed _ = false

abbrev pub is_sending : OutboxStatus → Bool
is_sending OutboxStatus.sending = true
is_sending _ = false

abbrev pub is_dead : OutboxStatus → Bool
is_dead OutboxStatus.dead = true
is_dead _ = false

abbrev pub is_waiting : OutboxStatus → Bool
is_waiting s = is_pending s || is_failed s

abbrev pub has_id : ℕ → CallbackOutbox → Bool
has_id id r = r.id == id

-- `locked_at IS NOT NULL AND locked_at < now - timeout`
abbrev pub is_older : ℕ → ℕ → Option ℕ → Bool
is_older now timeout none = false
is_older now timeout (some at) = ltb (at + timeout) now

abbrev pub is_stale : ℕ → ℕ → CallbackOutbox → Bool
is_stale now timeout r = is_sending r.status && is_older now timeout r.locked_at

abbrev pub reclaimed : CallbackOutbox → CallbackOutbox
reclaimed r = record r {
  status = OutboxStatus.failed;
  last_error = some reclaimed_stale_sending;
  claim_token = none;
}

unfoldable pub reclaim_stale_sending : ℕ → ℕ → Db → Db
reclaim_stale_sending now timeout db = record db {
  outbox = update_where (is_stale now timeout) reclaimed db.outbox;
}

-- `next_retry_at IS NULL OR next_retry_at <= now`
abbrev pub is_due : ℕ → Option ℕ → Bool
is_due now none = true
is_due now (some at) = leb at now

-- the ids of the round
unfoldable pub due_ids : ℕ → List CallbackOutbox → List ℕ
due_ids now [] = []
due_ids now (r ∷ rows) =
    let rest = due_ids now rows in
    if is_waiting r.status && is_due now r.next_retry_at then r.id ∷ rest else rest

abbrev pub is_claimable : ℕ → ℕ → CallbackOutbox → Bool
is_claimable now id r = has_id id r && (is_waiting r.status && is_due now r.next_retry_at)

abbrev pub claimed : ℕ → String → CallbackOutbox → CallbackOutbox
claimed at token r = record r {
  status = OutboxStatus.sending;
  locked_at = some at;
  claim_token = some token;
}

-- step 2a: whether this replica owns the row now, which says `rowcount == 1`
unfoldable pub claim : ℕ → ℕ → ℕ → String → Db → Bool × Db
claim now at id token db = (
  is_some (find (is_claimable now id) db.outbox),
  record db { outbox = update_where (is_claimable now id) (claimed at token) db.outbox },
)

-- what is posted: the JSON body and the headers that differ from row to row; `none` stands for
-- "outbox-<id>"
pub record ForwardRequest : Type 0 where
  pub url : String
  pub json : Payload
  pub tenant_id : String
  pub trace_id : Option String
  pub request_id : Option String

-- a response with its status code, or an `httpx.HTTPError` by its type's name
pub data Post : Type 0 where
  responded : ℕ → Post
  failed : String → Post

-- `ok_flag` and `error`
pub record Sent : Type 0 where
  pub ok_flag : Bool
  pub error : Option SendError

abbrev non_blank : Option String → Option String
non_blank none = none
non_blank (some s) = if str_eq s "" then none else some s

abbrev pub forward_request : String → CallbackOutbox → ForwardRequest
forward_request url r = record {
  url = url;
  json = r.payload;
  tenant_id = r.tenant_id;
  trace_id = non_blank r.trace_id;
  request_id = r.dedup_key;
}

abbrev pub outcome : Post → Sent
outcome (responded code) =
    if ltb code 300
    then record { ok_flag = true; error = none }
    else record { ok_flag = false; error = some (http_status code) }
outcome (failed name) = record { ok_flag = false; error = some (exception name) }

-- step 2b
unfoldable pub send : (String → Option String) → (ForwardRequest → Post) → CallbackOutbox → Sent
send targets post r = elim (targets r.target) [
  | none ↦ record { ok_flag = false; error = some (no_url r.target) }
  | some url ↦ outcome (post (forward_request url r))
]

-- what the round goes by
pub record Policy : Type 0 where
  pub max_attempts : ℕ
  pub backoff_base : ℕ
  pub claim_timeout : ℕ

abbrev pub has_token : String → Option String → Bool
has_token token none = false
has_token token (some t) = str_eq t token

abbrev pub is_own_claim : ℕ → String → CallbackOutbox → Bool
is_own_claim id token r = has_id id r && (is_sending r.status && has_token token r.claim_token)

-- the row as the result of the post leaves it
abbrev pub settle : Policy → ℕ → ℕ → Sent → CallbackOutbox → CallbackOutbox
settle policy at attempts_before sent r =
    let new_attempts = attempts_before + 1 in
    let freed : CallbackOutbox = record r {
      attempts = new_attempts;
      locked_at = none;
      claim_token = none;
    } in
    if sent.ok_flag
    then record freed { status = OutboxStatus.sent }
    else if leb policy.max_attempts new_attempts
    then record freed { status = OutboxStatus.dead; last_error = sent.error }
    else record freed {
      status = OutboxStatus.failed;
      last_error = sent.error;
      next_retry_at = some (at + policy.backoff_base * 2 ^ (new_attempts - 1));
    }

-- step 2c: whether the compare-and-set has hit
unfoldable pub finalize_after_send : Policy → ℕ → ℕ → String → ℕ → Sent → Db → Bool × Db
finalize_after_send policy at id token attempts_before sent db = (
  is_some (find (is_own_claim id token) db.outbox),
  record db {
    outbox = update_where (is_own_claim id token) (settle policy at attempts_before sent) db.outbox;
  },
)

unfoldable pub replay_dead : ℕ → Db → Bool × Db
replay_dead id db = elim (find (has_id id) db.outbox) [
  | none ↦ (false, db)
  | some r ↦
      if is_dead r.status
      then (
        true,
        record db {
          outbox =
              update_where (has_id id)
                (λ q. record q {
                  status = OutboxStatus.pending;
                  attempts = 0;
                  next_retry_at = none;
                })
                db.outbox;
        },
      )
      else (false, db)
]
