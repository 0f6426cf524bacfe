-- ===== src/Inbox.antt =====
-- app/api/v1/callbacks.py: the inbox of wedap's callbacks, a row for each request id. `callback_after_ingest` is the one that
-- app/main.py wires, `resolve_callback_terminal`.
pub mod Replays
pub mod Keeps
use lending_bank_gateway.Prelude.{
  ℕ, Bool, true, false, not, ◌&&◌, ◌||◌, String, str_eq, Option, none, some, List, [], ◌∷◌, ◌++◌,
  find, update_where, is_some, if◌then◌else◌,
}
use lending_bank_gateway.Json.{Payload, Json, get, text, truthy}
use lending_bank_gateway.Db.{Db, Digests, Result, ok, err}
use lending_bank_gateway.Reconcile.{StatusQuery}
use lending_bank_gateway.Callback.{resolve_callback_terminal}

pub data InboxStatus : Type 0 where
  received processed : InboxStatus

-- app/models/callback.py, for the rows whose `source` is "WEDAP_TXN"
pub record CallbackInbox : Type 0 where
  pub tenant_id : String
  pub request_id : String
  pub payload : Payload
  pub status : InboxStatus
  pub error : Option String

pub record State : Type 0 where
  pub inbox : List CallbackInbox
  pub db : Db

-- the headers that `require_headers` returns
pub record Headers : Type 0 where
  pub tenant_id : String
  pub request_id : String
  pub trace_id : String

-- 400 for a key that the body lacks, or the acknowledgement with its `deduplicated`
pub data Answer : Type 0 where
  missing : String → Answer
  acknowledged : Bool → Answer

-- the key of `uq_inbox_tenant_src_req`
abbrev pub is_row : Headers → CallbackInbox → Bool
is_row hdr r = str_eq r.tenant_id hdr.tenant_id && str_eq r.request_id hdr.request_id

-- `_get_inbox_row`
abbrev pub get_inbox_row : Headers → State → Option CallbackInbox
get_inbox_row hdr st = find (is_row hdr) st.inbox

-- `_set_inbox_status`
unfoldable pub set_inbox_status : Headers → InboxStatus → Option String → State → State
set_inbox_status hdr status error st = record st {
  inbox = update_where (is_row hdr) (λ r. record r { status = status; error = error }) st.inbox;
}

-- how wedap and the other transactions behave while a callback is driven
pub record World : Type 0 where
  pub env : Digests
  pub now : ℕ
  pub query : StatusQuery
  pub others : Db → Db

-- `_after_ingest` of app/main.py
unfoldable pub after_ingest : World → Headers → Payload → State → Result (Unit {0}) × State
after_ingest w hdr body st =
    let (r, db') =
      resolve_callback_terminal w.env w.now hdr.tenant_id body hdr.trace_id w.query w.others
        st.db in
    (r, record st { db = db' })

-- the first driving: a failure is noted on the row
abbrev pub drive_first : Headers → Result (Unit {0}) × State → State
drive_first hdr (ok _, st) = set_inbox_status hdr processed none st
drive_first hdr (err _, st) = set_inbox_status hdr received (some "after_ingest_failed") st

-- a later driving: a failure is logged
abbrev pub drive_again : Headers → Result (Unit {0}) × State → State
drive_again hdr (ok _, st) = set_inbox_status hdr processed none st
drive_again hdr (err _, st) = st

abbrev pub new_row : Headers → Payload → CallbackInbox
new_row hdr body = record {
  tenant_id = hdr.tenant_id;
  request_id = hdr.request_id;
  payload = body;
  status = received;
  error = none;
}

abbrev pub insert_row : Headers → Payload → State → State
insert_row hdr body st = record st { inbox = st.inbox ++ new_row hdr body ∷ [] }

-- the path of a request id that has come before: the stored payload counts, not this body
unfoldable pub redrive : World → Headers → CallbackInbox → State → State
redrive w hdr existing st = elim existing.status [
  | received ↦ drive_again hdr (after_ingest w hdr existing.payload st)
  | processed ↦ st
]

-- the body after its two checks
unfoldable pub ingest : World → Headers → Payload → State → Answer × State
ingest w hdr body st = elim (get_inbox_row hdr st) [
  | none ↦ (acknowledged false, drive_first hdr (after_ingest w hdr body (insert_row hdr body st)))
  | some existing ↦ (acknowledged true, redrive w hdr existing st)
]

unfoldable pub wedap_transaction_callback : World → Headers → Payload → State → Answer × State
wedap_transaction_callback w hdr body st =
    if not (truthy "bizSeqNo" body)
    then (missing "bizSeqNo", st)
    else if not (truthy "type" body)
    then (missing "type", st)
    else ingest w hdr body st
