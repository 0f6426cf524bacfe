-- ===== src/Tests/Callbacks.antt =====
-- Witnesses for the callbacks of wedap.
use lending_bank_gateway.Prelude.{◌≡◌, refl, true, some, [], ◌∷◌}
use lending_bank_gateway.Json.{Payload, text, truthy}
use lending_bank_gateway.Callback.{resolve_callback_terminal}
use lending_bank_gateway.Ledger.{Run, done}
use lending_bank_gateway.Ledger.Resolvers.{resolve_callback-Run}
use lending_bank_gateway.Inbox.{
  received, CallbackInbox, State, Headers, World, get_inbox_row, wedap_transaction_callback,
}
use lending_bank_gateway.Inbox.Replays.{is_valid, callback-stored, callback-Run}
use lending_bank_gateway.Tests.{digests, same_db, registered_db}
use lending_bank_gateway.Tests.Orders.{found_failed}

abbrev body : Payload
body = ("bizSeqNo", text "LN-0001") ∷ ("type", text "DISB") ∷ ("txnStatus", text "SUCCESS") ∷ []

-- the same request id with another body
abbrev drifted : Payload
drifted = ("bizSeqNo", text "LN-0009") ∷ ("type", text "DISB") ∷ ("txnStatus", text "FAILED") ∷ []

abbrev headers : Headers
headers = record { tenant_id = "bank-a"; request_id = "req-9"; trace_id = "trc-9" }

abbrev world : World
world = record { env = digests; now = 60; query = found_failed; others = same_db }

abbrev kept : CallbackInbox
kept = record {
  tenant_id = "bank-a";
  request_id = "req-9";
  payload = body;
  status = received;
  error = some "after_ingest_failed";
}

abbrev state : State
state = record { inbox = kept ∷ []; db = registered_db }

on_record : get_inbox_row headers state ≡ some kept
on_record = refl

body_valid : is_valid body ≡ true
unfolding truthy lending_bank_gateway.Json.get
body_valid = refl

drifted_valid : is_valid drifted ≡ true
unfolding truthy lending_bank_gateway.Json.get
drifted_valid = refl

callback-stored_example :
    wedap_transaction_callback world headers drifted state
    ≡ wedap_transaction_callback world headers body state
callback-stored_example =
    callback-stored world headers drifted body state kept drifted_valid body_valid on_record

callback-Run_example :
    Run digests registered_db (wedap_transaction_callback world headers body state).1.db
callback-Run_example = callback-Run world headers (λ d. done) body state

resolve_callback-Run_example :
    Run digests registered_db
      (resolve_callback_terminal digests 60 "bank-a" body "trc-9" found_failed same_db
        registered_db).1
resolve_callback-Run_example =
    resolve_callback-Run digests 60 "bank-a" "trc-9" found_failed same_db (λ d. done) registered_db
      body
