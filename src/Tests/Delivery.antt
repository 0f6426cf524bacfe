-- ===== src/Tests/Delivery.antt =====
-- Witnesses for the outbox's dispatchers: one event on its way.
use lending_bank_gateway.Prelude.{
  ℕ, ◌<◌, ◌≡◌, ◌≢◌, refl, true, false, String, eq_iff, Option, none, some, [], ◌∷◌, All, arith,
}
use lending_bank_gateway.Db.{Db, CallbackOutbox, empty}
use lending_bank_gateway.Outbox.Dispatch.{
  Policy, Sent, responded, claim, claimed, is_claimable, settle, send, finalize_after_send,
}
use lending_bank_gateway.Outbox.Dispatch.Loop.{Attempt, dispatch_row, dispatch_once}
use lending_bank_gateway.Outbox.Dispatch.Ownership.{Unique, row_of, late_replica}
use lending_bank_gateway.Outbox.Dispatch.Rows.{claims, IsRow, Delivery-IsRow}
use lending_bank_gateway.Outbox.Dispatch.Round.{Spares, Ends, dispatch_row-Ends}
use lending_bank_gateway.Ledger.{Run, done}
use lending_bank_gateway.Ledger.Dispatcher.{IsFair, dispatch_once-Run}
use lending_bank_gateway.Tests.{digests, event_of_success, same_db}

abbrev pub queue : CallbackOutbox → Db
queue r = record empty { outbox = r ∷ []; next_outbox_id = 2 }

abbrev policy : Policy
policy = record { max_attempts = 5; backoff_base = 2; claim_timeout = 300 }

-- the row that a dispatcher has claimed
abbrev mine : CallbackOutbox
mine = claimed 101 "token-b" event_of_success

alone : Unique (queue event_of_success).outbox
alone = (tt, tt)

waiting_row : row_of 1 (queue event_of_success) ≡ some event_of_success
waiting_row = refl

claimed_now : claim 100 101 1 "token-b" (queue event_of_success) ≡ (true, queue mine)
unfolding claim
claimed_now = refl

abbrev bad : Sent
bad = record { ok_flag = false; error = none }

abbrev fine : Sent
fine = record { ok_flag = true; error = none }

abbrev old_token : String
old_token = "token-a"

other_token : old_token ≢ "token-b"
other_token = λ e. ground (arith, eq_iff "token-a" "token-b")

late_replica_example :
    let result = finalize_after_send policy 105 1 "token-b" 0 fine (queue mine) in
    (finalize_after_send policy 106 1 "token-a" 0 bad (queue mine) ≡ (false, queue mine))
    × (result.0 ≡ true)
    × (row_of 1 result.1 ≡ some (settle policy 105 0 fine mine))
    × (finalize_after_send policy 106 1 "token-a" 0 bad result.1 ≡ (false, result.1))
late_replica_example =
    late_replica 100 101 1 "token-b" (queue event_of_success) (queue mine) event_of_success alone
      waiting_row claimed_now policy 105 0 fine old_token 106 0 bad other_token

abbrev attempt : Attempt
attempt = record {
  token = "token-b";
  locked_at = 101;
  finished_at = 105;
  post = λ r. responded 503;
  before_claim = same_db;
  before_read = same_db;
  while_posting = same_db;
}

abbrev targets : String → Option String
targets name = some "http://bff/internal/callbacks"

good : IsRow 5 event_of_success
good = record { count = omega arith; owned = refl }

due : is_claimable 100 1 event_of_success ≡ true
due = refl

spares : Spares 1 mine same_db
spares d u h = (u, h)

dispatch_row-Ends_example :
    ((dispatch_row policy targets 100 1 attempt (queue event_of_success)).0 ≡ true)
    × ((r' : CallbackOutbox) × (row_of 1
            (dispatch_row policy targets 100 1 attempt (queue event_of_success)).1
          ≡ some r')
        × Ends policy 105 (send targets attempt.post mine).ok_flag event_of_success r'
        × (r'.payload ≡ event_of_success.payload)
        × (r'.dedup_key ≡ event_of_success.dedup_key))
dispatch_row-Ends_example =
    dispatch_row-Ends policy targets 100 1 attempt (queue event_of_success) event_of_success alone
      waiting_row due spares spares good

left : 0 < policy.max_attempts
left = omega arith

Delivery-IsRow_example : All (IsRow 5) (claim 100 101 1 "token-b" (queue event_of_success)).1.outbox
Delivery-IsRow_example =
    Delivery-IsRow policy (queue event_of_success)
      (claim 100 101 1 "token-b" (queue event_of_success)).1 left alone (claims 100 101 1 "token-b")
      (good, tt)

abbrev attempts : ℕ → Attempt
attempts id = attempt

fair : (id : ℕ) → IsFair digests id (attempts id)
fair id = record {
  at_claim = record { run = λ d. done; unique = λ d u. u; spares = λ d q u found own. found };
  at_read = record { run = λ d. done; unique = λ d u. u; spares = λ d q u found own. found };
  at_post = record { run = λ d. done; unique = λ d u. u; spares = λ d q u found own. found };
}

dispatch_once-Run_example :
    Run digests
      (queue event_of_success)
      (dispatch_once policy targets 100 attempts (queue event_of_success)).1
    × Unique (dispatch_once policy targets 100 attempts (queue event_of_success)).1.outbox
dispatch_once-Run_example =
    dispatch_once-Run digests policy targets 100 attempts fair (queue event_of_success) alone
