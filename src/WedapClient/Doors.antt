-- ===== src/WedapClient/Doors.antt =====
-- The client of app/clients/wedap.py together with the judgements of app/services/submit.py and
-- app/services/reversal.py.
use lending_bank_gateway.Prelude.{ℕ, ◌≡◌, ◌⊎◌, false, some}
use lending_bank_gateway.Json.Value.{Value}
use lending_bank_gateway.Submit.Request.{
  SubmitRequest, WedapCall, answered, transport_error, http_error, wedap_error, raised,
}
use lending_bank_gateway.Submit.Judge.{Verdict, judge}
use lending_bank_gateway.Submit.Judge.Evidence.{IsDoorStatus}
use lending_bank_gateway.Reversal.{judge_reversal}
use lending_bank_gateway.WedapClient.{Sent, responded, no_transport, other_failure}

-- an error of the client that names an HTTP status names this one
abbrev Carries : ℕ → WedapCall → Type 0
Carries status (answered d) = Unit
Carries status transport_error = Unit
Carries status (http_error n) = n ≡ status
Carries status (wedap_error code msg o) = o ≡ some status
Carries status raised = Unit

-- there is a response, and its status is one by which wedap turns requests away at the door
abbrev pub IsAtDoor : Sent → Type 0
IsAtDoor (responded r) = IsDoorStatus (some r.status_code)
IsAtDoor no_transport = ⊥
IsAtDoor other_failure = ⊥

-- how the two services that write money judge a call: a reversal, or an order that is no repayment
abbrev pub IsVerdict : SubmitRequest → WedapCall → Verdict → Type 0
IsVerdict req c v =
    (judge_reversal req c ≡ some v) ⊎ ((req.repayment_contract ≡ false) × (judge req c ≡ some v))
