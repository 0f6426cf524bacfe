-- ===== src/Submit/Judge/Evidence.antt =====
-- When the gateway may say that a money write has not been applied.
use lending_bank_gateway.Prelude.{
  ℕ, ◌≡◌, ◌↔◌, ◌⊎◌, Bool, true, false, String, Option, none, some, arith,
}
use lending_bank_gateway.Json.{Payload}
use lending_bank_gateway.Domain.States.{
  may_move, is_door_reject_http_status, is_repayment_terminal_reject, accepted, failed,
}
use lending_bank_gateway.Submit.ParseAck.{parse_ack}
use lending_bank_gateway.Submit.ParseAck.Northbound.{parse_ack-Agrees, parse_ack-mapped}
use lending_bank_gateway.Submit.Request.{
  SubmitRequest, WedapCall, answered, transport_error, http_error, wedap_error, raised,
}
use lending_bank_gateway.Submit.Judge.{Verdict, judge}

abbrev pub IsDoorStatus : Option ℕ → Type 0
IsDoorStatus none = ⊥
IsDoorStatus (some h) =
    (h ≡ 400) ⊎ (h ≡ 401) ⊎ (h ≡ 403) ⊎ (h ≡ 404) ⊎ (h ≡ 405) ⊎ (h ≡ 415) ⊎ (h ≡ 422)

-- The ends of a call that prove that no money moved. For a repayment: the answer's status is FAILED,
-- or the error's code is one of the ten that reject it for good. For any other write: wedap turned
-- the request away at the door, by an HTTP error or by an error that carries such a status.
abbrev pub NoEffect : Bool → WedapCall → Type 0
NoEffect true (answered d) = (parse_ack d true).fields.txn_status ≡ "FAILED"
NoEffect true (wedap_error code _ _) = is_repayment_terminal_reject code ≡ true
NoEffect true _ = ⊥
NoEffect false (http_error h) = IsDoorStatus (some h)
NoEffect false (wedap_error _ _ http_status) = IsDoorStatus http_status
NoEffect false _ = ⊥

module _ (req : SubmitRequest) {v : Verdict} where
  answered_evidence :
      (d : Payload)
      → judge req (answered d) ≡ some v
      → ((v.no_effect_evidence ≡ true) → NoEffect req.repayment_contract (answered d))
        × (NoEffect req.repayment_contract (answered d) → v.no_effect_evidence ≡ true)
  unfolding judge
  answered_evidence d h = (
    λ e. ground (arith, (parse_ack-Agrees d true).failure.1),
    λ e. ground (arith, (parse_ack-Agrees d true).failure.0),
  )

  http_evidence :
      (n : ℕ)
      → judge req (http_error n) ≡ some v
      → ((v.no_effect_evidence ≡ true) → NoEffect req.repayment_contract (http_error n))
        × (NoEffect req.repayment_contract (http_error n) → v.no_effect_evidence ≡ true)
  unfolding judge is_door_reject_http_status
  http_evidence n h = (λ e. ground arith, λ e. ground arith)

  wedap_evidence :
      (code msg : String) (o : Option ℕ)
      → judge req (wedap_error code msg o) ≡ some v
      → ((v.no_effect_evidence ≡ true) → NoEffect req.repayment_contract (wedap_error code msg o))
        × (NoEffect req.repayment_contract (wedap_error code msg o) → v.no_effect_evidence ≡ true)
  unfolding judge is_door_reject_http_status
  wedap_evidence code msg o h = (λ e. ground arith, λ e. ground arith)

  -- When there is a verdict on a call, it claims evidence that no money moved exactly in the cases of
  -- `NoEffect`: for a repayment an answer of status FAILED or an error code that rejects it for good,
  -- for any other write an HTTP status by which wedap turns requests away at the door.
  pub judge_evidence :
      (call : WedapCall)
      → judge req call ≡ some v
      → (v.no_effect_evidence ≡ true) ↔ NoEffect req.repayment_contract call
  judge_evidence (answered d) h = answered_evidence d h
  judge_evidence transport_error h = unfold judge in (λ e. ground arith, λ e. ground arith)
  judge_evidence (http_error n) h = http_evidence n h
  judge_evidence (wedap_error code msg o) h = wedap_evidence code msg o h
  judge_evidence raised h = unfold judge in cc

  -- Whatever a call ends in, the order may move from ACCEPTED to the status that it gives, so the
  -- second transaction never refuses; and the status is FAILED where there is evidence that no money
  -- moved.
  pub judge_status :
      (call : WedapCall)
      → judge req call ≡ some v
      → (may_move accepted v.new_status ≡ true)
        × ((v.no_effect_evidence ≡ false) ⊎ (v.new_status ≡ failed))
  unfolding judge may_move
  judge_status (answered d) h =
      ground (arith, parse_ack-mapped d req.repayment_contract v.new_status)
  judge_status call h = (ground arith, ground arith)
