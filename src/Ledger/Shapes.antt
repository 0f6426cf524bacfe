-- ===== src/Ledger/Shapes.antt =====
-- The transactions of app/services/submit.py and app/services/reversal.py against the shapes of `Step`.
use Prim.Native.String.{◌++◌}
use lending_bank_gateway.Prelude.{
  ℕ, ◌≡◌, refl, sym, ◌∙◌, inl, inr, true, false, String, Option, none, some, if◌then◌else◌, arith,
  Bool-cases, Option-cases,
}
use lending_bank_gateway.Domain.MoneyWrite.{money_write_fields}
use lending_bank_gateway.Domain.States.{same, may_move, accepted, succeeded, reversed}
use lending_bank_gateway.Domain.States.Laws.{same-eq}
use lending_bank_gateway.Json.{Payload}
use lending_bank_gateway.Db.{
  Db, BankTxnOrder, Digests, Response, Result, ok, err, in_flight, find_order,
}
use lending_bank_gateway.Idempotency.{check_or_register, record_response}
use lending_bank_gateway.Submit.Request.{SubmitRequest, WedapCall}
use lending_bank_gateway.Submit.Register.{registered, register_and_accept_order, submit_begin}
use lending_bank_gateway.Submit.Judge.{Verdict}
use lending_bank_gateway.Submit.Conclude.{advance, answer, resume}
use lending_bank_gateway.Submit.Conclude.Inversion.{answer-eq-ok, resume-eq-ok}
use lending_bank_gateway.Reversal.{
  status_or, advance_reversal, conclude_reversal, resume_reversal, judge_reversal,
}
use lending_bank_gateway.Closing.{Closes, unchanged, reverse_original-Closes}
use lending_bank_gateway.Ledger.{
  SameLedger, Begins, nothing, registers, skips, moves_on, Step, conclude,
}

pub record_response-SameLedger :
    (t s k : String) (r : Response) (effect : Option String) (db db' : Db)
    → record_response t s k r effect db ≡ ok db'
    → SameLedger db db'
unfolding record_response
record_response-SameLedger t s k r effect db db' h = ground arith

check_or_register-SameLedger :
    (env : Digests) (t s k : String) (p : Payload) (x : Option Response) (db db' : Db)
    → check_or_register env t s k p db ≡ ok (x, db')
    → SameLedger db db'
unfolding check_or_register
check_or_register-SameLedger env t s k p x db db' h = ground arith

-- an equation of databases
of_eq : (db db' : Db) → db' ≡ db → SameLedger db db'
of_eq db db' e = ground arith

module _ (env : Digests) (now : ℕ) (req : SubmitRequest) (db db' : Db) where
  registered-Begins :
      (c : Result (Option Response × Db)) (x : Option Response)
      → check_or_register env req.tenant_id req.business_scope req.biz_seq_no req.wedap_payload db
        ≡ c
      → registered now req db c ≡ ok (x, db')
      → Begins env now req db db'
  unfolding registered
  registered-Begins (ok (none, mid)) x e h =
      registers mid (check_or_register-SameLedger env _ _ _ _ none db mid e) (ground arith)
  registered-Begins (ok (some hit, mid)) x e h =
      let same : SameLedger db mid = check_or_register-SameLedger env _ _ _ _ (some hit) db mid e in
      nothing (ground arith)
  registered-Begins (err in_flight) x e h = nothing (of_eq db db' (ground arith))
  registered-Begins (err _) x e h = cc

  -- `submit_begin` registers the request's order, or leaves the ledger alone.
  pub submit_begin-Begins :
      (x : Option Response) → submit_begin env now req db ≡ ok (x, db') → Begins env now req db db'
  submit_begin-Begins x h =
      registered-Begins
        (check_or_register env req.tenant_id req.business_scope req.biz_seq_no req.wedap_payload db)
        x refl (unfold submit_begin register_and_accept_order in ground arith)

  -- The second transaction of a submission moves on the request's own order, or leaves the ledger
  -- alone.
  pub resume-Step :
      (call : WedapCall) (r : Response) → resume env now req call db ≡ ok (r, db') → Step env db db'
  resume-Step call r h =
      let (v, judged, c) = resume-eq-ok env now req db db' r call h in
      elim (Bool-cases (same c.order.status accepted)) [
        | inl hit ↦
            conclude now req (advance env now req v.new_status c.order db)
              (moves_on c.order v.new_status c.found (same-eq c.order.status accepted hit) c.allowed
                refl)
              (record_response-SameLedger _ _ _ r _ _ db' (rw hit at c.recorded))
        | inr miss ↦
            conclude now req db (skips refl)
              (record_response-SameLedger _ _ _ r _ _ db' (rw miss at c.recorded))
      ]

  module _ (ori : String) (v : Verdict) (order : BankTxnOrder) where
    abbrev base : Db
    base =
        if same order.status accepted
        then advance_reversal env now req ori v.new_status order db
        else db

    -- the answer that is frozen, given the database of the flushes
    abbrev reversal_answer : Response
    reversal_answer =
        let status = status_or order.status (find_order req.tenant_id req.biz_seq_no base) in
        record v.response {
          order_status = some status;
          money = some (money_write_fields status v.no_effect_evidence req.biz_seq_no false true);
        }

    abbrev stored : Result Db
    stored =
        record_response req.tenant_id req.business_scope req.biz_seq_no reversal_answer
          (some ("order:" ++ req.biz_seq_no)) base

    conclude_reversal_found :
        may_move accepted v.new_status ≡ true
        → find_order req.tenant_id req.biz_seq_no db ≡ some order
        → conclude_reversal env now req ori v db ≡ answer reversal_answer stored
    unfolding conclude_reversal
    conclude_reversal_found allowed found = rw (allowed, found)

    advance_reversal-Closes :
        Closes env now req.tenant_id ori reversed
          (advance env now req v.new_status order db)
          (advance_reversal env now req ori v.new_status order db)
    unfolding advance_reversal
    advance_reversal-Closes = elim (Bool-cases (same v.new_status succeeded)) [
      | inl success ↦ rw success (
          reverse_original-Closes env now req.tenant_id ori req.request_id req.caller_service
            (advance env now req v.new_status order db))
      | inr no_success ↦ rw no_success (unchanged refl)
    ]

    conclude_reversal-Step :
        (r : Response)
        → may_move accepted v.new_status ≡ true
        → find_order req.tenant_id req.biz_seq_no db ≡ some order
        → conclude_reversal env now req ori v db ≡ ok (r, db')
        → Step env db db'
    conclude_reversal-Step r allowed found h =
        let (_, written) = answer-eq-ok stored (sym (conclude_reversal_found allowed found) ∙ h) in
        let same_ledger : SameLedger base db' =
          record_response-SameLedger _ _ _ reversal_answer _ base db' written in
        elim (Bool-cases (same order.status accepted)) [
          | inl hit ↦
              Step.conclude_reversal now req ori (advance env now req v.new_status order db)
                (advance_reversal env now req ori v.new_status order db)
                (moves_on order v.new_status found (same-eq order.status accepted hit) allowed refl)
                advance_reversal-Closes (rw hit at same_ledger)
          | inr miss ↦
              Step.conclude_reversal now req ori db db (skips refl) (unchanged refl)
                (rw miss at same_ledger)
        ]

  -- The second transaction of a reversal moves on its own order and may reverse the original.
  pub resume_reversal-Step :
      (ori : String) (call : WedapCall) (r : Response)
      → resume_reversal env now req ori call db ≡ ok (r, db')
      → Step env db db'
  resume_reversal-Step ori call r h = elim (Option-cases (judge_reversal req call)) [
    | inl none_of_theirs ↦ unfold resume_reversal in cc
    | inr (v, judged) ↦ elim (Bool-cases (may_move accepted v.new_status)) [
      | inr no_way ↦ unfold resume_reversal conclude_reversal in cc
      | inl allowed ↦ elim (Option-cases (find_order req.tenant_id req.biz_seq_no db)) [
        | inl missing ↦ unfold resume_reversal conclude_reversal in cc
        | inr (order, found) ↦
            conclude_reversal-Step ori v order r allowed found
              (unfold resume_reversal in ground arith)
      ]
    ]
  ]
