-- ===== src/Submit/Conclude/Inversion.antt =====
-- What a second transaction that commits has done, step by step.
use Prim.Native.String.{◌++◌}
use lending_bank_gateway.Prelude.{
  ℕ, ◌≡◌, sym, ◌∙◌, subst, true, some, if◌then◌else◌, arith, Bool-cases, Option-cases, inl, inr,
}
use lending_bank_gateway.Domain.States.{same, may_move, accepted}
use lending_bank_gateway.Db.{Db, BankTxnOrder, Digests, Response, Result, ok, err, find_order}
use lending_bank_gateway.Idempotency.{record_response}
use lending_bank_gateway.Submit.Request.{SubmitRequest, WedapCall}
use lending_bank_gateway.Submit.Judge.{Verdict, judge}
use lending_bank_gateway.Submit.Conclude.{advance, frozen, answer, conclude, resume}

pub answer-eq-ok :
    {r r' : Response} {db' : Db} (x : Result Db)
    → answer r x ≡ ok (r', db')
    → (r' ≡ r) × (x ≡ ok db')
answer-eq-ok (ok db) h = ground arith
answer-eq-ok (err e) h = cc

module _ (env : Digests) (now : ℕ) (req : SubmitRequest) (db db' : Db) (r : Response) where
  pub record Concluded (v : Verdict) : Type 0 where
    pub order : BankTxnOrder
    pub found : find_order req.tenant_id req.biz_seq_no db ≡ some order
    pub allowed : may_move accepted v.new_status ≡ true
    pub frozen_as :
        r
        ≡ frozen req v
            (if same order.status accepted then v.new_status else order.status)
            (same order.status accepted)
    pub recorded :
        record_response req.tenant_id req.business_scope req.biz_seq_no r
          (some ("order:" ++ req.biz_seq_no))
          (if same order.status accepted then advance env now req v.new_status order db else db)
        ≡ ok db'

  module _ (v : Verdict) (order : BankTxnOrder) where
    abbrev outcome : Response
    outcome =
        frozen req v (if same order.status accepted then v.new_status else order.status)
          (same order.status accepted)

    abbrev written : Response → Result Db
    written a =
        record_response req.tenant_id req.business_scope req.biz_seq_no a
          (some ("order:" ++ req.biz_seq_no))
          (if same order.status accepted then advance env now req v.new_status order db else db)

    conclude_found :
        may_move accepted v.new_status ≡ true
        → find_order req.tenant_id req.biz_seq_no db ≡ some order
        → conclude env now req v db ≡ answer outcome (written outcome)
    unfolding conclude
    conclude_found allowed found = rw (allowed, found)

    conclude_found-eq-ok :
        may_move accepted v.new_status ≡ true
        → find_order req.tenant_id req.biz_seq_no db ≡ some order
        → conclude env now req v db ≡ ok (r, db')
        → Concluded v
    conclude_found-eq-ok allowed found h =
        let (same_answer, stored) =
          answer-eq-ok (written outcome) (sym (conclude_found allowed found) ∙ h) in
        record {
          order = order;
          found = found;
          allowed = allowed;
          frozen_as = same_answer;
          recorded = subst (λ a. written a ≡ ok db') (sym same_answer) stored;
        }

  pub conclude-eq-ok : (v : Verdict) → conclude env now req v db ≡ ok (r, db') → Concluded v
  conclude-eq-ok v h = elim (Bool-cases (may_move accepted v.new_status)) [
    | inr no_way ↦ unfold conclude in ground arith
    | inl allowed ↦ elim (Option-cases (find_order req.tenant_id req.biz_seq_no db)) [
      | inl missing ↦ unfold conclude in ground arith
      | inr (order, found) ↦ conclude_found-eq-ok v order allowed found h
    ]
  ]

  -- A commit of the part after the call rests on a verdict on the call.
  pub resume-eq-ok :
      (call : WedapCall)
      → resume env now req call db ≡ ok (r, db')
      → (v : Verdict) × (judge req call ≡ some v) × Concluded v
  unfolding resume
  resume-eq-ok call h = elim (Option-cases (judge req call)) [
    | inl none_of_theirs ↦ ground arith
    | inr (v, judged) ↦ (v, judged, conclude-eq-ok v (ground arith))
  ]
