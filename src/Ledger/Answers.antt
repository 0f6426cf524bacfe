-- ===== src/Ledger/Answers.antt =====
-- What the answer of `submit_order` says, against the ledger and against how the call of wedap ended.
use mathlib.Core.Option
use mathlib.Core.Option.{some-injective}
use lending_bank_gateway.Prelude.{
  ℕ, ◌≡◌, inl, inr, refl, sym, ap, ◌∙◌, true, not, ◌||◌, ◌&&◌, is_none, eq_iff, Option, some, find,
  Bool-cases, arith, if◌then◌else◌,
}
use lending_bank_gateway.Domain.States.{OrderStatus, same, accepted, failed}
use lending_bank_gateway.Domain.MoneyWrite.{MoneyFields, Outcome}
use lending_bank_gateway.Domain.MoneyWrite.Evidence.{not_applied_iff}
use lending_bank_gateway.Db.{
  Db, BankTxnOrder, Digests, Response, ok, is_order, find_order, put_order,
}
use lending_bank_gateway.Db.Orders.{find_order-put_order}
use lending_bank_gateway.Finalize.{is_terminal}
use lending_bank_gateway.Submit.Request.{SubmitRequest, WedapCall}
use lending_bank_gateway.Submit.Judge.{Verdict}
use lending_bank_gateway.Submit.Judge.Evidence.{NoEffect, judge_evidence}
use lending_bank_gateway.Submit.Conclude.{advance, frozen, resume}
use lending_bank_gateway.Submit.Conclude.Frame.{landed, orders-advance}
use lending_bank_gateway.Submit.Conclude.Inversion.{Concluded, resume-eq-ok}
use lending_bank_gateway.Progress.{find_order-key}
use lending_bank_gateway.Ledger.{SameLedger}
use lending_bank_gateway.Ledger.Shapes.{record_response-SameLedger}

module _ (env : Digests) (now : ℕ) (req : SubmitRequest) where
  -- the request's own order
  abbrev pub own_order : Db → Option BankTxnOrder
  own_order db = find_order req.tenant_id req.biz_seq_no db

  own_order-same : (db db' : Db) → db'.orders ≡ db.orders → own_order db' ≡ own_order db
  unfolding find_order
  own_order-same db db' e = ap (λ rows. find (is_order req.tenant_id req.biz_seq_no) rows) e

  landed_found :
      (s : OrderStatus) (o : BankTxnOrder) (db : Db)
      → o.tenant_id ≡ req.tenant_id
      → o.biz_seq_no ≡ req.biz_seq_no
      → own_order db ≡ some o
      → (if is_order req.tenant_id req.biz_seq_no (landed env now req s o db)
          then Option.map (λ _. landed env now req s o db) (own_order db)
          else own_order db)
        ≡ some (landed env now req s o db)
  landed_found s o db et eb found = elim (Bool-cases (is_terminal s && is_none o.finalized_at)) [
    | inl final ↦
        rw final
          (ground (arith, eq_iff o.tenant_id req.tenant_id, eq_iff o.biz_seq_no req.biz_seq_no))
    | inr not_final ↦
        rw not_final
          (ground (arith, eq_iff o.tenant_id req.tenant_id, eq_iff o.biz_seq_no req.biz_seq_no))
  ]

  own_order-advance :
      (s : OrderStatus) (o : BankTxnOrder) (db : Db)
      → own_order db ≡ some o
      → own_order (advance env now req s o db) ≡ some (landed env now req s o db)
  own_order-advance s o db found =
      let (et, eb) = find_order-key req.tenant_id req.biz_seq_no db o found in
      own_order-same (put_order (landed env now req s o db) db) (advance env now req s o db)
        (orders-advance env now req s o db)
      ∙ find_order-put_order (landed env now req s o db) req.tenant_id req.biz_seq_no db
      ∙ landed_found s o db et eb found

  module _ (db db' : Db) (r : Response) (v : Verdict) (c : Concluded env now req db db' r v) where
    -- The order after the transaction has the status that the answer gives.
    concluded_order :
        (o' : BankTxnOrder) × (own_order db' ≡ some o')
        × (o'.status ≡ (if same c.order.status accepted then v.new_status else c.order.status))
    concluded_order =
        let base : Db =
          if same c.order.status accepted
          then advance env now req v.new_status c.order db
          else db in
        let kept : SameLedger base db' = record_response-SameLedger _ _ _ r _ _ db' c.recorded in
        elim (Bool-cases (same c.order.status accepted)) [
          | inl hit ↦ (
            landed env now req v.new_status c.order db,
            own_order-same base db' kept.orders
                ∙ rw hit (own_order-advance v.new_status c.order db c.found),
            ground arith,
          )
          | inr miss ↦
              (c.order, own_order-same base db' kept.orders ∙ rw miss c.found, rw miss refl)
        ]

    claimed :
        (m : MoneyFields)
        → (frozen req v
            (if same c.order.status accepted then v.new_status else c.order.status)
            (same c.order.status accepted)).money
          ≡ some m
        → m.outcome ≡ some Outcome.not_applied
        → ((if same c.order.status accepted then v.new_status else c.order.status) ≡ failed)
          × (v.no_effect_evidence ≡ true)
    claimed m money claim =
        (not_applied_iff (if same c.order.status accepted then v.new_status else c.order.status)
            v.no_effect_evidence req.biz_seq_no req.repayment_contract
            (v.ack_trusted || not (same c.order.status accepted))).0
          (ap (λ x. x.outcome) (some-injective _ m money) ∙ claim)

  module _ (db db' : Db) (r : Response) (call : WedapCall)
      (h : resume env now req call db ≡ ok (r, db')) where
    -- When the second transaction of a submission commits, its answer carries the status that the
    -- order then has in the ledger.
    pub resume-order_status :
        (o : BankTxnOrder) × (own_order db' ≡ some o) × (r.order_status ≡ some o.status)
    resume-order_status =
        let (v, judged, c) = resume-eq-ok env now req db db' r call h in
        let (o, found, e) = concluded_order db db' r v c in
        (o, found, ap (λ x. x.order_status) c.frozen_as ∙ ap some (sym e))

    -- When that answer says "not applied", the call of wedap ended in one of the ways that prove that
    -- no money moved, and the order is FAILED.
    pub resume-not_applied :
        (m : MoneyFields)
        → r.money ≡ some m
        → m.outcome ≡ some Outcome.not_applied
        → NoEffect req.repayment_contract call
          × ((o : BankTxnOrder) × (own_order db' ≡ some o) × (o.status ≡ failed))
    resume-not_applied m money claim =
        let (v, judged, c) = resume-eq-ok env now req db db' r call h in
        let (o, found, e) = concluded_order db db' r v c in
        let (is_failed, proof) =
          claimed db db' r v c m (sym (ap (λ x. x.money) c.frozen_as) ∙ money) claim in
        ((judge_evidence req call judged).0 proof, (o, found, e ∙ is_failed))
