-- ===== src/Progress/Submitting.antt =====
-- The progress of the orders in the transactions of a submission, and in the runs of `Ledger`.
use mathlib.Core.Option.{some-injective}
use lending_bank_gateway.Prelude.{
  ℕ, ◌≡◌, refl, sym, ap, ◌∙◌, subst, true, String, some, Bool-cases, inl, inr, is_none, ◌&&◌,
}
use lending_bank_gateway.Domain.States.{OrderStatus, may_move, reversed}
use lending_bank_gateway.Domain.States.Laws.{Later, Reaches-Later, here, move}
use lending_bank_gateway.Db.{Db, BankTxnOrder, Digests, find_order, put_order}
use lending_bank_gateway.Finalize.{is_terminal}
use lending_bank_gateway.Submit.Request.{SubmitRequest}
use lending_bank_gateway.Submit.Register.{new_order}
use lending_bank_gateway.Submit.Conclude.{moved}
use lending_bank_gateway.Submit.Conclude.Frame.{landed, orders-advance}
use lending_bank_gateway.Ledger.{
  SameLedger, Begins, nothing, registers, Advances, skips, moves_on, Step, begin, conclude,
  conclude_reversal, close, deliver, Run, done, after,
}
use lending_bank_gateway.Progress.{
  Progress, Evolves, Evolves-put_order, Evolves-add_order, Evolves-same, Evolves-trans,
}
use lending_bank_gateway.Outbox.Dispatch.Events.{orders-Delivery}
use lending_bank_gateway.Progress.Closing.{Closes-Evolves, Progress-closed, found_by_key}

SameLedger-Evolves : (db db' : Db) → SameLedger db db' → Evolves db db'
SameLedger-Evolves db db' e = Evolves-same db db' e.orders

module _ (env : Digests) (now : ℕ) (req : SubmitRequest) (db : Db) where
  Begins-Evolves : (db' : Db) → Begins env now req db db' → Evolves db db'
  Begins-Evolves db' (nothing e) = SameLedger-Evolves db db' e
  Begins-Evolves db' (registers mid e added) =
      Evolves-trans db mid db' (SameLedger-Evolves db mid e)
        (Evolves-add_order mid db' (new_order now req) added)

  pub Progress-moved :
      (o : BankTxnOrder) (s : OrderStatus) → may_move o.status s ≡ true → Progress o (moved now s o)
  Progress-moved o s m = record { kept = refl; moves = move here m; closed_once = λ t h. h }

  Progress-landed :
      (o : BankTxnOrder) (s : OrderStatus)
      → may_move o.status s ≡ true
      → Progress o (landed env now req s o db)
  Progress-landed o s m = elim (Bool-cases (is_terminal s && is_none o.finalized_at)) [
    | inl final ↦ rw final (Progress-closed now "SYNC" o (moved now s o) (Progress-moved o s m))
    | inr open_still ↦ rw open_still (Progress-moved o s m)
  ]

  Advances-Evolves : (db' : Db) → Advances env now req db db' → Evolves db db'
  Advances-Evolves db' (skips e) = Evolves-same db db' (ap (λ d. d.orders) e)
  Advances-Evolves db' (moves_on o s found was_accepted allowed e) =
      let m : may_move o.status s ≡ true = rw was_accepted allowed in
      let row : BankTxnOrder = landed env now req s o db in
      Evolves-trans db (put_order row db) db'
        (Evolves-put_order db o row (Progress-landed o s m)
          (found_by_key env now db req.tenant_id req.biz_seq_no o found))
        (Evolves-same (put_order row db) db'
          (ap (λ d. d.orders) e ∙ orders-advance env now req s o db))

-- Every transaction of the money flows is progress of the orders.
pub Step-Evolves : (env : Digests) (db db' : Db) → Step env db db' → Evolves db db'
Step-Evolves env db db' (begin now req b) = Begins-Evolves env now req db db' b
Step-Evolves env db db' (conclude now req mid a e) =
    Evolves-trans db mid db' (Advances-Evolves env now req db mid a) (SameLedger-Evolves mid db' e)
Step-Evolves env db db' (conclude_reversal now req ori mid last a c e) =
    Evolves-trans db mid db' (Advances-Evolves env now req db mid a) (
      Evolves-trans mid last db' (Closes-Evolves env now req.tenant_id ori reversed mid last c)
        (SameLedger-Evolves last db' e))
Step-Evolves env db db' (close now t b s final c) = Closes-Evolves env now t b s db db' c
Step-Evolves env db db' (deliver policy d) = Evolves-same db db' (orders-Delivery db db' d)

-- In every run, each order that is there stays there under its number, keeps what it was submitted
-- with, has its status moved along the transition table alone, and keeps its closing time once set.
pub Run-Evolves : (env : Digests) (db db' : Db) → Run env db db' → Evolves db db'
Run-Evolves env db _ done = Evolves-same db db refl
Run-Evolves env db db' (after mid _ run step) =
    Evolves-trans db mid db' (Run-Evolves env db mid run) (Step-Evolves env mid db' step)

-- In every run, an order that is FAILED, EXPIRED, CANCELLED or REVERSED stays so, and one that is
-- SUCCEEDED is at most reversed: it never becomes a failure.
pub Run-Later :
    (env : Digests) (db db' : Db) (t b : String) (o o' : BankTxnOrder)
    → Run env db db'
    → find_order t b db ≡ some o
    → find_order t b db' ≡ some o'
    → Later o.status o'.status
Run-Later env db db' t b o o' run found found' =
    let (x, there, p) = (Run-Evolves env db db' run).at t b o found in
    subst (λ y. Later o.status y.status) (some-injective x o' (sym there ∙ found'))
      (Reaches-Later p.moves)
