-- ===== src/Ledger/Audited.antt =====
-- The hash chain of app/services/audit.py against the runs of `Ledger`.
use lending_bank_gateway.Prelude.{
  ℕ, ◌≡◌, refl, sym, subst, String, Option, some, Bool-cases, inl, inr, arith,
}
use lending_bank_gateway.Domain.States.{OrderStatus}
use lending_bank_gateway.Db.{Db, BankTxnOrder, Digests, put_order, add_order}
use lending_bank_gateway.Audit.Chain.{IsChained, write_audit-IsChained}
use lending_bank_gateway.Outbox.Enqueue.{audit-enqueue_forward, heads-enqueue_forward}
use lending_bank_gateway.Finalize.{is_terminal, finalize_terminal_in_session, closed}
use lending_bank_gateway.Finalize.Frame.{settled}
use lending_bank_gateway.Submit.Request.{SubmitRequest}
use lending_bank_gateway.Submit.Conclude.{advance, moved}
use lending_bank_gateway.Outbox.Dispatch.Events.{audit-Delivery}
use lending_bank_gateway.Closing.{Closes, unchanged, closes}
use lending_bank_gateway.Ledger.{
  SameLedger, Begins, nothing, registers, Advances, skips, moves_on, Step, begin, conclude,
  conclude_reversal, close, deliver, Run, done, after,
}

module _ (env : Digests) (tenant : String) where
  IsChained-same :
      (db db' : Db)
      → db'.audit ≡ db.audit
      → db'.heads ≡ db.heads
      → IsChained env tenant db
      → IsChained env tenant db'
  IsChained-same db db' ea eh c = record {
    linked = rw ea c.linked;
    anchored = λ h found. rw ea (c.anchored h (rw eh at found));
  }

  IsChained-put_order :
      (o : BankTxnOrder) (db : Db) → IsChained env tenant db → IsChained env tenant (put_order o db)
  unfolding put_order
  IsChained-put_order o db c = IsChained-same db (put_order o db) refl refl c

  IsChained-finalize :
      (now : ℕ) (o : BankTxnOrder) (source trace caller : String) (from : Option String) (db : Db)
      → IsChained env tenant db
      → IsChained env tenant (finalize_terminal_in_session env now o source trace caller from db)
  unfolding finalize_terminal_in_session
  IsChained-finalize now o source trace caller from db c =
      elim (Bool-cases (settled env now o source trace caller from db)) [
        | inl early ↦ rw early (IsChained-put_order o db c)
        | inr late ↦ rw late (
            IsChained-same _ _ (audit-enqueue_forward _ _ _ _ _ _)
              (heads-enqueue_forward _ _ _ _ _ _)
              (write_audit-IsChained env tenant _ _
                (IsChained-put_order (closed now source o) db c)))
      ]

  IsChained-advance :
      (now : ℕ) (req : SubmitRequest) (s : OrderStatus) (o : BankTxnOrder) (db : Db)
      → IsChained env tenant db
      → IsChained env tenant (advance env now req s o db)
  unfolding advance
  IsChained-advance now req s o db c = elim (Bool-cases (is_terminal s)) [
    | inl final ↦ rw final (IsChained-finalize now (moved now s o) _ _ _ _ db c)
    | inr not_final ↦
        rw not_final
          (write_audit-IsChained env tenant _ _ (IsChained-put_order (moved now s o) db c))
  ]

  IsChained-SameLedger :
      (db db' : Db) → SameLedger db db' → IsChained env tenant db → IsChained env tenant db'
  IsChained-SameLedger db db' e c = IsChained-same db db' e.audit e.heads c

  IsChained-add_order :
      (o : BankTxnOrder) (db db' : Db)
      → add_order o db ≡ some db'
      → IsChained env tenant db
      → IsChained env tenant db'
  unfolding add_order
  IsChained-add_order o db db' added c = IsChained-same db db' (ground arith) (ground arith) c

  IsChained-Begins :
      (now : ℕ) (req : SubmitRequest) (db db' : Db)
      → Begins env now req db db'
      → IsChained env tenant db
      → IsChained env tenant db'
  IsChained-Begins now req db db' (nothing e) c = IsChained-SameLedger db db' e c
  IsChained-Begins now req db db' (registers mid e added) c =
      IsChained-add_order _ mid db' added (IsChained-SameLedger db mid e c)

  IsChained-Advances :
      (now : ℕ) (req : SubmitRequest) (db db' : Db)
      → Advances env now req db db'
      → IsChained env tenant db
      → IsChained env tenant db'
  IsChained-Advances now req db db' (skips e) c = subst (IsChained env tenant) (sym e) c
  IsChained-Advances now req db db' (moves_on o s found was allowed e) c =
      subst (IsChained env tenant) (sym e) (IsChained-advance now req s o db c)

  IsChained-Closes :
      (now : ℕ) (t b : String) (s : OrderStatus) (db db' : Db)
      → Closes env now t b s db db'
      → IsChained env tenant db
      → IsChained env tenant db'
  IsChained-Closes now t b s db db' (unchanged e) c = subst (IsChained env tenant) (sym e) c
  IsChained-Closes now t b s db db' (closes o source trace caller from found allowed first e) c =
      subst (IsChained env tenant) (sym e) (IsChained-finalize now _ source trace caller from db c)

  Step-IsChained :
      (db db' : Db) → Step env db db' → IsChained env tenant db → IsChained env tenant db'
  Step-IsChained db db' (begin now req b) c = IsChained-Begins now req db db' b c
  Step-IsChained db db' (conclude now req mid a e) c =
      IsChained-SameLedger mid db' e (IsChained-Advances now req db mid a c)
  Step-IsChained db db' (conclude_reversal now req ori mid last a cl e) c =
      IsChained-SameLedger last db' e
        (IsChained-Closes now _ _ _ mid last cl (IsChained-Advances now req db mid a c))
  Step-IsChained db db' (close now t b s final cl) c = IsChained-Closes now t b s db db' cl c
  Step-IsChained db db' (deliver policy d) c =
      let (ea, eh) = audit-Delivery db db' d in IsChained-same db db' ea eh c

  -- Every run of the money flows and the dispatchers keeps each tenant's audit log one unbroken hash chain from the
  -- genesis hash, with the anchor row at its end.
  pub Run-IsChained :
      (db db' : Db) → Run env db db' → IsChained env tenant db → IsChained env tenant db'
  Run-IsChained db _ done c = c
  Run-IsChained db db' (after mid _ run step) c =
      Step-IsChained mid db' step (Run-IsChained db mid run c)
