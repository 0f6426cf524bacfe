-- ===== src/Ledger.antt =====
-- The orders, the audit log and the outbox are the gateway's ledger. Each transaction of the money
-- flows has one of a few shapes on it.
pub mod Shapes
pub mod Audited
pub mod Entries
pub mod Resolvers
pub mod Answers
pub mod Dispatcher
use lending_bank_gateway.Prelude.{ℕ, ◌≡◌, refl, ◌⊎◌, true, String, some}
use lending_bank_gateway.Domain.States.{
  OrderStatus, may_move, accepted, succeeded, failed, reversed,
}
use lending_bank_gateway.Db.{Db, BankTxnOrder, Digests, find_order, add_order}
use lending_bank_gateway.Submit.Request.{SubmitRequest}
use lending_bank_gateway.Submit.Register.{new_order}
use lending_bank_gateway.Submit.Conclude.{advance}
use lending_bank_gateway.Closing.{Closes}
use lending_bank_gateway.Outbox.Dispatch.{Policy}
use lending_bank_gateway.Outbox.Dispatch.Rows.{Delivery}

-- at most the idempotency rows differ
pub record SameLedger (db db' : Db) : Type 0 where
  pub orders : db'.orders ≡ db.orders
  pub audit : db'.audit ≡ db.audit
  pub heads : db'.heads ≡ db.heads
  pub outbox : db'.outbox ≡ db.outbox

pub SameLedger-refl : (db : Db) → SameLedger db db
SameLedger-refl db = record { orders = refl; audit = refl; heads = refl; outbox = refl }

module _ (env : Digests) (now : ℕ) (req : SubmitRequest) (db : Db) where
  -- transaction 1: a new order in status ACCEPTED, or none
  pub data Begins (db' : Db) : Type 0 where
    nothing : SameLedger db db' → Begins db'
    registers :
        (mid : Db) → SameLedger db mid → add_order (new_order now req) mid ≡ some db' → Begins db'

  -- transaction 2, before it freezes the answer: the request's own order moves on from ACCEPTED, or
  -- nothing happens
  pub data Advances (db' : Db) : Type 0 where
    skips : db' ≡ db → Advances db'
    moves_on :
        (order : BankTxnOrder) (s : OrderStatus)
        → find_order req.tenant_id req.biz_seq_no db ≡ some order
        → order.status ≡ accepted
        → may_move accepted s ≡ true
        → db' ≡ advance env now req s order db
        → Advances db'

-- the statuses that wedap's answers can close an order with
abbrev pub IsFinal : OrderStatus → Type 0
IsFinal s = (s ≡ succeeded) ⊎ (s ≡ failed) ⊎ (s ≡ reversed)

-- The transactions of the money flows, by their shape, and those of the outbox's dispatchers.
pub data Step (env : Digests) (db db' : Db) : Type 0 where
  begin : (now : ℕ) (req : SubmitRequest) → Begins env now req db db' → Step env db db'
  conclude :
      (now : ℕ) (req : SubmitRequest) (mid : Db)
      → Advances env now req db mid
      → SameLedger mid db'
      → Step env db db'
  conclude_reversal :
      (now : ℕ) (req : SubmitRequest) (ori_biz_seq_no : String) (mid last : Db)
      → Advances env now req db mid
      → Closes env now req.tenant_id ori_biz_seq_no reversed mid last
      → SameLedger last db'
      → Step env db db'
  close :
      (now : ℕ) (t b : String) (s : OrderStatus)
      → IsFinal s
      → Closes env now t b s db db'
      → Step env db db'
  deliver : (policy : Policy) → Delivery policy db db' → Step env db db'

-- The money flows and the outbox's dispatchers, interleaved: any number of their transactions, one
-- after the other.
pub data Run (env : Digests) (db : Db) : Db → Type 0 where
  done : Run env db db
  after : (mid db' : Db) → Run env db mid → Step env mid db' → Run env db db'
