-- ===== src/Submit/Conclude/Frame.antt =====
-- What the compare-and-set branch of transaction 2 does to the orders and to the idempotency table.
use lending_bank_gateway.Prelude.{ℕ, ◌≡◌, ◌&&◌, is_none, if◌then◌else◌, arith}
use lending_bank_gateway.Domain.States.{OrderStatus}
use lending_bank_gateway.Db.{Db, BankTxnOrder, Digests, put_order}
use lending_bank_gateway.Audit.Frame.{orders-write_audit, idempotency-write_audit}
use lending_bank_gateway.Finalize.{is_terminal, closed}
use lending_bank_gateway.Finalize.Frame.{orders-finalize, idempotency-finalize}
use lending_bank_gateway.Submit.Request.{SubmitRequest}
use lending_bank_gateway.Submit.Conclude.{moved, advance}

module _ (env : Digests) (now : ℕ) (req : SubmitRequest) (new_status : OrderStatus)
    (order : BankTxnOrder) (db : Db) where
  -- the order's row after the branch
  abbrev pub landed : BankTxnOrder
  landed =
      if is_terminal new_status && is_none order.finalized_at
      then closed now "SYNC" (moved now new_status order)
      else moved now new_status order

  pub orders-advance :
      (advance env now req new_status order db).orders ≡ (put_order landed db).orders
  unfolding advance put_order
  orders-advance = grind (arith, orders-finalize, orders-write_audit)

  pub idempotency-advance : (advance env now req new_status order db).idempotency ≡ db.idempotency
  unfolding advance put_order
  idempotency-advance = grind (arith, idempotency-finalize, idempotency-write_audit)
