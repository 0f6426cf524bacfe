-- ===== src/Finalize/Frame.antt =====
-- What `finalize_terminal_in_session` does to each table.
use lending_bank_gateway.Prelude.{
  ℕ, ◌≡◌, Bool, ◌&&◌, String, Option, is_some, is_none, if◌then◌else◌, arith,
}
use lending_bank_gateway.Db.{Db, BankTxnOrder, Digests, put_order}
use lending_bank_gateway.Audit.Frame.{orders-write_audit, idempotency-write_audit}
use lending_bank_gateway.Outbox.Enqueue.{orders-enqueue_forward, idempotency-enqueue_forward}
use lending_bank_gateway.Finalize.{finalize_terminal_in_session, closed}

module _ (env : Digests) (now : ℕ) (order : BankTxnOrder) (source trace caller : String)
    (from : Option String) (db : Db) where
  -- an order that was closed before, and that is not being upgraded, is left as it is
  abbrev pub settled : Bool
  settled = is_some order.finalized_at && is_none from

  pub orders-finalize :
      (finalize_terminal_in_session env now order source trace caller from db).orders
      ≡ (put_order (if settled then order else closed now source order) db).orders
  unfolding finalize_terminal_in_session put_order
  orders-finalize = grind (arith, orders-enqueue_forward, orders-write_audit)

  pub idempotency-finalize :
      (finalize_terminal_in_session env now order source trace caller from db).idempotency
      ≡ db.idempotency
  unfolding finalize_terminal_in_session put_order
  idempotency-finalize = grind (arith, idempotency-enqueue_forward, idempotency-write_audit)
