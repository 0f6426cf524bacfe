-- ===== src/Audit/Frame.antt =====
-- `write_audit` against the other tables.
use lending_bank_gateway.Prelude.{◌≡◌, arith}
use lending_bank_gateway.Db.{Db, AuditEntry, Digests}
use lending_bank_gateway.Audit.{write_audit}

module _ (env : Digests) (entry : AuditEntry) (db : Db) where
  pub orders-write_audit : (write_audit env entry db).orders ≡ db.orders
  unfolding write_audit
  orders-write_audit = ground arith

  pub idempotency-write_audit : (write_audit env entry db).idempotency ≡ db.idempotency
  unfolding write_audit
  idempotency-write_audit = ground arith

  pub outbox-write_audit : (write_audit env entry db).outbox ≡ db.outbox
  unfolding write_audit
  outbox-write_audit = ground arith
