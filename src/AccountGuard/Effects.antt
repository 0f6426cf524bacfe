-- ===== src/AccountGuard/Effects.antt =====
-- What the guard of app/services/account_guard.py leaves in the database, and whom it turns away.
use lending_bank_gateway.Prelude.{
  ◌≡◌, ◌⊎◌, inl, inr, refl, sym, ap, ◌∙◌, subst, String, Option, none, some, List, arith,
  Bool-cases,
}
use lending_bank_gateway.Db.{Db, Digests}
use lending_bank_gateway.Audit.{write_audit}
use lending_bank_gateway.Audit.Chain.{IsChained, write_audit-IsChained}
use lending_bank_gateway.Audit.Frame.{
  orders-write_audit, idempotency-write_audit, outbox-write_audit,
}
use lending_bank_gateway.AccountGuard.{
  PlatformBankAccount, Mode, Reason, GuardVerdict, passed, rejected, GuardRequest, Fault, admitted,
  forbidden, normalized, query_raises, verdict_on, guard_entry, record_rejection, guarded,
  assert_platform_account_allowed, check_and_record,
}

module _ (env : Digests) (req : GuardRequest) (db : Db) where
  -- the database is as it was, or has the audit row of the verdict
  data Leaves (m : Mode) (v : GuardVerdict) (db' : Db) : Type 0 where
    untouched : db' ≡ db → Leaves m v db'
    recorded :
        (r : Reason)
        → v ≡ rejected r
        → db' ≡ write_audit env (guard_entry m req r) db
        → Leaves m v db'

  guarded-Leaves :
      (f : Fault) (m : Mode) (v : GuardVerdict)
      → Leaves m v (guarded m db (record_rejection env f m req v db)).1
  guarded-Leaves Fault.healthy m passed = untouched refl
  guarded-Leaves Fault.query_fails m passed = untouched refl
  guarded-Leaves Fault.write_fails m passed = untouched refl
  guarded-Leaves Fault.commit_fails m passed = untouched refl
  guarded-Leaves Fault.healthy m (rejected r) = recorded r refl refl
  guarded-Leaves Fault.query_fails m (rejected r) = recorded r refl refl
  guarded-Leaves Fault.write_fails m (rejected r) = untouched refl
  guarded-Leaves Fault.commit_fails m (rejected r) = untouched refl

  Leaves-keeps :
      (m : Mode) (v : GuardVerdict) (db' : Db) (tenant : String)
      → IsChained env tenant db
      → Leaves m v db'
      → (db'.orders ≡ db.orders)
        × (db'.idempotency ≡ db.idempotency)
        × (db'.outbox ≡ db.outbox)
        × IsChained env tenant db'
  Leaves-keeps m v db' tenant c (untouched e) = (
    ap (λ d. d.orders) e,
    ap (λ d. d.idempotency) e,
    ap (λ d. d.outbox) e,
    subst (IsChained env tenant) (sym e) c,
  )
  Leaves-keeps m v db' tenant c (recorded r _ e) =
      let entry = guard_entry m req r in
      (
        ap (λ d. d.orders) e ∙ orders-write_audit env entry db,
        ap (λ d. d.idempotency) e ∙ idempotency-write_audit env entry db,
        ap (λ d. d.outbox) e ∙ outbox-write_audit env entry db,
        subst (IsChained env tenant) (sym e) (write_audit-IsChained env tenant entry db c),
      )

  observe_admits : (o : Option (GuardVerdict × Db)) → (guarded Mode.observe db o).0 ≡ admitted
  observe_admits none = refl
  observe_admits (some (passed, d)) = refl
  observe_admits (some (rejected r, d)) = refl

  guarded-forbidden :
      (f : Fault) (v : GuardVerdict) (r : Reason)
      → (guarded Mode.enforce db (record_rejection env f Mode.enforce req v db)).0 ≡ forbidden r
      → (v ≡ rejected r)
        × ((guarded Mode.enforce db (record_rejection env f Mode.enforce req v db)).1
            ≡ write_audit env (guard_entry Mode.enforce req r) db)
  guarded-forbidden Fault.healthy passed r h = ground arith
  guarded-forbidden Fault.query_fails passed r h = ground arith
  guarded-forbidden Fault.write_fails passed r h = ground arith
  guarded-forbidden Fault.commit_fails passed r h = ground arith
  guarded-forbidden Fault.healthy (rejected r') r h = ground arith
  guarded-forbidden Fault.query_fails (rejected r') r h = ground arith
  guarded-forbidden Fault.write_fails (rejected r') r h = ground arith
  guarded-forbidden Fault.commit_fails (rejected r') r h = ground arith

  module _ (accounts : List PlatformBankAccount) (f : Fault) where
    checked-Leaves :
        (m : Mode)
        → Leaves m
            (verdict_on accounts req)
            (guarded m db (check_and_record env accounts f m req db)).1
    unfolding check_and_record
    checked-Leaves m = elim (Bool-cases (query_raises f (normalized req.account_no))) [
      | inl down ↦ rw down (untouched refl)
      | inr up ↦ rw up (guarded-Leaves f m (verdict_on accounts req))
    ]

    guard-Leaves :
        (m : Mode)
        → Leaves m
            (verdict_on accounts req)
            (assert_platform_account_allowed env accounts f m req db).1
    unfolding assert_platform_account_allowed
    guard-Leaves Mode.off = untouched refl
    guard-Leaves Mode.observe = checked-Leaves Mode.observe
    guard-Leaves Mode.enforce = checked-Leaves Mode.enforce

    stops_only_enforced :
        (m : Mode)
        → (m ≡ Mode.enforce)
          ⊎ ((assert_platform_account_allowed env accounts f m req db).0 ≡ admitted)
    unfolding assert_platform_account_allowed
    stops_only_enforced Mode.off = inr refl
    stops_only_enforced Mode.observe =
        inr (observe_admits (check_and_record env accounts f Mode.observe req db))
    stops_only_enforced Mode.enforce = inl refl

    checked-forbidden :
        (r : Reason)
        → (guarded Mode.enforce db (check_and_record env accounts f Mode.enforce req db)).0
          ≡ forbidden r
        → (verdict_on accounts req ≡ rejected r)
          × ((guarded Mode.enforce db (check_and_record env accounts f Mode.enforce req db)).1
              ≡ write_audit env (guard_entry Mode.enforce req r) db)
    unfolding check_and_record
    checked-forbidden r = elim (Bool-cases (query_raises f (normalized req.account_no))) [
      | inl down ↦ rw down (λ h. ground arith)
      | inr up ↦ rw up (guarded-forbidden f (verdict_on accounts req) r)
    ]

    -- Only the enforced guard stops a request, whatever fails; and whatever the mode and the verdict,
    -- the guard leaves orders, idempotency records and outbox as they are and keeps each tenant's
    -- audit log one unbroken chain.
    pub guard-keeps :
        (m : Mode) (tenant : String)
        → IsChained env tenant db
        → ((m ≡ Mode.enforce)
            ⊎ ((assert_platform_account_allowed env accounts f m req db).0 ≡ admitted))
          × ((assert_platform_account_allowed env accounts f m req db).1.orders ≡ db.orders)
          × ((assert_platform_account_allowed env accounts f m req db).1.idempotency
              ≡ db.idempotency)
          × ((assert_platform_account_allowed env accounts f m req db).1.outbox ≡ db.outbox)
          × IsChained env tenant (assert_platform_account_allowed env accounts f m req db).1
    guard-keeps m tenant c =
        let (orders, idempotency, outbox, chained) =
          Leaves-keeps m (verdict_on accounts req) _ tenant c (guard-Leaves m) in
        (stops_only_enforced m, orders, idempotency, outbox, chained)

    -- A request is turned away with 403 only by the enforced guard, for the reason of the verdict on
    -- it, and the audit row of that rejection is on record then and is all that has changed.
    pub forbidden-recorded :
        (m : Mode) (r : Reason)
        → (assert_platform_account_allowed env accounts f m req db).0 ≡ forbidden r
        → (m ≡ Mode.enforce)
          × (verdict_on accounts req ≡ rejected r)
          × ((assert_platform_account_allowed env accounts f m req db).1
              ≡ write_audit env (guard_entry Mode.enforce req r) db)
    unfolding assert_platform_account_allowed
    forbidden-recorded Mode.off r h = cc
    forbidden-recorded Mode.observe r h =
        let a = observe_admits (check_and_record env accounts f Mode.observe req db) in cc
    forbidden-recorded Mode.enforce r h =
        let (verdict, row) = checked-forbidden r h in (refl, verdict, row)
