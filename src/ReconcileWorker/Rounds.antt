-- ===== src/ReconcileWorker/Rounds.antt =====
-- A round of the worker: its run on the database, its records of stuck orders, and the two windows of
-- age.
use lending_bank_gateway.Prelude.{
  select, ℕ, ◌+◌, ◌<◌, ◌≡◌, inl, inr, refl, ◌∙◌, true, not, eq_refl, Option, some, List, [], ◌∷◌,
  ◌++◌, length, find, find-append, All, is_some, Option-cases, Bool-cases, if◌then◌else◌, arith,
}
use lending_bank_gateway.Db.{Db, BankTxnOrder}
use lending_bank_gateway.Ledger.{Run, done}
use lending_bank_gateway.Ledger.Entries.{Run-trans}
use lending_bank_gateway.Ledger.Resolvers.{resolve_terminal-Run}
use lending_bank_gateway.ReconcileWorker.{
  OrderStuckAlert, State, Limits, World, is_non_terminal, is_candidate, is_stuck, select_candidates,
  resolve_all, is_alert, record_stuck_alert, record_all, alert_stuck_orders, reconcile_once,
}

module _ (w : World) (run : (o : BankTxnOrder) (d : Db) → Run w.env d (w.others o d)) where
  resolve_all-Run : (os : List BankTxnOrder) (db : Db) → Run w.env db (resolve_all w os db).1
  unfolding resolve_all
  resolve_all-Run [] db = done
  resolve_all-Run (o ∷ os) db =
      Run-trans w.env db _ _
        (resolve_terminal-Run w.env (w.clock o) o.tenant_id o.biz_seq_no (w.query o) (w.others o)
          (run o) db "RECONCILE")
        (resolve_all-Run os _)

  -- A round of the worker is a run of transactions of the money flows, whatever wedap answers for each
  -- order, if what happens to the database while it waits is one.
  pub reconcile_once-Run :
      (lim : Limits) (now : ℕ) (st : State) → Run w.env st.db (reconcile_once w lim now st).1.db
  unfolding reconcile_once alert_stuck_orders
  reconcile_once-Run lim now st = resolve_all-Run (select_candidates lim now st.db) st.db

-- An order in an open status that was created more than `stale_after` ago meets exactly one of the
-- worker's two conditions: to be asked about again, or to be stuck.
pub stale-either :
    (lim : Limits) (now : ℕ) (o : BankTxnOrder)
    → is_non_terminal o.status ≡ true
    → o.created_at + lim.stale_after < now
    → is_candidate lim now o ≡ not (is_stuck lim now o)
unfolding is_candidate is_stuck
stale-either lim now o live stale = ground arith

-- the alert of an order
abbrev pub alert_of : BankTxnOrder → List OrderStuckAlert → Option OrderStuckAlert
alert_of o alerts = find (is_alert o.tenant_id o.biz_seq_no) alerts

record_stuck_alert-old :
    (now : ℕ) (o p : BankTxnOrder) (alerts : List OrderStuckAlert) (a : OrderStuckAlert)
    → alert_of p alerts ≡ some a
    → alert_of p (record_stuck_alert now o alerts).1 ≡ some a
unfolding record_stuck_alert
record_stuck_alert-old now o p alerts a h = elim (Bool-cases (is_some (alert_of o alerts))) [
  | inl old ↦ rw old h
  | inr new ↦ rw new (find-append (is_alert p.tenant_id p.biz_seq_no) alerts _ ∙ rw h refl)
]

record_stuck_alert-own :
    (now : ℕ) (o : BankTxnOrder) (alerts : List OrderStuckAlert)
    → is_some (alert_of o (record_stuck_alert now o alerts).1) ≡ true
unfolding record_stuck_alert
record_stuck_alert-own now o alerts = elim (Option-cases (alert_of o alerts)) [
  | inr (a, old) ↦ rw old (rw old refl)
  | inl new ↦ rw new (
      rw
        (
          find-append (is_alert o.tenant_id o.biz_seq_no) alerts _,
          new,
          eq_refl o.tenant_id,
          eq_refl o.biz_seq_no,
        )
        refl)
]

length-snoc : {A : Type 0} (xs : List A) (x : A) → length (xs ++ x ∷ []) ≡ length xs + 1
length-snoc [] x = refl
length-snoc (y ∷ xs) x = ground (arith, length-snoc xs x)

record_stuck_alert-counts :
    (now : ℕ) (o : BankTxnOrder) (alerts : List OrderStuckAlert)
    → length (record_stuck_alert now o alerts).1
      ≡ (if (record_stuck_alert now o alerts).0 then length alerts + 1 else length alerts)
unfolding record_stuck_alert
record_stuck_alert-counts now o alerts = elim (Bool-cases (is_some (alert_of o alerts))) [
  | inl old ↦ rw old refl
  | inr new ↦ rw new (length-snoc alerts _)
]

module _ (now : ℕ) where
  pub record_all-old :
      (os : List BankTxnOrder) (p : BankTxnOrder) (alerts : List OrderStuckAlert)
      (a : OrderStuckAlert)
      → alert_of p alerts ≡ some a
      → alert_of p (record_all now os alerts).1 ≡ some a
  unfolding record_all
  record_all-old [] p alerts a h = h
  record_all-old (o ∷ os) p alerts a h =
      record_all-old os p _ a (record_stuck_alert-old now o p alerts a h)

  some-keeps :
      (os : List BankTxnOrder) (p : BankTxnOrder) (alerts : List OrderStuckAlert)
      → is_some (alert_of p alerts) ≡ true
      → is_some (alert_of p (record_all now os alerts).1) ≡ true
  some-keeps os p alerts h = elim (Option-cases (alert_of p alerts)) [
    | inl missing ↦ ground arith
    | inr (a, found) ↦ rw (record_all-old os p alerts a found) refl
  ]

  record_all-covers :
      (os : List BankTxnOrder) (alerts : List OrderStuckAlert)
      → All (λ o. is_some (alert_of o (record_all now os alerts).1) ≡ true) os
  unfolding record_all
  record_all-covers [] alerts = tt
  record_all-covers (o ∷ os) alerts = (
    some-keeps os o _ (record_stuck_alert-own now o alerts),
    record_all-covers os (record_stuck_alert now o alerts).1,
  )

  record_all-counts :
      (os : List BankTxnOrder) (alerts : List OrderStuckAlert)
      → length (record_all now os alerts).1 ≡ length alerts + (record_all now os alerts).0
  unfolding record_all
  record_all-counts [] alerts = omega arith
  record_all-counts (o ∷ os) alerts = ground (
    arith,
    record_all-counts os (record_stuck_alert now o alerts).1,
    record_stuck_alert-counts now o alerts,
  )

-- A round of alerts puts every order that it selects on record, leaves each record that is there as
-- it is, and returns the number of new records.
pub alert_stuck_orders_lem :
    (lim : Limits) (now : ℕ) (st : State) (p : BankTxnOrder) (a : OrderStuckAlert)
    → alert_of p st.alerts ≡ some a
    → let (n, st') = alert_stuck_orders lim now st in
      (length st'.alerts ≡ length st.alerts + n)
      × All
          (λ o. is_some (alert_of o st'.alerts) ≡ true)
          (select (is_stuck lim now) lim.batch_limit st.db.orders)
      × (alert_of p st'.alerts ≡ some a)
unfolding alert_stuck_orders
alert_stuck_orders_lem lim now st p a h =
    let os = select (is_stuck lim now) lim.batch_limit st.db.orders in
    (
      record_all-counts now os st.alerts,
      record_all-covers now os st.alerts,
      record_all-old now os p st.alerts a h,
    )
