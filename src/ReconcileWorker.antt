-- ===== src/ReconcileWorker.antt =====
-- app/workers/order_reconcile_worker.py: open orders that have been left alone are asked about again,
-- and those that are too old for that are put on record once.
pub mod Rounds
use lending_bank_gateway.Prelude.{
  ℕ, zero, suc, ◌+◌, ltb, leb, Bool, true, false, ◌&&◌, ◌||◌, String, str_eq, Option, none, some,
  List, [], ◌∷◌, ◌++◌, find, select, is_some, if◌then◌else◌,
}
use lending_bank_gateway.Domain.States.{
  OrderStatus, elem, accepted, submitted, processing, result_unknown,
}
use lending_bank_gateway.Db.{Db, BankTxnOrder, Digests, Result, ok, err}
use lending_bank_gateway.Reconcile.{StatusQuery, resolve_terminal_via_status_query}

-- `OrderStuckAlert` of app/models/order_alert.py
pub record OrderStuckAlert : Type 0 where
  pub tenant_id : String
  pub biz_seq_no : String
  pub biz_type : String
  pub first_alerted_at : ℕ

pub record State : Type 0 where
  pub db : Db
  pub alerts : List OrderStuckAlert

-- `_NON_TERMINAL`
unfoldable pub is_non_terminal : OrderStatus → Bool
is_non_terminal s = elem s (accepted ∷ submitted ∷ processing ∷ result_unknown ∷ [])

-- the limits of a round
pub record Limits : Type 0 where
  pub stale_after : ℕ
  pub max_age : ℕ
  pub batch_limit : ℕ

-- `created_at < now - stale_after AND created_at > now - max_age`
unfoldable pub is_candidate : Limits → ℕ → BankTxnOrder → Bool
unfolding is_non_terminal
is_candidate lim now o =
    is_non_terminal o.status
    && (ltb (o.created_at + lim.stale_after) now && ltb now (o.created_at + lim.max_age))

-- `created_at <= now - max_age`
unfoldable pub is_stuck : Limits → ℕ → BankTxnOrder → Bool
unfolding is_non_terminal
is_stuck lim now o = is_non_terminal o.status && leb (o.created_at + lim.max_age) now

unfoldable pub select_candidates : Limits → ℕ → Db → List BankTxnOrder
select_candidates lim now db = select (is_candidate lim now) lim.batch_limit db.orders

-- how wedap answers for an order, when, and what other transactions do meanwhile
pub record World : Type 0 where
  pub env : Digests
  pub clock : BankTxnOrder → ℕ
  pub query : BankTxnOrder → StatusQuery
  pub others : BankTxnOrder → Db → Db

abbrev count : Result Bool → ℕ → ℕ
count (ok true) n = suc n
count (ok false) n = n
count (err _) n = n

-- the loop: an exception of one order leaves the others alone
unfoldable pub resolve_all : World → List BankTxnOrder → Db → ℕ × Db
resolve_all w [] db = (0, db)
resolve_all w (o ∷ os) db =
    let (r, db') =
      resolve_terminal_via_status_query w.env (w.clock o) o.tenant_id o.biz_seq_no "RECONCILE"
        (w.query o) (w.others o) db in
    let (n, last) = resolve_all w os db' in (count r n, last)

-- the key of `uq_stuck_tenant_biz`
abbrev pub is_alert : String → String → OrderStuckAlert → Bool
is_alert tenant_id biz_seq_no a = str_eq a.tenant_id tenant_id && str_eq a.biz_seq_no biz_seq_no

-- `_record_stuck_alert`: false where the key is taken
unfoldable pub record_stuck_alert :
    ℕ → BankTxnOrder → List OrderStuckAlert → Bool × List OrderStuckAlert
record_stuck_alert now o alerts =
    if is_some (find (is_alert o.tenant_id o.biz_seq_no) alerts) then (false, alerts) else (
      true,
      alerts
          ++ record {
            tenant_id = o.tenant_id;
            biz_seq_no = o.biz_seq_no;
            biz_type = o.biz_type;
            first_alerted_at = now;
          }
            ∷ [],
    )

abbrev plus : Bool → ℕ → ℕ
plus hit n = if hit then suc n else n

unfoldable pub record_all : ℕ → List BankTxnOrder → List OrderStuckAlert → ℕ × List OrderStuckAlert
record_all now [] alerts = (0, alerts)
record_all now (o ∷ os) alerts =
    let (hit, alerts') = record_stuck_alert now o alerts in
    let (n, last) = record_all now os alerts' in (plus hit n, last)

unfoldable pub alert_stuck_orders : Limits → ℕ → State → ℕ × State
alert_stuck_orders lim now st =
    let (n, alerts) =
      record_all now (select (is_stuck lim now) lim.batch_limit st.db.orders) st.alerts in
    (n, record st { alerts = alerts })

unfoldable pub reconcile_once : World → Limits → ℕ → State → ℕ × State
reconcile_once w lim now st =
    let (n, db') = resolve_all w (select_candidates lim now st.db) st.db in
    (n, (alert_stuck_orders lim now (record st { db = db' })).1)
