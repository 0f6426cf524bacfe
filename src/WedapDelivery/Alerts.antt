-- ===== src/WedapDelivery/Alerts.antt =====
-- Alerts of the file delivery, each once for a batch and a kind: app/models/wedap_delivery_alert.py,
-- and `_record_delivery_alert` and `alert_stuck_deliveries` of app/services/wedap_delivery.py.
pub mod Once
use lending_bank_gateway.Prelude.{
  ℕ, ◌+◌, ◌-◌, leb, Bool, true, false, ◌&&◌, ◌||◌, String, str_eq, Option, none, some, List, [],
  ◌∷◌, map, select, is_none,
}
use lending_bank_gateway.Prelude.Once.{add_once, add_each}
use lending_bank_gateway.Json.Value.{ℤ}
use lending_bank_gateway.WedapDelivery.{
  DeliveryStatus, WedapImportDeliveryTask, is_pending, is_sending,
}

pub data Kind : Type 0 where
  pending_stuck result_overdue import_failed : Kind

-- what the text of `detail` is made of
pub data Detail : Type 0 where
  stuck : DeliveryStatus → ℕ → ℕ → Detail
  overdue : ℕ → Option ℕ → Detail
  failed_file : Option String → ℤ → ℤ → Detail

pub record WedapDeliveryAlert : Type 0 where
  pub tenant_id : String
  pub import_batch_no : String
  pub kind : Kind
  pub detail : Detail
  pub first_alerted_at : ℕ

abbrev pub same_kind : Kind → Kind → Bool
same_kind Kind.pending_stuck Kind.pending_stuck = true
same_kind Kind.pending_stuck Kind.result_overdue = false
same_kind Kind.pending_stuck Kind.import_failed = false
same_kind Kind.result_overdue Kind.pending_stuck = false
same_kind Kind.result_overdue Kind.result_overdue = true
same_kind Kind.result_overdue Kind.import_failed = false
same_kind Kind.import_failed Kind.pending_stuck = false
same_kind Kind.import_failed Kind.result_overdue = false
same_kind Kind.import_failed Kind.import_failed = true

-- the key of `uq_wedap_delivery_alert`
abbrev pub same_alert : WedapDeliveryAlert → WedapDeliveryAlert → Bool
same_alert a b =
    str_eq b.tenant_id a.tenant_id
    && (str_eq b.import_batch_no a.import_batch_no && same_kind b.kind a.kind)

abbrev pub alert : WedapImportDeliveryTask → Kind → Detail → ℕ → WedapDeliveryAlert
alert task kind detail now = record {
  tenant_id = task.batch.tenant_id;
  import_batch_no = task.batch.import_batch_no;
  kind = kind;
  detail = detail;
  first_alerted_at = now;
}

-- `_record_delivery_alert`
unfoldable pub record_delivery_alert :
    WedapDeliveryAlert → List WedapDeliveryAlert → Bool × List WedapDeliveryAlert
record_delivery_alert a alerts = add_once same_alert a alerts

-- the tables of the file delivery
pub record Files : Type 0 where
  pub tasks : List WedapImportDeliveryTask
  pub alerts : List WedapDeliveryAlert

abbrev pub is_stuck : ℕ → ℕ → WedapImportDeliveryTask → Bool
is_stuck now max_age r =
    (is_pending r.status || is_sending r.status) && leb (r.created_at + max_age) now

abbrev pub is_delivered : DeliveryStatus → Bool
is_delivered DeliveryStatus.delivered = true
is_delivered DeliveryStatus.pending = false
is_delivered DeliveryStatus.sending = false
is_delivered DeliveryStatus.failed = false

abbrev has_passed : ℕ → Option ℕ → Bool
has_passed now none = false
has_passed now (some deadline) = leb deadline now

abbrev pub is_overdue : ℕ → WedapImportDeliveryTask → Bool
is_overdue now r =
    is_delivered r.status && (is_none r.result_collected_at && has_passed now r.result_deadline_at)

abbrev pub stuck_alert : ℕ → WedapImportDeliveryTask → WedapDeliveryAlert
stuck_alert now r = alert r Kind.pending_stuck (stuck r.status r.attempts (now - r.created_at)) now

abbrev deadline_of : Option ℕ → ℕ
deadline_of none = 0
deadline_of (some deadline) = deadline

-- the deadline is there in the rows that `is_overdue` selects
abbrev pub overdue_alert : ℕ → WedapImportDeliveryTask → WedapDeliveryAlert
overdue_alert now r =
    alert r Kind.result_overdue (overdue (deadline_of r.result_deadline_at) r.accepted_at) now

-- the alerts that a round is to raise
abbrev pub stuck_alerts : ℕ → ℕ → ℕ → List WedapImportDeliveryTask → List WedapDeliveryAlert
stuck_alerts now max_age limit rows =
    map (stuck_alert now) (select (is_stuck now max_age) limit rows)

abbrev pub overdue_alerts : ℕ → ℕ → List WedapImportDeliveryTask → List WedapDeliveryAlert
overdue_alerts now limit rows = map (overdue_alert now) (select (is_overdue now) limit rows)

unfoldable pub alert_stuck_deliveries : ℕ → ℕ → ℕ → Files → ℕ × Files
alert_stuck_deliveries now max_age limit st =
    let (n, alerts) = add_each same_alert (stuck_alerts now max_age limit st.tasks) st.alerts in
    let (m, alerts') = add_each same_alert (overdue_alerts now limit st.tasks) alerts in
    (n + m, record st { alerts = alerts' })
