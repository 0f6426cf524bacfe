-- ===== src/WedapDelivery/Alerts/Once.antt =====
-- A round of alerts: what is on record after it, and after it again.
use lending_bank_gateway.Prelude.{ℕ, ◌≡◌, refl, true, eq_refl, List, find, is_some, arith}
use lending_bank_gateway.Prelude.Once.{add_each}
use lending_bank_gateway.WedapDelivery.Alerts.{
  Kind, WedapDeliveryAlert, same_kind, same_alert, Files, stuck_alerts, overdue_alerts,
}

same_kind_refl : (k : Kind) → same_kind k k ≡ true
same_kind_refl Kind.pending_stuck = refl
same_kind_refl Kind.result_overdue = refl
same_kind_refl Kind.import_failed = refl

pub same_alert_refl : (a : WedapDeliveryAlert) → same_alert a a ≡ true
same_alert_refl a =
    ground (arith, eq_refl a.tenant_id, eq_refl a.import_batch_no, same_kind_refl a.kind)

-- an alert of this batch and kind is on record
abbrev pub OnRecord : List WedapDeliveryAlert → WedapDeliveryAlert → Type 0
OnRecord alerts a = is_some (find (same_alert a) alerts) ≡ true

module _ (now max_age limit : ℕ) (st : Files) where
  abbrev first : List WedapDeliveryAlert
  first = (add_each same_alert (stuck_alerts now max_age limit st.tasks) st.alerts).1

  abbrev last : List WedapDeliveryAlert
  last = (add_each same_alert (overdue_alerts now limit st.tasks) first).1
