-- ===== src/WedapDelivery/Receipts.antt =====
-- The receipts that the gateway sends to recon: `make_on_terminal` of
-- app/workers/wedap_delivery_dispatcher.py, and `mark_callback_sent`, `_claim_callback` and
-- `resend_pending_callbacks_once` of app/services/wedap_delivery.py.
use lending_bank_gateway.Prelude.{
  ℕ, suc, Bool, true, false, ◌&&◌, ◌||◌, String, Option, none, some, List, [], ◌∷◌, find,
  update_where, select, is_some, is_none, if◌then◌else◌,
}
use lending_bank_gateway.WedapDelivery.{DeliveryStatus, WedapImportDeliveryTask, has_id, is_older}

unfoldable pub mark_callback_sent :
    ℕ → ℕ → List WedapImportDeliveryTask → List WedapImportDeliveryTask
mark_callback_sent id now rows =
    update_where (has_id id)
      (λ r. record r { callback_sent_at = some now; callback_locked_at = none }) rows

abbrev pub is_unsent : ℕ → ℕ → WedapImportDeliveryTask → Bool
is_unsent now timeout r =
    is_none r.callback_sent_at
    && (is_none r.callback_locked_at || is_older now timeout r.callback_locked_at)

abbrev pub is_receipt_claimable : ℕ → ℕ → ℕ → WedapImportDeliveryTask → Bool
is_receipt_claimable now timeout id r = has_id id r && is_unsent now timeout r

-- `_claim_callback`
unfoldable pub claim_callback :
    ℕ → ℕ → ℕ → List WedapImportDeliveryTask → Bool × List WedapImportDeliveryTask
claim_callback now timeout id rows = (
  is_some (find (is_receipt_claimable now timeout id) rows),
  update_where (is_receipt_claimable now timeout id)
      (λ r. record r { callback_locked_at = some now }) rows,
)

-- recon as the receipts meet it: whether it takes one, when, and what other transactions do in the
-- meantime
pub record Recon : Type 0 where
  pub takes : WedapImportDeliveryTask → DeliveryStatus → Option String → Bool
  pub taken_at : WedapImportDeliveryTask → ℕ
  pub others : WedapImportDeliveryTask → List WedapImportDeliveryTask → List WedapImportDeliveryTask

-- `_on_terminal`: a receipt that fails is only logged
unfoldable pub on_terminal :
    Recon
    → WedapImportDeliveryTask
    → DeliveryStatus
    → Option String
    → List WedapImportDeliveryTask
    → List WedapImportDeliveryTask
on_terminal recon task status error rows =
    let rows' = recon.others task rows in
    if recon.takes task status error
    then mark_callback_sent task.id (recon.taken_at task) rows'
    else rows'

abbrev pub is_final : DeliveryStatus → Bool
is_final DeliveryStatus.delivered = true
is_final DeliveryStatus.failed = true
is_final DeliveryStatus.pending = false
is_final DeliveryStatus.sending = false

-- the tasks that wait for a receipt
unfoldable pub receipts_due :
    ℕ → ℕ → ℕ → List WedapImportDeliveryTask → List WedapImportDeliveryTask
receipts_due now timeout limit rows =
    select (λ r. is_final r.status && is_unsent now timeout r) limit rows

-- the loop; `before` is what others do before a task's turn
unfoldable pub resend_all :
    Recon
    → ℕ
    → ℕ
    → (WedapImportDeliveryTask → List WedapImportDeliveryTask → List WedapImportDeliveryTask)
    → List WedapImportDeliveryTask
    → List WedapImportDeliveryTask
    → ℕ × List WedapImportDeliveryTask
unfolding claim_callback on_terminal
resend_all recon now timeout before [] rows = (0, rows)
resend_all recon now timeout before (t ∷ ts) rows =
    let (won, claimed) = claim_callback now timeout t.id (before t rows) in
    let rest =
      resend_all recon now timeout before ts
        (if won then on_terminal recon t t.status t.last_error claimed else claimed) in
    (if won then suc rest.0 else rest.0, rest.1)

unfoldable pub resend_pending_callbacks_once :
    Recon
    → ℕ
    → ℕ
    → ℕ
    → (WedapImportDeliveryTask → List WedapImportDeliveryTask → List WedapImportDeliveryTask)
    → List WedapImportDeliveryTask
    → ℕ × List WedapImportDeliveryTask
unfolding resend_all receipts_due
resend_pending_callbacks_once recon now timeout limit before rows =
    resend_all recon now timeout before (receipts_due now timeout limit rows) rows
