-- ===== src/WedapDelivery/Rounds.antt =====
-- `dispatch_delivery_once` of app/services/wedap_delivery.py: a round over the tasks that are due.
pub mod Runs
pub mod Progress
use lending_bank_gateway.Prelude.{
  ℕ, suc, ◌+◌, leb, Bool, true, false, ◌&&◌, String, Option, none, some, List, [], ◌∷◌, find,
  if◌then◌else◌,
}
use lending_bank_gateway.WedapDelivery.{
  DeliveryStatus, WedapImportDeliveryTask, Policy, Delivered, accepted, raised, has_id, is_pending,
  reclaim_stale_sending, claim, finish_delivery,
}
use lending_bank_gateway.WedapDelivery.Receipts.{Recon, on_terminal}

-- how the delivery of a task ends and when, the receipts if they are configured, and what other
-- transactions do before a task's turn and during its delivery
pub record Carrier : Type 0 where
  pub deliver : WedapImportDeliveryTask → Delivered
  pub clock : WedapImportDeliveryTask → ℕ
  pub receipts : Option Recon
  pub before : WedapImportDeliveryTask → List WedapImportDeliveryTask → List WedapImportDeliveryTask
  pub while_delivering :
      WedapImportDeliveryTask → List WedapImportDeliveryTask → List WedapImportDeliveryTask

-- the final status that a turn gives the row, with the error that goes into the receipt
abbrev pub terminal :
    Policy → Delivered → WedapImportDeliveryTask → Option (DeliveryStatus × Option String)
terminal policy (accepted path) row = some (DeliveryStatus.delivered, none)
terminal policy (raised error) row =
    if leb policy.max_attempts (row.attempts + 1)
    then some (DeliveryStatus.failed, some error)
    else none

abbrev receipt :
    Option Recon
    → WedapImportDeliveryTask
    → Option (DeliveryStatus × Option String)
    → List WedapImportDeliveryTask
    → List WedapImportDeliveryTask
receipt none task end rows = rows
receipt (some recon) task none rows = rows
receipt (some recon) task (some (status, error)) rows = on_terminal recon task status error rows

-- the turn of a claimed task after the claim; false where the row is gone
unfoldable pub deliver_claimed :
    Policy
    → Carrier
    → ℕ
    → WedapImportDeliveryTask
    → List WedapImportDeliveryTask
    → Bool × List WedapImportDeliveryTask
unfolding on_terminal
deliver_claimed policy w now task rows =
    let result = w.deliver task in
    let rows' = w.while_delivering task rows in
    elim (find (has_id task.id) rows') [
      | none ↦ (false, rows')
      | some row ↦ (
        true,
        receipt w.receipts task (terminal policy result row)
            (finish_delivery policy now (w.clock task) task.id result rows'),
      )
    ]

unfoldable pub dispatch_task :
    Policy
    → Carrier
    → ℕ
    → WedapImportDeliveryTask
    → List WedapImportDeliveryTask
    → Bool × List WedapImportDeliveryTask
unfolding deliver_claimed
dispatch_task policy w now task rows =
    let (won, claimed) = claim task.id now (w.before task rows) in
    if won then deliver_claimed policy w now task claimed else (false, claimed)

unfoldable pub dispatch_tasks :
    Policy
    → Carrier
    → ℕ
    → List WedapImportDeliveryTask
    → List WedapImportDeliveryTask
    → ℕ × List WedapImportDeliveryTask
unfolding dispatch_task
dispatch_tasks policy w now [] rows = (0, rows)
dispatch_tasks policy w now (t ∷ ts) rows =
    let (done, rows') = dispatch_task policy w now t rows in
    let rest = dispatch_tasks policy w now ts rows' in (if done then suc rest.0 else rest.0, rest.1)

abbrev pub has_come : ℕ → Option ℕ → Bool
has_come now none = true
has_come now (some at) = leb at now

abbrev pub is_due : ℕ → WedapImportDeliveryTask → Bool
is_due now r = is_pending r.status && has_come now r.next_retry_at

-- `SELECT … WHERE`, without a limit
unfoldable pub due_tasks : ℕ → List WedapImportDeliveryTask → List WedapImportDeliveryTask
due_tasks now [] = []
due_tasks now (r ∷ rows) = if is_due now r then r ∷ due_tasks now rows else due_tasks now rows

unfoldable pub dispatch_delivery_once :
    Policy → Carrier → ℕ → ℕ → List WedapImportDeliveryTask → ℕ × List WedapImportDeliveryTask
unfolding dispatch_tasks due_tasks
dispatch_delivery_once policy w now timeout rows =
    let ready = reclaim_stale_sending now timeout rows in
    dispatch_tasks policy w now (due_tasks now ready) ready
