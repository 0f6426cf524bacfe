-- ===== src/WedapDelivery/Rounds/Runs.antt =====
-- The rounds of the dispatcher and of the receipts, as runs of their transactions.
use lending_bank_gateway.Prelude.{
  ℕ, inl, inr, String, Option, none, some, List, [], ◌∷◌, find, Bool-cases, Option-cases,
}
use lending_bank_gateway.WedapDelivery.{
  DeliveryStatus, WedapImportDeliveryTask, Policy, has_id, claim, reclaim_stale_sending,
}
use lending_bank_gateway.WedapDelivery.Collection.{
  reclaims, claims, finishes, sends, locks_receipt, Moves, done, after,
}
use lending_bank_gateway.WedapDelivery.Receipts.{
  Recon, on_terminal, claim_callback, receipts_due, resend_all, resend_pending_callbacks_once,
}
use lending_bank_gateway.WedapDelivery.Rounds.{
  Carrier, terminal, receipt, deliver_claimed, dispatch_task, dispatch_tasks, due_tasks,
  dispatch_delivery_once,
}

pub Moves-trans : (a b c : List WedapImportDeliveryTask) → Moves a b → Moves b c → Moves a c
Moves-trans a b _ ab done = ab
Moves-trans a b c ab (after mid _ bm m) = after mid c (Moves-trans a b mid ab bm) m

-- what others do is a run of these transactions
abbrev pub Others :
    (WedapImportDeliveryTask → List WedapImportDeliveryTask → List WedapImportDeliveryTask) → Type 0
Others f =
    (t : WedapImportDeliveryTask) (rows : List WedapImportDeliveryTask) → Moves rows (f t rows)

module _ (recon : Recon) (others : Others recon.others) where
  on_terminal-Moves :
      (task : WedapImportDeliveryTask) (status : DeliveryStatus) (error : Option String)
      (rows : List WedapImportDeliveryTask)
      → Moves rows (on_terminal recon task status error rows)
  unfolding on_terminal
  on_terminal-Moves task status error rows = elim (Bool-cases (recon.takes task status error)) [
    | inl yes_taken ↦
        rw yes_taken (
          after (recon.others task rows) _ (others task rows) (sends task.id (recon.taken_at task)))
    | inr lost ↦ rw lost (others task rows)
  ]

  module _ (now timeout : ℕ)
      (before : WedapImportDeliveryTask
        → List WedapImportDeliveryTask
        → List WedapImportDeliveryTask)
      (before_runs : Others before) where
    resend_all-Moves :
        (ts rows : List WedapImportDeliveryTask)
        → Moves rows (resend_all recon now timeout before ts rows).1
    unfolding resend_all
    resend_all-Moves [] rows = done
    resend_all-Moves (t ∷ ts) rows =
        let locked : Moves rows (claim_callback now timeout t.id (before t rows)).1 =
          after (before t rows) _ (before_runs t rows) (locks_receipt now timeout t.id) in
        elim (Bool-cases (claim_callback now timeout t.id (before t rows)).0) [
          | inl won ↦ rw won (
              Moves-trans rows _ _ locked (
                Moves-trans _ _ _ (on_terminal-Moves t t.status t.last_error _)
                  (resend_all-Moves ts _)))
          | inr lost ↦ rw lost (Moves-trans rows _ _ locked (resend_all-Moves ts _))
        ]

    -- A round of receipts is a run of the transactions of dispatchers and collectors, if what others
    -- do before a task's turn and while recon is asked is one.
    pub resend-Moves :
        (limit : ℕ) (rows : List WedapImportDeliveryTask)
        → Moves rows (resend_pending_callbacks_once recon now timeout limit before rows).1
    unfolding resend_pending_callbacks_once
    resend-Moves limit rows = resend_all-Moves (receipts_due now timeout limit rows) rows

-- the receipts, if there are any, leave what is a run
abbrev pub ReceiptOthers : Option Recon → Type 0
ReceiptOthers none = Unit
ReceiptOthers (some recon) = Others recon.others

receipt-Moves :
    (r : Option Recon) (task : WedapImportDeliveryTask)
    (end : Option (DeliveryStatus × Option String)) (rows : List WedapImportDeliveryTask)
    → ReceiptOthers r
    → Moves rows (receipt r task end rows)
receipt-Moves none task end rows o = done
receipt-Moves (some recon) task none rows o = done
receipt-Moves (some recon) task (some (status, error)) rows o =
    on_terminal-Moves recon o task status error rows

module _ (policy : Policy) (w : Carrier) (now : ℕ) (before : Others w.before)
    (delivering : Others w.while_delivering) (receipts : ReceiptOthers w.receipts) where
  deliver_claimed-Moves :
      (task : WedapImportDeliveryTask) (rows : List WedapImportDeliveryTask)
      → Moves rows (deliver_claimed policy w now task rows).1
  unfolding deliver_claimed
  deliver_claimed-Moves task rows =
      elim (Option-cases (find (has_id task.id) (w.while_delivering task rows))) [
        | inl gone ↦ rw (gone, deliver_claimed) (delivering task rows)
        | inr (row, there) ↦
            rw (there, deliver_claimed)
              (Moves-trans rows _ _
                (after (w.while_delivering task rows) _ (delivering task rows)
                  (finishes policy now (w.clock task) task.id (w.deliver task)))
                (receipt-Moves w.receipts task (terminal policy (w.deliver task) row) _ receipts))
      ]

  dispatch_task-Moves :
      (task : WedapImportDeliveryTask) (rows : List WedapImportDeliveryTask)
      → Moves rows (dispatch_task policy w now task rows).1
  unfolding dispatch_task
  dispatch_task-Moves task rows =
      let claimed : Moves rows (claim task.id now (w.before task rows)).1 =
        after (w.before task rows) _ (before task rows) (claims task.id now) in
      elim (Bool-cases (claim task.id now (w.before task rows)).0) [
        | inl won ↦ rw won (Moves-trans rows _ _ claimed (deliver_claimed-Moves task _))
        | inr lost ↦ rw lost claimed
      ]

  dispatch_tasks-Moves :
      (ts rows : List WedapImportDeliveryTask) → Moves rows (dispatch_tasks policy w now ts rows).1
  unfolding dispatch_tasks
  dispatch_tasks-Moves [] rows = done
  dispatch_tasks-Moves (t ∷ ts) rows =
      Moves-trans rows _ _ (dispatch_task-Moves t rows) (dispatch_tasks-Moves ts _)

  -- A round of the dispatcher is a run of the transactions of dispatchers, collectors and recon, if
  -- what others do before a task's turn, during a delivery and while recon is asked is one.
  dispatch-Moves :
      (timeout : ℕ) (rows : List WedapImportDeliveryTask)
      → Moves rows (dispatch_delivery_once policy w now timeout rows).1
  unfolding dispatch_delivery_once
  dispatch-Moves timeout rows =
      Moves-trans rows _ _ (after rows _ done (reclaims now timeout))
        (dispatch_tasks-Moves (due_tasks now (reclaim_stale_sending now timeout rows)) _)
