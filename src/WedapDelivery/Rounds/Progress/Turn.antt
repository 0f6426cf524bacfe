-- ===== src/WedapDelivery/Rounds/Progress/Turn.antt =====
-- A turn of `dispatch_delivery_once`, for the task of its own and for any other.
use lending_bank_gateway.Prelude.{
  ℕ, ◌+◌, ◌*◌, ◌^◌, ◌≤◌, ◌<◌, ◌≡◌, inl, inr, refl, ap, ◌∙◌, Bool, true, false, String, Option, none,
  some, List, find, find-holds, is_some, if◌then◌else◌, arith, Bool-cases, Option-cases,
}
use lending_bank_gateway.Prelude.Keys.{find-narrow}
use lending_bank_gateway.WedapDelivery.{
  DeliveryStatus, WedapImportDeliveryTask, Policy, has_id, is_pending, is_claimable, claim, settle,
  finish_delivery,
}
use lending_bank_gateway.WedapDelivery.Turns.{settle-id}
use lending_bank_gateway.WedapDelivery.Receipts.{Recon, is_final, mark_callback_sent, on_terminal}
use lending_bank_gateway.WedapDelivery.Rounds.{
  Carrier, terminal, receipt, deliver_claimed, dispatch_task,
}
use lending_bank_gateway.WedapDelivery.Rounds.Progress.{
  key, ReceiptSpares, IsAlone, Ahead, Has, Holds, Has-Spares, Has-update, settle-Ahead,
}

module _ (policy : Policy) (id k at : ℕ) (r : WedapImportDeliveryTask)
    (ahead : Ahead policy k at r) where
  receipt-Holds :
      (recon : Option Recon) (task : WedapImportDeliveryTask)
      (end : Option (DeliveryStatus × Option String)) (rows : List WedapImportDeliveryTask)
      → ReceiptSpares id recon
      → Has id r rows
      → Holds policy id k at (receipt recon task end rows)
  unfolding on_terminal mark_callback_sent
  receipt-Holds none task end rows spares h = (r, h, ahead)
  receipt-Holds (some recon) task none rows spares h = (r, h, ahead)
  receipt-Holds (some recon) task (some (status, error)) rows spares h =
      let asked = Has-Spares id r rows recon.others task spares h in
      elim (Bool-cases (recon.takes task status error)) [
        | inl taken ↦ rw taken (
          _,
          Has-update id r (recon.others task rows) (has_id task.id) _ (λ x. refl) asked,
          elim (Bool-cases (has_id task.id r)) [
            | inl own ↦ rw own ahead
            | inr other ↦ rw other ahead
          ],
        )
        | inr lost ↦ rw lost (r, asked, ahead)
      ]

is_some_if : (b : Bool) (r : WedapImportDeliveryTask) → is_some (if b then some r else none) ≡ b
is_some_if true r = refl
is_some_if false r = refl

module _ (policy : Policy) (k at : ℕ) (r : WedapImportDeliveryTask) where
  waiting :
      is_pending r.status ≡ true
      → Ahead policy k at r
      → (k ≤ r.attempts) × (r.attempts < policy.max_attempts)
  waiting pending ahead = ground arith

  settled : is_pending r.status ≡ false → Ahead policy k at r → is_final r.status ≡ true
  settled other ahead = ground arith

module _ (policy : Policy) (id now at : ℕ) (w : Carrier) (alone : IsAlone id w)
    (t : WedapImportDeliveryTask) where
  -- after a claim, with the row that it left
  module _ (k : ℕ) (r : WedapImportDeliveryTask) (rows : List WedapImportDeliveryTask)
      (h : Has id r rows) where
    deliver_claimed-other :
        has_id t.id r ≡ false
        → Ahead policy k at r
        → Holds policy id k at (deliver_claimed policy w now t rows).1
    unfolding deliver_claimed finish_delivery
    deliver_claimed-other other ahead =
        let during = Has-Spares id r rows w.while_delivering t alone.delivering h in
        elim (Option-cases (find (has_id t.id) (w.while_delivering t rows))) [
          | inl gone ↦ rw (gone, deliver_claimed) (r, during, ahead)
          | inr (row, there) ↦
              rw (there, deliver_claimed)
                (receipt-Holds policy id k at r ahead w.receipts t
                  (terminal policy (w.deliver t) row) _ alone.receipts
                  (rw other at (
                    Has-update id r (w.while_delivering t rows) (has_id t.id)
                      (settle policy now (w.clock t) (w.deliver t))
                      (λ x. settle-id policy now (w.clock t) (w.deliver t) x) during)))
        ]

    deliver_claimed-own :
        now + policy.base_seconds * 2 ^ policy.max_attempts ≤ at
        → t.id ≡ id
        → k ≤ r.attempts
        → r.attempts < policy.max_attempts
        → Holds policy id (k + 1) at (deliver_claimed policy w now t rows).1
    unfolding deliver_claimed finish_delivery
    deliver_claimed-own late own used left =
        let during = Has-Spares id r rows w.while_delivering t alone.delivering h in
        let there : find (has_id t.id) (w.while_delivering t rows) ≡ some r =
          ap (λ n. find (has_id n) (w.while_delivering t rows)) own ∙ during.there in
        let mine : has_id t.id r ≡ true =
          find-holds (has_id t.id) r (w.while_delivering t rows) there in
        rw (there, deliver_claimed)
          (receipt-Holds policy id (k + 1) at (settle policy now (w.clock t) (w.deliver t) r)
            (settle-Ahead policy id now at late (w.clock t) k (w.deliver t) r used left) w.receipts
            t (terminal policy (w.deliver t) r) _ alone.receipts
            (rw mine at (
              Has-update id r (w.while_delivering t rows) (has_id t.id)
                (settle policy now (w.clock t) (w.deliver t))
                (λ x. settle-id policy now (w.clock t) (w.deliver t) x) during)))

  module _ (k : ℕ) (r : WedapImportDeliveryTask) (rows : List WedapImportDeliveryTask)
      (h : Has id r rows) (ahead : Ahead policy k at r) where
    scanned : Has id r (w.before t rows)
    scanned = Has-Spares id r rows w.before t alone.before h

    -- the claim of a task that is not this one, or is not pending
    spared : is_claimable t.id r ≡ false → Has id r (claim t.id now (w.before t rows)).1
    unfolding claim
    spared miss = rw miss at (
        Has-update id r (w.before t rows) (is_claimable t.id)
          (λ x. record x { status = DeliveryStatus.sending; locked_at = some now }) (λ x. refl)
          scanned)

    pub dispatch_task-other :
        has_id t.id r ≡ false → Holds policy id k at (dispatch_task policy w now t rows).1
    unfolding dispatch_task
    dispatch_task-other other =
        let kept = spared (ground arith) in
        elim (Bool-cases (claim t.id now (w.before t rows)).0) [
          | inl won ↦ rw won (deliver_claimed-other k r _ kept other ahead)
          | inr lost ↦ rw lost (r, kept, ahead)
        ]

    won_iff_pending : t.id ≡ id → (claim t.id now (w.before t rows)).0 ≡ is_pending r.status
    unfolding claim
    won_iff_pending own =
        ap (λ n. is_some (find (is_claimable n) (w.before t rows))) own
        ∙ ap is_some (
            find-narrow key id (λ x. is_pending x.status) r (w.before t rows) scanned.unique
              scanned.there)
        ∙ is_some_if (is_pending r.status) r

    mine : t.id ≡ id → has_id t.id r ≡ true
    mine own = find-holds (has_id t.id) r rows (ap (λ n. find (has_id n) rows) own ∙ h.there)

    claimed_own :
        t.id ≡ id
        → is_pending r.status ≡ true
        → Has id
            (record r { status = DeliveryStatus.sending; locked_at = some now })
            (claim t.id now (w.before t rows)).1
    unfolding claim
    claimed_own own pending =
        let hit : is_claimable t.id r ≡ true = ground (arith, mine own) in
        rw hit at (
          Has-update id r (w.before t rows) (is_claimable t.id)
            (λ x. record x { status = DeliveryStatus.sending; locked_at = some now }) (λ x. refl)
            scanned)

    pub dispatch_task-own :
        now + policy.base_seconds * 2 ^ policy.max_attempts ≤ at
        → t.id ≡ id
        → Holds policy id (k + 1) at (dispatch_task policy w now t rows).1
    unfolding dispatch_task
    dispatch_task-own late own = elim (Bool-cases (is_pending r.status)) [
      | inl pending ↦
          let (used, left) = waiting policy k at r pending ahead in
          rw (won_iff_pending own ∙ pending) (
            deliver_claimed-own k
              (record r { status = DeliveryStatus.sending; locked_at = some now }) _
              (claimed_own own pending) late own used left)
      | inr final ↦
          rw (won_iff_pending own ∙ final)
            (r, spared (ground arith), inl (settled policy k at r final ahead))
    ]
