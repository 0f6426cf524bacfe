-- ===== src/WedapDelivery/Rounds/Progress.antt =====
-- A task under rounds of `dispatch_delivery_once`: what one turn, and one round, do to it.
pub mod Turn
pub mod Finish
use native.Mathlib.Nat.{pow-le-pow_right}
use lending_bank_gateway.Prelude.{
  ℕ, suc, ◌+◌, ◌*◌, ◌-◌, ◌^◌, ◌==◌, ◌≤◌, ◌<◌, ◌≡◌, ◌⊎◌, inl, inr, refl, sym, ap, ◌∙◌, leb, Bool,
  true, false, String, Option, none, some, List, [], ◌∷◌, find, find-holds, update_where,
  find-update_where, is_some, if◌then◌else◌, arith, Bool-cases, Option-cases,
}
use lending_bank_gateway.Prelude.Keys.{Unique, Unique-update_where, find-narrow}
use lending_bank_gateway.WedapDelivery.{
  DeliveryStatus, WedapImportDeliveryTask, Policy, Delivered, accepted, raised, has_id, is_pending,
  is_claimable, claim, settle, finish_delivery, is_stale, reclaim_stale_sending, compute_next_retry,
}
use lending_bank_gateway.WedapDelivery.Collection.{task_of}
use lending_bank_gateway.WedapDelivery.Receipts.{Recon, is_final, mark_callback_sent, on_terminal}
use lending_bank_gateway.WedapDelivery.Rounds.{
  Carrier, terminal, receipt, deliver_claimed, dispatch_task, has_come,
}

abbrev pub key : WedapImportDeliveryTask → ℕ
key r = r.id

-- what others do leaves the task of this id alone, and the ids a key
abbrev pub Spares :
    ℕ
    → (WedapImportDeliveryTask → List WedapImportDeliveryTask → List WedapImportDeliveryTask)
    → Type 0
Spares id f =
    (t : WedapImportDeliveryTask) (rows : List WedapImportDeliveryTask)
    → Unique key rows
    → Unique key (f t rows) × (task_of id (f t rows) ≡ task_of id rows)

abbrev pub ReceiptSpares : ℕ → Option Recon → Type 0
ReceiptSpares id none = Unit
ReceiptSpares id (some recon) = Spares id recon.others

pub record IsAlone (id : ℕ) (w : Carrier) : Type 0 where
  pub before : Spares id w.before
  pub delivering : Spares id w.while_delivering
  pub receipts : ReceiptSpares id w.receipts

-- the task is final, or waits with at least `k` attempts used, some left, and due by `at`
abbrev pub Ahead : Policy → ℕ → ℕ → WedapImportDeliveryTask → Type 0
Ahead policy k at r =
    (is_final r.status ≡ true)
    ⊎ ((r.status ≡ DeliveryStatus.pending)
        × (k ≤ r.attempts)
        × (r.attempts < policy.max_attempts)
        × (has_come at r.next_retry_at ≡ true))

-- the ids are a key, and the table has this row for this id
pub record Has (id : ℕ) (r : WedapImportDeliveryTask) (rows : List WedapImportDeliveryTask)
    : Type 0 where
  pub unique : Unique key rows
  pub there : task_of id rows ≡ some r

-- the table has the task, ahead as said
abbrev pub Holds : Policy → ℕ → ℕ → ℕ → List WedapImportDeliveryTask → Type 0
Holds policy id k at rows = (r : WedapImportDeliveryTask) × Has id r rows × Ahead policy k at r

pub Has-Spares :
    (id : ℕ) (r : WedapImportDeliveryTask) (rows : List WedapImportDeliveryTask)
    (f : WedapImportDeliveryTask → List WedapImportDeliveryTask → List WedapImportDeliveryTask)
    (t : WedapImportDeliveryTask)
    → Spares id f
    → Has id r rows
    → Has id r (f t rows)
Has-Spares id r rows f t spares h =
    let (unique, same) = spares t rows h.unique in
    record { unique = unique; there = same ∙ h.there }

pub Has-update :
    (id : ℕ) (r : WedapImportDeliveryTask) (rows : List WedapImportDeliveryTask)
    (p : WedapImportDeliveryTask → Bool) (f : WedapImportDeliveryTask → WedapImportDeliveryTask)
    → ((x : WedapImportDeliveryTask) → (f x).id ≡ x.id)
    → Has id r rows
    → Has id (if p r then f r else r) (update_where p f rows)
Has-update id r rows p f same h = record {
  unique = Unique-update_where key p f same rows h.unique;
  there = find-update_where (has_id id) p f rows (λ x _. ground (arith, same x)) ∙ rw h.there refl;
}

backoff_le : (base n m : ℕ) → n ≤ m → base * 2 ^ (n + 1 - 1) ≤ base * 2 ^ m
backoff_le base n m h =
    let p : 2 ^ (n + 1 - 1) ≤ 2 ^ m = pow-le-pow_right (omega arith) (omega arith) in grind arith

module _ (policy : Policy) (id now at : ℕ)
    (late : now + policy.base_seconds * 2 ^ policy.max_attempts ≤ at) where
  pub settle-Ahead :
      (clock k : ℕ) (result : Delivered) (r : WedapImportDeliveryTask)
      → k ≤ r.attempts
      → r.attempts < policy.max_attempts
      → Ahead policy (k + 1) at (settle policy now clock result r)
  unfolding settle
  settle-Ahead clock k (accepted path) r used left = inl refl
  settle-Ahead clock k (raised error) r used left =
      elim (Bool-cases (leb policy.max_attempts (r.attempts + 1))) [
        | inl last ↦ rw last (inl refl)
        | inr more ↦ rw more (
            inr (
              refl,
              omega arith,
              ground arith,
              ground (arith, backoff_le policy.base_seconds r.attempts policy.max_attempts),
            ))
      ]
