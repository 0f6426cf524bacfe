-- ===== src/WedapDelivery/Rounds/Progress/Finish.antt =====
-- Rounds of `dispatch_delivery_once` finish a task.
use lending_bank_gateway.Prelude.{
  ℕ, ◌+◌, ◌*◌, ◌^◌, ◌==◌, ◌≤◌, ◌<◌, ◌≡◌, inl, inr, refl, true, false, Option, none, some, List, [],
  ◌∷◌, find, find-holds, is_some, length, arith, Bool-cases,
}
use lending_bank_gateway.WedapDelivery.{
  DeliveryStatus, WedapImportDeliveryTask, Policy, has_id, is_pending, is_stale,
  reclaim_stale_sending,
}
use lending_bank_gateway.WedapDelivery.Collection.{task_of}
use lending_bank_gateway.WedapDelivery.Receipts.{is_final}
use lending_bank_gateway.WedapDelivery.Rounds.{
  Carrier, dispatch_task, dispatch_tasks, has_come, is_due, due_tasks, dispatch_delivery_once,
}
use lending_bank_gateway.WedapDelivery.Rounds.Progress.{IsAlone, Ahead, Has, Holds, Has-update}
use lending_bank_gateway.WedapDelivery.Rounds.Progress.Turn.{dispatch_task-other, dispatch_task-own}

weaken :
    (policy : Policy) (k at : ℕ) (r : WedapImportDeliveryTask)
    → Ahead policy (k + 1) at r
    → Ahead policy k at r
weaken policy k at r h = ground arith

module _ (policy : Policy) (id now at : ℕ)
    (late : now + policy.base_seconds * 2 ^ policy.max_attempts ≤ at) (w : Carrier)
    (alone : IsAlone id w) where
  dispatch_task-Holds :
      (k : ℕ) (t : WedapImportDeliveryTask) (rows : List WedapImportDeliveryTask)
      → Holds policy id k at rows
      → Holds policy id k at (dispatch_task policy w now t rows).1
  dispatch_task-Holds k t rows (r, h, ahead) = elim (Bool-cases (t.id == id)) [
    | inl own ↦
        let (r', h', ahead') =
          dispatch_task-own policy id now at w alone t k r rows h ahead late (ground arith) in
        (r', h', weaken policy k at r' ahead')
    | inr other ↦
        let e : has_id id r ≡ true = find-holds (has_id id) r rows h.there in
        dispatch_task-other policy id now at w alone t k r rows h ahead (ground arith)
  ]

  dispatch_tasks-Holds :
      (k : ℕ) (ts rows : List WedapImportDeliveryTask)
      → Holds policy id k at rows
      → Holds policy id k at (dispatch_tasks policy w now ts rows).1
  unfolding dispatch_tasks
  dispatch_tasks-Holds k [] rows h = h
  dispatch_tasks-Holds k (t ∷ ts) rows h =
      dispatch_tasks-Holds k ts _ (dispatch_task-Holds k t rows h)

  -- a task that is in the round's list is one attempt on
  dispatch_tasks-advances :
      (k : ℕ) (ts rows : List WedapImportDeliveryTask)
      → is_some (find (has_id id) ts) ≡ true
      → Holds policy id k at rows
      → Holds policy id (k + 1) at (dispatch_tasks policy w now ts rows).1
  unfolding dispatch_tasks
  dispatch_tasks-advances k [] rows listed h = cc
  dispatch_tasks-advances k (t ∷ ts) rows listed (r, h, ahead) = elim (Bool-cases (t.id == id)) [
    | inl own ↦
        dispatch_tasks-Holds (k + 1) ts _
          (dispatch_task-own policy id now at w alone t k r rows h ahead late (ground arith))
    | inr other ↦
        dispatch_tasks-advances k ts _ (rw other at listed)
          (dispatch_task-Holds k t rows (r, h, ahead))
  ]

due_tasks-has :
    (now id : ℕ) (r : WedapImportDeliveryTask) (rows : List WedapImportDeliveryTask)
    → is_due now r ≡ true
    → task_of id rows ≡ some r
    → is_some (find (has_id id) (due_tasks now rows)) ≡ true
unfolding due_tasks
due_tasks-has now id r [] due there = cc
due_tasks-has now id r (x ∷ rows) due there = ground (arith, due_tasks-has now id r rows due)

has_come-later :
    (now at : ℕ) (t : Option ℕ) → now ≤ at → has_come now t ≡ true → has_come at t ≡ true
has_come-later now at none later h = refl
has_come-later now at (some t) later h = ground arith

Ahead-later :
    (policy : Policy) (k now at : ℕ) (r : WedapImportDeliveryTask)
    → now ≤ at
    → Ahead policy k now r
    → Ahead policy k at r
Ahead-later policy k now at r later (inl final) = inl final
Ahead-later policy k now at r later (inr (pending, used, left, due)) =
    inr (pending, used, left, has_come-later now at r.next_retry_at later due)

module _ (policy : Policy) (id now at timeout : ℕ)
    (late : now + policy.base_seconds * 2 ^ policy.max_attempts ≤ at) (w : Carrier)
    (alone : IsAlone id w) where
  reclaimed :
      (k : ℕ) (rows : List WedapImportDeliveryTask)
      → Holds policy id k now rows
      → Holds policy id k now (reclaim_stale_sending now timeout rows)
  unfolding reclaim_stale_sending
  reclaimed k rows (r, h, ahead) =
      let kept : is_stale now timeout r ≡ false = ground arith in
      (
        r,
        rw kept at (
            Has-update id r rows (is_stale now timeout)
              (λ x. record x { status = DeliveryStatus.pending; locked_at = none }) (λ x. refl) h),
        ahead,
      )

  -- A round takes a task that is due one attempt on, or finishes it.
  pub round_advances :
      (k : ℕ) (rows : List WedapImportDeliveryTask)
      → Holds policy id k now rows
      → Holds policy id (k + 1) at (dispatch_delivery_once policy w now timeout rows).1
  unfolding dispatch_delivery_once
  round_advances k rows h =
      let (r, has, ahead) = reclaimed k rows h in
      let ready = reclaim_stale_sending now timeout rows in
      let later : Holds policy id k at ready =
        (r, has, Ahead-later policy k now at r (grind arith) ahead) in
      elim (Bool-cases (is_pending r.status)) [
        | inl pending ↦
            dispatch_tasks-advances policy id now at late w alone k (due_tasks now ready) ready
              (due_tasks-has now id r ready (ground arith) has.there) later
        | inr settled ↦
            dispatch_tasks-Holds policy id now at late w alone (k + 1) (due_tasks now ready) ready
              (r, has, inl (ground arith))
      ]

-- rounds that start at these times, one after the other; what happens in a round may differ
pub rounds :
    Policy
    → (ℕ → Carrier)
    → ℕ
    → List ℕ
    → List WedapImportDeliveryTask
    → List WedapImportDeliveryTask
rounds policy w timeout [] rows = rows
rounds policy w timeout (now ∷ times) rows =
    rounds policy w timeout times (dispatch_delivery_once policy (w now) now timeout rows).1

-- a round starts when the longest wait of the round before is over
abbrev Waits : Policy → ℕ → List ℕ → Type 0
Waits policy now [] = Unit
Waits policy now (next ∷ times) = now + policy.base_seconds * 2 ^ policy.max_attempts ≤ next

abbrev pub Spaced : Policy → List ℕ → Type 0
Spaced policy [] = Unit
Spaced policy (now ∷ times) = Waits policy now times × Spaced policy times

module _ (policy : Policy) (w : ℕ → Carrier) (timeout id : ℕ)
    (alone : (now : ℕ) → IsAlone id (w now)) where
  used_up :
      (k at : ℕ) (rows : List WedapImportDeliveryTask)
      → Holds policy id k at rows
      → policy.max_attempts ≤ k
      → (r : WedapImportDeliveryTask) × (task_of id rows ≡ some r) × (is_final r.status ≡ true)
  used_up k at rows (r, h, ahead) spent = (r, h.there, ground arith)

  rounds-Holds :
      (now k : ℕ) (times : List ℕ) (rows : List WedapImportDeliveryTask)
      → Spaced policy (now ∷ times)
      → policy.max_attempts ≤ k + length (now ∷ times)
      → Holds policy id k now rows
      → (r : WedapImportDeliveryTask) × (task_of id (rounds policy w timeout (now ∷ times) rows)
          ≡ some r)
        × (is_final r.status ≡ true)
  unfolding rounds
  rounds-Holds now k [] rows spaced enough h =
      used_up (k + 1) (now + policy.base_seconds * 2 ^ policy.max_attempts)
        (dispatch_delivery_once policy (w now) now timeout rows).1
        (round_advances policy id now _ timeout (omega arith) (w now) (alone now) k rows h)
        (omega arith)
  rounds-Holds now k (next ∷ times) rows spaced enough h =
      rounds-Holds next (k + 1) times (dispatch_delivery_once policy (w now) now timeout rows).1
        spaced.1 (omega arith)
        (round_advances policy id now next timeout spaced.0 (w now) (alone now) k rows h)

  -- A task that is due and has attempts left is DELIVERED or FAILED after as many rounds as it has
  -- attempts left, however its deliveries end, if the ids are a key, the rounds are spaced by the
  -- longest wait, and other transactions leave the task alone meanwhile.
  pub rounds-finish :
      (now : ℕ) (times : List ℕ) (rows : List WedapImportDeliveryTask) (r : WedapImportDeliveryTask)
      → Has id r rows
      → is_due now r ≡ true
      → r.attempts < policy.max_attempts
      → Spaced policy (now ∷ times)
      → policy.max_attempts ≤ r.attempts + length (now ∷ times)
      → (r' : WedapImportDeliveryTask) × (task_of id (rounds policy w timeout (now ∷ times) rows)
          ≡ some r')
        × (is_final r'.status ≡ true)
  rounds-finish now times rows r has due left spaced enough =
      rounds-Holds now r.attempts times rows spaced enough
        (r, has, inr (ground arith, omega arith, left, ground arith))
