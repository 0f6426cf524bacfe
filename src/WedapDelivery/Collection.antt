-- ===== src/WedapDelivery/Collection.antt =====
-- Who collects wedap's result of a file, and that it is collected once.
use lending_bank_gateway.Prelude.{
  ℕ, ◌≡◌, ◌≢◌, refl, ◌∙◌, Bool, true, false, String, eq_iff, Option, some, List, [], ◌∷◌, find,
  find-append, update_where, find-update_where, if◌then◌else◌, arith,
}
use lending_bank_gateway.WedapDelivery.{
  WedapImportDeliveryTask, Batch, Policy, Delivered, has_id, is_stale, reclaim_stale_sending,
  is_claimable, claim, settle, finish_delivery, is_collectable, claim_result, is_own_lock,
  release_result_lock, mark_result_collected,
}
use lending_bank_gateway.WedapDelivery.Enqueue.{new_task, enqueue_delivery}
use lending_bank_gateway.WedapDelivery.Receipts.{
  mark_callback_sent, is_receipt_claimable, claim_callback,
}

abbrev pub task_of : ℕ → List WedapImportDeliveryTask → Option WedapImportDeliveryTask
task_of id rows = find (has_id id) rows

-- one transaction on the tasks that are there
pub data Move (rows : List WedapImportDeliveryTask) : List WedapImportDeliveryTask → Type 0 where
  reclaims : (now timeout : ℕ) → Move rows (reclaim_stale_sending now timeout rows)
  claims : (id now : ℕ) → Move rows (claim id now rows).1
  finishes :
      (policy : Policy) (now accepted_now id : ℕ) (result : Delivered)
      → Move rows (finish_delivery policy now accepted_now id result rows)
  locks :
      (now timeout id : ℕ) (token : String) → Move rows (claim_result now timeout id token rows).1
  releases : (id : ℕ) (token : String) → Move rows (release_result_lock id token rows)
  marks : (now id : ℕ) (token : String) → Move rows (mark_result_collected now id token rows).1
  sends : (id now : ℕ) → Move rows (mark_callback_sent id now rows)
  locks_receipt : (now timeout id : ℕ) → Move rows (claim_callback now timeout id rows).1
  enqueues :
      (id now : ℕ) (batch : Batch) (task : WedapImportDeliveryTask)
      (rows' : List WedapImportDeliveryTask)
      → enqueue_delivery id now batch rows ≡ some (task, rows')
      → Move rows rows'

-- any number of transactions, one after the other
pub data Moves (rows : List WedapImportDeliveryTask) : List WedapImportDeliveryTask → Type 0 where
  done : Moves rows rows
  after :
      (mid rows' : List WedapImportDeliveryTask)
      → Moves rows mid
      → Move mid rows'
      → Moves rows rows'

settle-keeps :
    (policy : Policy) (now accepted_now : ℕ) (result : Delivered) (r : WedapImportDeliveryTask)
    → ((settle policy now accepted_now result r).id ≡ r.id)
      × ((settle policy now accepted_now result r).result_collected_at ≡ r.result_collected_at)
      × ((settle policy now accepted_now result r).batch ≡ r.batch)
unfolding settle
settle-keeps policy now accepted_now (Delivered.accepted path) r = (refl, refl, refl)
settle-keeps policy now accepted_now (Delivered.raised e) r = ground arith

module _ (rows : List WedapImportDeliveryTask) (id t : ℕ) (r : WedapImportDeliveryTask)
    (found : task_of id rows ≡ some r) where
  abbrev Stays : List WedapImportDeliveryTask → Type 0
  Stays rows' =
      (r' : WedapImportDeliveryTask) × (task_of id rows' ≡ some r')
      × (r'.result_collected_at ≡ some t)
      × (r'.batch ≡ r.batch)

  -- an update that keeps ids, batches and the time of collection of what is collected
  updated :
      (p : WedapImportDeliveryTask → Bool) (f : WedapImportDeliveryTask → WedapImportDeliveryTask)
      → ((x : WedapImportDeliveryTask) → (f x).id ≡ x.id)
      → ((x : WedapImportDeliveryTask) → (f x).batch ≡ x.batch)
      → (p r ≡ true → (f r).result_collected_at ≡ some t)
      → r.result_collected_at ≡ some t
      → Stays (update_where p f rows)
  updated p f same_id same_batch keep was = (
    if p r then f r else r,
    find-update_where (has_id id) p f rows (λ x _. ground (arith, same_id x)) ∙ rw found refl,
    ground (arith, keep),
    ground (arith, same_batch r),
  )

  Move-collected :
      (rows' : List WedapImportDeliveryTask)
      → Move rows rows'
      → r.result_collected_at ≡ some t
      → (r' : WedapImportDeliveryTask) × (task_of id rows' ≡ some r')
        × (r'.result_collected_at ≡ some t)
        × (r'.batch ≡ r.batch)
  unfolding reclaim_stale_sending claim finish_delivery claim_result release_result_lock
      mark_result_collected mark_callback_sent claim_callback enqueue_delivery
  Move-collected _ (reclaims now timeout) was =
      updated (is_stale now timeout) _ (λ x. refl) (λ x. refl) (λ _. was) was
  Move-collected _ (claims id' now) was =
      updated (is_claimable id') _ (λ x. refl) (λ x. refl) (λ _. was) was
  Move-collected _ (finishes policy now accepted_now id' result) was =
      updated (has_id id') (settle policy now accepted_now result)
        (λ x. (settle-keeps policy now accepted_now result x).0)
        (λ x. (settle-keeps policy now accepted_now result x).2)
        (λ _. (settle-keeps policy now accepted_now result r).1 ∙ was) was
  Move-collected _ (locks now timeout id' token) was =
      updated (is_collectable now timeout id') _ (λ x. refl) (λ x. refl) (λ _. was) was
  Move-collected _ (releases id' token) was =
      updated (is_own_lock id' token) _ (λ x. refl) (λ x. refl) (λ _. was) was
  Move-collected _ (marks now id' token) was =
      updated (is_own_lock id' token) _ (λ x. refl) (λ x. refl) (λ h. ground arith) was
  Move-collected _ (sends id' now) was =
      updated (has_id id') _ (λ x. refl) (λ x. refl) (λ _. was) was
  Move-collected _ (locks_receipt now timeout id') was =
      updated (is_receipt_claimable now timeout id') _ (λ x. refl) (λ x. refl) (λ _. was) was
  Move-collected _ (enqueues id' now batch task rows' e) was =
      (r, ground (arith, find-append (has_id id) rows (new_task id' now batch ∷ [])), was, refl)

module _ (rows : List WedapImportDeliveryTask) (id t : ℕ) (r : WedapImportDeliveryTask)
    (found : task_of id rows ≡ some r) (was : r.result_collected_at ≡ some t) where
  -- Once the result of a task has been collected, any number of transactions of dispatchers,
  -- collectors and recon keep the task, its batch and the time of the collection: it is not
  -- collected again.
  pub Moves-collected :
      (rows' : List WedapImportDeliveryTask)
      → Moves rows rows'
      → (r' : WedapImportDeliveryTask) × (task_of id rows' ≡ some r')
        × (r'.result_collected_at ≡ some t)
        × (r'.batch ≡ r.batch)
  Moves-collected _ done = (r, found, was, refl)
  Moves-collected rows' (after mid _ ms m) =
      let (q, there, still, same) = Moves-collected mid ms in
      let (q', there', still', same') = Move-collected mid id t q there rows' m still in
      (q', there', still', same' ∙ same)

-- When a task's result is locked with one token, neither the release nor the mark of a collector with
-- another token changes the task.
pub late_collector :
    (rows : List WedapImportDeliveryTask) (id now : ℕ) (r : WedapImportDeliveryTask)
    (token old : String)
    → task_of id rows ≡ some r
    → r.result_lock_token ≡ some token
    → old ≢ token
    → (task_of id (release_result_lock id old rows) ≡ some r)
      × (task_of id (mark_result_collected now id old rows).1 ≡ some r)
unfolding release_result_lock mark_result_collected
late_collector rows id now r token old found locked other =
    let not_own : is_own_lock id old r ≡ false = ground (arith, eq_iff token old) in
    (
      find-update_where (has_id id) (is_own_lock id old) _ rows (λ x _. refl)
          ∙ rw (found, not_own) refl,
      find-update_where (has_id id) (is_own_lock id old) _ rows (λ x _. refl)
          ∙ rw (found, not_own) refl,
    )
