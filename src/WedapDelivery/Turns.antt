-- ===== src/WedapDelivery/Turns.antt =====
-- How the turn of a task ends.
use lending_bank_gateway.Prelude.{
  ℕ, [], ◌∷◌, Bool, Option, none, find, is_some, ltb, ◌+◌, ◌*◌, ◌-◌, ◌^◌, ◌<◌, ◌≡◌, ◌⊎◌, inl, inr,
  refl, ap, ◌∙◌, true, leb, String, some, List, find-holds, find-update_where, Bool-cases, arith,
}
use lending_bank_gateway.WedapDelivery.{
  WedapImportDeliveryTask, DeliveryStatus, Policy, Window, deadline_after, compute_result_deadline,
  Delivered, accepted, raised, has_id, settle, finish_delivery, is_pending, is_claimable, claim,
  is_stale, reclaim_stale_sending,
}
use lending_bank_gateway.WedapDelivery.Collection.{task_of}

-- An accepted file is delivered, with a deadline for its result, where the policy has one, that lies
-- the watchdog's window and the buffer after the acceptance; a failure uses up one attempt, and closes the task or puts it back
-- with an exponential delay.
abbrev pub Ends :
    Policy → ℕ → ℕ → Delivered → WedapImportDeliveryTask → WedapImportDeliveryTask → Type 0
Ends policy now accepted_now (accepted path) r r' =
    (r'.status ≡ DeliveryStatus.delivered)
    × (r'.accepted_at ≡ some accepted_now)
    × ((w : Window)
        → policy.result_deadline ≡ some w
        → r'.result_deadline_at
          ≡ some (accepted_now + (w.watchdog_hours * 3600 + w.buffer_minutes * 60)))
Ends policy now accepted_now (raised error) r r' =
    (r'.last_error ≡ some error)
    × (r'.attempts ≡ r.attempts + 1)
    × (((r'.status ≡ DeliveryStatus.failed) × (r'.attempts ≡ policy.max_attempts))
        ⊎ ((r'.status ≡ DeliveryStatus.pending)
            × (r'.attempts < policy.max_attempts)
            × (r'.next_retry_at ≡ some (now + policy.base_seconds * 2 ^ r.attempts))))

back : (n : ℕ) → n + 1 - 1 ≡ n
back n = omega arith

settle-Ends :
    (policy : Policy) (now accepted_now : ℕ) (result : Delivered) (r : WedapImportDeliveryTask)
    → r.attempts < policy.max_attempts
    → Ends policy now accepted_now result r (settle policy now accepted_now result r)
unfolding settle compute_result_deadline
settle-Ends policy now accepted_now (accepted path) r left =
    (refl, refl, λ w given. ap (λ o. deadline_after o accepted_now r.result_deadline_at) given)
settle-Ends policy now accepted_now (raised error) r left =
    elim (Bool-cases (leb policy.max_attempts (r.attempts + 1))) [
      | inl last ↦ rw last (refl, refl, inl (refl, ground arith))
      | inr more ↦ rw more (
        refl,
        refl,
        inr (
          refl,
          ground arith,
          ap (λ n. some (now + policy.base_seconds * 2 ^ n)) (back r.attempts),
        ),
      )
    ]

pub settle-id :
    (policy : Policy) (now accepted_now : ℕ) (result : Delivered) (r : WedapImportDeliveryTask)
    → (settle policy now accepted_now result r).id ≡ r.id
unfolding settle
settle-id policy now accepted_now (accepted path) r = refl
settle-id policy now accepted_now (raised error) r = ground arith

module _ (policy : Policy) (now accepted_now id : ℕ) (result : Delivered)
    (rows : List WedapImportDeliveryTask) (r : WedapImportDeliveryTask)
    (found : task_of id rows ≡ some r) where
  finished :
      task_of id (finish_delivery policy now accepted_now id result rows)
      ≡ some (settle policy now accepted_now result r)
  unfolding finish_delivery
  finished =
      let own : has_id id r ≡ true = find-holds (has_id id) r rows found in
      find-update_where (has_id id) (has_id id) (settle policy now accepted_now result) rows
        (λ x _. ground (arith, settle-id policy now accepted_now result x))
      ∙ rw (found, own) refl

  -- The turn of a task that has attempts left ends in one of these ways: accepted, it is DELIVERED with
  -- a deadline for its result, if the policy has one;
  -- else one more attempt is used, and it is FAILED if that was the last, or PENDING with an
  -- exponential delay.
  pub finish_delivery-Ends :
      r.attempts < policy.max_attempts
      → (r' : WedapImportDeliveryTask) × (task_of id
            (finish_delivery policy now accepted_now id result rows)
          ≡ some r')
        × Ends policy now accepted_now result r r'
  finish_delivery-Ends left = (
    settle policy now accepted_now result r,
    finished,
    settle-Ends policy now accepted_now result r left,
  )

-- a claim finds a task that is pending
claimable_there :
    (id : ℕ) (rows : List WedapImportDeliveryTask) (r : WedapImportDeliveryTask)
    → task_of id rows ≡ some r
    → is_pending r.status ≡ true
    → is_some (find (is_claimable id) rows) ≡ true
claimable_there id [] r found pending = ground arith
claimable_there id (x ∷ rows) r found pending = ground (arith, claimable_there id rows r)

abbrev sending_since : ℕ → WedapImportDeliveryTask → WedapImportDeliveryTask
sending_since now r = record r { status = DeliveryStatus.sending; locked_at = some now }

claim-takes :
    (id now : ℕ) (rows : List WedapImportDeliveryTask) (r : WedapImportDeliveryTask)
    → task_of id rows ≡ some r
    → is_pending r.status ≡ true
    → ((claim id now rows).0 ≡ true)
      × (task_of id (claim id now rows).1 ≡ some (sending_since now r))
unfolding claim
claim-takes id now rows r found pending =
    let own : has_id id r ≡ true = find-holds (has_id id) r rows found in
    (
      claimable_there id rows r found pending,
      find-update_where (has_id id) (is_claimable id) (sending_since now) rows (λ x _. refl)
          ∙ rw (found, own, pending) refl,
    )

reclaim-takes :
    (id now timeout at : ℕ) (rows : List WedapImportDeliveryTask) (r : WedapImportDeliveryTask)
    → task_of id rows ≡ some (sending_since at r)
    → at + timeout < now
    → task_of id (reclaim_stale_sending now timeout rows)
      ≡ some (record r { status = DeliveryStatus.pending; locked_at = none })
unfolding reclaim_stale_sending
reclaim-takes id now timeout at rows r found late =
    let old : ltb (at + timeout) now ≡ true = ground arith in
    find-update_where (has_id id) (is_stale now timeout)
      (λ x. record x { status = DeliveryStatus.pending; locked_at = none }) rows (λ x _. refl)
    ∙ rw (found, old) refl

module _ (policy : Policy) (id timeout : ℕ) (rows : List WedapImportDeliveryTask)
    (claimed reclaimed again finished_at accepted_at late_at late_clock : ℕ)
    (path : Option (Option String)) (error : String) where
  -- a replica claims the task and stalls; another reclaims it, claims it and delivers it
  abbrev pub first : Bool × List WedapImportDeliveryTask
  first = claim id claimed rows

  abbrev pub second : Bool × List WedapImportDeliveryTask
  second = claim id again (reclaim_stale_sending reclaimed timeout first.1)

  abbrev pub delivered_rows : List WedapImportDeliveryTask
  delivered_rows = finish_delivery policy finished_at accepted_at id (accepted path) second.1

  -- the first replica's delivery then fails
  abbrev pub reopened_rows : List WedapImportDeliveryTask
  reopened_rows = finish_delivery policy late_at late_clock id (raised error) delivered_rows

  -- A replica claims a task that is PENDING, with at least three attempts left, and stalls for longer
  -- than the timeout of claims; another replica reclaims the task, claims it too and delivers it: it
  -- is DELIVERED. When the first replica's delivery fails after that, the task is PENDING again, with
  -- its batch, while the time of wedap's acceptance is still on it.
  pub finish_delivery-reopens :
      (r : WedapImportDeliveryTask)
      → task_of id rows ≡ some r
      → is_pending r.status ≡ true
      → claimed + timeout < reclaimed
      → r.attempts + 2 < policy.max_attempts
      → (first.0 ≡ true)
        × (second.0 ≡ true)
        × ((done : WedapImportDeliveryTask) × (task_of id delivered_rows ≡ some done)
            × (done.status ≡ DeliveryStatus.delivered))
        × ((late : WedapImportDeliveryTask) × (task_of id reopened_rows ≡ some late)
            × (late.status ≡ DeliveryStatus.pending)
            × (late.batch ≡ r.batch)
            × (late.accepted_at ≡ some accepted_at))
  finish_delivery-reopens r found pending stale left =
      let (won, taken) = claim-takes id claimed rows r found pending in
      let back = reclaim-takes id reclaimed timeout claimed first.1 r taken stale in
      let (won', taken') =
        claim-takes id again (reclaim_stale_sending reclaimed timeout first.1) _ back refl in
      let done = finished policy finished_at accepted_at id (accepted path) second.1 _ taken' in
      let late = finished policy late_at late_clock id (raised error) delivered_rows _ done in
      (
        won,
        won',
        (_, done, unfold settle in refl),
        (
          _,
          late,
          unfold settle in ground arith,
          unfold settle in ground arith,
          unfold settle in ground arith,
        ),
      )
