-- ===== src/Outbox/Dispatch/Rows.antt =====
-- The transactions of the dispatchers and of the operator on the outbox, in any order: what each
-- leaves of a row.
use lending_bank_gateway.Prelude.{
  ℕ, subst, ◌⊎◌, ◌≤◌, ◌<◌, ◌≡◌, refl, sym, ap, ◌∙◌, true, false, ◌==◌, String, none, some, List, [],
  ◌∷◌, find, find-holds, update_where, find-update_where, All, All-update_where, is_some, arith,
  Bool-cases, Option-cases, inl, inr,
}
use lending_bank_gateway.Db.{Db, CallbackOutbox, OutboxStatus}
use lending_bank_gateway.Outbox.Dispatch.{
  has_id, is_sending, is_dead, is_stale, is_claimable, claimed, claim, reclaimed,
  reclaim_stale_sending, is_own_claim, settle, finalize_after_send, replay_dead, Policy, Sent,
}
use lending_bank_gateway.Outbox.Dispatch.Ownership.{row_of, Unique}

-- One transaction of a dispatcher or of the operator. A replica counts from the attempts that it has
-- read of the row that it owns.
pub data Delivery (policy : Policy) (db : Db) : Db → Type 0 where
  reclaims : (now : ℕ) → Delivery policy db (reclaim_stale_sending now policy.claim_timeout db)
  claims : (now at id : ℕ) (token : String) → Delivery policy db (claim now at id token db).1
  finishes :
      (at id : ℕ) (token : String) (n : ℕ) (sent : Sent)
      → All (λ r. is_own_claim id token r ≡ true → r.attempts ≡ n) db.outbox
      → Delivery policy db (finalize_after_send policy at id token n sent db).1
  replays : (id : ℕ) → Delivery policy db (replay_dead id db).1

abbrev IsCount : ℕ → OutboxStatus → ℕ → Type 0
IsCount max OutboxStatus.dead n = n ≡ max
IsCount max OutboxStatus.sent n = n ≤ max
IsCount max _ n = n < max

-- A row that can still be sent has attempts left, a dead one has used all; and just the rows that are
-- being sent have an owner.
pub record IsRow (max : ℕ) (r : CallbackOutbox) : Type 0 where
  pub count : IsCount max r.status r.attempts
  pub owned : is_some r.claim_token ≡ is_sending r.status

module _ (policy : Policy) where
  abbrev Good : CallbackOutbox → Type 0
  Good r = IsRow policy.max_attempts r

  reclaimed-IsRow :
      (now : ℕ) (r : CallbackOutbox)
      → is_stale now policy.claim_timeout r ≡ true
      → Good r
      → Good (reclaimed r)
  reclaimed-IsRow now r hit h = record { count = ground (arith, h.count); owned = refl }

  claimed-IsRow :
      (now at id : ℕ) (token : String) (r : CallbackOutbox)
      → is_claimable now id r ≡ true
      → Good r
      → Good (claimed at token r)
  claimed-IsRow now at id token r hit h = record { count = ground (arith, h.count); owned = refl }

  settle-IsRow :
      (at id : ℕ) (token : String) (n : ℕ) (sent : Sent) (r : CallbackOutbox)
      → is_own_claim id token r ≡ true
      → Good r × (is_own_claim id token r ≡ true → r.attempts ≡ n)
      → Good (settle policy at n sent r)
  settle-IsRow at id token n sent r hit h =
      let same : r.attempts ≡ n = h.1 hit in
      record { count = ground (arith, h.0.count); owned = ground arith }

  zip :
      (P Q : CallbackOutbox → Type 0) (rows : List CallbackOutbox)
      → All P rows
      → All Q rows
      → All (λ r. P r × Q r) rows
  zip P Q [] p q = tt
  zip P Q (r ∷ rows) p q = ((p.0, q.0), zip P Q rows p.1 q.1)

  strangers :
      (id : ℕ) (r x : CallbackOutbox) (rows : List CallbackOutbox)
      → has_id id x ≡ true
      → All (λ q. (q.id == x.id) ≡ false) rows
      → All (λ q. has_id id q ≡ true → q ≡ r) rows
  strangers id r x [] hit h = tt
  strangers id r x (q ∷ rows) hit h = (λ e. ground (arith, h.0), strangers id r x rows hit h.1)

  pub only_row :
      (id : ℕ) (r : CallbackOutbox) (rows : List CallbackOutbox)
      → Unique rows
      → find (has_id id) rows ≡ some r
      → All (λ q. has_id id q ≡ true → q ≡ r) rows
  only_row id r [] u found = tt
  only_row id r (x ∷ rows) u found = elim (Bool-cases (has_id id x)) [
    | inl hit ↦ (λ _. ground arith, strangers id r x rows hit u.0)
    | inr miss ↦ (λ h. cc, only_row id r rows u.1 (ground arith))
  ]

  abbrev pub replayed : CallbackOutbox → CallbackOutbox
  replayed q = record q { status = OutboxStatus.pending; attempts = 0; next_retry_at = none }

  replayed-IsRow :
      (id : ℕ) (r q : CallbackOutbox)
      → 0 < policy.max_attempts
      → is_dead r.status ≡ true
      → has_id id q ≡ true
      → Good q × (has_id id q ≡ true → q ≡ r)
      → Good (replayed q)
  replayed-IsRow id r q some_left dead hit h =
      let same : q ≡ r = h.1 hit in record { count = some_left; owned = ground (arith, h.0.owned) }

  -- what the operator's replay does to the rows: nothing, or it resets a dead row
  pub replay_dead-rows :
      (id : ℕ) (db : Db)
      → ((replay_dead id db).1.outbox ≡ db.outbox)
        ⊎ ((r : CallbackOutbox) × (find (has_id id) db.outbox ≡ some r)
            × (is_dead r.status ≡ true)
            × ((replay_dead id db).1.outbox ≡ update_where (has_id id) replayed db.outbox))
  unfolding replay_dead
  replay_dead-rows id db = elim (Option-cases (find (has_id id) db.outbox)) [
    | inl missing ↦ inl (ground arith)
    | inr (r, found) ↦ elim (Bool-cases (is_dead r.status)) [
      | inr other ↦ inl (ground arith)
      | inl dead ↦ inr (r, found, dead, ground arith)
    ]
  ]

  replay_dead-IsRow :
      (id : ℕ) (db : Db)
      → 0 < policy.max_attempts
      → Unique db.outbox
      → All Good db.outbox
      → All Good (replay_dead id db).1.outbox
  replay_dead-IsRow id db some_left u h = elim (replay_dead-rows id db) [
    | inl same ↦ subst (λ rows. All Good rows) (sym same) h
    | inr (r, found, dead, e) ↦
        subst (λ rows. All Good rows) (sym e)
          (All-update_where (λ q. Good q × (has_id id q ≡ true → q ≡ r)) Good (has_id id) replayed
            db.outbox (λ q. replayed-IsRow id r q some_left dead) (λ q p. p.0)
            (zip Good (λ q. has_id id q ≡ true → q ≡ r) db.outbox h
              (only_row id r db.outbox u found)))
  ]

  -- When at least one attempt is allowed and the ids are a key, each transaction of a dispatcher or of
  -- the operator keeps every row well formed: a row that can still be sent has attempts left, a dead
  -- one has used them all, and exactly the rows that are being sent have a claim token.
  pub Delivery-IsRow :
      (db db' : Db)
      → 0 < policy.max_attempts
      → Unique db.outbox
      → Delivery policy db db'
      → All (IsRow policy.max_attempts) db.outbox
      → All (IsRow policy.max_attempts) db'.outbox
  unfolding reclaim_stale_sending claim finalize_after_send replay_dead
  Delivery-IsRow db _ some_left u (reclaims now) h =
      All-update_where Good Good _ reclaimed db.outbox (reclaimed-IsRow now) (λ r g. g) h
  Delivery-IsRow db _ some_left u (claims now at id token) h =
      All-update_where Good Good _ (claimed at token) db.outbox (claimed-IsRow now at id token)
        (λ r g. g) h
  Delivery-IsRow db _ some_left u (finishes at id token n sent read) h =
      All-update_where (λ r. Good r × (is_own_claim id token r ≡ true → r.attempts ≡ n)) Good _
        (settle policy at n sent) db.outbox (settle-IsRow at id token n sent) (λ r g. g.0)
        (zip Good (λ r. is_own_claim id token r ≡ true → r.attempts ≡ n) db.outbox h read)
  Delivery-IsRow db _ some_left u (replays id) h = replay_dead-IsRow id db some_left u h

  replay_dead-sent :
      (db : Db) (id id' : ℕ) (r : CallbackOutbox)
      → row_of id db ≡ some r
      → r.status ≡ OutboxStatus.sent
      → row_of id (replay_dead id' db).1 ≡ some r
  replay_dead-sent db id id' r found was = elim (replay_dead-rows id' db) [
    | inl same ↦ ap (λ rows. find (has_id id) rows) same ∙ found
    | inr (r', found', dead, e) ↦
        ap (λ rows. find (has_id id) rows) e
        ∙ find-update_where (has_id id) (has_id id') replayed db.outbox (λ x _. refl)
        ∙ elim (Bool-cases (id == id')) [
          | inl same_id ↦ ground arith
          | inr other ↦ ground (arith, find-holds (has_id id) r db.outbox found)
        ]
  ]

  -- A row that was sent is left as it is by each transaction of a dispatcher or of the operator.
  pub Delivery-sent :
      (db db' : Db) (id : ℕ) (r : CallbackOutbox)
      → row_of id db ≡ some r
      → r.status ≡ OutboxStatus.sent
      → Delivery policy db db'
      → row_of id db' ≡ some r
  unfolding reclaim_stale_sending claim finalize_after_send replay_dead
  Delivery-sent db _ id r found was (reclaims now) =
      find-update_where (has_id id) (is_stale now policy.claim_timeout) reclaimed db.outbox
        (λ x _. refl)
      ∙ ground arith
  Delivery-sent db _ id r found was (claims now at id' token) =
      find-update_where (has_id id) (is_claimable now id') (claimed at token) db.outbox
        (λ x _. refl)
      ∙ ground arith
  Delivery-sent db _ id r found was (finishes at id' token n sent read) =
      find-update_where (has_id id) (is_own_claim id' token) (settle policy at n sent) db.outbox
        (λ x _. ground arith)
      ∙ ground arith
  Delivery-sent db _ id r found was (replays id') = replay_dead-sent db id id' r found was
