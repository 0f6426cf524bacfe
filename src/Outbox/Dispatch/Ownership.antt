-- ===== src/Outbox/Dispatch/Ownership.antt =====
-- Which replica owns an outbox row: the claim and the compare-and-set of app/services/outbox.py.
use lending_bank_gateway.Prelude.{
  ℕ, ◌≡◌, ◌≢◌, refl, sym, ap, subst, ◌∙◌, Bool, true, false, ◌==◌, String, eq_iff, eq_refl, Option,
  none, some, List, [], ◌∷◌, find, update_where, update_where-none, find-update_where, find-holds,
  All, if◌then◌else◌, arith, Bool-cases, inl, inr,
}
use lending_bank_gateway.Db.{Db, CallbackOutbox}
use lending_bank_gateway.Outbox.Dispatch.{
  has_id, is_claimable, claimed, claim, is_own_claim, settle, finalize_after_send, Policy, Sent,
}

-- the ids are a key
abbrev pub Unique : List CallbackOutbox → Type 0
Unique [] = Unit
Unique (r ∷ rows) = All (λ q. (q.id == r.id) ≡ false) rows × Unique rows

abbrev pub row_of : ℕ → Db → Option CallbackOutbox
row_of id db = find (has_id id) db.outbox

module _ (id : ℕ) (p : CallbackOutbox → Bool)
    (narrow : (x : CallbackOutbox) → p x ≡ true → has_id id x ≡ true) where
  find-others :
      (r : CallbackOutbox) (rows : List CallbackOutbox)
      → has_id id r ≡ true
      → All (λ q. (q.id == r.id) ≡ false) rows
      → find p rows ≡ none
  find-others r [] own h = refl
  find-others r (q ∷ rows) own h = ground (arith, narrow q, find-others r rows own h.1, h.0)

  pub find-none : (rows : List CallbackOutbox) → find (has_id id) rows ≡ none → find p rows ≡ none
  find-none [] h = refl
  find-none (x ∷ rows) h = ground (arith, narrow x, find-none rows)

  -- A test on one id finds the row of that id, or nothing.
  pub find-narrow :
      (r : CallbackOutbox) (rows : List CallbackOutbox)
      → Unique rows
      → find (has_id id) rows ≡ some r
      → find p rows ≡ (if p r then some r else none)
  find-narrow r [] u found = ground arith
  find-narrow r (x ∷ rows) u found = elim (Bool-cases (has_id id x)) [
    | inl own ↦ ground (arith, find-others x rows own u.0)
    | inr other ↦ ground (arith, narrow x, find-narrow r rows u.1)
  ]

module _ (now at id : ℕ) (token : String) (db : Db) (r : CallbackOutbox) (u : Unique db.outbox)
    (found : row_of id db ≡ some r) where
  -- the row as the claim leaves it
  pub row_of-claim :
      row_of id (claim now at id token db).1
      ≡ some (if is_claimable now id r then claimed at token r else r)
  unfolding claim
  row_of-claim =
      find-update_where (has_id id) (is_claimable now id) (claimed at token) db.outbox (λ x _. refl)
      ∙ rw found refl

  pub hit-claim : (claim now at id token db).0 ≡ is_claimable now id r
  unfolding claim
  hit-claim =
      ground (arith, find-narrow id (is_claimable now id) (λ x h. ground arith) r db.outbox u found)

-- updates that keep the ids
module _ (p : CallbackOutbox → Bool) (f : CallbackOutbox → CallbackOutbox)
    (same : (x : CallbackOutbox) → (f x).id ≡ x.id) where
  others-update_where :
      (n : ℕ) (rows : List CallbackOutbox)
      → All (λ q. (q.id == n) ≡ false) rows
      → All (λ q. (q.id == n) ≡ false) (update_where p f rows)
  others-update_where n [] h = tt
  others-update_where n (x ∷ rows) h = (ground (arith, same x, h.0), others-update_where n rows h.1)

  pub Unique-update_where :
      (rows : List CallbackOutbox) → Unique rows → Unique (update_where p f rows)
  Unique-update_where [] u = tt
  Unique-update_where (x ∷ rows) u = elim (Bool-cases (p x)) [
    | inl hit ↦ rw (hit, same x) (others-update_where x.id rows u.0, Unique-update_where rows u.1)
    | inr miss ↦ rw miss (others-update_where x.id rows u.0, Unique-update_where rows u.1)
  ]

pub Unique-claim :
    (now at id : ℕ) (token : String) (db : Db)
    → Unique db.outbox
    → Unique (claim now at id token db).1.outbox
unfolding claim
Unique-claim now at id token db u =
    Unique-update_where (is_claimable now id) (claimed at token) (λ x. refl) db.outbox u

pub Unique-finalize :
    (policy : Policy) (at id : ℕ) (token : String) (n : ℕ) (sent : Sent) (db : Db)
    → Unique db.outbox
    → Unique (finalize_after_send policy at id token n sent db).1.outbox
unfolding finalize_after_send
Unique-finalize policy at id token n sent db u =
    Unique-update_where (is_own_claim id token) (settle policy at n sent) (λ x. ground arith)
      db.outbox u

module _ (id : ℕ) (db : Db) (r : CallbackOutbox) (u : Unique db.outbox)
    (found : row_of id db ≡ some r) where
  -- a claim of a row that is not waiting
  claim-miss :
      (now at : ℕ) (token : String)
      → is_claimable now id r ≡ false
      → claim now at id token db ≡ (false, db)
  unfolding claim
  claim-miss now at token blocked =
      let gone : find (is_claimable now id) db.outbox ≡ none =
        ground
          (arith, find-narrow id (is_claimable now id) (λ x h. ground arith) r db.outbox u found) in
      rw (gone, update_where-none (is_claimable now id) (claimed at token) db.outbox gone) refl

  -- A replica whose claim is not the row's current one writes nothing back, and is told so.
  pub finalize-late :
      (policy : Policy) (at n : ℕ) (token : String) (sent : Sent)
      → is_own_claim id token r ≡ false
      → finalize_after_send policy at id token n sent db ≡ (false, db)
  unfolding finalize_after_send
  finalize-late policy at n token sent blocked =
      let gone : find (is_own_claim id token) db.outbox ≡ none =
        ground (
          arith,
          find-narrow id (is_own_claim id token) (λ x h. ground arith) r db.outbox u found,
        ) in
      rw (gone, update_where-none (is_own_claim id token) (settle policy at n sent) db.outbox gone)
        refl

  -- the owner writes the result of its post
  pub finalize-own :
      (policy : Policy) (at n : ℕ) (token : String) (sent : Sent)
      → is_own_claim id token r ≡ true
      → ((finalize_after_send policy at id token n sent db).0 ≡ true)
        × (row_of id (finalize_after_send policy at id token n sent db).1
            ≡ some (settle policy at n sent r))
  unfolding finalize_after_send
  finalize-own policy at n token sent own = (
    ground
        (arith, find-narrow id (is_own_claim id token) (λ x h. ground arith) r db.outbox u found),
    find-update_where (has_id id) (is_own_claim id token) (settle policy at n sent) db.outbox
          (λ x _. ground arith)
        ∙ rw (found, own) refl,
  )

module _ (now at id : ℕ) (token : String) (db db' : Db) (r : CallbackOutbox) (u : Unique db.outbox)
    (found : row_of id db ≡ some r) (hit : claim now at id token db ≡ (true, db')) where
  owned_row : row_of id db' ≡ some (claimed at token r)
  owned_row =
      let is_hit : is_claimable now id r ≡ true =
        sym (hit-claim now at id token db r u found) ∙ ap (λ x. x.0) hit in
      sym (ap (λ x. row_of id x.1) hit) ∙ row_of-claim now at id token db r u found ∙ rw is_hit refl

  owned_Unique : Unique db'.outbox
  owned_Unique = subst (λ x. Unique x.1.outbox) hit (Unique-claim now at id token db u)

  own_claim : is_own_claim id token (claimed at token r) ≡ true
  own_claim = ground (arith, find-holds (has_id id) r db.outbox found, eq_refl token)

  -- When the ids are a key, and a replica has claimed a row, no other claim of it succeeds or changes
  -- anything, at whatever time.
  pub claim-exclusive :
      (now' at' : ℕ) (token' : String) → claim now' at' id token' db' ≡ (false, db')
  claim-exclusive now' at' token' =
      claim-miss id db' (claimed at token r) owned_Unique owned_row now' at' token' (ground arith)

  -- When the ids are a key, and a replica has claimed a row, the result of a replica with another
  -- token is refused and changes nothing, both before and after the owner writes its own result; and
  -- the owner's result is written.
  pub late_replica :
      (policy : Policy) (done n : ℕ) (sent : Sent) (old : String) (done' n' : ℕ) (sent' : Sent)
      → old ≢ token
      → let result = finalize_after_send policy done id token n sent db' in
        (finalize_after_send policy done' id old n' sent' db' ≡ (false, db'))
        × (result.0 ≡ true)
        × (row_of id result.1 ≡ some (settle policy done n sent (claimed at token r)))
        × (finalize_after_send policy done' id old n' sent' result.1 ≡ (false, result.1))
  late_replica policy done n sent old done' n' sent' other =
      let (wrote, settled) =
        finalize-own id db' (claimed at token r) owned_Unique owned_row policy done n token sent
          own_claim in
      (
        finalize-late id db' (claimed at token r) owned_Unique owned_row policy done' n' old sent'
            (ground (arith, eq_iff token old)),
        wrote,
        settled,
        finalize-late id _ (settle policy done n sent (claimed at token r))
            (Unique-finalize policy done id token n sent db' owned_Unique) settled policy done' n'
            old sent' (ground arith),
      )
