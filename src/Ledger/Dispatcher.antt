-- ===== src/Ledger/Dispatcher.antt =====
-- A round of the dispatcher of app/services/outbox.py as a run of `Ledger`.
use lending_bank_gateway.Prelude.{
  ℕ, ◌≡◌, inl, inr, refl, sym, ap, ◌∙◌, subst, true, false, String, eq_refl, Option, none, some,
  List, [], ◌∷◌, All, Option-cases, Bool-cases, arith, if◌then◌else◌,
}
use lending_bank_gateway.Db.{Db, CallbackOutbox, Digests}
use lending_bank_gateway.Outbox.Dispatch.{
  has_id, is_claimable, claimed, claim, is_own_claim, is_stale, reclaimed, reclaim_stale_sending,
  finalize_after_send, send, Policy, Sent, due_ids,
}
use lending_bank_gateway.Outbox.Dispatch.Loop.{
  Attempt, deliver, dispatch_row, dispatch_rows, dispatch_once,
}
use lending_bank_gateway.Outbox.Dispatch.Ownership.{
  Unique, row_of, row_of-claim, hit-claim, Unique-claim, Unique-finalize, Unique-update_where,
  find-none,
}
use lending_bank_gateway.Outbox.Dispatch.Rows.{Delivery, reclaims, claims, finishes, only_row}
use lending_bank_gateway.Ledger.{Step, Run, done, after}
use lending_bank_gateway.Ledger.Entries.{Run-trans}

-- What other transactions do: a run that keeps the ids a key, and that leaves the row of this id alone
-- while this replica owns it.
pub record IsConsiderate (env : Digests) (id : ℕ) (token : String) (f : Db → Db) : Type 0 where
  pub run : (d : Db) → Run env d (f d)
  pub unique : (d : Db) → Unique d.outbox → Unique (f d).outbox
  pub spares :
      (d : Db) (q : CallbackOutbox)
      → Unique d.outbox
      → row_of id d ≡ some q
      → is_own_claim id token q ≡ true
      → row_of id (f d) ≡ some q

pub record IsFair (env : Digests) (id : ℕ) (a : Attempt) : Type 0 where
  pub at_claim : IsConsiderate env id a.token a.before_claim
  pub at_read : IsConsiderate env id a.token a.before_read
  pub at_post : IsConsiderate env id a.token a.while_posting

module _ (env : Digests) (policy : Policy) (targets : String → Option String) (now : ℕ) where
  abbrev To : Db → Db → Type 0
  To d d' = Run env d d' × Unique d'.outbox

  To-trans : (a b c : Db) → To a b → To b c → To a c
  To-trans a b c p q = (Run-trans env a b c p.0 q.0, q.1)

  step_of : (d d' : Db) → Delivery policy d d' → Run env d d'
  step_of d d' s = after d d' done (Step.deliver policy s)

  -- the row that a replica owns is the only one of its claim
  own_attempts :
      (id : ℕ) (token : String) (q : CallbackOutbox) (rows : List CallbackOutbox)
      → All (λ x. has_id id x ≡ true → x ≡ q) rows
      → All (λ x. is_own_claim id token x ≡ true → x.attempts ≡ q.attempts) rows
  own_attempts id token q [] h = tt
  own_attempts id token q (x ∷ rows) h =
      (λ own. ap (λ y. y.attempts) (h.0 (ground arith)), own_attempts id token q rows h.1)

  finish-To :
      (at id : ℕ) (token : String) (sent : Sent) (d : Db) (q : CallbackOutbox)
      → Unique d.outbox
      → row_of id d ≡ some q
      → To d (finalize_after_send policy at id token q.attempts sent d).1
  finish-To at id token sent d q u found = (
    step_of d _ (
        finishes at id token q.attempts sent
          (own_attempts id token q d.outbox (only_row policy id q d.outbox u found))),
    Unique-finalize policy at id token q.attempts sent d u,
  )

  reclaim_Unique :
      (db : Db)
      → Unique db.outbox
      → Unique (reclaim_stale_sending now policy.claim_timeout db).outbox
  unfolding reclaim_stale_sending
  reclaim_Unique db u =
      Unique-update_where (is_stale now policy.claim_timeout) reclaimed (λ x. refl) db.outbox u

  module _ (id : ℕ) (a : Attempt) (fair : IsFair env id a) where
    deliver-To :
        (d : Db) (q : CallbackOutbox)
        → Unique d.outbox
        → row_of id d ≡ some q
        → is_own_claim id a.token q ≡ true
        → To d (deliver policy targets id a d).1
    deliver-To d q u found own =
        let post : Db = a.while_posting d in
        let e : deliver policy targets id a d
            ≡ finalize_after_send policy a.finished_at id a.token q.attempts (send targets a.post q)
                post =
          unfold deliver in ground arith in
        subst (λ x. To d x.1) (sym e)
          (To-trans d post _ (fair.at_post.run d, fair.at_post.unique d u)
            (finish-To a.finished_at id a.token (send targets a.post q) post q
              (fair.at_post.unique d u) (fair.at_post.spares d q u found own)))

    -- the claim, and what follows it if it hits
    claim-To : (d : Db) → Unique d.outbox → To d (claim now a.locked_at id a.token d).1
    claim-To d u = (
      step_of d _ (claims now a.locked_at id a.token),
      Unique-claim now a.locked_at id a.token d u,
    )

    claim_miss : (d : Db) → row_of id d ≡ none → (claim now a.locked_at id a.token d).0 ≡ false
    unfolding claim
    claim_miss d missing =
        rw (find-none id (is_claimable now id) (λ x h. ground arith) d.outbox missing) refl

    claimed-To :
        (d : Db) (r : CallbackOutbox)
        → Unique d.outbox
        → row_of id d ≡ some r
        → is_claimable now id r ≡ true
        → To d
            (deliver policy targets id a (a.before_read (claim now a.locked_at id a.token d).1)).1
    claimed-To d r u found hit =
        let d' : Db = (claim now a.locked_at id a.token d).1 in
        let mine : CallbackOutbox = claimed a.locked_at a.token r in
        let u' : Unique d'.outbox = Unique-claim now a.locked_at id a.token d u in
        let there : row_of id d' ≡ some mine =
          row_of-claim now a.locked_at id a.token d r u found ∙ rw hit refl in
        let own : is_own_claim id a.token mine ≡ true = ground (arith, eq_refl a.token) in
        To-trans d (a.before_read d') _
          (To-trans d d' _ (claim-To d u) (fair.at_read.run d', fair.at_read.unique d' u'))
          (deliver-To (a.before_read d') mine (fair.at_read.unique d' u')
            (fair.at_read.spares d' mine u' there own) own)

    owned_or_not :
        (d : Db)
        → Unique d.outbox
        → To d
            (if (claim now a.locked_at id a.token d).0
              then deliver policy targets id a
                  (a.before_read (claim now a.locked_at id a.token d).1)
              else (false, (claim now a.locked_at id a.token d).1)).1
    owned_or_not d u = elim (Option-cases (row_of id d)) [
      | inl missing ↦ rw (claim_miss d missing) (claim-To d u)
      | inr (r, found) ↦ elim (Bool-cases (is_claimable now id r)) [
        | inl hit ↦
            rw (hit-claim now a.locked_at id a.token d r u found, hit) (claimed-To d r u found hit)
        | inr miss ↦ rw (hit-claim now a.locked_at id a.token d r u found, miss) (claim-To d u)
      ]
    ]

    dispatch_row-To :
        (db : Db) → Unique db.outbox → To db (dispatch_row policy targets now id a db).1
    unfolding dispatch_row
    dispatch_row-To db u =
        To-trans db (a.before_claim db) _ (fair.at_claim.run db, fair.at_claim.unique db u)
          (owned_or_not (a.before_claim db) (fair.at_claim.unique db u))

  module _ (attempt : ℕ → Attempt) (fair : (id : ℕ) → IsFair env id (attempt id)) where
    dispatch_rows-To :
        (ids : List ℕ) (db : Db)
        → Unique db.outbox
        → To db (dispatch_rows policy targets now attempt ids db).1
    unfolding dispatch_rows
    dispatch_rows-To [] db u = (done, u)
    dispatch_rows-To (id ∷ ids) db u =
        let first = dispatch_row-To id (attempt id) (fair id) db u in
        To-trans db _ _ first (dispatch_rows-To ids _ first.1)

    -- A whole round of the dispatcher, whatever the posts give, is a run of the money flows and the
    -- dispatchers, and keeps the ids a key; if the ids are a key, and what happens to the database in
    -- between is such a run that leaves a row alone while this replica owns it.
    pub dispatch_once-Run :
        (db : Db)
        → Unique db.outbox
        → Run env db (dispatch_once policy targets now attempt db).1
          × Unique (dispatch_once policy targets now attempt db).1.outbox
    unfolding dispatch_once
    dispatch_once-Run db u =
        let ready : Db = reclaim_stale_sending now policy.claim_timeout db in
        let reset : To db ready = (step_of db ready (reclaims now), reclaim_Unique db u) in
        To-trans db ready _ reset (dispatch_rows-To (due_ids now ready.outbox) ready reset.1)
