-- ===== src/Outbox/Dispatch/Round.antt =====
-- One row's turn in a round of `dispatch_once`: claim, post, result.
use lending_bank_gateway.Prelude.{
  ℕ, ◌+◌, ◌*◌, ◌-◌, ◌^◌, ◌<◌, ◌≡◌, ◌⊎◌, inl, inr, refl, ap, ◌∙◌, Bool, true, false, leb, String,
  eq_refl, Option, some, arith, Bool-cases,
}
use lending_bank_gateway.Db.{Db, CallbackOutbox, OutboxStatus}
use lending_bank_gateway.Outbox.Dispatch.{
  is_waiting, is_claimable, claimed, claim, is_own_claim, settle, finalize_after_send, send, Policy,
  Sent,
}
use lending_bank_gateway.Outbox.Dispatch.Loop.{Attempt, dispatch_row}
use lending_bank_gateway.Outbox.Dispatch.Ownership.{
  row_of, Unique, row_of-claim, hit-claim, Unique-claim, finalize-own,
}
use lending_bank_gateway.Outbox.Dispatch.Rows.{IsRow}

-- what other transactions do leaves the row of this id alone
abbrev pub Spares : ℕ → CallbackOutbox → (Db → Db) → Type 0
Spares id q f =
    (d : Db)
    → Unique d.outbox
    → row_of id d ≡ some q
    → Unique (f d).outbox × (row_of id (f d) ≡ some q)

-- A turn ends with the row sent, or dead with all attempts used, or failed with one more attempt
-- used and some left, to be retried after an exponential delay.
abbrev pub Ends : Policy → ℕ → Bool → CallbackOutbox → CallbackOutbox → Type 0
Ends policy at ok_flag r r' =
    ((ok_flag ≡ true) × (r'.status ≡ OutboxStatus.sent))
    ⊎ ((ok_flag ≡ false) × (r'.status ≡ OutboxStatus.dead) × (r'.attempts ≡ policy.max_attempts))
    ⊎ ((ok_flag ≡ false)
        × (r'.status ≡ OutboxStatus.failed)
        × (r'.attempts ≡ r.attempts + 1)
        × (r'.attempts < policy.max_attempts)
        × (r'.next_retry_at ≡ some (at + policy.backoff_base * 2 ^ r.attempts)))

back : (n : ℕ) → n + 1 - 1 ≡ n
back n = omega arith

module _ (policy : Policy) where
  settle-Ends :
      (at : ℕ) (sent : Sent) (r q : CallbackOutbox)
      → is_waiting r.status ≡ true
      → IsRow policy.max_attempts r
      → Ends policy at sent.ok_flag r (settle policy at r.attempts sent q)
  settle-Ends at sent r q live good = elim (Bool-cases sent.ok_flag) [
    | inl fine ↦ inl (fine, rw fine refl)
    | inr bad ↦ elim (Bool-cases (leb policy.max_attempts (r.attempts + 1))) [
      | inl last ↦ inr (inl (bad, rw (bad, last) refl, ground (arith, good.count)))
      | inr more ↦ inr (
          inr (
            bad,
            rw (bad, more) refl,
            rw (bad, more) refl,
            ground arith,
            rw (bad, more) (ap (λ n. some (at + policy.backoff_base * 2 ^ n)) (back r.attempts)),
          ))
    ]
  ]

  module _ (targets : String → Option String) (now id : ℕ) (a : Attempt) (db : Db)
      (r : CallbackOutbox) (u : Unique (a.before_claim db).outbox)
      (found : row_of id (a.before_claim db) ≡ some r) (hit : is_claimable now id r ≡ true)
      (spares_read : Spares id (claimed a.locked_at a.token r) a.before_read)
      (spares_post : Spares id (claimed a.locked_at a.token r) a.while_posting) where
    abbrev mine : CallbackOutbox
    mine = claimed a.locked_at a.token r

    abbrev owned : Db
    owned = (claim now a.locked_at id a.token (a.before_claim db)).1

    abbrev result : Sent
    result = send targets a.post mine

    at_read : Unique (a.before_read owned).outbox × (row_of id (a.before_read owned) ≡ some mine)
    at_read =
        spares_read owned (Unique-claim now a.locked_at id a.token (a.before_claim db) u)
          (row_of-claim now a.locked_at id a.token (a.before_claim db) r u found ∙ rw hit refl)

    at_result :
        Unique (a.while_posting (a.before_read owned)).outbox
        × (row_of id (a.while_posting (a.before_read owned)) ≡ some mine)
    at_result = spares_post (a.before_read owned) at_read.0 at_read.1

    own : is_own_claim id a.token mine ≡ true
    own = ground (arith, eq_refl a.token)

    dispatch_row-eq :
        dispatch_row policy targets now id a db
        ≡ finalize_after_send policy a.finished_at id a.token r.attempts result
            (a.while_posting (a.before_read owned))
    unfolding dispatch_row
    dispatch_row-eq =
        ground
          (arith, hit-claim now a.locked_at id a.token (a.before_claim db) r u found, at_read.1)

    -- The turn of a row that is due and well formed, when the ids are a key and the other transactions
    -- spare the row that this replica owns, finishes the row: as sent if the post went well; else as
    -- dead if that was the last attempt; else as failed, with one more attempt used, some left, and an
    -- exponential delay. Its body and its key are kept.
    pub dispatch_row-Ends :
        IsRow policy.max_attempts r
        → ((dispatch_row policy targets now id a db).0 ≡ true)
          × ((r' : CallbackOutbox) × (row_of id (dispatch_row policy targets now id a db).1
                ≡ some r')
              × Ends policy a.finished_at result.ok_flag r r'
              × (r'.payload ≡ r.payload)
              × (r'.dedup_key ≡ r.dedup_key))
    dispatch_row-Ends good =
        let (wrote, settled) =
          finalize-own id (a.while_posting (a.before_read owned)) mine at_result.0 at_result.1
            policy a.finished_at r.attempts a.token result own in
        (
          ap (λ x. x.0) dispatch_row-eq ∙ wrote,
          (
            settle policy a.finished_at r.attempts result mine,
            ap (λ x. row_of id x.1) dispatch_row-eq ∙ settled,
            settle-Ends a.finished_at result r mine (ground arith) good,
            ground arith,
            ground arith,
          ),
        )
