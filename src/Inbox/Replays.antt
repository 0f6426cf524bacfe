-- ===== src/Inbox/Replays.antt =====
-- A callback of app/api/v1/callbacks.py that comes again, and its run on the database.
use lending_bank_gateway.Prelude.{
  ◌≡◌, inl, inr, refl, sym, ap, ◌∙◌, subst, Bool, true, false, ◌&&◌, Option, none, some, Bool-cases,
  arith,
}
use lending_bank_gateway.Json.{Payload, truthy}
use lending_bank_gateway.Db.{Db, Result, ok, err}
use lending_bank_gateway.Inbox.{
  InboxStatus, received, processed, CallbackInbox, State, Headers, Answer, acknowledged, World,
  get_inbox_row, set_inbox_status, after_ingest, drive_first, drive_again, insert_row, redrive,
  ingest, wedap_transaction_callback,
}
use lending_bank_gateway.Ledger.{Run, done}
use lending_bank_gateway.Ledger.Resolvers.{resolve_callback-Run}

-- the two checks of the body
abbrev pub is_valid : Payload → Bool
is_valid body = truthy "bizSeqNo" body && truthy "type" body

module _ (w : World) (hdr : Headers) where
  pub callback-valid :
      (body : Payload) (st : State)
      → is_valid body ≡ true
      → wedap_transaction_callback w hdr body st ≡ ingest w hdr body st
  unfolding wedap_transaction_callback
  callback-valid body st v = ground arith

  pub callback-invalid :
      (body : Payload) (st : State)
      → is_valid body ≡ false
      → (wedap_transaction_callback w hdr body st).1 ≡ st
  unfolding wedap_transaction_callback
  callback-invalid body st v = ground arith

  -- A callback whose request id is on record acts on the recorded body: whatever valid body comes
  -- with it, the answer and the effect are the same.
  pub callback-stored :
      (body body' : Payload) (st : State) (row : CallbackInbox)
      → is_valid body ≡ true
      → is_valid body' ≡ true
      → get_inbox_row hdr st ≡ some row
      → wedap_transaction_callback w hdr body st ≡ wedap_transaction_callback w hdr body' st
  callback-stored body body' st row v v' found =
      callback-valid body st v ∙ unfold ingest in ground arith ∙ sym (callback-valid body' st v')

  pub inbox-after_ingest :
      (body : Payload) (st : State) → (after_ingest w hdr body st).1.inbox ≡ st.inbox
  unfolding after_ingest
  inbox-after_ingest body st = refl

  db-after_ingest :
      (run : (d : Db) → Run w.env d (w.others d)) (body : Payload) (st : State)
      → Run w.env st.db (after_ingest w hdr body st).1.db
  unfolding after_ingest
  db-after_ingest run body st =
      resolve_callback-Run w.env w.now hdr.tenant_id hdr.trace_id w.query w.others run st.db body

  db-drive_first : (x : Result (Unit {0}) × State) → (drive_first hdr x).db ≡ x.1.db
  unfolding set_inbox_status
  db-drive_first (ok u, st) = refl
  db-drive_first (err e, st) = refl

  db-drive_again : (x : Result (Unit {0}) × State) → (drive_again hdr x).db ≡ x.1.db
  unfolding set_inbox_status
  db-drive_again (ok u, st) = refl
  db-drive_again (err e, st) = refl

  redrive-Run :
      (run : (d : Db) → Run w.env d (w.others d)) (row : CallbackInbox) (st out : State)
      (x : InboxStatus)
      → out ≡ (elim x [
        | received ↦ drive_again hdr (after_ingest w hdr row.payload st)
        | processed ↦ st
      ])
      → Run w.env st.db out.db
  redrive-Run run row st out received e =
      subst (λ d. Run w.env st.db d)
        (sym (ap (λ x. x.db) e ∙ db-drive_again (after_ingest w hdr row.payload st)))
        (db-after_ingest run row.payload st)
  redrive-Run run row st out processed e = subst (λ x. Run w.env st.db x.db) (sym e) done

  ingest-Run :
      (run : (d : Db) → Run w.env d (w.others d)) (body : Payload) (st : State)
      (x : Option CallbackInbox) (out : Answer × State)
      → out ≡ (elim x [
        | none ↦
            (acknowledged false, drive_first hdr (after_ingest w hdr body (insert_row hdr body st)))
        | some existing ↦ (acknowledged true, redrive w hdr existing st)
      ])
      → Run w.env st.db out.1.db
  ingest-Run run body st none out e =
      subst (λ d. Run w.env st.db d)
        (sym
          (ap (λ x. x.1.db) e ∙ db-drive_first (after_ingest w hdr body (insert_row hdr body st))))
        (db-after_ingest run body (insert_row hdr body st))
  ingest-Run run body st (some row) out e =
      subst (λ x. Run w.env st.db x.1.db) (sym e)
        (redrive-Run run row st (redrive w hdr row st) row.status (unfold redrive in refl))

  -- A callback, valid or not, first or repeated, is a run of transactions of the money flows, if what
  -- happens to the database while wedap is asked is one.
  pub callback-Run :
      (run : (d : Db) → Run w.env d (w.others d)) (body : Payload) (st : State)
      → Run w.env st.db (wedap_transaction_callback w hdr body st).1.db
  callback-Run run body st = elim (Bool-cases (is_valid body)) [
    | inr bad ↦ subst (λ x. Run w.env st.db x.db) (sym (callback-invalid body st bad)) done
    | inl good ↦
        subst (λ x. Run w.env st.db x.1.db) (sym (callback-valid body st good))
          (ingest-Run run body st (get_inbox_row hdr st) (ingest w hdr body st)
            (unfold ingest in refl))
  ]
