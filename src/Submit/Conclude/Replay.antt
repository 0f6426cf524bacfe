-- ===== src/Submit/Conclude/Replay.antt =====
-- A request of app/services/submit.py that is sent again.
use Prim.Native.String.{◌++◌}
use lending_bank_gateway.Prelude.{
  ℕ, ◌≡◌, ◌≢◌, refl, ap, ◌∙◌, inl, inr, Option-cases, find, Option, none, some, [], ◌∷◌, true,
  eq_iff, eq_refl, find-append, if◌then◌else◌, arith,
}
use lending_bank_gateway.Db.{
  Db, BankTxnOrder, Digests, IdempotencyRecord, Response, Result, ok, err, payload_mismatch,
  add_order,
}
use lending_bank_gateway.Domain.States.{OrderStatus, same, accepted}
use lending_bank_gateway.Domain.BizSeq.{validate_biz_seq_no}
use lending_bank_gateway.Idempotency.{is_record, find_record, new_record, check_or_register}
use lending_bank_gateway.Idempotency.Records.{record_response-find}
use lending_bank_gateway.Submit.Request.{SubmitRequest, WedapCall}
use lending_bank_gateway.Submit.Register.{register_and_accept_order, submit_begin}
use lending_bank_gateway.Submit.Conclude.{commit, advance, resume, submit_order}
use lending_bank_gateway.Submit.Conclude.Inversion.{resume-eq-ok}
use lending_bank_gateway.Submit.Conclude.Frame.{idempotency-advance}

commit-eq-ok :
    {A : Type 0} {db' : Db} {a : A} (db : Db) (x : Result (A × Db))
    → commit db x ≡ (ok a, db')
    → x ≡ ok (a, db')
commit-eq-ok db (ok y) h = ground arith
commit-eq-ok db (err e) h = ground arith

module _ (env : Digests) (req : SubmitRequest) where
  abbrev pub own_record : Db → Option IdempotencyRecord
  own_record db = find_record req.tenant_id req.business_scope req.biz_seq_no db

  abbrev fresh_record : IdempotencyRecord
  fresh_record =
      new_record req.tenant_id req.business_scope req.biz_seq_no
        (env.payload_hash req.wedap_payload)

  -- An early answer leaves the database alone, and would be given at any time.
  begin_early :
      (now now' : ℕ) (db db1 : Db) (early : Response)
      → submit_begin env now req db ≡ ok (some early, db1)
      → (db1 ≡ db) × (submit_begin env now' req db ≡ ok (some early, db))
  unfolding submit_begin register_and_accept_order check_or_register
  begin_early now now' db db1 early h = ground arith

  begin_new :
      (now : ℕ) (db db1 : Db)
      → submit_begin env now req db ≡ ok (none, db1)
      → own_record db1
        ≡ some (
            new_record req.tenant_id req.business_scope req.biz_seq_no
              (env.payload_hash req.wedap_payload))
  unfolding submit_begin register_and_accept_order check_or_register find_record add_order
  begin_new now db db1 h = ground (
    arith,
    eq_refl req.tenant_id,
    eq_refl req.business_scope,
    eq_refl req.biz_seq_no,
    find-append (is_record req.tenant_id req.business_scope req.biz_seq_no) db.idempotency (
        new_record req.tenant_id req.business_scope req.biz_seq_no
          (env.payload_hash req.wedap_payload)
        ∷ []),
  )

  -- With the answer on record, the request is answered from the record.
  begin_recorded :
      (now : ℕ) (db : Db) (row : IdempotencyRecord) (r : Response)
      → validate_biz_seq_no req.biz_seq_no ≡ true
      → own_record db ≡ some row
      → row.payload_hash ≡ env.payload_hash req.wedap_payload
      → row.first_response ≡ some r
      → submit_begin env now req db ≡ ok (some r, db)
  unfolding submit_begin register_and_accept_order check_or_register
  begin_recorded now db row r valid own same_hash answered =
      ground (arith, eq_iff row.payload_hash (env.payload_hash req.wedap_payload))

  -- An early answer is given wherever the request's own row says the same.
  begin_elsewhere :
      (now : ℕ) (db db' : Db) (r : Response)
      → submit_begin env now req db ≡ ok (some r, db)
      → own_record db' ≡ own_record db
      → submit_begin env now req db' ≡ ok (some r, db')
  unfolding submit_begin register_and_accept_order check_or_register add_order
  begin_elsewhere now db db' r h same = elim (Option-cases (own_record db)) [
    | inl nothing ↦ ground arith
    | inr (row, there) ↦ ground (arith, same ∙ there)
  ]

  begin_valid :
      (now : ℕ) (db : Db) (x : Option Response × Db)
      → submit_begin env now req db ≡ ok x
      → validate_biz_seq_no req.biz_seq_no ≡ true
  unfolding submit_begin
  begin_valid now db x h = ground arith

  own_record-advance :
      (now : ℕ) (st : OrderStatus) (order : BankTxnOrder) (db : Db)
      → own_record (advance env now req st order db) ≡ own_record db
  unfolding find_record
  own_record-advance now st order db =
      ap (λ rows. find (is_record req.tenant_id req.business_scope req.biz_seq_no) rows)
        (idempotency-advance env now req st order db)

  -- The second transaction freezes its answer into the request's row.
  resume_recorded :
      (later : ℕ) (call : WedapCall) (db db' : Db) (row : IdempotencyRecord) (r : Response)
      → own_record db ≡ some row
      → resume env later req call db ≡ ok (r, db')
      → own_record db'
        ≡ some (record row {
          first_response = some r;
          final_effect_id = some ("order:" ++ req.biz_seq_no);
        })
  resume_recorded later call db db' row r own h =
      let (v, judged, c) = resume-eq-ok env later req db db' r call h in
      let base : Db =
        if same c.order.status accepted
        then advance env later req v.new_status c.order db
        else db in
      let kept : own_record base ≡ some row =
        ground (arith, own_record-advance later v.new_status c.order db) in
      record_response-find req.tenant_id req.business_scope req.biz_seq_no r
        (some ("order:" ++ req.biz_seq_no)) base row db' kept c.recorded

  module _ (now later now' later' : ℕ) (call call' : WedapCall) (others others' : Db → Db)
      (db : Db) where
    submit_again :
        (db' : Db) (r : Response) (x : Result (Option Response × Db))
        → ((mid : Db) (row : IdempotencyRecord)
            → own_record mid ≡ some row
            → own_record (others mid) ≡ some row)
        → submit_begin env now req db ≡ x
        → submit_order env now later req call others db ≡ (ok r, db')
        → submit_begin env now' req db' ≡ ok (some r, db')
    submit_again db' r (err e) keep begun h = unfold submit_order in ground arith
    submit_again db' r (ok (some early, mid)) keep begun h =
        unfold submit_order in ground (arith, begin_early now now' db mid early begun)
    submit_again db' r (ok (none, mid)) keep begun h =
        let first : own_record mid ≡ some fresh_record = begin_new now db mid begun in
        let resumed : resume env later req call (others mid) ≡ ok (r, db') =
          commit-eq-ok (others mid) (resume env later req call (others mid))
            (unfold submit_order in ground arith) in
        let frozen_row =
          resume_recorded later call (others mid) db' fresh_record r (keep mid fresh_record first)
            resumed in
        begin_recorded now' db'
          (record fresh_record {
            first_response = some r;
            final_effect_id = some ("order:" ++ req.biz_seq_no);
          })
          r (begin_valid now db (none, mid) begun) frozen_row refl refl

    -- Once a request has been answered, sending it again, at any time at which its own idempotency
    -- row says what it said then, and whatever wedap and the other transactions would do, gives the
    -- same answer and changes nothing; provided that the other transactions of the first run left the
    -- request's own row as it was registered.
    pub submit_order-replay :
        (db' db'' : Db) (r : Response)
        → ((mid : Db) (row : IdempotencyRecord)
            → own_record mid ≡ some row
            → own_record (others mid) ≡ some row)
        → submit_order env now later req call others db ≡ (ok r, db')
        → own_record db'' ≡ own_record db'
        → submit_order env now' later' req call' others' db'' ≡ (ok r, db'')
    submit_order-replay db' db'' r keep h same =
        let again =
          begin_elsewhere now' db' db'' r
            (submit_again db' r (submit_begin env now req db) keep refl h) same in
        unfold submit_order in rw (again, submit_order) refl

  -- A request with a valid number, whose key is on record with another payload hash, is refused, and
  -- changes nothing.
  pub submit_order-mismatch :
      (now later : ℕ) (call : WedapCall) (others : Db → Db) (db : Db) (row : IdempotencyRecord)
      → validate_biz_seq_no req.biz_seq_no ≡ true
      → own_record db ≡ some row
      → row.payload_hash ≢ env.payload_hash req.wedap_payload
      → submit_order env now later req call others db ≡ (err payload_mismatch, db)
  unfolding submit_order submit_begin register_and_accept_order check_or_register
  submit_order-mismatch now later call others db row valid own differs =
      ground (arith, eq_iff row.payload_hash (env.payload_hash req.wedap_payload))
