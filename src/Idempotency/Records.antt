-- ===== src/Idempotency/Records.antt =====
-- What the idempotency table says about a key, after each of its two operations.
use lending_bank_gateway.Prelude.{
  ◌≡◌, refl, String, eq_refl, Option, none, some, [], ◌∷◌, find-append, find-update_where,
  find-holds, arith,
}
use lending_bank_gateway.Json.{Payload}
use lending_bank_gateway.Db.{Db, Digests, IdempotencyRecord, Response, ok, err}
use lending_bank_gateway.Idempotency.{
  is_record, find_record, new_record, replay, check_or_register, record_response,
}

module _ (env : Digests) (t s k : String) (p : Payload) (db : Db) where
  abbrev h : String
  h = env.payload_hash p

  pub check_or_register-new :
      (db' : Db)
      → check_or_register env t s k p db ≡ ok (none, db')
      → (find_record t s k db ≡ none) × (find_record t s k db' ≡ some (new_record t s k h))
  unfolding check_or_register
  check_or_register-new db' e = ground (
    arith,
    eq_refl t,
    eq_refl s,
    eq_refl k,
    find-append (is_record t s k) db.idempotency (new_record t s k h ∷ []),
  )

  pub orders-check_or_register :
      (o : Option Response) (db' : Db)
      → check_or_register env t s k p db ≡ ok (o, db')
      → db'.orders ≡ db.orders
  unfolding check_or_register
  orders-check_or_register o db' e = ground arith

  pub check_or_register-old :
      (row : IdempotencyRecord)
      → find_record t s k db ≡ some row
      → check_or_register env t s k p db
        ≡ elim (replay h row) [ ok response ↦ ok (some response, db) | err e ↦ err e ]
  unfolding check_or_register
  check_or_register-old row e = ground arith

module _ (t s k : String) (r : Response) (effect : Option String) (db : Db) where
  pub record_response-find :
      (row : IdempotencyRecord) (db' : Db)
      → find_record t s k db ≡ some row
      → record_response t s k r effect db ≡ ok db'
      → find_record t s k db'
        ≡ some (record row { first_response = some r; final_effect_id = effect })
  unfolding record_response
  record_response-find row db' e h = ground (
    arith,
    find-holds (is_record t s k) row db.idempotency,
    find-update_where (is_record t s k) (is_record t s k)
        (λ x. record x { first_response = some r; final_effect_id = effect }) db.idempotency
        (λ x _. refl),
  )
