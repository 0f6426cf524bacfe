-- ===== src/Idempotency.antt =====
-- app/services/idempotency.py: one row for each (tenant, scope, key), with the fingerprint of the
-- payload and, once the work is done, the first response.
-- The insert that loses a race against another transaction of the same key reads that transaction's
-- row and goes on as if it had come after it.
pub mod Records
use lending_bank_gateway.Prelude.{
  Bool, not, ◌&&◌, String, str_eq, Option, none, some, [], ◌∷◌, ◌++◌, find, update_where,
  if◌then◌else◌,
}
use lending_bank_gateway.Json.{Payload}
use lending_bank_gateway.Db.{
  Db, Digests, IdempotencyRecord, Response, Result, ok, err, payload_mismatch, in_flight,
  unexpected,
}

-- the key of `uq_idem_triple`
abbrev pub is_record : String → String → String → IdempotencyRecord → Bool
is_record tenant_id business_scope idempotency_key r =
    str_eq r.tenant_id tenant_id
    && str_eq r.business_scope business_scope
    && str_eq r.idempotency_key idempotency_key

unfoldable pub find_record : String → String → String → Db → Option IdempotencyRecord
find_record tenant_id business_scope idempotency_key db =
    find (is_record tenant_id business_scope idempotency_key) db.idempotency

abbrev pub new_record : String → String → String → String → IdempotencyRecord
new_record tenant_id business_scope idempotency_key payload_hash = record {
  tenant_id = tenant_id;
  business_scope = business_scope;
  idempotency_key = idempotency_key;
  payload_hash = payload_hash;
  first_response = none;
  final_effect_id = none;
}

-- what the row that is there says to a request of fingerprint `h`
abbrev pub replay : String → IdempotencyRecord → Result Response
replay h row =
    if not (str_eq row.payload_hash h)
    then err payload_mismatch
    else elim row.first_response [ none ↦ err in_flight | some response ↦ ok response ]

-- `none` is a first registration. It carries the database, since only then anything is written.
unfoldable pub check_or_register :
    Digests → String → String → String → Payload → Db → Result (Option Response × Db)
unfolding find_record
check_or_register env tenant_id business_scope idempotency_key payload db =
    let h = env.payload_hash payload in
    elim (find_record tenant_id business_scope idempotency_key db) [
      | none ↦ ok (
        none,
        record db {
          idempotency =
              db.idempotency ++ new_record tenant_id business_scope idempotency_key h ∷ [];
        },
      )
      | some row ↦ elim (replay h row) [ ok response ↦ ok (some response, db) | err e ↦ err e ]
    ]

unfoldable pub record_response :
    String → String → String → Response → Option String → Db → Result Db
unfolding find_record
record_response tenant_id business_scope idempotency_key response final_effect_id db =
    elim (find_record tenant_id business_scope idempotency_key db) [
      | none ↦ err unexpected
      | some row ↦ ok (record db {
        idempotency =
            update_where (is_record tenant_id business_scope idempotency_key)
              (λ r. record r { first_response = some response; final_effect_id = final_effect_id })
              db.idempotency;
      })
    ]
