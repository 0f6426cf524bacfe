-- ===== src/Audit.antt =====
-- app/services/audit.py: the append-only audit log, a hash chain for each tenant.
-- The caller's transaction holds the tenant's anchor row locked, so the steps are one.
-- That two rows of a tenant never have one hash (`uq_audit_tenant_rowhash`) rests on SHA-256 and is
-- not modelled.
pub mod Frame
pub mod Chain
use lending_bank_gateway.Prelude.{
  ℕ, Bool, ◌≡◌, String, str_eq, Option, none, some, List, [], ◌∷◌, ◌++◌, find, update_where,
  if◌then◌else◌,
}
use lending_bank_gateway.Db.{Db, AuditEntry, AuditLog, AuditChainHead, Digests}

abbrev pub genesis : String
genesis = "0000000000000000000000000000000000000000000000000000000000000000"

-- the hash of the tenant's last row, `ORDER BY id DESC LIMIT 1`
unfoldable pub tail_hash : String → List AuditLog → Option String
tail_hash tenant_id [] = none
tail_hash tenant_id (r ∷ rows) =
    let later = tail_hash tenant_id rows in
    elim later [
      | some h ↦ some h
      | none ↦ if str_eq r.entry.tenant_id tenant_id then some r.row_hash else none
    ]

abbrev pub is_head : String → AuditChainHead → Bool
is_head tenant_id h = str_eq h.tenant_id tenant_id

abbrev pub or_genesis : Option String → String
or_genesis none = genesis
or_genesis (some h) = h

-- step 1: the anchor row of the tenant, seeded from its last audit row if it is not there
ensure_head : String → Db → Db
unfolding tail_hash
ensure_head tenant_id db = elim (find (is_head tenant_id) db.heads) [
  | some _ ↦ db
  | none ↦ record db {
    heads =
        db.heads
        ++ record {
          tenant_id = tenant_id;
          last_row_hash = or_genesis (tail_hash tenant_id db.audit);
        }
          ∷ [];
  }
]

abbrev last_hash : Option AuditChainHead → String
last_hash none = genesis
last_hash (some h) = h.last_row_hash

-- step 2: the previous hash, read from the anchor row, which step 1 has made sure of
prev_hash : String → Db → String
prev_hash tenant_id db = last_hash (find (is_head tenant_id) db.heads)

-- step 3: the row, and its hash into the anchor
append_row : Digests → AuditEntry → String → Db → Db
append_row env entry prev db =
    let row_hash = env.row_hash entry prev in
    record db {
      audit = db.audit ++ record { entry = entry; prev_hash = prev; row_hash = row_hash } ∷ [];
      heads =
          update_where (is_head entry.tenant_id) (λ h. record h { last_row_hash = row_hash })
            db.heads;
    }

unfoldable pub write_audit : Digests → AuditEntry → Db → Db
unfolding ensure_head prev_hash append_row
write_audit env entry db =
    let ready = ensure_head entry.tenant_id db in
    append_row env entry (prev_hash entry.tenant_id ready) ready
