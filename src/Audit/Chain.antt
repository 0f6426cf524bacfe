-- ===== src/Audit/Chain.antt =====
-- The hash chain of a tenant's audit rows, and the anchor row that names its end.
use mathlib.Core.Option
use lending_bank_gateway.Prelude.{
  ◌≡◌, refl, true, String, str_eq, eq_iff, eq_refl, Option, none, some, List, [], ◌∷◌, ◌++◌, find,
  find-append, find-update_where, find-holds, if◌then◌else◌, arith, Option-cases, inl, inr,
}
use lending_bank_gateway.Db.{Db, AuditEntry, AuditLog, AuditChainHead, Digests}
use lending_bank_gateway.Audit.{
  tail_hash, is_head, or_genesis, genesis, ensure_head, prev_hash, append_row, write_audit,
}

module _ (env : Digests) (tenant : String) where
  -- the hash that the tenant's next row has to name, after a row
  abbrev after : String → AuditLog → String
  after prev r = if str_eq r.entry.tenant_id tenant then r.row_hash else prev

  -- Each row of the tenant names the hash of the one before it, the first names `prev`, and each
  -- row's hash is that of its content and of the hash that it names.
  abbrev pub Linked : String → List AuditLog → Type 0
  Linked prev [] = Unit
  Linked prev (r ∷ rows) =
      (str_eq r.entry.tenant_id tenant ≡ true
        → (r.prev_hash ≡ prev) × (r.row_hash ≡ env.row_hash r.entry r.prev_hash))
      × Linked (after prev r) rows

  abbrev tail_from : String → List AuditLog → String
  tail_from prev [] = prev
  tail_from prev (r ∷ rows) = tail_from (after prev r) rows

  -- The log is one chain from the genesis hash, and the anchor row, if there is one, names its end.
  pub record IsChained (db : Db) : Type 0 where
    pub linked : Linked genesis db.audit
    pub anchored :
        (h : AuditChainHead)
        → find (is_head tenant) db.heads ≡ some h
        → h.last_row_hash ≡ tail_from genesis db.audit

  Linked-append :
      (prev : String) (rows : List AuditLog) (r : AuditLog)
      → Linked prev rows
      → (str_eq r.entry.tenant_id tenant ≡ true
          → (r.prev_hash ≡ tail_from prev rows) × (r.row_hash ≡ env.row_hash r.entry r.prev_hash))
      → Linked prev (rows ++ r ∷ [])
  Linked-append prev [] r h own = (own, tt)
  Linked-append prev (x ∷ rows) r h own = (h.0, Linked-append (after prev x) rows r h.1 own)

  tail_from-append :
      (prev : String) (rows : List AuditLog) (r : AuditLog)
      → tail_from prev (rows ++ r ∷ []) ≡ after (tail_from prev rows) r
  tail_from-append prev [] r = refl
  tail_from-append prev (x ∷ rows) r = tail_from-append (after prev x) rows r

  abbrev tail_or : String → Option String → String
  tail_or prev none = prev
  tail_or prev (some h) = h

  tail_from-eq-tail_hash :
      (prev : String) (rows : List AuditLog)
      → tail_from prev rows ≡ tail_or prev (tail_hash tenant rows)
  unfolding tail_hash
  tail_from-eq-tail_hash prev [] = refl
  tail_from-eq-tail_hash prev (x ∷ rows) =
      ground (arith, tail_from-eq-tail_hash (after prev x) rows)

  audit-ensure_head : (t : String) (db : Db) → (ensure_head t db).audit ≡ db.audit
  unfolding ensure_head
  audit-ensure_head t db = ground arith

  abbrev seeded : String → Db → AuditChainHead
  seeded t db = record { tenant_id = t; last_row_hash = or_genesis (tail_hash t db.audit) }

  heads-ensure_head :
      (t : String) (db : Db)
      → find (is_head tenant) (ensure_head t db).heads ≡ (elim (find (is_head t) db.heads) [
        | some _ ↦ find (is_head tenant) db.heads
        | none ↦ find (is_head tenant) (db.heads ++ seeded t db ∷ [])
      ])
  unfolding ensure_head
  heads-ensure_head t db = ground arith

  ensure_head-IsChained : (t : String) (db : Db) → IsChained db → IsChained (ensure_head t db)
  ensure_head-IsChained t db c = record {
    linked = rw audit-ensure_head c.linked;
    anchored = λ h found. rw audit-ensure_head (
        ground (
          arith,
          c.anchored h,
          heads-ensure_head t db,
          find-append (is_head tenant) db.heads (seeded t db ∷ []),
          tail_from-eq-tail_hash genesis db.audit,
          eq_iff t tenant,
        ));
  }

  -- the anchor row is there
  abbrev IsReady : String → Db → Type 0
  IsReady t db = (h : AuditChainHead) × (find (is_head t) db.heads ≡ some h)

  ensure_head-IsReady : (t : String) (db : Db) → IsReady t (ensure_head t db)
  unfolding ensure_head
  ensure_head-IsReady t db = elim (Option-cases (find (is_head t) db.heads)) [
    | inl fresh ↦ (
      seeded t db,
      ground (arith, find-append (is_head t) db.heads (seeded t db ∷ []), eq_refl t),
    )
    | inr (h, found) ↦ (h, ground arith)
  ]

  module _ (entry : AuditEntry) (db : Db) (c : IsChained db)
      (ready : IsReady entry.tenant_id db) where
    abbrev prev : String
    prev = prev_hash entry.tenant_id db

    abbrev new_row : AuditLog
    new_row = record { entry = entry; prev_hash = prev; row_hash = env.row_hash entry prev }

    prev-eq-tail_from : str_eq entry.tenant_id tenant ≡ true → prev ≡ tail_from genesis db.audit
    unfolding prev_hash
    prev-eq-tail_from mine =
        ground (arith, eq_iff entry.tenant_id tenant, ready.1, c.anchored ready.0)

    anchors :
        find (is_head tenant) (append_row env entry prev db).heads
        ≡ Option.map
            (λ g.
              if is_head entry.tenant_id g
              then record g { last_row_hash = env.row_hash entry prev }
              else g)
            (find (is_head tenant) db.heads)
    unfolding append_row
    anchors =
        find-update_where (is_head tenant) (is_head entry.tenant_id)
          (λ g. record g { last_row_hash = env.row_hash entry prev }) db.heads (λ g _. refl)

    new_tail :
        tail_from genesis (append_row env entry prev db).audit
        ≡ after (tail_from genesis db.audit) new_row
    unfolding append_row
    new_tail = tail_from-append genesis db.audit new_row

    append_row-anchored :
        (h : AuditChainHead)
        → find (is_head tenant) (append_row env entry prev db).heads ≡ some h
        → h.last_row_hash ≡ tail_from genesis (append_row env entry prev db).audit
    append_row-anchored h found = elim (Option-cases (find (is_head tenant) db.heads)) [
      | inl none_yet ↦ ground (arith, anchors)
      | inr (g, old) ↦ ground (
        arith,
        anchors,
        new_tail,
        c.anchored g old,
        find-holds (is_head tenant) g db.heads old,
        eq_iff g.tenant_id tenant,
        eq_iff g.tenant_id entry.tenant_id,
        eq_iff entry.tenant_id tenant,
      )
    ]

    append_row-IsChained : IsChained (append_row env entry prev db)
    append_row-IsChained = record {
      linked =
          unfold append_row in
          Linked-append genesis db.audit new_row c.linked (λ mine. (prev-eq-tail_from mine, refl));
      anchored = append_row-anchored;
    }

  -- Writing an audit row, of whatever tenant, keeps each tenant's log one unbroken chain.
  pub write_audit-IsChained :
      (entry : AuditEntry) (db : Db) → IsChained db → IsChained (write_audit env entry db)
  unfolding write_audit
  write_audit-IsChained entry db c =
      let ready = ensure_head entry.tenant_id db in
      append_row-IsChained entry ready (ensure_head-IsChained entry.tenant_id db c)
        (ensure_head-IsReady entry.tenant_id db)
