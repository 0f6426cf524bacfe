-- ===== src/Db/Orders.antt =====
-- What a lookup of an order finds after a flush and after an insert.
use mathlib.Core.Option
use lending_bank_gateway.Prelude.{
  ◌≡◌, String, eq_iff, some, List, [], ◌∷◌, find, update_where, find-append, if◌then◌else◌, arith,
  Bool-cases, inl, inr,
}
use lending_bank_gateway.Db.{BankTxnOrder, Db, is_order, find_order, put_order, add_order}

module _ (o : BankTxnOrder) (t b : String) where
  find-put_rows :
      (rows : List BankTxnOrder)
      → find (is_order t b) (update_where (is_order o.tenant_id o.biz_seq_no) (λ _. o) rows) ≡ (
          if is_order t b o
          then Option.map (λ _. o) (find (is_order t b) rows)
          else find (is_order t b) rows)
  find-put_rows [] = ground arith
  find-put_rows (x ∷ rows) = ground (
    arith,
    find-put_rows rows,
    eq_iff o.tenant_id t,
    eq_iff o.biz_seq_no b,
    eq_iff x.tenant_id t,
    eq_iff x.biz_seq_no b,
    eq_iff x.tenant_id o.tenant_id,
    eq_iff x.biz_seq_no o.biz_seq_no,
  )

  pub find_order-put_order :
      (db : Db)
      → find_order t b (put_order o db)
        ≡ (if is_order t b o then Option.map (λ _. o) (find_order t b db) else find_order t b db)
  unfolding find_order put_order
  find_order-put_order db = find-put_rows db.orders

  pub find_order-add_order :
      (db db' : Db)
      → add_order o db ≡ some db'
      → find_order t b db' ≡ (if is_order t b o then some o else find_order t b db)
  unfolding find_order add_order
  find_order-add_order db db' h = elim (Bool-cases (is_order t b o)) [
    | inl hit ↦ ground (
      arith,
      eq_iff o.tenant_id t,
      eq_iff o.biz_seq_no b,
      find-append (is_order t b) db.orders (o ∷ []),
    )
    | inr miss ↦ ground (arith, find-append (is_order t b) db.orders (o ∷ []))
  ]
