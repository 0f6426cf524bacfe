-- ===== src/Progress/Closing.antt =====
-- The progress of the orders where one is closed.
use lending_bank_gateway.Prelude.{
  ℕ, ◌≡◌, refl, sym, ap, subst, true, String, Option, some, if◌then◌else◌, arith, Bool-cases, inl,
  inr,
}
use lending_bank_gateway.Domain.States.{OrderStatus, may_move}
use lending_bank_gateway.Domain.States.Laws.{here, move}
use lending_bank_gateway.Db.{Db, BankTxnOrder, Digests, find_order, put_order}
use lending_bank_gateway.Finalize.{closed, finalize_terminal_in_session}
use lending_bank_gateway.Finalize.Frame.{settled, orders-finalize}
use lending_bank_gateway.Reconcile.{with_status}
use lending_bank_gateway.Closing.{Closes, unchanged, closes}
use lending_bank_gateway.Progress.{
  Progress, Evolves, Evolves-put_order, Evolves-same, Evolves-trans, find_order-key,
}

pub Progress-closed :
    (now : ℕ) (source : String) (o o' : BankTxnOrder)
    → Progress o o'
    → Progress o (closed now source o')
Progress-closed now source o o' p = record {
  kept = ground (arith, p.kept);
  moves = p.moves;
  closed_once = λ t h. ground (arith, p.closed_once t);
}

pub Progress-with_status :
    (o : BankTxnOrder) (s : OrderStatus) → may_move o.status s ≡ true → Progress o (with_status s o)
Progress-with_status o s m = record { kept = refl; moves = move here m; closed_once = λ t h. h }

module _ (env : Digests) (now : ℕ) (db : Db) where
  pub Evolves-finalize :
      (o o' : BankTxnOrder) (source trace caller : String) (from : Option String)
      → find_order o.tenant_id o.biz_seq_no db ≡ some o
      → Progress o o'
      → Evolves db (finalize_terminal_in_session env now o' source trace caller from db)
  Evolves-finalize o o' source trace caller from found p =
      let row : BankTxnOrder =
        if settled env now o' source trace caller from db then o' else closed now source o' in
      let step : Progress o row =
        elim (Bool-cases (settled env now o' source trace caller from db)) [
          | inl early ↦ rw early p
          | inr late ↦ rw late (Progress-closed now source o o' p)
        ] in
      Evolves-trans db (put_order row db) _ (Evolves-put_order db o row step found)
        (Evolves-same (put_order row db) _ (orders-finalize env now o' source trace caller from db))

  pub found_by_key :
      (t b : String) (o : BankTxnOrder)
      → find_order t b db ≡ some o
      → find_order o.tenant_id o.biz_seq_no db ≡ some o
  found_by_key t b o h = let (e, f) = find_order-key t b db o h in cc (e, f, h)

  Evolves-refl : Evolves db db
  Evolves-refl = Evolves-same db db refl

  -- the two branches that assign a final status and close the order
  Evolves-assign :
      (t b : String) (o : BankTxnOrder) (s : OrderStatus) (source trace caller : String)
      (from : Option String)
      → find_order t b db ≡ some o
      → may_move o.status s ≡ true
      → Evolves db
          (finalize_terminal_in_session env now (with_status s o) source trace caller from db)
  Evolves-assign t b o s source trace caller from found m =
      Evolves-finalize o (with_status s o) source trace caller from (found_by_key t b o found)
        (Progress-with_status o s m)

-- Whatever closes an order is progress of the orders.
pub Closes-Evolves :
    (env : Digests) (now : ℕ) (t b : String) (s : OrderStatus) (db db' : Db)
    → Closes env now t b s db db'
    → Evolves db db'
Closes-Evolves env now t b s db db' (unchanged e) = Evolves-same db db' (ap (λ d. d.orders) e)
Closes-Evolves env now t b s db db' (closes o source trace caller from found allowed first e) =
    subst (λ d. Evolves db d) (sym e)
      (Evolves-assign env now db t b o s source trace caller from found allowed)
