-- ===== src/Progress.antt =====
-- Progress of an order's row over time: what it was submitted with is kept, its status moves along the
-- transition table, and the time at which it was closed does not change once it is set.
pub mod Closing
pub mod Submitting
use mathlib.Core.Option.{some-injective}
use lending_bank_gateway.Prelude.{
  ℕ, ◌≡◌, refl, ap, sym, ◌∙◌, subst, Bool, true, false, String, str_eq, eq_iff, Option, none, some,
  List, ◌∷◌, [], if◌then◌else◌, arith, find, find-append, find-holds, Bool-cases, Option-cases, inl,
  inr,
}
use lending_bank_gateway.Domain.States.{OrderStatus}
use lending_bank_gateway.Domain.States.Laws.{Reaches, here, Reaches-trans}
use lending_bank_gateway.Db.{Db, BankTxnOrder, is_order, find_order, put_order, add_order}
use lending_bank_gateway.Db.Orders.{find_order-put_order, find_order-add_order}

pub record Progress (o o' : BankTxnOrder) : Type 0 where
  pub kept : o' ≡ record o {
    status = o'.status;
    submitted_at = o'.submitted_at;
    finalized_at = o'.finalized_at;
    finalized_via = o'.finalized_via;
  }
  pub moves : Reaches o.status o'.status
  pub closed_once : (t : ℕ) → o.finalized_at ≡ some t → o'.finalized_at ≡ some t

pub Progress-refl : (o : BankTxnOrder) → Progress o o
Progress-refl o = record { kept = refl; moves = here; closed_once = λ t h. h }

pub Progress-trans : (a b c : BankTxnOrder) → Progress a b → Progress b c → Progress a c
Progress-trans a b c p q = record {
  kept = ground (arith, p.kept, q.kept);
  moves = Reaches-trans p.moves q.moves;
  closed_once = λ t h. q.closed_once t (p.closed_once t h);
}

-- Every order that is there stays there and makes progress.
pub record Evolves (db db' : Db) : Type 0 where
  pub at :
      (t b : String) (o : BankTxnOrder)
      → find_order t b db ≡ some o
      → (o' : BankTxnOrder) × (find_order t b db' ≡ some o') × Progress o o'

pub Evolves-trans : (a b c : Db) → Evolves a b → Evolves b c → Evolves a c
Evolves-trans x y z p q = record {
  at = λ t b o h.
      let (o', h', k) = p.at t b o h in
      let (o'', h'', k') = q.at t b o' h' in (o'', h'', Progress-trans o o' o'' k k');
}

-- what does not touch the orders
pub Evolves-same : (db db' : Db) → db'.orders ≡ db.orders → Evolves db db'
Evolves-same db db' e = record {
  at = λ t b o h.
      (o, unfold find_order in ap (λ rows. find (is_order t b) rows) e ∙ h, Progress-refl o);
}

pub find_order-key :
    (t b : String) (db : Db) (o : BankTxnOrder)
    → find_order t b db ≡ some o
    → (o.tenant_id ≡ t) × (o.biz_seq_no ≡ b)
unfolding find_order
find_order-key t b db o h =
    ground
      (arith, find-holds (is_order t b) o db.orders h, eq_iff o.tenant_id t, eq_iff o.biz_seq_no b)

module _ (db : Db) (o o' : BankTxnOrder) (p : Progress o o') where
  pub same_key : (o'.tenant_id ≡ o.tenant_id) × (o'.biz_seq_no ≡ o.biz_seq_no)
  same_key = (ap (λ x. x.tenant_id) p.kept, ap (λ x. x.biz_seq_no) p.kept)

  -- the rows that the flush replaces are those of the order's key
  own_key : (t b : String) → is_order t b o' ≡ true → (o.tenant_id ≡ t) × (o.biz_seq_no ≡ b)
  own_key t b hit =
      ground (arith, eq_iff o'.tenant_id t, eq_iff o'.biz_seq_no b, same_key.0, same_key.1)

  found_self :
      (t b : String) (x : BankTxnOrder)
      → find_order o.tenant_id o.biz_seq_no db ≡ some o
      → is_order t b o' ≡ true
      → find_order t b db ≡ some x
      → o ≡ x
  found_self t b x found hit h =
      some-injective o x (sym found ∙ cc ((own_key t b hit).0, (own_key t b hit).1, h))

  -- The flush of an order that was found, and that has made progress, is progress of the table.
  pub Evolves-put_order :
      find_order o.tenant_id o.biz_seq_no db ≡ some o → Evolves db (put_order o' db)
  Evolves-put_order found = record {
    at = λ t b x h. elim (Bool-cases (is_order t b o')) [
      | inl hit ↦ (
        o',
        ground (arith, find_order-put_order o' t b db),
        subst (λ y. Progress y o') (found_self t b x found hit h) p,
      )
      | inr miss ↦ (x, ground (arith, find_order-put_order o' t b db), Progress-refl x)
    ];
  }

-- An insert leaves the orders that are there alone.
pub Evolves-add_order :
    (db db' : Db) (o : BankTxnOrder) → add_order o db ≡ some db' → Evolves db db'
unfolding add_order find_order
Evolves-add_order db db' o e = record {
  at = λ t b x h.
      (x, ground (arith, find-append (is_order t b) db.orders (o ∷ [])), Progress-refl x);
}
