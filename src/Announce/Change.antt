-- ===== src/Announce/Change.antt =====
-- A change of one order, with at most its own event added to the outbox.
use mathlib.Core.Option
use lending_bank_gateway.Prelude.{
  ◌≡◌, ◌⊎◌, inl, inr, sym, ap, ◌∙◌, subst, true, String, eq_refl, some, find, Bool-cases,
  Option-cases, arith, if◌then◌else◌, is_some,
}
use lending_bank_gateway.Domain.States.{OrderStatus}
use lending_bank_gateway.Domain.States.Laws.{Reaches, here, Reaches-trans}
use lending_bank_gateway.Db.{Db, BankTxnOrder, CallbackOutbox, is_order, find_order, put_order}
use lending_bank_gateway.Db.Orders.{find_order-put_order}
use lending_bank_gateway.Finalize.{is_terminal}
use lending_bank_gateway.Progress.{
  Progress, Evolves, Evolves-trans, Evolves-same, Evolves-put_order, same_key,
}
use lending_bank_gateway.Announce.{event, Announced, IsReal, IsSound}

-- The order `o` becomes `o'`, in a transaction from `db` to `db'`.
pub record Change (db db' : Db) (o o' : BankTxnOrder) : Type 0 where
  pub found : find_order o.tenant_id o.biz_seq_no db ≡ some o
  pub progress : Progress o o'
  pub orders : db'.orders ≡ (put_order o' db).orders
  pub keeps :
      (t b : String) (s : OrderStatus) (row : CallbackOutbox)
      → event t b s db ≡ some row
      → event t b s db' ≡ some row
  pub adds :
      (t b : String) (s : OrderStatus) (row : CallbackOutbox)
      → event t b s db' ≡ some row
      → (event t b s db ≡ some row) ⊎ ((t ≡ o.tenant_id) × (b ≡ o.biz_seq_no) × (s ≡ o'.status))
  pub own_closed : is_some o'.finalized_at ≡ is_terminal o'.status
  pub own_announced : is_terminal o'.status ≡ true → Announced db' o'

pub IsReal-Evolves :
    (db db' : Db) (t b : String) (s : OrderStatus)
    → Evolves db db'
    → IsReal db t b s
    → IsReal db' t b s
IsReal-Evolves db db' t b s e r =
    let (o', found', p) = e.at t b r.order r.found in
    record { order = o'; found = found'; reached = Reaches-trans r.reached p.moves }

module _ (db db' : Db) (o o' : BankTxnOrder) (c : Change db db' o o') where
  lookup :
      (t b : String)
      → find_order t b db'
        ≡ (if is_order t b o' then Option.map (λ _. o') (find_order t b db) else find_order t b db)
  lookup t b =
      unfold find_order in
      ap (λ rows. find (is_order t b) rows) c.orders
      ∙ unfold find_order in find_order-put_order o' t b db

  lookup_cases :
      (t b : String) (x : BankTxnOrder)
      → find_order t b db' ≡ some x
      → (o' ≡ x) ⊎ (find_order t b db ≡ some x)
  lookup_cases t b x h = elim (Bool-cases (is_order t b o')) [
    | inl hit ↦ elim (Option-cases (find_order t b db)) [
      | inl missing ↦ ground (arith, lookup t b)
      | inr (y, was) ↦ inl (ground (arith, lookup t b))
    ]
    | inr miss ↦ inr (ground (arith, lookup t b))
  ]

  change-Evolves : Evolves db db'
  change-Evolves =
      Evolves-trans db (put_order o' db) db' (Evolves-put_order db o o' c.progress c.found)
        (Evolves-same (put_order o' db) db' c.orders)

  lookup_own : find_order o.tenant_id o.biz_seq_no db' ≡ some o'
  lookup_own = ground (
    arith,
    lookup o.tenant_id o.biz_seq_no,
    same_key db o o' c.progress,
    c.found,
    eq_refl o.tenant_id,
    eq_refl o.biz_seq_no,
  )

  Announced-keeps : (x : BankTxnOrder) → Announced db x → Announced db' x
  Announced-keeps x a = record {
    row = a.row;
    via = a.via;
    queued = c.keeps x.tenant_id x.biz_seq_no x.status a.row a.queued;
    finalized = a.finalized;
    told = a.told;
  }

  own-IsReal :
      (t b : String) (s : OrderStatus)
      → (t ≡ o.tenant_id) × (b ≡ o.biz_seq_no) × (s ≡ o'.status)
      → IsReal db' t b s
  own-IsReal t b s (et, eb, es) = record {
    order = o';
    found = rw (et, eb) lookup_own;
    reached = subst (λ u. Reaches u o'.status) (sym es) here;
  }

  -- Such a change keeps the outbox sound.
  pub IsSound-Change : IsSound db → IsSound db'
  IsSound-Change sound = record {
    closed_iff = λ t b x h. elim (lookup_cases t b x h) [
      | inl e ↦ subst (λ y. is_some y.finalized_at ≡ is_terminal y.status) e c.own_closed
      | inr was ↦ sound.closed_iff t b x was
    ];
    announced = λ t b x h final. elim (lookup_cases t b x h) [
      | inl e ↦ subst (λ y. Announced db' y) e (c.own_announced (rw e final))
      | inr was ↦ Announced-keeps x (sound.announced t b x was final)
    ];
    real = λ t b s row h. elim (c.adds t b s row h) [
      | inl was ↦ IsReal-Evolves db db' t b s change-Evolves (sound.real t b s row was)
      | inr own ↦ own-IsReal t b s own
    ];
  }
