-- ===== src/Ledger/Resolvers.antt =====
-- The resolvers of open orders, of app/services/order_status_reconcile.py and of
-- app/services/callback_finalize.py, as runs of `Ledger`.
use lending_bank_gateway.Prelude.{
  ℕ, ◌≡◌, inl, inr, refl, sym, ap, ◌∙◌, subst, Bool, true, false, String, Option, none, some,
  Option-cases, Bool-cases, arith, if◌then◌else◌,
}
use lending_bank_gateway.Json.{Payload, str_get}
use lending_bank_gateway.Domain.States.{OrderStatus, map_wedap_txn_status, same, succeeded}
use lending_bank_gateway.Db.{
  Db, BankTxnOrder, Digests, Result, ok, err, callback_unresolved, find_order,
}
use lending_bank_gateway.Reconcile.{
  StatusQuery, or_blank, answered, raised, identified, query_terminal, close_from_query,
  resolve_terminal_via_status_query, commit as commit_query,
}
use lending_bank_gateway.Closing.{close_from_query-Closes, close_from_callback-Closes}
use lending_bank_gateway.Callback.{
  is_closed, close_from_callback, after_query, without_status, resolve_callback_terminal,
  commit as commit_callback,
}
use lending_bank_gateway.Ledger.{IsFinal, close, Run, done, after}
use lending_bank_gateway.Ledger.Entries.{Run-trans}

pub map_wedap_txn_status-IsFinal :
    (s : String) (u : OrderStatus) → map_wedap_txn_status s ≡ some u → IsFinal u
unfolding map_wedap_txn_status
map_wedap_txn_status-IsFinal s u h = ground arith

identified-IsFinal :
    (b k : String) (d : Payload) (u : OrderStatus) → identified b k d ≡ some u → IsFinal u
unfolding identified
identified-IsFinal b k d u h =
    ground (arith, map_wedap_txn_status-IsFinal (str_get "txnStatus" d) u)

query_terminal-IsFinal :
    (t b : String) (query : StatusQuery) (db : Db) (u : OrderStatus)
    → query_terminal t b query db ≡ ok (some u)
    → IsFinal u
unfolding query_terminal
query_terminal-IsFinal t b (answered d) db u h = elim (Option-cases (find_order t b db)) [
  | inl missing ↦ ground arith
  | inr (o, found) ↦ ground (arith, identified-IsFinal b (or_blank o.trans_type) d u)
]
query_terminal-IsFinal t b StatusQuery.failed db u h = ground arith
query_terminal-IsFinal t b raised db u h = ground arith

module _ (env : Digests) (db : Db) where
  commit_query-Run :
      (c : Result (Bool × Db))
      → ((r : Bool) (db' : Db) → c ≡ ok (r, db') → Run env db db')
      → Run env db (commit_query db c).1
  commit_query-Run (ok (r, db')) h = h r db' refl
  commit_query-Run (err e) h = done

  commit_callback-Run :
      (c : Result Db)
      → ((db' : Db) → c ≡ ok db' → Run env db db')
      → Run env db (commit_callback db c).1
  commit_callback-Run (ok db') h = h db' refl
  commit_callback-Run (err e) h = done

module _ (env : Digests) (now : ℕ) (t b : String) (query : StatusQuery) (others : Db → Db)
    (run : (d : Db) → Run env d (others d)) (db : Db) where
  close_from_query-Run :
      (source : String) (u : OrderStatus)
      → IsFinal u
      → Run env
          (others db)
          (commit_query (others db) (close_from_query env now t b source u (others db))).1
  close_from_query-Run source u final =
      commit_query-Run env (others db) (close_from_query env now t b source u (others db))
        (λ r db' e. after (others db) db' done (
          close now t b u final (close_from_query-Closes env now t b u (others db) source r db' e)))

  resolved :
      (source : String) (x : Result (Option OrderStatus)) (out : Result Bool × Db)
      → query_terminal t b query db ≡ x
      → out ≡ (elim x [
        | err e ↦ (err e, others db)
        | ok none ↦ (ok false, others db)
        | ok (some u) ↦ commit_query (others db) (close_from_query env now t b source u (others db))
      ])
      → Run env db out.1
  resolved source (err e) out asked h = rw h (run db)
  resolved source (ok none) out asked h = rw h (run db)
  resolved source (ok (some u)) out asked h = rw h (
      Run-trans env db (others db) _ (run db)
        (close_from_query-Run source u (query_terminal-IsFinal t b query db u asked)))

  -- `resolve_terminal_via_status_query` is a run of transactions of the money flows, whatever the query
  -- gives, if what happens to the database while it waits for wedap is one.
  pub resolve_terminal-Run :
      (source : String)
      → Run env db (resolve_terminal_via_status_query env now t b source query others db).1
  resolve_terminal-Run source =
      resolved source (query_terminal t b query db)
        (resolve_terminal_via_status_query env now t b source query others db) refl
        (unfold resolve_terminal_via_status_query in refl)

module _ (env : Digests) (now : ℕ) (t trace : String) (query : StatusQuery) (others : Db → Db)
    (run : (d : Db) → Run env d (others d)) (db : Db) where
  after_query-db : (b : String) (asked : Result Bool × Db) → (after_query t b asked).1 ≡ asked.1
  unfolding after_query
  after_query-db b (ok true, d) = refl
  after_query-db b (ok false, d) = refl
  after_query-db b (err e, d) = refl

  looked_up :
      (b : String) (x : Option BankTxnOrder) (asked : Result Bool × Db)
      (out : Result (Unit {0}) × Db)
      → Run env db asked.1
      → out ≡ (elim x [
        | none ↦ (err callback_unresolved, db)
        | some o ↦
            if is_closed o
            then (if same o.status succeeded then (ok tt, asked.1) else (ok tt, db))
            else after_query t b asked
      ])
      → Run env db out.1
  looked_up b none asked out once h = rw h done
  looked_up b (some o) asked out once h = elim (Bool-cases (is_closed o)) [
    | inr live ↦
        subst (λ d. Run env db d) (sym (ap (λ x. x.1) h ∙ rw live (after_query-db b asked))) once
    | inl closed ↦ elim (Bool-cases (same o.status succeeded)) [
      | inl success ↦
          subst (λ d. Run env db d) (sym (ap (λ x. x.1) h ∙ rw (closed, success) refl)) once
      | inr other ↦ subst (λ d. Run env db d) (sym (ap (λ x. x.1) h ∙ rw (closed, other) refl)) done
    ]
  ]

  without_status-Run : (b : String) → Run env db (without_status env now t b query others db).1
  without_status-Run b =
      looked_up b (find_order t b db)
        (resolve_terminal_via_status_query env now t b "CALLBACK" query others db)
        (without_status env now t b query others db)
        (resolve_terminal-Run env now t b query others run db "CALLBACK")
        (unfold without_status in refl)

  called_back :
      (b : String) (x : Option OrderStatus) (out : Result (Unit {0}) × Db)
      → ((u : OrderStatus) → x ≡ some u → IsFinal u)
      → out ≡ (elim x [
        | none ↦ without_status env now t b query others db
        | some u ↦ commit_callback db (close_from_callback env now t b u trace db)
      ])
      → Run env db out.1
  called_back b none out final h = rw h (without_status-Run b)
  called_back b (some u) out final h = rw h (
      commit_callback-Run env db (close_from_callback env now t b u trace db) (λ db' e.
        after db db' done (
          close now t b u (final u refl)
            (close_from_callback-Closes env now t b u db trace db' e))))

  -- `resolve_callback_terminal` is a run of transactions of the money flows, whatever the callback and a
  -- query say, if what happens to the database while it waits for wedap is one.
  pub resolve_callback-Run :
      (body : Payload)
      → Run env db (resolve_callback_terminal env now t body trace query others db).1
  resolve_callback-Run body =
      called_back (str_get "bizSeqNo" body) (map_wedap_txn_status (str_get "txnStatus" body))
        (resolve_callback_terminal env now t body trace query others db)
        (map_wedap_txn_status-IsFinal (str_get "txnStatus" body))
        (unfold resolve_callback_terminal in refl)
