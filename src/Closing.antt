-- ===== src/Closing.antt =====
-- The three transactions that may close an order that was there before: of a callback, of a status
-- query and of a reversal, and their common shape.
use Prim.Native.String.{◌++◌}
use lending_bank_gateway.Prelude.{
  ℕ, ◌≡◌, Bool, true, false, String, Option, none, some, arith, Bool-cases, Option-cases, inl, inr,
}
use lending_bank_gateway.Domain.States.{OrderStatus, same, may_move, reversed, value, succeeded}
use lending_bank_gateway.Db.{Db, BankTxnOrder, Digests, ok, find_order}
use lending_bank_gateway.Finalize.{finalize_terminal_in_session}
use lending_bank_gateway.Reconcile.{with_status, is_settled, is_upgrade, close_from_query}
use lending_bank_gateway.Callback.{close_from_callback}
use lending_bank_gateway.Reversal.{reverse_original}

module _ (env : Digests) (now : ℕ) (t b : String) (s : OrderStatus) (db : Db) where
  -- Without `from`, the order had not been closed before.
  pub data Closes (db' : Db) : Type 0 where
    unchanged : db' ≡ db → Closes db'
    closes :
        (o : BankTxnOrder) (source trace caller : String) (from : Option String)
        → find_order t b db ≡ some o
        → may_move o.status s ≡ true
        → (from ≡ none → is_settled o ≡ false)
        → db' ≡ finalize_terminal_in_session env now (with_status s o) source trace caller from db
        → Closes db'

  pub close_from_query-Closes :
      (source : String) (r : Bool) (db' : Db)
      → close_from_query env now t b source s db ≡ ok (r, db')
      → Closes db'
  unfolding close_from_query
  close_from_query-Closes source r db' h = elim (Option-cases (find_order t b db)) [
    | inl missing ↦ unchanged (ground arith)
    | inr (o, found) ↦ elim (Bool-cases (may_move o.status s)) [
      | inr no_way ↦ unchanged (ground arith)
      | inl allowed ↦ elim (Bool-cases (is_settled o)) [
        | inr live ↦
            closes o source ("reconcile-" ++ o.biz_seq_no) "gateway" none found allowed (λ _. live)
              (ground arith)
        | inl rest ↦ elim (Bool-cases (is_upgrade o s)) [
          | inl up ↦
              closes o source ("reconcile-" ++ o.biz_seq_no) "gateway" (some (value succeeded))
                found allowed (λ e. cc) (ground arith)
          | inr not_up ↦ unchanged (ground arith)
        ]
      ]
    ]
  ]

  pub close_from_callback-Closes :
      (trace : String) (db' : Db) → close_from_callback env now t b s trace db ≡ ok db' → Closes db'
  unfolding close_from_callback
  close_from_callback-Closes trace db' h = elim (Option-cases (find_order t b db)) [
    | inl missing ↦ unchanged (ground arith)
    | inr (o, found) ↦ elim (Bool-cases (may_move o.status s)) [
      | inr no_way ↦ unchanged (ground arith)
      | inl allowed ↦ elim (Bool-cases (is_settled o)) [
        | inr live ↦
            closes o "CALLBACK" trace "gateway" none found allowed (λ _. live) (ground arith)
        | inl rest ↦ elim (Bool-cases (is_upgrade o s)) [
          | inl up ↦
              closes o "CALLBACK" trace "gateway" (some (value succeeded)) found allowed (λ e. cc)
                (ground arith)
          | inr not_up ↦ unchanged (ground arith)
        ]
      ]
    ]
  ]

module _ (env : Digests) (now : ℕ) (t b trace caller : String) (db : Db) where
  pub reverse_original-Closes :
      Closes env now t b reversed db (reverse_original env now t b trace caller db)
  unfolding reverse_original
  reverse_original-Closes = elim (Option-cases (find_order t b db)) [
    | inl missing ↦ unchanged (ground arith)
    | inr (o, found) ↦ elim (Bool-cases (may_move o.status reversed)) [
      | inr no_way ↦ unchanged (ground arith)
      | inl allowed ↦ elim (Bool-cases (same o.status reversed)) [
        | inl already ↦ unchanged (ground arith)
        | inr other ↦
            closes o "SYNC" trace caller (some (value o.status)) found allowed (λ e. cc)
              (ground arith)
      ]
    ]
  ]
