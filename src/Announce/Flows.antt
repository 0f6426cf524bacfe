-- ===== src/Announce/Flows.antt =====
-- Soundness of the outbox against the closing and the moving on of an order, of
-- app/services/order_finalize.py and app/services/submit.py.
pub mod Runs
use Prim.Native.String.{◌++◌}
use mathlib.Core.Option.{some-injective}
use lending_bank_gateway.Prelude.{
  ℕ, ◌≡◌, ◌⊎◌, inl, inr, refl, sym, ap, ◌∙◌, subst, Bool, true, false, String, Option, none, some,
  [], ◌∷◌, find, Bool-cases, Option-cases, arith, if◌then◌else◌, is_some, is_none, ◌&&◌,
}
use lending_bank_gateway.Json.{Payload}
use lending_bank_gateway.Domain.States.{OrderStatus, may_move, succeeded, failed, reversed, value}
use lending_bank_gateway.Domain.States.Laws.{Reaches, Reaches-Later}
use lending_bank_gateway.Db.{
  Db, BankTxnOrder, CallbackOutbox, Digests, AuditEntry, find_order, put_order,
}
use lending_bank_gateway.Audit.{write_audit}
use lending_bank_gateway.Audit.Frame.{orders-write_audit, outbox-write_audit}
use lending_bank_gateway.Outbox.{is_event, new_row, enqueue_forward}
use lending_bank_gateway.Outbox.Enqueue.{
  event_row, event_row-enqueue_forward_old, event_row-enqueue_forward_new,
}
use lending_bank_gateway.Finalize.{
  is_terminal, terminal_event, dedup_key, closed, audit_payload, finalize_terminal_in_session,
}
use lending_bank_gateway.Finalize.Frame.{settled, orders-finalize}
use lending_bank_gateway.Ledger.{IsFinal}
use lending_bank_gateway.Progress.{Progress, same_key}
use lending_bank_gateway.Progress.Closing.{Progress-closed}
use lending_bank_gateway.Announce.{event, Announced, IsReal, IsSound}
use lending_bank_gateway.Announce.Events.{event-told}
use lending_bank_gateway.Announce.Change.{Change, IsSound-Change}

pub event-same :
    (t b : String) (s : OrderStatus) (db db' : Db)
    → db'.outbox ≡ db.outbox
    → event t b s db' ≡ event t b s db
event-same t b s db db' e = ap (λ rows. find (is_event t "lifecycle" (dedup_key t b s)) rows) e

-- no chain of moves comes back to a final status
no_return : (s t : OrderStatus) → IsFinal s → Reaches s t → may_move t s ≡ false
unfolding may_move
no_return s t (inl e) r = let later = Reaches-Later (subst (λ u. Reaches u t) e r) in ground arith
no_return s t (inr (inl e)) r =
    let later = Reaches-Later (subst (λ u. Reaches u t) e r) in ground arith
no_return s t (inr (inr e)) r =
    let later = Reaches-Later (subst (λ u. Reaches u t) e r) in ground arith

pub is_terminal-IsFinal : (s : OrderStatus) → is_terminal s ≡ true → IsFinal s
unfolding is_terminal
is_terminal-IsFinal s h = ground arith

pub IsFinal-is_terminal : (s : OrderStatus) → IsFinal s → is_terminal s ≡ true
unfolding is_terminal
IsFinal-is_terminal s h = ground arith

module _ (env : Digests) (now : ℕ) (db : Db) (o w : BankTxnOrder) (source trace caller : String)
    (from : Option String) where
  abbrev row_after : BankTxnOrder
  row_after = closed now source w

  abbrev closing_db : Db
  closing_db = finalize_terminal_in_session env now w source trace caller from db

  abbrev payload : Payload
  payload = terminal_event w.biz_seq_no w.status source w.business_action

  -- the database when the event is enqueued
  abbrev audited : Db
  audited =
      write_audit env
        (record {
          tenant_id = w.tenant_id;
          actor = "svc:" ++ caller;
          action = "ORDER_" ++ value w.status;
          entity = "bank_txn_order:" ++ w.biz_seq_no;
          payload = audit_payload source from;
        })
        (put_order row_after db)

  closing_db-eq :
      settled env now w source trace caller from db ≡ false
      → closing_db
        ≡ enqueue_forward w.tenant_id "lifecycle" payload
            (some (dedup_key w.tenant_id w.biz_seq_no w.status))
            (some trace)
            audited
  unfolding finalize_terminal_in_session
  closing_db-eq late = rw late refl

  outbox-audited : audited.outbox ≡ db.outbox
  unfolding put_order
  outbox-audited = outbox-write_audit env _ (put_order row_after db)

  closing_orders :
      settled env now w source trace caller from db ≡ false
      → closing_db.orders ≡ (put_order row_after db).orders
  closing_orders late =
      subst (λ b. closing_db.orders ≡ (put_order (if b then w else row_after) db).orders) late
        (orders-finalize env now w source trace caller from db)

  module _ (found : find_order o.tenant_id o.biz_seq_no db ≡ some o) (p : Progress o w)
      (allowed : may_move o.status w.status ≡ true) (final : IsFinal w.status)
      (late : settled env now w source trace caller from db ≡ false) (sound : IsSound db) where
    event_fresh : event w.tenant_id w.biz_seq_no w.status audited ≡ none
    event_fresh = elim (Option-cases (event w.tenant_id w.biz_seq_no w.status audited)) [
      | inl fresh ↦ fresh
      | inr (row, there) ↦
          let r = sound.real w.tenant_id w.biz_seq_no w.status row (
            sym (event-same w.tenant_id w.biz_seq_no w.status db audited outbox-audited) ∙ there) in
          let (et, eb) = same_key db o w p in
          let e : o ≡ r.order = some-injective o r.order (sym found ∙ cc (et, eb, r.found)) in
          let blocked =
            no_return w.status o.status final
              (subst (λ x. Reaches w.status x.status) (sym e) r.reached) in
          cc
    ]

    closing_announces : Announced closing_db row_after
    closing_announces = record {
      row =
          new_row audited.next_outbox_id w.tenant_id "lifecycle" payload
            (some (dedup_key w.tenant_id w.biz_seq_no w.status)) (some trace);
      via = source;
      queued =
          ap (event w.tenant_id w.biz_seq_no w.status) (closing_db-eq late)
          ∙ event_row-enqueue_forward_new w.tenant_id "lifecycle"
              (dedup_key w.tenant_id w.biz_seq_no w.status) payload (some trace) audited
              event_fresh;
      finalized = refl;
      told = refl;
    }

    closing_adds :
        (t b : String) (s : OrderStatus) (row : CallbackOutbox)
        → event t b s closing_db ≡ some row
        → (event t b s db ≡ some row) ⊎ ((t ≡ o.tenant_id) × (b ≡ o.biz_seq_no) × (s ≡ w.status))
    closing_adds t b s row h =
        let (et, eb) = same_key db o w p in
        elim (event-told w.tenant_id w.biz_seq_no w.status payload (some trace) audited t b s row
          (sym (ap (event t b s) (closing_db-eq late)) ∙ h)) [
            | inl was ↦ inl (sym (event-same t b s db audited outbox-audited) ∙ was)
            | inr (a, c, d) ↦ inr (a ∙ et, c ∙ eb, d)
          ]

    closing_keeps :
        (t b : String) (s : OrderStatus) (row : CallbackOutbox)
        → event t b s db ≡ some row
        → event t b s closing_db ≡ some row
    closing_keeps t b s row h =
        ap (event t b s) (closing_db-eq late)
        ∙ event_row-enqueue_forward_old w.tenant_id "lifecycle"
            (dedup_key w.tenant_id w.biz_seq_no w.status) payload (some trace) audited t "lifecycle"
            (dedup_key t b s) row (event-same t b s db audited outbox-audited ∙ h)

    -- Closing an order by a move of the table keeps the outbox sound.
    pub IsSound-closing : IsSound closing_db
    IsSound-closing =
        IsSound-Change db closing_db o row_after
          (record {
            found = found;
            progress = Progress-closed now source o w p;
            orders = closing_orders late;
            keeps = closing_keeps;
            adds = closing_adds;
            own_closed = ground (arith, IsFinal-is_terminal w.status final);
            own_announced = λ _. closing_announces;
          })
          sound

-- Moving an order on to a status that is not final, with an audit row, keeps the outbox sound.
pub IsSound-moving :
    (env : Digests) (entry : AuditEntry) (db : Db) (o w : BankTxnOrder)
    → find_order o.tenant_id o.biz_seq_no db ≡ some o
    → Progress o w
    → is_terminal w.status ≡ false
    → w.finalized_at ≡ none
    → IsSound db
    → IsSound (write_audit env entry (put_order w db))
IsSound-moving env entry db o w found p not_final never sound =
    let db' : Db = write_audit env entry (put_order w db) in
    let same_outbox : db'.outbox ≡ db.outbox =
      outbox-write_audit env entry (put_order w db) ∙ unfold put_order in refl in
    IsSound-Change db db' o w
      (record {
        found = found;
        progress = p;
        orders = orders-write_audit env entry (put_order w db);
        keeps = λ t b s row h. event-same t b s db db' same_outbox ∙ h;
        adds = λ t b s row h. inl (sym (event-same t b s db db' same_outbox) ∙ h);
        own_closed = rw (not_final, never) refl;
        own_announced = λ final. cc;
      })
      sound
