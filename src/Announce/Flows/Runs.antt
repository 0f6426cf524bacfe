-- ===== src/Announce/Flows/Runs.antt =====
-- Soundness of the outbox against the runs of `Ledger`.
use lending_bank_gateway.Prelude.{
  ℕ, ◌≡◌, ◌⊎◌, inl, inr, refl, sym, ap, ◌∙◌, subst, true, false, String, none, some, find,
  Bool-cases, Option-cases, arith, is_some,
}
use lending_bank_gateway.Domain.States.{OrderStatus, may_move, reversed, accepted}
use lending_bank_gateway.Db.{
  Db, empty, BankTxnOrder, CallbackOutbox, Digests, is_order, find_order, add_order,
}
use lending_bank_gateway.Db.Orders.{find_order-add_order}
use lending_bank_gateway.Finalize.{is_terminal, dedup_key}
use lending_bank_gateway.Submit.Request.{SubmitRequest}
use lending_bank_gateway.Submit.Register.{new_order}
use lending_bank_gateway.Submit.Conclude.{advance, moved}
use lending_bank_gateway.Reconcile.{with_status}
use lending_bank_gateway.Outbox.Dispatch.Events.{SameEvents, orders-Delivery, Delivery-SameEvents}
use lending_bank_gateway.Closing.{Closes, unchanged, closes}
use lending_bank_gateway.Ledger.{
  SameLedger, Begins, nothing, registers, Advances, skips, moves_on, IsFinal, Step, begin, conclude,
  conclude_reversal, close, deliver, Run, done, after,
}
use lending_bank_gateway.Progress.{Evolves-same, Evolves-add_order}
use lending_bank_gateway.Progress.Closing.{Progress-with_status, found_by_key}
use lending_bank_gateway.Progress.Submitting.{Progress-moved}
use lending_bank_gateway.Announce.{event, Announced, IsReal, IsSound}
use lending_bank_gateway.Announce.Change.{IsReal-Evolves}
use lending_bank_gateway.Announce.Flows.{
  event-same, is_terminal-IsFinal, IsSound-closing, IsSound-moving,
}

Announced-same :
    (db db' : Db) (o : BankTxnOrder) → db'.outbox ≡ db.outbox → Announced db o → Announced db' o
Announced-same db db' o e a = record {
  row = a.row;
  via = a.via;
  queued = event-same o.tenant_id o.biz_seq_no o.status db db' e ∙ a.queued;
  finalized = a.finalized;
  told = a.told;
}

module _ (db db' : Db) where
  find_order-same : (t b : String) → db'.orders ≡ db.orders → find_order t b db' ≡ find_order t b db
  unfolding find_order
  find_order-same t b e = ap (λ rows. find (is_order t b) rows) e

  IsSound-SameLedger : SameLedger db db' → IsSound db → IsSound db'
  IsSound-SameLedger e sound = record {
    closed_iff = λ t b o h. sound.closed_iff t b o (sym (find_order-same t b e.orders) ∙ h);
    announced = λ t b o h final.
        Announced-same db db' o e.outbox
          (sound.announced t b o (sym (find_order-same t b e.orders) ∙ h) final);
    real = λ t b s row h.
        IsReal-Evolves db db' t b s (Evolves-same db db' e.orders)
          (sound.real t b s row (sym (event-same t b s db db' e.outbox) ∙ h));
  }

  -- the dispatchers' part: the same events, further on their way
  IsSound-SameEvents :
      db'.orders ≡ db.orders → SameEvents db.outbox db'.outbox → IsSound db → IsSound db'
  IsSound-SameEvents eo e sound = record {
    closed_iff = λ t b o h. sound.closed_iff t b o (sym (find_order-same t b eo) ∙ h);
    announced = λ t b o h final.
        let a = sound.announced t b o (sym (find_order-same t b eo) ∙ h) final in
        let (row, queued, body) =
          e.keeps o.tenant_id "lifecycle" (dedup_key o.tenant_id o.biz_seq_no o.status) a.row
            a.queued in
        record {
          row = row;
          via = a.via;
          queued = queued;
          finalized = a.finalized;
          told = body ∙ a.told;
        };
    real = λ t b s row h.
        let (old, was) = e.adds_none t "lifecycle" (dedup_key t b s) row h in
        IsReal-Evolves db db' t b s (Evolves-same db db' eo) (sound.real t b s old was);
  }

  -- the order that an insert adds, or one that was there
  inserted_cases :
      (o : BankTxnOrder) (t b : String) (x : BankTxnOrder)
      → add_order o db ≡ some db'
      → find_order t b db' ≡ some x
      → (o ≡ x) ⊎ (find_order t b db ≡ some x)
  inserted_cases o t b x added h = elim (Bool-cases (is_order t b o)) [
    | inl hit ↦ inl (ground (arith, find_order-add_order o t b db db' added))
    | inr miss ↦ inr (ground (arith, find_order-add_order o t b db db' added))
  ]

  outbox-add_order : (o : BankTxnOrder) → add_order o db ≡ some db' → db'.outbox ≡ db.outbox
  unfolding add_order
  outbox-add_order o added = ground arith

  IsSound-add_order :
      (now : ℕ) (req : SubmitRequest)
      → add_order (new_order now req) db ≡ some db'
      → IsSound db
      → IsSound db'
  unfolding is_terminal
  IsSound-add_order now req added sound =
      let same_outbox : db'.outbox ≡ db.outbox = outbox-add_order (new_order now req) added in
      record {
        closed_iff = λ t b x h. elim (inserted_cases (new_order now req) t b x added h) [
          | inl e ↦ subst (λ y. is_some y.finalized_at ≡ is_terminal y.status) e refl
          | inr was ↦ sound.closed_iff t b x was
        ];
        announced = λ t b x h final. elim (inserted_cases (new_order now req) t b x added h) [
          | inl e ↦
              let open_order : is_terminal x.status ≡ false =
                subst (λ y. is_terminal y.status ≡ false) e refl in
              cc
          | inr was ↦ Announced-same db db' x same_outbox (sound.announced t b x was final)
        ];
        real = λ t b s row h.
            IsReal-Evolves db db' t b s (Evolves-add_order db db' (new_order now req) added)
              (sound.real t b s row (sym (event-same t b s db db' same_outbox) ∙ h));
      }

module _ (env : Digests) (now : ℕ) (db : Db) (sound : IsSound db) where
  IsSound-Begins : (req : SubmitRequest) (db' : Db) → Begins env now req db db' → IsSound db'
  IsSound-Begins req db' (nothing e) = IsSound-SameLedger db db' e sound
  IsSound-Begins req db' (registers mid e added) =
      IsSound-add_order mid db' now req added (IsSound-SameLedger db mid e sound)

  -- the branches of `advance`
  IsSound-advance :
      (req : SubmitRequest) (o : BankTxnOrder) (s : OrderStatus)
      → find_order o.tenant_id o.biz_seq_no db ≡ some o
      → o.status ≡ accepted
      → may_move o.status s ≡ true
      → IsSound (advance env now req s o db)
  unfolding advance
  IsSound-advance req o s found was allowed =
      let never : o.finalized_at ≡ none =
        unfold is_terminal in ground (arith, sound.closed_iff o.tenant_id o.biz_seq_no o found) in
      elim (Bool-cases (is_terminal s)) [
        | inl final ↦ rw final (
            IsSound-closing env now db o (moved now s o) "SYNC" req.request_id req.caller_service
              none found (Progress-moved env now req db o s allowed) allowed
              (is_terminal-IsFinal s final) (rw never refl) sound)
        | inr not_final ↦ rw not_final (
            IsSound-moving env _ db o (moved now s o) found
              (Progress-moved env now req db o s allowed) not_final never sound)
      ]

  IsSound-Advances : (req : SubmitRequest) (db' : Db) → Advances env now req db db' → IsSound db'
  IsSound-Advances req db' (skips e) = subst IsSound (sym e) sound
  IsSound-Advances req db' (moves_on o s found was allowed e) = subst IsSound (sym e) (
      IsSound-advance req o s (found_by_key env now db req.tenant_id req.biz_seq_no o found) was
        (rw was allowed))

  IsSound-Closes :
      (t b : String) (s : OrderStatus) (db' : Db)
      → IsFinal s
      → Closes env now t b s db db'
      → IsSound db'
  IsSound-Closes t b s db' final (unchanged e) = subst IsSound (sym e) sound
  IsSound-Closes t b s db' final (closes o source trace caller from found allowed first e) =
      subst IsSound (sym e) (
        IsSound-closing env now db o (with_status s o) source trace caller from
          (found_by_key env now db t b o found) (Progress-with_status o s allowed) allowed final
          (elim (Option-cases from) [
            | inl no_from ↦ let live = first no_from in ground arith
            | inr (f, e') ↦ rw e' (ground arith)
          ])
          sound)

-- Every transaction of the money flows keeps the outbox sound.
pub Step-IsSound : (env : Digests) (db db' : Db) → Step env db db' → IsSound db → IsSound db'
Step-IsSound env db db' (begin now req b) sound = IsSound-Begins env now db sound req db' b
Step-IsSound env db db' (conclude now req mid a e) sound =
    IsSound-SameLedger mid db' e (IsSound-Advances env now db sound req mid a)
Step-IsSound env db db' (conclude_reversal now req ori mid last a c e) sound =
    IsSound-SameLedger last db' e (
      IsSound-Closes env now mid (IsSound-Advances env now db sound req mid a) req.tenant_id ori
        reversed last (inr (inr refl)) c)
Step-IsSound env db db' (close now t b s final c) sound =
    IsSound-Closes env now db sound t b s db' final c
Step-IsSound env db db' (deliver policy d) sound =
    IsSound-SameEvents db db' (orders-Delivery db db' d) (Delivery-SameEvents db db' d) sound

-- After any run of the money flows and the dispatchers that starts from a sound database, such as the empty one, an
-- order has a closing time just if its status is final; the outbox holds an event of each final
-- order, with the order's number, action, status and source; and every event in it is of an order
-- that has had the event's status.
pub Run-IsSound : (env : Digests) (db db' : Db) → Run env db db' → IsSound db → IsSound db'
Run-IsSound env db _ done sound = sound
Run-IsSound env db db' (after mid _ run step) sound =
    Step-IsSound env mid db' step (Run-IsSound env db mid run sound)

-- the database before the first transaction
pub empty-IsSound : IsSound empty
unfolding find_order
empty-IsSound = record {
  closed_iff = λ t b o h. cc;
  announced = λ t b o h final. cc;
  real = λ t b s row h. cc;
}

module _ (env : Digests) (db : Db) (run : Run env empty db) (t b : String) where
  -- In every run of the money flows and the dispatchers from the empty database, an order in a final
  -- status has its event in the outbox: with its number, action, status and the source that closed
  -- it.
  pub Run-Announced :
      (o : BankTxnOrder) → find_order t b db ≡ some o → is_terminal o.status ≡ true → Announced db o
  Run-Announced o found final =
      (Run-IsSound env empty db run empty-IsSound).announced t b o found final

  -- In every such run, an order has a closing time exactly if its status is final.
  pub Run-closed :
      (o : BankTxnOrder)
      → find_order t b db ≡ some o
      → is_some o.finalized_at ≡ is_terminal o.status
  Run-closed o found = (Run-IsSound env empty db run empty-IsSound).closed_iff t b o found

  -- In every such run, an event in the outbox is of an order that is there and that has had the
  -- event's status: nothing is announced that has not happened.
  pub Run-IsReal :
      (s : OrderStatus) (row : CallbackOutbox) → event t b s db ≡ some row → IsReal db t b s
  Run-IsReal s row queued = (Run-IsSound env empty db run empty-IsSound).real t b s row queued
