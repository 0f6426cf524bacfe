-- ===== src/Outbox/Dispatch/Events.antt =====
-- The dispatchers and the operator against the orders, the audit log and the events.
use lending_bank_gateway.Prelude.{
  ◌≡◌, inl, inr, refl, sym, ◌∙◌, subst, Bool, String, some, List, find, update_where,
  find-update_where, Option-cases, if◌then◌else◌, arith,
}
use lending_bank_gateway.Db.{Db, CallbackOutbox}
use lending_bank_gateway.Outbox.{is_event}
use lending_bank_gateway.Outbox.Dispatch.{
  claimed, claim, reclaimed, reclaim_stale_sending, settle, finalize_after_send, replay_dead,
  Policy,
}
use lending_bank_gateway.Outbox.Dispatch.Rows.{
  Delivery, reclaims, claims, finishes, replays, replayed, replay_dead-rows,
}

-- each event of one outbox is in the other, with the same body
pub record SameEvents (old new : List CallbackOutbox) : Type 0 where
  pub keeps :
      (t target key : String) (r : CallbackOutbox)
      → find (is_event t target key) old ≡ some r
      → (r' : CallbackOutbox) × (find (is_event t target key) new ≡ some r')
        × (r'.payload ≡ r.payload)
  pub adds_none :
      (t target key : String) (r' : CallbackOutbox)
      → find (is_event t target key) new ≡ some r'
      → (r : CallbackOutbox) × (find (is_event t target key) old ≡ some r)

SameEvents-refl : (rows : List CallbackOutbox) → SameEvents rows rows
SameEvents-refl rows = record {
  keeps = λ t target key r h. (r, h, refl);
  adds_none = λ t target key r h. (r, h);
}

SameEvents-update_where :
    (p : CallbackOutbox → Bool) (f : CallbackOutbox → CallbackOutbox) (rows : List CallbackOutbox)
    → ((t target key : String) (x : CallbackOutbox)
        → is_event t target key (f x) ≡ is_event t target key x)
    → ((x : CallbackOutbox) → (f x).payload ≡ x.payload)
    → SameEvents rows (update_where p f rows)
SameEvents-update_where p f rows same_key same_body = record {
  keeps = λ t target key r h. (
    if p r then f r else r,
    find-update_where (is_event t target key) p f rows (λ x _. same_key t target key x) ∙ rw h refl,
    ground (arith, same_body r),
  );
  adds_none = λ t target key r' h. elim (Option-cases (find (is_event t target key) rows)) [
    | inl missing ↦
        ground (
          arith,
          find-update_where (is_event t target key) p f rows (λ x _. same_key t target key x),
        )
    | inr (r, found) ↦ (r, found)
  ];
}

module _ {policy : Policy} (db : Db) where
  pub Delivery-SameEvents : (db' : Db) → Delivery policy db db' → SameEvents db.outbox db'.outbox
  unfolding reclaim_stale_sending claim finalize_after_send
  Delivery-SameEvents _ (reclaims now) =
      SameEvents-update_where _ reclaimed db.outbox (λ t g k x. refl) (λ x. refl)
  Delivery-SameEvents _ (claims now at id token) =
      SameEvents-update_where _ (claimed at token) db.outbox (λ t g k x. refl) (λ x. refl)
  Delivery-SameEvents _ (finishes at id token n sent read) =
      SameEvents-update_where _ (settle policy at n sent) db.outbox (λ t g k x. ground arith)
        (λ x. ground arith)
  Delivery-SameEvents _ (replays id) = elim (replay_dead-rows policy id db) [
    | inl same ↦ subst (λ rows. SameEvents db.outbox rows) (sym same) (SameEvents-refl db.outbox)
    | inr (r, found, dead, e) ↦
        subst (λ rows. SameEvents db.outbox rows) (sym e)
          (SameEvents-update_where _ (replayed policy) db.outbox (λ t g k x. refl) (λ x. refl))
  ]

  pub orders-Delivery : (db' : Db) → Delivery policy db db' → db'.orders ≡ db.orders
  unfolding reclaim_stale_sending claim finalize_after_send replay_dead
  orders-Delivery _ (reclaims now) = refl
  orders-Delivery _ (claims now at id token) = refl
  orders-Delivery _ (finishes at id token n sent read) = refl
  orders-Delivery _ (replays id) = ground arith

  pub audit-Delivery :
      (db' : Db) → Delivery policy db db' → (db'.audit ≡ db.audit) × (db'.heads ≡ db.heads)
  unfolding reclaim_stale_sending claim finalize_after_send replay_dead
  audit-Delivery _ (reclaims now) = (refl, refl)
  audit-Delivery _ (claims now at id token) = (refl, refl)
  audit-Delivery _ (finishes at id token n sent read) = (refl, refl)
  audit-Delivery _ (replays id) = (ground arith, ground arith)
