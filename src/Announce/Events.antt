-- ===== src/Announce/Events.antt =====
-- The events that an enqueued event leaves in the outbox.
use lending_bank_gateway.Prelude.{
  ◌≡◌, ◌⊎◌, inl, inr, sym, ap, ◌∙◌, true, String, eq_iff, Option, some, [], ◌∷◌, find-append,
  Option-cases, Bool-cases, arith,
}
use lending_bank_gateway.Json.{Payload}
use lending_bank_gateway.Domain.States.{OrderStatus}
use lending_bank_gateway.Db.{Db, CallbackOutbox}
use lending_bank_gateway.Outbox.{is_event, new_row, enqueue_forward}
use lending_bank_gateway.Outbox.Enqueue.{event_row-enqueue_forward_old}
use lending_bank_gateway.Finalize.{dedup_key}
use lending_bank_gateway.Finalize.Keys.{dedup_key-injective}
use lending_bank_gateway.Announce.{event}

module _ (t b : String) (s : OrderStatus) (p : Payload) (trace : Option String) (db : Db) where
  abbrev pub told_db : Db
  told_db = enqueue_forward t "lifecycle" p (some (dedup_key t b s)) trace db

  same_event :
      (t' b' : String) (s' : OrderStatus)
      → is_event t' "lifecycle"
          (dedup_key t' b' s')
          (new_row db.next_outbox_id t "lifecycle" p (some (dedup_key t b s)) trace)
        ≡ true
      → (t' ≡ t) × (b' ≡ b) × (s' ≡ s)
  same_event t' b' s' hit =
      let e : t ≡ t' = ground (arith, eq_iff t t') in
      let k : dedup_key t b s ≡ dedup_key t' b' s' =
        ground (arith, eq_iff (dedup_key t b s) (dedup_key t' b' s')) in
      let (f, g) = dedup_key-injective t b b' s s' (k ∙ ap (λ x. dedup_key x b' s') (sym e)) in
      (sym e, sym f, sym g)

  -- An event that is there was there before, or it is the one that was enqueued.
  pub event-told :
      (t' b' : String) (s' : OrderStatus) (row : CallbackOutbox)
      → event t' b' s' told_db ≡ some row
      → (event t' b' s' db ≡ some row) ⊎ ((t' ≡ t) × (b' ≡ b) × (s' ≡ s))
  unfolding enqueue_forward
  event-told t' b' s' row h = elim (Option-cases (event t' b' s' db)) [
    | inr (old, was) ↦ inl (
        ground (
          arith,
          event_row-enqueue_forward_old t "lifecycle" (dedup_key t b s) p trace db t' "lifecycle"
              (dedup_key t' b' s') old was,
        ))
    | inl fresh ↦
        elim (Bool-cases (
          is_event t' "lifecycle" (dedup_key t' b' s')
            (new_row db.next_outbox_id t "lifecycle" p (some (dedup_key t b s)) trace))) [
              | inl hit ↦ inr (same_event t' b' s' hit)
              | inr miss ↦ ground (
                arith,
                find-append (is_event t' "lifecycle" (dedup_key t' b' s')) db.outbox
                    (new_row db.next_outbox_id t "lifecycle" p (some (dedup_key t b s)) trace ∷ []),
              )
            ]
  ]
