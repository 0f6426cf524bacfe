-- ===== src/Outbox/Enqueue.antt =====
-- `enqueue_forward` against the other tables, and the row of an event key.
use lending_bank_gateway.Prelude.{
  ◌≡◌, String, eq_refl, Option, none, some, [], ◌∷◌, find, find-append, arith,
}
use lending_bank_gateway.Json.{Payload}
use lending_bank_gateway.Db.{Db, CallbackOutbox}
use lending_bank_gateway.Outbox.{is_event, new_row, enqueue_forward}

module _ (t target : String) (p : Payload) (key trace : Option String) (db : Db) where
  pub orders-enqueue_forward : (enqueue_forward t target p key trace db).orders ≡ db.orders
  unfolding enqueue_forward
  orders-enqueue_forward = ground arith

  pub idempotency-enqueue_forward :
      (enqueue_forward t target p key trace db).idempotency ≡ db.idempotency
  unfolding enqueue_forward
  idempotency-enqueue_forward = ground arith

  pub audit-enqueue_forward : (enqueue_forward t target p key trace db).audit ≡ db.audit
  unfolding enqueue_forward
  audit-enqueue_forward = ground arith

  pub heads-enqueue_forward : (enqueue_forward t target p key trace db).heads ≡ db.heads
  unfolding enqueue_forward
  heads-enqueue_forward = ground arith

-- The first row of an event key, as the table stands.
abbrev pub event_row : String → String → String → Db → Option CallbackOutbox
event_row t target key db = find (is_event t target key) db.outbox

module _ (t target key : String) (p : Payload) (trace : Option String) (db : Db) where
  -- an event that is there stays there as it is
  pub event_row-enqueue_forward_old :
      (t' target' key' : String) (r : CallbackOutbox)
      → event_row t' target' key' db ≡ some r
      → event_row t' target' key' (enqueue_forward t target p (some key) trace db) ≡ some r
  unfolding enqueue_forward
  event_row-enqueue_forward_old t' target' key' r h = ground (
    arith,
    find-append (is_event t' target' key') db.outbox
        (new_row db.next_outbox_id t target p (some key) trace ∷ []),
  )

  pub event_row-enqueue_forward_new :
      event_row t target key db ≡ none
      → event_row t target key (enqueue_forward t target p (some key) trace db)
        ≡ some (new_row db.next_outbox_id t target p (some key) trace)
  unfolding enqueue_forward
  event_row-enqueue_forward_new h = ground (
    arith,
    eq_refl t,
    eq_refl target,
    eq_refl key,
    find-append (is_event t target key) db.outbox
        (new_row db.next_outbox_id t target p (some key) trace ∷ []),
  )
