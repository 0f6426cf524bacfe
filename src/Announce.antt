-- ===== src/Announce.antt =====
-- What the downstream services are told: the orders' final statuses against the outbox rows of
-- app/services/order_finalize.py.
pub mod Events
pub mod Change
pub mod Flows
use lending_bank_gateway.Prelude.{ℕ, ◌≡◌, true, String, Option, some, is_some}
use lending_bank_gateway.Domain.States.{OrderStatus}
use lending_bank_gateway.Domain.States.Laws.{Reaches}
use lending_bank_gateway.Db.{Db, BankTxnOrder, CallbackOutbox, find_order}
use lending_bank_gateway.Outbox.Enqueue.{event_row}
use lending_bank_gateway.Finalize.{is_terminal, terminal_event, dedup_key}

-- the event of an order's final status
abbrev pub event : String → String → OrderStatus → Db → Option CallbackOutbox
event t b s db = event_row t "lifecycle" (dedup_key t b s) db

-- The outbox holds the event of the order's status, and it tells what the order's row says.
pub record Announced (db : Db) (o : BankTxnOrder) : Type 0 where
  pub row : CallbackOutbox
  pub via : String
  pub queued : event o.tenant_id o.biz_seq_no o.status db ≡ some row
  pub finalized : o.finalized_via ≡ some via
  pub told : row.payload ≡ terminal_event o.biz_seq_no o.status via o.business_action

-- There is such an order, and its status is the event's or a later one.
pub record IsReal (db : Db) (t b : String) (s : OrderStatus) : Type 0 where
  pub order : BankTxnOrder
  pub found : find_order t b db ≡ some order
  pub reached : Reaches s order.status

-- An order has a closing time just if its status is final; the event of a final order is in the
-- outbox; and no event is there for a status that its order has not had.
pub record IsSound (db : Db) : Type 0 where
  pub closed_iff :
      (t b : String) (o : BankTxnOrder)
      → find_order t b db ≡ some o
      → is_some o.finalized_at ≡ is_terminal o.status
  pub announced :
      (t b : String) (o : BankTxnOrder)
      → find_order t b db ≡ some o
      → is_terminal o.status ≡ true
      → Announced db o
  pub real :
      (t b : String) (s : OrderStatus) (row : CallbackOutbox)
      → event t b s db ≡ some row
      → IsReal db t b s
