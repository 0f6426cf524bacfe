-- ===== src/Outbox/Dispatch/Loop.antt =====
-- The round of `dispatch_once` in app/services/outbox.py: its attempts and its loop.
use lending_bank_gateway.Prelude.{
  ℕ, ◌+◌, Bool, false, String, Option, none, some, List, [], ◌∷◌, find, if◌then◌else◌,
}
use lending_bank_gateway.Db.{Db}
use lending_bank_gateway.Outbox.Dispatch.{
  has_id, claim, finalize_after_send, reclaim_stale_sending, due_ids, send, ForwardRequest, Post,
  Policy,
}

-- One replica's attempt at a row: its token, its clock, the client, and what other transactions do
-- before each of its three own.
pub record Attempt : Type 0 where
  pub token : String
  pub locked_at : ℕ
  pub finished_at : ℕ
  pub post : ForwardRequest → Post
  pub before_claim : Db → Db
  pub before_read : Db → Db
  pub while_posting : Db → Db

-- steps 2b and 2c for a row that was claimed
unfoldable pub deliver : Policy → (String → Option String) → ℕ → Attempt → Db → Bool × Db
deliver policy targets id a db = elim (find (has_id id) db.outbox) [
  | none ↦ (false, db)
  | some r ↦
      finalize_after_send policy a.finished_at id a.token r.attempts (send targets a.post r)
        (a.while_posting db)
]

unfoldable pub dispatch_row : Policy → (String → Option String) → ℕ → ℕ → Attempt → Db → Bool × Db
unfolding deliver
dispatch_row policy targets now id a db =
    let (owned, db') = claim now a.locked_at id a.token (a.before_claim db) in
    if owned then deliver policy targets id a (a.before_read db') else (false, db')

abbrev count : Bool → ℕ → ℕ
count hit n = if hit then 1 + n else n

-- the loop over the ids of the round
unfoldable pub dispatch_rows :
    Policy → (String → Option String) → ℕ → (ℕ → Attempt) → List ℕ → Db → ℕ × Db
dispatch_rows policy targets now attempt [] db = (0, db)
dispatch_rows policy targets now attempt (id ∷ ids) db =
    let (hit, db') = dispatch_row policy targets now id (attempt id) db in
    let (n, last) = dispatch_rows policy targets now attempt ids db' in (count hit n, last)

-- one round; the number is that of the rows that this replica finished
unfoldable pub dispatch_once : Policy → (String → Option String) → ℕ → (ℕ → Attempt) → Db → ℕ × Db
dispatch_once policy targets now attempt db =
    let ready = reclaim_stale_sending now policy.claim_timeout db in
    dispatch_rows policy targets now attempt (due_ids now ready.outbox) ready
