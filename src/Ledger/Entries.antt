-- ===== src/Ledger/Entries.antt =====
-- The entry points of app/services/submit.py and of app/services/reversal.py as runs of `Ledger`.
use lending_bank_gateway.Prelude.{ℕ, ◌≡◌, refl, String, Option, none, some}
use lending_bank_gateway.Db.{Db, Digests, Response, Result, ok, err}
use lending_bank_gateway.Submit.Request.{SubmitRequest, WedapCall}
use lending_bank_gateway.Submit.Register.{submit_begin}
use lending_bank_gateway.Submit.Conclude.{commit, resume, submit_order}
use lending_bank_gateway.Reversal.{resume_reversal, submit_reversal}
use lending_bank_gateway.Ledger.{Step, begin, Run, done, after}
use lending_bank_gateway.Ledger.Shapes.{submit_begin-Begins, resume-Step, resume_reversal-Step}

pub Run-trans : (env : Digests) (a b c : Db) → Run env a b → Run env b c → Run env a c
Run-trans env a b _ p done = p
Run-trans env a b c p (after mid _ q step) = after mid c (Run-trans env a b mid p q) step

module _ (env : Digests) where
  abbrev one : (db db' : Db) → Step env db db' → Run env db db'
  one db db' step = after db db' done step

  commit-Run :
      {A : Type 0} (db : Db) (x : Result (A × Db))
      → ((a : A) (db' : Db) → x ≡ ok (a, db') → Run env db db')
      → Run env db (commit db x).1
  commit-Run db (ok (a, db')) h = h a db' refl
  commit-Run db (err e) h = done

  -- a submission or a reversal, given what its second transaction does
  two_parts :
      (now : ℕ) (req : SubmitRequest) (others : Db → Db) (db : Db)
      (second : Db → Result (Response × Db)) (x : Result (Option Response × Db))
      (out : Result Response × Db)
      → ((d : Db) → Run env d (others d))
      → ((d d' : Db) (r : Response) → second d ≡ ok (r, d') → Step env d d')
      → submit_begin env now req db ≡ x
      → out ≡ (elim x [
        | err e ↦ (err e, db)
        | ok (some early, db') ↦ (ok early, db')
        | ok (none, db') ↦ commit (others db') (second (others db'))
      ])
      → Run env db out.1
  two_parts now req others db second (err e) out run step begun h = rw h done
  two_parts now req others db second (ok (some early, mid)) out run step begun h =
      rw h (one db mid (begin now req (submit_begin-Begins env now req db mid (some early) begun)))
  two_parts now req others db second (ok (none, mid)) out run step begun h = rw h (
      Run-trans env db (others mid) _
        (Run-trans env db mid (others mid)
          (one db mid (begin now req (submit_begin-Begins env now req db mid none begun)))
          (run mid))
        (commit-Run (others mid) (second (others mid))
          (λ r d' e. one (others mid) d' (step (others mid) d' r e))))

  module _ (now later : ℕ) (req : SubmitRequest) (call : WedapCall) (others : Db → Db)
      (run : (d : Db) → Run env d (others d)) (db : Db) where
    -- The whole of `submit_order` is a run of transactions of the money flows, whatever wedap does, if
    -- what happens to the database while it waits for wedap is one.
    pub submit_order-Run : Run env db (submit_order env now later req call others db).1
    submit_order-Run =
        two_parts now req others db (resume env later req call) (submit_begin env now req db)
          (submit_order env now later req call others db) run
          (λ d d' r e. resume-Step env later req d d' call r e) refl (unfold submit_order in refl)

    -- The whole of `submit_reversal` is a run of transactions of the money flows, whatever wedap does,
    -- if what happens to the database while it waits for wedap is one.
    pub submit_reversal-Run :
        (ori : String) → Run env db (submit_reversal env now later req ori call others db).1
    submit_reversal-Run ori =
        two_parts now req others db (resume_reversal env later req ori call)
          (submit_begin env now req db) (submit_reversal env now later req ori call others db) run
          (λ d d' r e. resume_reversal-Step env later req d d' ori call r e) refl
          (unfold submit_reversal in refl)
