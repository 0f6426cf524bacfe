-- ===== src/AccountGuard.antt =====
-- app/services/account_guard.py: whether the platform account of a collection or a distribution is
-- on the tenant's white list (app/models/platform_account.py), before the order is submitted.
-- The log lines are not modelled. In an audit payload a JSON null is left out.
pub mod Permits
pub mod Effects
use lending_bank_gateway.Prelude.{
  ℕ, Bool, true, false, not, ◌&&◌, ◌||◌, ◌==◌, String, str_eq, Option, none, some, List, [], ◌∷◌,
  find, one_of, if◌then◌else◌,
}
use Prim.Native.Char.{Char, code}
use Prim.Native.String.{◌++◌}
use lending_bank_gateway.Prelude.Text.{strip}
use lending_bank_gateway.Json.{Json, to_str}
use lending_bank_gateway.Db.{Db, AuditEntry, Digests}
use lending_bank_gateway.Audit.{write_audit}

pub record PlatformBankAccount : Type 0 where
  pub id : ℕ
  pub tenant_id : String
  pub account_no : String
  pub purpose : String
  pub allowed_scopes : String
  pub currency : Option String
  pub status : String
  pub note : Option String

pub data Mode : Type 0 where
  off observe enforce : Mode

pub data Reason : Type 0 where
  account_missing account_not_registered account_disabled : Reason
  scope_not_allowed currency_mismatch : Reason

abbrev reason_text : Reason → String
reason_text Reason.account_missing = "account_missing"
reason_text Reason.account_not_registered = "account_not_registered"
reason_text Reason.account_disabled = "account_disabled"
reason_text Reason.scope_not_allowed = "scope_not_allowed"
reason_text Reason.currency_mismatch = "currency_mismatch"

-- `GuardVerdict(ok, reason)`: it is `ok` exactly if there is no reason against it
pub data GuardVerdict : Type 0 where
  passed : GuardVerdict
  rejected : Reason → GuardVerdict

-- what the endpoint hands over; `account_no` is any JSON value, or missing
pub record GuardRequest : Type 0 where
  pub account_no : Option Json
  pub tenant_id : String
  pub business_scope : String
  pub currency : Option String
  pub caller : String
  pub trace_id : String

-- what goes wrong in the transaction of the guard: nothing, the query, the audit row, the commit
pub data Fault : Type 0 where
  healthy query_fails write_fails commit_fails : Fault

-- the endpoint goes on, answers 403, or lets the error of the transaction through
pub data GuardAnswer : Type 0 where
  admitted : GuardAnswer
  forbidden : Reason → GuardAnswer
  raised : GuardAnswer

-- `str.split(",")`
abbrev add_char : Char → List String → List String
add_char c [] = String.◌∷◌ c String.[] ∷ []
add_char c (s ∷ more) = String.◌∷◌ c s ∷ more

unfoldable pub split_commas : String → List String
split_commas String.[] = "" ∷ []
split_commas (String.◌∷◌ c s) =
    let rest = split_commas s in if code c == b',' then "" ∷ rest else add_char c rest

-- the words of a list of them, trimmed, the empty ones left out
abbrev pub words : List String → List String
words [] = []
words (s ∷ more) =
    let rest = words more in let word = strip s in if str_eq word "" then rest else word ∷ rest

abbrev pub or_empty : Option String → String
or_empty none = ""
or_empty (some s) = s

-- an account that is bound to a currency, and not to this one
abbrev pub other_currency : Option String → Option String → Bool
other_currency none currency = false
other_currency (some bound) currency =
    not (str_eq bound "") && not (str_eq bound (or_empty currency))

abbrev pub is_account : String → String → PlatformBankAccount → Bool
is_account tenant_id account_no a = str_eq a.tenant_id tenant_id && str_eq a.account_no account_no

-- the checks on the row that was found
unfoldable pub row_verdict : PlatformBankAccount → String → Option String → GuardVerdict
row_verdict row business_scope currency =
    if not (str_eq row.status "active")
    then rejected Reason.account_disabled
    else if not (one_of business_scope (words (split_commas row.allowed_scopes)))
    then rejected Reason.scope_not_allowed
    else if other_currency row.currency currency
    then rejected Reason.currency_mismatch
    else passed

unfoldable pub evaluate :
    List PlatformBankAccount → String → String → String → Option String → GuardVerdict
evaluate accounts tenant_id account_no business_scope currency =
    if str_eq account_no ""
    then rejected Reason.account_missing
    else elim (find (is_account tenant_id account_no) accounts) [
      | none ↦ rejected Reason.account_not_registered
      | some row ↦ row_verdict row business_scope currency
    ]

abbrev pub normalized : Option Json → String
normalized none = ""
normalized (some Json.null) = ""
normalized (some (Json.boolean b)) = strip (to_str (Json.boolean b))
normalized (some (Json.text s)) = strip (to_str (Json.text s))
normalized (some (Json.other s b)) = strip (to_str (Json.other s b))

abbrev guard_action : Mode → String
guard_action Mode.observe = "account_guard.observe"
guard_action Mode.off = "account_guard.reject"
guard_action Mode.enforce = "account_guard.reject"

abbrev with_currency : Option String → List (String × String) → List (String × String)
with_currency none more = more
with_currency (some c) more = ("currency", c) ∷ more

abbrev pub guard_entry : Mode → GuardRequest → Reason → AuditEntry
guard_entry mode req reason = record {
  tenant_id = req.tenant_id;
  actor = "svc:" ++ req.caller;
  action = guard_action mode;
  entity = "platform_account";
  payload =
      ("account_no", normalized req.account_no)
      ∷ ("business_scope", req.business_scope)
      ∷ with_currency req.currency
          (("reason", reason_text reason) ∷ ("trace_id", req.trace_id) ∷ []);
}

-- the end of the transaction
abbrev pub end_transaction : Fault → GuardVerdict → Db → Option (GuardVerdict × Db)
end_transaction Fault.healthy verdict db = some (verdict, db)
end_transaction Fault.query_fails verdict db = some (verdict, db)
end_transaction Fault.write_fails verdict db = some (verdict, db)
end_transaction Fault.commit_fails verdict db = none

abbrev pub record_rejection :
    Digests → Fault → Mode → GuardRequest → GuardVerdict → Db → Option (GuardVerdict × Db)
record_rejection env fault mode req passed db = end_transaction fault passed db
record_rejection env Fault.write_fails mode req (rejected r) db = none
record_rejection env Fault.healthy mode req (rejected r) db =
    end_transaction Fault.healthy (rejected r) (write_audit env (guard_entry mode req r) db)
record_rejection env Fault.query_fails mode req (rejected r) db =
    end_transaction Fault.query_fails (rejected r) (write_audit env (guard_entry mode req r) db)
record_rejection env Fault.commit_fails mode req (rejected r) db =
    end_transaction Fault.commit_fails (rejected r) (write_audit env (guard_entry mode req r) db)

abbrev pub verdict_on : List PlatformBankAccount → GuardRequest → GuardVerdict
verdict_on accounts req =
    evaluate accounts req.tenant_id (normalized req.account_no) req.business_scope req.currency

-- the query is made only for an account number that is there
abbrev pub query_raises : Fault → String → Bool
query_raises Fault.query_fails account_no = not (str_eq account_no "")
query_raises Fault.healthy account_no = false
query_raises Fault.write_fails account_no = false
query_raises Fault.commit_fails account_no = false

-- The guard's own transaction; `none` where it raises, and so is rolled back.
unfoldable pub check_and_record :
    Digests
    → List PlatformBankAccount
    → Fault
    → Mode
    → GuardRequest
    → Db
    → Option (GuardVerdict × Db)
check_and_record env accounts fault mode req db =
    if query_raises fault (normalized req.account_no)
    then none
    else record_rejection env fault mode req (verdict_on accounts req) db

-- what the verdict comes to; `off` does not get here
abbrev guard_answer : Mode → GuardVerdict → GuardAnswer
guard_answer mode passed = admitted
guard_answer Mode.observe (rejected r) = admitted
guard_answer Mode.enforce (rejected r) = forbidden r
guard_answer Mode.off (rejected r) = forbidden r

abbrev on_failure : Mode → GuardAnswer
on_failure Mode.observe = admitted
on_failure Mode.enforce = raised
on_failure Mode.off = raised

abbrev pub guarded : Mode → Db → Option (GuardVerdict × Db) → GuardAnswer × Db
guarded mode db none = (on_failure mode, db)
guarded mode db (some (verdict, db')) = (guard_answer mode verdict, db')

unfoldable pub assert_platform_account_allowed :
    Digests → List PlatformBankAccount → Fault → Mode → GuardRequest → Db → GuardAnswer × Db
unfolding check_and_record
assert_platform_account_allowed env accounts fault Mode.off req db = (admitted, db)
assert_platform_account_allowed env accounts fault Mode.observe req db =
    guarded Mode.observe db (check_and_record env accounts fault Mode.observe req db)
assert_platform_account_allowed env accounts fault Mode.enforce req db =
    guarded Mode.enforce db (check_and_record env accounts fault Mode.enforce req db)
