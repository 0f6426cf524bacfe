-- ===== src/Guards/Required.antt =====
-- The other guards of app/api/deps.py: headers, the fields that wedap requires or refuses, and what a
-- refused money write tells its caller.
pub mod Promise
use Prim.Native.String.{◌++◌}
use lending_bank_gateway.Prelude.{
  ℕ, ltb, leb, ◌==◌, Bool, true, false, not, ◌&&◌, ◌||◌, String, str_eq, Option, none, some, List,
  [], ◌∷◌, is_some, if◌then◌else◌,
}
use lending_bank_gateway.Prelude.Text.{strip}
use lending_bank_gateway.Json.Value.{
  Value, Fields, null, boolean, integer, number, text, array, object, get,
}
use lending_bank_gateway.Domain.MoneyWrite.{
  MoneyFields, money_write_reject_fields, money_write_unresolved_fields,
}
use lending_bank_gateway.Gate.Ids.{RequestIds}

-- why a request is refused with 400
pub data RequestError : Type 0 where
  idempotency_key : RequestError
  missing_header : String → RequestError
  not_an_object : String → RequestError
  missing_fields : List String → RequestError
  not_accepted : String → String → RequestError

-- `none`: it passes
unfoldable pub assert_idempotency_key_matches : Option String → String → Option RequestError
unfolding strip
assert_idempotency_key_matches none biz_seq_no = none
assert_idempotency_key_matches (some header) biz_seq_no =
    if not (str_eq (strip header) "") && not (str_eq (strip header) biz_seq_no)
    then some idempotency_key
    else none

-- a header that is there and not empty
abbrev pub given : Option String → Bool
given none = false
given (some s) = not (str_eq s "")

unfoldable pub require_headers : RequestIds → Option RequestError
require_headers ids =
    if not (given ids.tenant_id)
    then some (missing_header "missing X-Tenant-Id")
    else if not (given ids.request_id)
    then some (missing_header "missing X-Request-Id")
    else none

-- `_is_blank`
unfoldable pub is_blank : Option Value → Bool
unfolding strip
is_blank none = true
is_blank (some null) = true
is_blank (some (text s)) = str_eq (strip s) ""
is_blank (some (array t xs)) = true
is_blank (some (object t d)) = true
is_blank (some (boolean b)) = false
is_blank (some (integer t n)) = false
is_blank (some (number t n b)) = false

-- the required fields that are blank, in their order
unfoldable pub missing_of : Fields → List String → List String
unfolding is_blank
missing_of payload [] = []
missing_of payload (key ∷ more) =
    let rest = missing_of payload more in if is_blank (get key payload) then key ∷ rest else rest

abbrev prefixed : String → String → String
prefixed place key = if str_eq place "" then key else place ++ ("." ++ key)

abbrev all_prefixed : String → List String → List String
all_prefixed place [] = []
all_prefixed place (key ∷ more) = prefixed place key ∷ all_prefixed place more

abbrev pub refused_missing : String → List String → Option RequestError
refused_missing place [] = none
refused_missing place (key ∷ more) = some (missing_fields (all_prefixed place (key ∷ more)))

abbrev place_or_body : String → String
place_or_body place = if str_eq place "" then "request body" else place

-- `where` is a word of the language here
unfoldable pub assert_wedap_required : Option Fields → List String → String → Option RequestError
unfolding missing_of
assert_wedap_required none required place = some (not_an_object (place_or_body place))
assert_wedap_required (some payload) required place =
    refused_missing place (missing_of payload required)

unfoldable pub assert_wedap_not_rejected :
    Fields → List (String × String) → String → Option RequestError
assert_wedap_not_rejected payload [] place = none
assert_wedap_not_rejected payload ((key, hint) ∷ more) place =
    let rest = assert_wedap_not_rejected payload more place in
    if is_some (get key payload) then some (not_accepted (prefixed place key) hint) else rest

-- `request.state`
pub record RequestState : Type 0 where
  pub money_write : Bool
  pub operation : Option (String × Bool)

unfoldable pub mark_money_write : RequestState → RequestState
mark_money_write st = record st { money_write = true }

-- right before the services are called
unfoldable pub mark_money_write_dispatch : String → Bool → RequestState → RequestState
mark_money_write_dispatch biz_seq_no repayment st = record st {
  operation = some (biz_seq_no, repayment);
}

abbrev pub fields_of : Option (String × Bool) → MoneyFields
fields_of none = money_write_reject_fields
fields_of (some (biz_seq_no, repayment)) = money_write_unresolved_fields biz_seq_no repayment

-- `none`: no fields are added
unfoldable pub money_write_error_extra : RequestState → ℕ → Option MoneyFields
unfolding money_write_reject_fields money_write_unresolved_fields
money_write_error_extra st status_code =
    if not st.money_write
    then none
    else if status_code == 401
        || status_code == 403
        || not (leb 400 status_code && ltb status_code 500)
    then none
    else some (fields_of st.operation)
