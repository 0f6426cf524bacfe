-- ===== src/Domain/States.antt =====
-- app/domain/states.py: order statuses, what wedap's answers mean for them, the allowed moves.
-- An illegal move raises `IllegalTransition`; here it is a test, and its callers raise.
pub mod Laws
use lending_bank_gateway.Prelude.{
  ℕ, ◌≡◌, Bool, true, false, ◌||◌, String, str_eq, Option, none, some, List, [], ◌∷◌, ◌==◌,
  if◌then◌else◌, one_of,
}
use lending_bank_gateway.Prelude.Text.{upper}

pub data OrderStatus : Type 0 where
  accepted submitted processing result_unknown succeeded failed : OrderStatus
  expired cancelled partially_reversed reversed : OrderStatus

-- the value of the `StrEnum` member
abbrev pub value : OrderStatus → String
value accepted = "ACCEPTED"
value submitted = "SUBMITTED"
value processing = "PROCESSING"
value result_unknown = "RESULT_UNKNOWN"
value succeeded = "SUCCEEDED"
value failed = "FAILED"
value expired = "EXPIRED"
value cancelled = "CANCELLED"
value partially_reversed = "PARTIALLY_REVERSED"
value reversed = "REVERSED"

-- the member's place in the class, to compare members by
abbrev place : OrderStatus → ℕ
place accepted = 0
place submitted = 1
place processing = 2
place result_unknown = 3
place succeeded = 4
place failed = 5
place expired = 6
place cancelled = 7
place partially_reversed = 8
place reversed = 9

-- `a == b` on members
abbrev pub same : OrderStatus → OrderStatus → Bool
same a b = place a == place b

abbrev pub elem : OrderStatus → List OrderStatus → Bool
elem s [] = false
elem s (t ∷ ts) = same s t || elem s ts

unfoldable pub map_wedap_txn_status : String → Option OrderStatus
map_wedap_txn_status txn_status =
    let s = upper txn_status in
    if str_eq s "SUCCESS"
    then some succeeded
    else if str_eq s "FAILED"
    then some failed
    else if str_eq s "REVERSED"
    then some reversed
    else none

abbrev pub wedap_terminal_reject_codes : List String
wedap_terminal_reject_codes =
    "6605B00900201" ∷ "6605B00900202" ∷ "6605B00900203" ∷ "6605B00900204" ∷ "6605B00900205"
    ∷ "6605B00900207" ∷ "6605B00900208" ∷ "6605B00900209" ∷ "6605B00900215" ∷ "6605B00900216" ∷ []

abbrev is_door_status : ℕ → Bool
is_door_status h = h == 400 || h == 401 || h == 403 || h == 404 || h == 405 || h == 415 || h == 422

-- `none` where the error carries no HTTP status
unfoldable pub is_door_reject_http_status : Option ℕ → Bool
is_door_reject_http_status none = false
is_door_reject_http_status (some h) = is_door_status h

unfoldable pub is_repayment_terminal_reject : String → Bool
is_repayment_terminal_reject code = one_of code wedap_terminal_reject_codes

unfoldable pub map_wedap_repayment_status : String → Option OrderStatus
map_wedap_repayment_status status =
    let s = upper status in
    if str_eq s "SUCCESS" then some succeeded else if str_eq s "FAILED" then some failed else none

-- `_ALLOWED`
unfoldable pub allowed : OrderStatus → List OrderStatus
allowed accepted = submitted ∷ result_unknown ∷ succeeded ∷ failed ∷ cancelled ∷ reversed ∷ []
allowed submitted = processing ∷ result_unknown ∷ succeeded ∷ failed ∷ expired ∷ reversed ∷ []
allowed processing = result_unknown ∷ succeeded ∷ failed ∷ expired ∷ reversed ∷ []
allowed result_unknown = processing ∷ succeeded ∷ failed ∷ expired ∷ reversed ∷ []
allowed succeeded = partially_reversed ∷ reversed ∷ []
allowed partially_reversed = reversed ∷ []
allowed failed = []
allowed expired = []
allowed cancelled = []
allowed reversed = []

-- `in ABSORBING_STATUSES`
unfoldable pub is_absorbing : OrderStatus → Bool
is_absorbing s = elem s (succeeded ∷ failed ∷ reversed ∷ cancelled ∷ expired ∷ [])

-- `assert_transition`: false where it raises
unfoldable pub may_move : OrderStatus → OrderStatus → Bool
unfolding allowed
may_move src dst = elem dst (allowed src)
