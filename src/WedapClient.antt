-- ===== src/WedapClient.antt =====
-- app/clients/wedap.py: how the gateway reads wedap's HTTP responses. The sending of a request is
-- the HTTP client's.
pub mod Doors
pub mod Import
use Prim.Native.String.{◌++◌}
use lending_bank_gateway.Prelude.{
  ℕ, ltb, leb, ◌==◌, Bool, true, false, not, ◌&&◌, ◌||◌, String, str_eq, Option, none, some, List,
  [], ◌∷◌, one_of, is_none, if◌then◌else◌,
}
use lending_bank_gateway.Prelude.Text.{strip}
use lending_bank_gateway.Json.{Json, Payload}
use lending_bank_gateway.Json.Value.{
  Value, Items, Fields, null, boolean, integer, number, text, array, object, end, field, get,
  str_of, str_of_option, is_falsy, is_nil, is_end, is_zero, present,
}
use lending_bank_gateway.Submit.Request.{
  WedapCall, answered, transport_error, http_error, wedap_error, raised,
}

-- a response: its status, and its body if that is JSON
pub record HttpResponse : Type 0 where
  pub status_code : ℕ
  pub body : Option Value

-- the value, if it is an object
abbrev pub if_dict : Option Value → Option Fields
if_dict none = none
if_dict (some null) = none
if_dict (some (boolean b)) = none
if_dict (some (integer s n)) = none
if_dict (some (number s n b)) = none
if_dict (some (text s)) = none
if_dict (some (array s xs)) = none
if_dict (some (object s d)) = some d

abbrev no_message : String
no_message = "<no error message>"

-- a message under this key, or what the other key gives
abbrev message_or : Option Value → String → String
message_or none other = other
message_or (some null) other = other
message_or (some (text s)) other = if str_eq (strip s) "" then other else s
message_or (some (boolean b)) other = str_of (boolean b)
message_or (some (integer s n)) other = s
message_or (some (number s n b)) other = s
message_or (some (array s xs)) other = s
message_or (some (object s d)) other = s

-- `_error_text`
unfoldable pub error_text : Fields → String
error_text body = message_or (get "msg" body) (message_or (get "message" body) no_message)

abbrev pub is_client_error : ℕ → Bool
is_client_error status = leb 400 status && ltb status 500

-- what `raise_for_status` lets pass
abbrev pub is_success : ℕ → Bool
is_success status = leb 200 status && ltb status 300

-- a nested value by what the services see of it
abbrev flat : Value → Json
flat null = Json.null
flat (boolean b) = Json.boolean b
flat (integer s n) = Json.other s (not (is_zero n))
flat (number s n b) = Json.other s b
flat (text s) = Json.text s
flat (array s xs) = Json.other s (not (is_nil xs))
flat (object s d) = Json.other s (not (is_end d))

unfoldable pub payload_of : Fields → Payload
payload_of end = []
payload_of (field k v d) = (k, flat v) ∷ payload_of d

-- `dict(body.get("data") or {})`; a list that is not empty counts as one that `dict` refuses
abbrev data_of : Option Value → WedapCall
data_of v =
    if is_falsy v
    then answered []
    else elim (if_dict v) [ none ↦ raised | some d ↦ answered (payload_of d) ]

abbrev unwrap_body : ℕ → Fields → WedapCall
unwrap_body status body =
    if str_eq (str_of_option (get "code" body)) "200"
    then data_of (get "data" body)
    else wedap_error (str_of_option (get "code" body)) (error_text body) (some status)

-- the envelope of a rejection at the door, if there is one
abbrev rejection : HttpResponse → Option WedapCall
rejection r = elim (if_dict r.body) [
  | none ↦ none
  | some d ↦ elim (present (get "code" d)) [
    | none ↦ none
    | some code ↦ some (wedap_error (str_of code) (error_text d) (some r.status_code))
  ]
]

-- after the first test
abbrev unwrap_rest : HttpResponse → WedapCall
unwrap_rest r =
    if is_success r.status_code
    then (elim (if_dict r.body) [ none ↦ raised | some d ↦ unwrap_body r.status_code d ])
    else http_error r.status_code

-- `_unwrap`
unfoldable pub unwrap : HttpResponse → WedapCall
unfolding error_text payload_of
unwrap r =
    if is_client_error r.status_code
    then (elim (rejection r) [ none ↦ unwrap_rest r | some e ↦ e ])
    else unwrap_rest r

-- what the HTTP client makes of a request: a response, an `httpx.TransportError`, or another exception
pub data Sent : Type 0 where
  responded : HttpResponse → Sent
  no_transport other_failure : Sent

-- `_post` and `_get`
unfoldable pub call : Sent → WedapCall
unfolding unwrap
call no_transport = transport_error
call other_failure = raised
call (responded r) = unwrap r
