-- ===== src/Gate/Ids.antt =====
-- app/core/context.py: the ids of a request, and the limit on its target.
pub mod Safe
use Prim.Native.Char.{Char, code}
use Prim.Native.String.{◌++◌}
use lending_bank_gateway.Prelude.{
  ℕ, ◌+◌, ltb, leb, ◌==◌, Bool, true, false, ◌&&◌, ◌||◌, String, str_eq, Option, none, some,
  if◌then◌else◌,
}
use lending_bank_gateway.Prelude.Text.{strip, text_length}

-- what the middleware reads of a request; the lengths of the paths and the query are in bytes, and
-- that of the raw path is 0 where the server gives none
pub record Request : Type 0 where
  pub path : String
  pub path_bytes : ℕ
  pub raw_path_bytes : ℕ
  pub query_bytes : ℕ
  pub trace_id : Option String
  pub request_id : Option String
  pub tenant_id : Option String
  pub biz_seq_no : Option String
  pub apikey : Option String
  pub caller_service : Option String
  pub s2s_token : Option String
  pub authorization : Option String

pub record RequestIds : Type 0 where
  pub trace_id : String
  pub request_id : Option String
  pub tenant_id : Option String
  pub biz_seq_no : Option String
  pub safe_request_id : String

abbrev max_correlation_id : ℕ
max_correlation_id = 64

abbrev pub is_id_char : ℕ → Bool
is_id_char c =
    (leb b'0' c && leb c b'9')
    || (leb b'A' c && leb c b'Z')
    || (leb b'a' c && leb c b'z')
    || c == b'.'
    || c == b'_'
    || c == b':'
    || c == b'-'

unfoldable pub all_id_chars : String → Bool
all_id_chars String.[] = true
all_id_chars (String.◌∷◌ c s) = is_id_char (code c) && all_id_chars s

-- `_CORRELATION_ID_RE.fullmatch`
abbrev pub is_correlation_id : String → Bool
is_correlation_id s =
    leb 1 (text_length s) && (leb (text_length s) max_correlation_id && all_id_chars s)

-- with the prefix and the hex digits of the new UUID
unfoldable pub sanitize_correlation_id : String → String → Option String → Option String
unfolding all_id_chars strip
sanitize_correlation_id prefix hex none = none
sanitize_correlation_id prefix hex (some raw) =
    if str_eq (strip raw) ""
    then none
    else if is_correlation_id raw
    then some raw
    else some (prefix ++ ("-" ++ hex))

abbrev or_new : String → String → Option String → String
or_new prefix hex none = prefix ++ ("-" ++ hex)
or_new prefix hex (some id) = id

-- the ids that `IdentifierMiddleware` gives a request, with the digits of the four UUIDs that it may
-- take
unfoldable pub identify : String → String → String → String → Request → RequestIds
unfolding sanitize_correlation_id
identify hex hex' hex'' hex''' r = record {
  trace_id = or_new "trc" hex' (sanitize_correlation_id "trc" hex r.trace_id);
  request_id = r.request_id;
  tenant_id = r.tenant_id;
  biz_seq_no = r.biz_seq_no;
  safe_request_id = or_new "req" hex''' (sanitize_correlation_id "req" hex'' r.request_id);
}

abbrev pub max_request_target : ℕ
max_request_target = 8192

unfoldable pub request_target_bytes : Request → ℕ
request_target_bytes r =
    (if r.raw_path_bytes == 0 then r.path_bytes else r.raw_path_bytes)
    + (if r.query_bytes == 0 then 0 else r.query_bytes + 1)
