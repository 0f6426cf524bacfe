-- ===== src/WedapDelivery/ImportResult.antt =====
-- app/services/wedap_import_result.py: the result file of a batch, and the lines of it that go to
-- recon (`_post` of `make_collect` in app/workers/wedap_delivery_dispatcher.py).
pub mod Lines
use Prim.Native.String.{◌++◌}
use lending_bank_gateway.Prelude.{
  ℕ, Bool, true, false, not, ◌&&◌, ◌||◌, String, str_eq, Option, none, some, List, [], ◌∷◌, one_of,
  if◌then◌else◌,
}
use lending_bank_gateway.Prelude.Text.{take}
use lending_bank_gateway.Json.Value.{
  ℤ, Value, Items, Fields, null, boolean, integer, number, text, array, object, nil, cons, get,
  str_of_option, is_falsy, int_or_zero, if_text,
}

-- the values are kept as the file has them, whatever their type
pub record BadLine : Type 0 where
  pub line_no : Option Value
  pub line_status : String
  pub error_message : Option Value
  pub error_code : Option Value
  pub dedup_key : Option Value

pub record ImportResult : Type 0 where
  pub import_status : String
  pub ingested_count : ℤ
  pub duplicate_count : ℤ
  pub line_error_count : ℤ
  pub bad_lines : List BadLine
  pub file_error_code : Option String
  pub file_error_msg : Option String

-- `needs_repair`
unfoldable pub needs_repair : ImportResult → Bool
needs_repair r = one_of r.import_status ("PARTIAL" ∷ "FAILED" ∷ [])

unfoldable pub build_result_key : String → String → String → String
build_result_key data_type import_date import_batch_no =
    "lending/result/" ++ data_type ++ "/LEN/" ++ import_date ++ "/" ++ import_batch_no
    ++ "_result.json"

abbrev pub bad_line : Fields → BadLine
bad_line d = record {
  line_no = get "lineNo" d;
  line_status = str_of_option (get "lineStatus" d);
  error_message = get "errorMessage" d;
  error_code = get "errorCode" d;
  dedup_key = get "dedupKey" d;
}

abbrev is_ingested : Fields → Bool
is_ingested d = str_eq (str_of_option (get "lineStatus" d)) "INGESTED"

abbrev add_line : Fields → Option (List BadLine) → Option (List BadLine)
add_line d none = none
add_line d (some lines) = some (if is_ingested d then lines else bad_line d ∷ lines)

-- the lines that are not INGESTED; `none` where an item is no object
unfoldable pub collect_bad : Items → Option (List BadLine)
collect_bad nil = some []
collect_bad (cons (object s d) items) = add_line d (collect_bad items)
collect_bad (cons null items) = none
collect_bad (cons (boolean b) items) = none
collect_bad (cons (integer s n) items) = none
collect_bad (cons (number s n b) items) = none
collect_bad (cons (text s) items) = none
collect_bad (cons (array s xs) items) = none

abbrev bad_items : Option Value → Option (List BadLine)
bad_items (some (array s items)) = collect_bad items
bad_items none = none
bad_items (some null) = none
bad_items (some (boolean b)) = none
bad_items (some (integer s n)) = none
bad_items (some (number s n b)) = none
bad_items (some (text s)) = none
bad_items (some (object s d)) = none

-- `body.get("lineResults") or []`
unfoldable pub bad_lines_of : Option Value → Option (List BadLine)
unfolding collect_bad
bad_lines_of v = if is_falsy v then some [] else bad_items v

-- `none` where a count is no number
unfoldable pub build_result : Fields → List BadLine → Option ImportResult
build_result body lines = elim (int_or_zero (get "ingestedCount" body)) [
  | none ↦ none
  | some ingested ↦ elim (int_or_zero (get "duplicateCount" body)) [
    | none ↦ none
    | some duplicate ↦ elim (int_or_zero (get "lineErrorCount" body)) [
      | none ↦ none
      | some line_error ↦ some (record {
        import_status = str_of_option (get "importStatus" body);
        ingested_count = ingested;
        duplicate_count = duplicate;
        line_error_count = line_error;
        bad_lines = lines;
        file_error_code = if_text (get "fileErrorCode" body);
        file_error_msg = if_text (get "fileErrorMsg" body);
      })
    ]
  ]
]

abbrev parse_body : Fields → Option ImportResult
parse_body body = elim (bad_lines_of (get "lineResults" body)) [
  | none ↦ none
  | some lines ↦ build_result body lines
]

-- The argument is what `json.loads` makes of the bytes, `none` where it raises; so is the answer.
unfoldable pub parse_result : Option Value → Option ImportResult
unfolding bad_lines_of build_result
parse_result (some (object s body)) = parse_body body
parse_result none = none
parse_result (some null) = none
parse_result (some (boolean b)) = none
parse_result (some (integer s n)) = none
parse_result (some (number s n b)) = none
parse_result (some (text s)) = none
parse_result (some (array s xs)) = none

-- a line as recon's contract has it
pub record LineResult : Type 0 where
  pub line_no : ℤ
  pub line_status : String
  pub error_code : Option String
  pub error_message : Option String
  pub dedup_key : Option Fields

abbrev pub valid_line_status : List String
valid_line_status = "INGESTED" ∷ "DUPLICATE" ∷ "LINE_PARSE_ERROR" ∷ "CONTRACT_INVALID" ∷ []

-- `isinstance(v, int) and not isinstance(v, bool)`
abbrev pub if_int : Option Value → Option ℤ
if_int none = none
if_int (some null) = none
if_int (some (boolean b)) = none
if_int (some (integer s n)) = some n
if_int (some (number s n b)) = none
if_int (some (text s)) = none
if_int (some (array s xs)) = none
if_int (some (object s d)) = none

abbrev if_object : Option Value → Option Fields
if_object none = none
if_object (some null) = none
if_object (some (boolean b)) = none
if_object (some (integer s n)) = none
if_object (some (number s n b)) = none
if_object (some (text s)) = none
if_object (some (array s xs)) = none
if_object (some (object s d)) = some d

abbrev cut : ℕ → Option String → Option String
cut n none = none
cut n (some s) = some (take n s)

abbrev pub line_result : BadLine → ℤ → LineResult
line_result b n = record {
  line_no = n;
  line_status = b.line_status;
  error_code = cut 64 (if_text b.error_code);
  error_message = if_text b.error_message;
  dedup_key = if_object b.dedup_key;
}

-- the line as it is sent, if recon can take it
unfoldable pub recordable : BadLine → Option LineResult
recordable b = elim (if_int b.line_no) [
  | none ↦ none
  | some n ↦ if one_of b.line_status valid_line_status then some (line_result b n) else none
]

abbrev prepend : Option LineResult → List LineResult → List LineResult
prepend none lines = lines
prepend (some l) lines = l ∷ lines

-- the lines of `_post`; none of them, and recon is not called
unfoldable pub line_results : List BadLine → List LineResult
unfolding recordable
line_results [] = []
line_results (b ∷ bs) = prepend (recordable b) (line_results bs)
