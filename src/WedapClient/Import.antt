-- ===== src/WedapClient/Import.antt =====
-- The import of files in app/clients/wedap.py: `notify_batch_uploaded` and `request_presign`. The
-- requests carry what the record or the arguments say, and headers that are not modelled.
use Prim.Native.String.{◌++◌}
use lending_bank_gateway.Prelude.{
  ℕ, ◌⊎◌, inl, inr, leb, ◌==◌, Bool, true, false, not, ◌&&◌, String, str_eq, Option, none, some,
  List, [], ◌∷◌, one_of, is_some, if◌then◌else◌,
}
use lending_bank_gateway.Json.Value.{present, Value, Fields, text, array, object, end, get, str_of}
use lending_bank_gateway.WedapClient.{HttpResponse, if_dict, error_text, is_success}

abbrev pub known_batch_status : List String
known_batch_status =
    "ACCEPTED" ∷ "DUPLICATE_BATCH" ∷ "DUPLICATE_BATCH_CONFLICT" ∷ "FILE_NOT_FOUND"
    ∷ "CHECKSUM_MISMATCH" ∷ "INVALID_PARAM" ∷ "REPLACES_BATCH_NOT_FOUND" ∷ []

abbrev pub accepted_batch_status : List String
accepted_batch_status = "ACCEPTED" ∷ "DUPLICATE_BATCH" ∷ []

-- what an import fails with: no answer, an HTTP status that `raise_for_status` refuses, a
-- `WedapError` with its code and message, a status that cannot be looked up in a set, an error of the
-- storage, and the three errors of the delivery
pub data Failure : Type 0 where
  unanswered : Failure
  http_status : ℕ → Failure
  wedap_error : String → String → Failure
  unhashable : Failure
  storage : String → Failure
  staging_mismatch : String → String → Failure
  upload_mismatch : String → String → Failure
  batch_rejected : String → String → Failure

-- the payload of a notification
pub record Notice : Type 0 where
  pub data_type : String
  pub channel_id : String
  pub import_batch_no : String
  pub import_date : String
  pub file_checksum : String
  pub file_size : ℕ
  pub payload_schema_version : String
  pub total_count : ℕ
  pub replaces_batch_no : Option String

-- the payload of a request for a presigned URL
pub record PresignRequest : Type 0 where
  pub operation : String
  pub data_type : String
  pub channel_id : String
  pub import_date : String
  pub import_batch_no : String

-- `raw if isinstance(raw, dict) else {}`
abbrev pub body_of : HttpResponse → Fields
body_of r = elim (if_dict r.body) [ none ↦ end | some d ↦ d ]

abbrev code_or : Option Value → String → String
code_or none fallback = fallback
code_or (some code) fallback = str_of code

-- `_flow_import_error`
unfoldable pub flow_import_error : Fields → String → String → Failure
unfolding error_text
flow_import_error body fallback detail =
    wedap_error (code_or (present (get "code" body)) fallback)
      (error_text body ++ (" (" ++ (detail ++ ")")))

abbrev not_hashable : Option Value → Bool
not_hashable (some (array s xs)) = true
not_hashable (some (object s d)) = true
not_hashable _ = false

-- `v in {…}`, for a value that can be looked up
abbrev pub is_one_of : Option Value → List String → Bool
is_one_of (some (text s)) ts = one_of s ts
is_one_of _ ts = false

-- Python's `repr` of a field and `str` of a status are parameters.
module _ (repr : Option Value → String) (show : ℕ → String) where
  abbrev not_trusted : Notice → HttpResponse → Failure
  not_trusted notice r = wedap_error ("HTTP_" ++ show r.status_code) (
      "acceptance status "
      ++ (repr (get "status" (body_of r))
          ++ (" on non-2xx position not trusted (batch=" ++ (notice.import_batch_no ++ ")"))))

  abbrev unknown_status : Notice → HttpResponse → Failure
  unknown_status notice r = flow_import_error (body_of r) "UNKNOWN_STATUS" (
      "status="
      ++ (repr (get "status" (body_of r))
          ++ (" http=" ++ (show r.status_code ++ (" batch=" ++ notice.import_batch_no)))))

  -- a status below 500 that is not 401
  abbrev classified : Notice → HttpResponse → Failure ⊎ Fields
  classified notice r =
      if not_hashable (get "status" (body_of r))
      then inl unhashable
      else if is_one_of (get "status" (body_of r)) known_batch_status
      then (if is_one_of (get "status" (body_of r)) accepted_batch_status
            && not (is_success r.status_code)
          then inl (not_trusted notice r)
          else inr (body_of r))
      else inl (unknown_status notice r)

  unfoldable pub notify_batch_uploaded : Notice → Option HttpResponse → Failure ⊎ Fields
  unfolding flow_import_error
  notify_batch_uploaded notice none = inl unanswered
  notify_batch_uploaded notice (some r) =
      if r.status_code == 401
      then inl (wedap_error "401" "import apikey rejected")
      else if leb 500 r.status_code
      then inl (http_status r.status_code)
      else classified notice r

  abbrev about : PresignRequest → String
  about p = "op=" ++ (p.operation ++ (" batch=" ++ p.import_batch_no))

  abbrev not_ok : PresignRequest → Fields → Failure
  not_ok p body =
      if not (is_some (get "status" body)) && is_some (get "code" body)
      then flow_import_error body "PRESIGN_FAILED" (about p)
      else wedap_error "PRESIGN_FAILED" (
          "presign not OK: status="
          ++ (repr (get "status" body)
              ++ (" url=" ++ (repr (get "url" body) ++ (" (" ++ (about p ++ ")"))))))

  -- a text that is not empty
  abbrev url_of : Option Value → Option String
  url_of (some (text s)) = if str_eq s "" then none else some s
  url_of _ = none

  abbrev presigned : PresignRequest → Fields → Failure ⊎ String
  presigned p body = elim (url_of (get "url" body)) [
    | none ↦ inl (not_ok p body)
    | some url ↦ if is_one_of (get "status" body) ("OK" ∷ []) then inr url else inl (not_ok p body)
  ]

  unfoldable pub request_presign : PresignRequest → Option HttpResponse → Failure ⊎ String
  unfolding flow_import_error
  request_presign p none = inl unanswered
  request_presign p (some r) =
      if r.status_code == 401
      then inl (wedap_error "401" "import apikey rejected")
      else if leb 500 r.status_code
      then inl (http_status r.status_code)
      else if not (is_success r.status_code)
      then inl (flow_import_error (body_of r) ("HTTP_" ++ show r.status_code) (about p))
      else presigned p (body_of r)
