-- ===== src/WedapDelivery/Send.antt =====
-- app/services/wedap_import.py and `deliver_task` of app/services/wedap_delivery.py: a file is read
-- from the staging bucket, checked, put where wedap reads it, and wedap is told.
pub mod Accepted
pub mod Checks
use Prim.Native.String.{◌++◌}
use lending_bank_gateway.Prelude.{
  ℕ, ◌⊎◌, inl, inr, Bool, true, false, String, str_eq, Option, none, some, List, if◌then◌else◌,
}
use lending_bank_gateway.Json.Value.{Value, Fields, text, get, str_of_option}
use lending_bank_gateway.WedapClient.{HttpResponse, error_text}
use lending_bank_gateway.WedapClient.Import.{
  Failure, storage, staging_mismatch, upload_mismatch, batch_rejected, Notice, PresignRequest,
  accepted_batch_status, is_one_of, notify_batch_uploaded, request_presign,
}
use lending_bank_gateway.WedapDelivery.{WedapImportDeliveryTask, Delivered, accepted, raised}

-- what the gateway calls: Python's `repr` and `str`, SHA-256 in hex, the two clients' requests and
-- the text of an exception. `none` for a write is success.
pub record Services : Type 0 where
  pub repr : Option Value → String
  pub show : ℕ → String
  pub sha256 : List ℕ → String
  pub get_object : String → String → String ⊎ List ℕ
  pub put_object : String → String → List ℕ → Option String
  pub put_url : String → List ℕ → Option String
  pub post_presign : PresignRequest → Option HttpResponse
  pub post_notice : Notice → Option HttpResponse
  pub message : Failure → String

pub record Settings : Type 0 where
  pub staging_bucket : String
  pub wedap_bucket : String
  pub presigned_enabled : Bool

abbrev channel_id : String
channel_id = "LEN"

unfoldable pub build_s3_key : String → String → String → String
build_s3_key data_type import_date import_batch_no =
    "lending/import/"
    ++ (data_type
        ++ ("/"
            ++ (channel_id ++ ("/" ++ (import_date ++ ("/" ++ (import_batch_no ++ ".jsonl")))))))

-- the request for a place to upload the task's file
abbrev pub presign_request : WedapImportDeliveryTask → PresignRequest
presign_request task = record {
  operation = "UPLOAD";
  data_type = task.batch.data_type;
  channel_id = channel_id;
  import_date = task.batch.import_date;
  import_batch_no = task.batch.import_batch_no;
}

abbrev pub notice_of : WedapImportDeliveryTask → Notice
notice_of task = record {
  data_type = task.batch.data_type;
  channel_id = channel_id;
  import_batch_no = task.batch.import_batch_no;
  import_date = task.batch.import_date;
  file_checksum = task.batch.file_checksum;
  file_size = task.batch.file_size;
  payload_schema_version = "1.0";
  total_count = task.batch.total_count;
  replaces_batch_no = none;
}

-- a write, with the hash that the storage client returns for it: of the bytes that it was given
abbrev written : Services → List ℕ → Option String → Failure ⊎ String
written s content none = inr (s.sha256 content)
written s content (some error) = inl (storage error)

abbrev pub upload_presigned : Services → List ℕ → Failure ⊎ String → Failure ⊎ String
upload_presigned s content (inl e) = inl e
upload_presigned s content (inr url) = written s content (s.put_url url content)

-- the upload of `deliver_batch`
unfoldable pub upload : Services → Settings → WedapImportDeliveryTask → List ℕ → Failure ⊎ String
unfolding build_s3_key request_presign
upload s settings task content =
    if settings.presigned_enabled
    then upload_presigned s content (
        request_presign s.repr s.show (presign_request task)
          (s.post_presign (presign_request task)))
    else written s content (
        s.put_object settings.wedap_bucket
          (build_s3_key task.batch.data_type task.batch.import_date task.batch.import_batch_no)
          content)

-- after the upload
abbrev pub notify_uploaded :
    Services → WedapImportDeliveryTask → Failure ⊎ String → Failure ⊎ Fields
notify_uploaded s task (inl e) = inl e
notify_uploaded s task (inr uploaded) =
    if str_eq uploaded task.batch.file_checksum
    then notify_batch_uploaded s.repr s.show (notice_of task) (s.post_notice (notice_of task))
    else inl (upload_mismatch uploaded task.batch.file_checksum)

-- `deliver_batch`, as `deliver_task` calls it
unfoldable pub deliver_batch :
    Services → Settings → WedapImportDeliveryTask → List ℕ → Failure ⊎ Fields
unfolding upload notify_batch_uploaded
deliver_batch s settings task content = notify_uploaded s task (upload s settings task content)

-- what `deliver_task` makes of the response
abbrev pub checked_status : Failure ⊎ Fields → Failure ⊎ Fields
checked_status (inl e) = inl e
checked_status (inr response) =
    if is_one_of (some (text (str_of_option (get "status" response)))) accepted_batch_status
    then inr response
    else inl (batch_rejected (str_of_option (get "status" response)) (error_text response))

abbrev pub deliver_staged :
    Services → Settings → WedapImportDeliveryTask → String ⊎ List ℕ → Failure ⊎ Fields
deliver_staged s settings task (inl error) = inl (storage error)
deliver_staged s settings task (inr content) =
    if str_eq (s.sha256 content) task.batch.file_checksum
    then checked_status (deliver_batch s settings task content)
    else inl (staging_mismatch (s.sha256 content) task.batch.file_checksum)

unfoldable pub deliver_task : Services → Settings → WedapImportDeliveryTask → Failure ⊎ Fields
unfolding deliver_batch error_text
deliver_task s settings task =
    deliver_staged s settings task (s.get_object settings.staging_bucket task.batch.staging_key)

abbrev path_of : Option Value → Option String
path_of (some (text s)) = some s
path_of _ = none

-- what the round of the dispatcher makes of it
abbrev pub outcome : Services → Failure ⊎ Fields → Delivered
outcome s (inl e) = raised (s.message e)
outcome s (inr response) = accepted (some (path_of (get "resultFilePath" response)))
