-- ===== src/WedapDelivery/Send/Checks.antt =====
-- The two checks of a file's hash in a delivery.
use lending_bank_gateway.Prelude.{
  ℕ, ◌≡◌, ◌≢◌, ◌⊎◌, inl, inr, refl, ◌∙◌, subst, Bool, true, false, String, str_eq, eq_iff, Option,
  List, arith, Bool-cases,
}
use lending_bank_gateway.Json.Value.{Fields}
use lending_bank_gateway.WedapClient.{HttpResponse}
use lending_bank_gateway.WedapClient.Import.{
  Failure, upload_mismatch, Notice, PresignRequest, notify_batch_uploaded, request_presign,
  flow_import_error,
}
use lending_bank_gateway.WedapDelivery.{WedapImportDeliveryTask}
use lending_bank_gateway.WedapDelivery.Send.{
  Services, Settings, notice_of, upload, deliver_batch, notify_uploaded, checked_status,
  deliver_staged, deliver_task, presign_request,
}

abbrev is_upload_mismatch : Failure → Bool
is_upload_mismatch (upload_mismatch uploaded expected) = true
is_upload_mismatch _ = false

module _ (s : Services) (settings : Settings) (task : WedapImportDeliveryTask) where
  presign-inl :
      (p : PresignRequest) (o : Option HttpResponse) {e : Failure}
      → request_presign s.repr s.show p o ≡ inl e
      → is_upload_mismatch e ≡ false
  unfolding request_presign flow_import_error
  presign-inl p o h = ground arith

  notify-inl :
      (n : Notice) (o : Option HttpResponse) {e : Failure}
      → notify_batch_uploaded s.repr s.show n o ≡ inl e
      → is_upload_mismatch e ≡ false
  unfolding notify_batch_uploaded flow_import_error
  notify-inl n o h = ground arith

  upload-inl :
      (content : List ℕ) {e : Failure}
      → upload s settings task content ≡ inl e
      → is_upload_mismatch e ≡ false
  unfolding upload
  upload-inl content h =
      ground (arith, presign-inl (presign_request task) (s.post_presign (presign_request task)))

  upload-hash :
      (content : List ℕ) {hash : String}
      → upload s settings task content ≡ inr hash
      → hash ≡ s.sha256 content
  unfolding upload
  upload-hash content h = ground arith

  notify_uploaded-inl :
      (u : Failure ⊎ String) {e : Failure}
      → ((e' : Failure) → u ≡ inl e' → is_upload_mismatch e' ≡ false)
      → ((hash : String) → u ≡ inr hash → hash ≡ task.batch.file_checksum)
      → notify_uploaded s task u ≡ inl e
      → is_upload_mismatch e ≡ false
  notify_uploaded-inl (inl e') {e} spared same h =
      let kept : e' ≡ e = ground arith in
      subst (λ x. is_upload_mismatch x ≡ false) kept (spared e' refl)
  notify_uploaded-inl (inr hash) {e} spared same h =
      let sent : notify_batch_uploaded s.repr s.show (notice_of task)
            (s.post_notice (notice_of task))
          ≡ inl e =
        ground (arith, same hash refl, eq_iff hash task.batch.file_checksum) in
      notify-inl (notice_of task) (s.post_notice (notice_of task)) sent

  checked_status-inl :
      (o : Failure ⊎ Fields) {e : Failure}
      → ((e' : Failure) → o ≡ inl e' → is_upload_mismatch e' ≡ false)
      → checked_status o ≡ inl e
      → is_upload_mismatch e ≡ false
  checked_status-inl (inl e') {e} spared h = spared e h
  checked_status-inl (inr response) spared h = ground arith

  deliver_staged-inl :
      (o : String ⊎ List ℕ) {e : Failure}
      → deliver_staged s settings task o ≡ inl e
      → is_upload_mismatch e ≡ false
  unfolding deliver_batch
  deliver_staged-inl (inl error) h = ground arith
  deliver_staged-inl (inr content) {e} h =
      elim (Bool-cases (str_eq (s.sha256 content) task.batch.file_checksum)) [
        | inl same ↦
            let checksum : s.sha256 content ≡ task.batch.file_checksum =
              (eq_iff (s.sha256 content) task.batch.file_checksum).0 same in
            let passed : checked_status (deliver_batch s settings task content) ≡ inl e =
              ground arith in
            checked_status-inl (deliver_batch s settings task content)
              (λ e'.
                notify_uploaded-inl (upload s settings task content) (λ e''. upload-inl content)
                  (λ hash h'. upload-hash content h' ∙ checksum))
              passed
        | inr other ↦ ground arith
      ]

  -- A delivery never ends with the error of the check after the upload: the storage client hashes
  -- the bytes that it is given, not those that are stored, and these have been checked before.
  pub deliver_task-upload_mismatch :
      (uploaded expected : String)
      → deliver_task s settings task ≢ inl (upload_mismatch uploaded expected)
  unfolding deliver_task
  deliver_task-upload_mismatch uploaded expected h =
      let spared =
        deliver_staged-inl (s.get_object settings.staging_bucket task.batch.staging_key) h in
      ground arith
