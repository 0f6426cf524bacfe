-- ===== src/WedapDelivery/Send/Accepted.antt =====
-- When a file counts as delivered.
use lending_bank_gateway.Prelude.{
  ℕ, ◌≡◌, ◌⊎◌, inl, inr, refl, sym, ap, ◌∙◌, subst, Bool, true, false, String, str_eq, eq_iff,
  Option, none, some, List, arith, Bool-cases,
}
use lending_bank_gateway.Json.Value.{
  Value, Fields, null, boolean, integer, number, text, array, object, get, str_of_option,
}
use lending_bank_gateway.WedapClient.{HttpResponse, is_success}
use lending_bank_gateway.WedapClient.Import.{
  Failure, Notice, accepted_batch_status, known_batch_status, is_one_of, body_of,
  notify_batch_uploaded,
}
use lending_bank_gateway.WedapDelivery.{WedapImportDeliveryTask, accepted}
use lending_bank_gateway.WedapDelivery.Send.{
  Services, Settings, notice_of, upload, deliver_batch, notify_uploaded, checked_status,
  deliver_staged, deliver_task, outcome,
}

-- a response that acknowledges the file: a 2xx answer whose status says that it is accepted
pub record IsAcknowledged (o : Option HttpResponse) : Type 0 where
  pub response : HttpResponse
  pub answered : o ≡ some response
  pub success : is_success response.status_code ≡ true
  pub status : is_one_of (get "status" (body_of response)) accepted_batch_status ≡ true

-- the staged bytes have the task's checksum and went to wedap
pub record IsDelivered (s : Services) (settings : Settings) (task : WedapImportDeliveryTask)
    : Type 0 where
  pub content : List ℕ
  pub staged : s.get_object settings.staging_bucket task.batch.staging_key ≡ inr content
  pub checksum : s.sha256 content ≡ task.batch.file_checksum
  pub uploaded : upload s settings task content ≡ inr (s.sha256 content)
  pub acknowledged : IsAcknowledged (s.post_notice (notice_of task))

is_one_of-text :
    (v : Option Value) (ts us : List String)
    → is_one_of v us ≡ true
    → is_one_of (some (text (str_of_option v))) ts ≡ is_one_of v ts
is_one_of-text none ts us h = ground arith
is_one_of-text (some (text t)) ts us h = refl
is_one_of-text (some null) ts us h = ground arith
is_one_of-text (some (boolean b)) ts us h = ground arith
is_one_of-text (some (integer t n)) ts us h = ground arith
is_one_of-text (some (number t n b)) ts us h = ground arith
is_one_of-text (some (array t xs)) ts us h = ground arith
is_one_of-text (some (object t d)) ts us h = ground arith

-- the notification returns only the known statuses, and an acceptance only from a 2xx answer
notify-response :
    (repr : Option Value → String) (show : ℕ → String) (notice : Notice) (r : HttpResponse)
    {d : Fields}
    → notify_batch_uploaded repr show notice (some r) ≡ inr d
    → (body_of r ≡ d)
      × (is_one_of (get "status" (body_of r)) known_batch_status ≡ true)
      × ((is_one_of (get "status" (body_of r)) accepted_batch_status ≡ false)
          ⊎ (is_success r.status_code ≡ true))
unfolding notify_batch_uploaded
notify-response repr show notice r h = ground arith

upload-hash :
    (s : Services) (settings : Settings) (task : WedapImportDeliveryTask) (content : List ℕ)
    {h : String}
    → upload s settings task content ≡ inr h
    → h ≡ s.sha256 content
unfolding upload
upload-hash s settings task content u = ground arith

Sum-cases : (o : Failure ⊎ Fields) → ((e : Failure) × (o ≡ inl e)) ⊎ ((d : Fields) × (o ≡ inr d))
Sum-cases (inl e) = inl (e, refl)
Sum-cases (inr d) = inr (d, refl)

module _ (s : Services) (settings : Settings) (task : WedapImportDeliveryTask) where
  -- wedap is told only of an upload with the right hash
  notify_uploaded-inr :
      (u : Failure ⊎ String) {d : Fields}
      → notify_uploaded s task u ≡ inr d
      → (u ≡ inr task.batch.file_checksum)
        × (notify_batch_uploaded s.repr s.show (notice_of task) (s.post_notice (notice_of task))
            ≡ inr d)
  notify_uploaded-inr (inl e) h = ground arith
  notify_uploaded-inr (inr hash) h = ground (arith, eq_iff hash task.batch.file_checksum)

  -- a notification whose status is an acceptance
  notice-IsAcknowledged :
      (o : Option HttpResponse) {d : Fields}
      → notify_batch_uploaded s.repr s.show (notice_of task) o ≡ inr d
      → is_one_of (some (text (str_of_option (get "status" d)))) accepted_batch_status ≡ true
      → IsAcknowledged o
  notice-IsAcknowledged none h fits = unfold notify_batch_uploaded in ground arith
  notice-IsAcknowledged (some r) {d} h fits =
      let (body, known, success) = notify-response s.repr s.show (notice_of task) r h in
      let status : is_one_of (get "status" (body_of r)) accepted_batch_status ≡ true =
        sym
          (is_one_of-text (get "status" (body_of r)) accepted_batch_status known_batch_status known)
        ∙ (rw body fits) in
      record { response = r; answered = refl; success = ground arith; status = status }

  abbrev accepts : Fields → Bool
  accepts d = is_one_of (some (text (str_of_option (get "status" d)))) accepted_batch_status

  checked_status-inr :
      (o : Failure ⊎ Fields) {d : Fields}
      → checked_status o ≡ inr d
      → (o ≡ inr d)
        × (is_one_of (some (text (str_of_option (get "status" d)))) accepted_batch_status ≡ true)
  checked_status-inr (inl e) h = ground arith
  checked_status-inr (inr response) {d} h = elim (Bool-cases (accepts response)) [
    | inl fits ↦
        let same : response ≡ d = ground arith in
        (ap inr same, subst (λ x. accepts x ≡ true) same fits)
    | inr refused ↦ ground arith
  ]

  -- Reading the staged file gives bytes with the task's checksum, and those are delivered.
  deliver_staged-inr :
      (o : String ⊎ List ℕ) {d : Fields}
      → s.get_object settings.staging_bucket task.batch.staging_key ≡ o
      → deliver_staged s settings task o ≡ inr d
      → IsDelivered s settings task
  unfolding deliver_batch
  deliver_staged-inr (inl e) read h = ground arith
  deliver_staged-inr (inr content) {d} read h =
      elim (Bool-cases (str_eq (s.sha256 content) task.batch.file_checksum)) [
        | inl same ↦
            let checksum : s.sha256 content ≡ task.batch.file_checksum =
              (eq_iff (s.sha256 content) task.batch.file_checksum).0 same in
            let passed : checked_status (deliver_batch s settings task content) ≡ inr d =
              ground arith in
            let (batch, fits) = checked_status-inr (deliver_batch s settings task content) passed in
            let (uploaded, told) = notify_uploaded-inr (upload s settings task content) batch in
            record {
              content = content;
              staged = read;
              checksum = checksum;
              uploaded = uploaded ∙ ap inr (sym checksum);
              acknowledged = notice-IsAcknowledged (s.post_notice (notice_of task)) told fits;
            }
        | inr other ↦ ground arith
      ]

  -- A task counts as accepted only if the staged file was read with the task's checksum, those bytes
  -- were uploaded, and wedap answered the notification of them by a 2xx response whose status is
  -- ACCEPTED or DUPLICATE_BATCH.
  pub deliver_task-IsDelivered :
      (path : Option (Option String))
      → outcome s (deliver_task s settings task) ≡ accepted path
      → IsDelivered s settings task
  unfolding deliver_task
  deliver_task-IsDelivered path h = elim (Sum-cases (deliver_task s settings task)) [
    | inl (e, failed) ↦ ground arith
    | inr (d, sent) ↦
        deliver_staged-inr (s.get_object settings.staging_bucket task.batch.staging_key) refl sent
  ]
