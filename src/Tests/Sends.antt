-- ===== src/Tests/Sends.antt =====
-- Witnesses for the client and for what is sent to wedap.
use lending_bank_gateway.Prelude.{◌≡◌, ◌≢◌, refl, false, none, some, [], ◌∷◌, inl, inr}
use lending_bank_gateway.Json.Value.{Fields, text, object, end, field, get}
use lending_bank_gateway.WedapClient.{HttpResponse}
use lending_bank_gateway.WedapClient.Import.{upload_mismatch}
use lending_bank_gateway.WedapDelivery.{accepted}
use lending_bank_gateway.WedapDelivery.Send.{Services, Settings, deliver_task, outcome}
use lending_bank_gateway.WedapDelivery.Send.Accepted.{IsDelivered, deliver_task-IsDelivered}
use lending_bank_gateway.WedapDelivery.Send.Checks.{deliver_task-upload_mismatch}
use lending_bank_gateway.Tests.Files.{task}

abbrev envelope : Fields
envelope = field "code" (text "INVALID_PARAM") (field "msg" (text "bad account") end)

abbrev refusal : HttpResponse
refusal = record { status_code = 422; body = some (object "{…}" envelope) }

abbrev acknowledgement : Fields
acknowledgement =
    field "status" (text "ACCEPTED") (field "resultFilePath" (text "result/B1.json") end)

abbrev services : Services
services = record {
  repr = λ v. "repr";
  show = λ n. "n";
  sha256 = λ bytes. "c1";
  get_object = λ bucket key. inr (1 ∷ 2 ∷ []);
  put_object = λ bucket key content. none;
  put_url = λ url content. none;
  post_presign = λ p. none;
  post_notice =
      λ n. some (record { status_code = 200; body = some (object "{…}" acknowledgement) });
  message = λ e. "failed";
}

abbrev settings : Settings
settings = record { staging_bucket = "staging"; wedap_bucket = "wedap"; presigned_enabled = false }

sent :
    outcome services (deliver_task services settings task) ≡ accepted (some (some "result/B1.json"))
unfolding deliver_task get
sent = refl

deliver_task-IsDelivered_example : IsDelivered services settings task
deliver_task-IsDelivered_example =
    deliver_task-IsDelivered services settings task (some (some "result/B1.json")) sent

deliver_task-upload_mismatch_example :
    deliver_task services settings task ≢ inl (upload_mismatch "c2" "c1")
deliver_task-upload_mismatch_example = deliver_task-upload_mismatch services settings task "c2" "c1"
