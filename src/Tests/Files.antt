-- ===== src/Tests/Files.antt =====
-- Witnesses for the delivery of files to wedap.
use lending_bank_gateway.Prelude.{
  ◌+◌, ◌<◌, ◌≡◌, ◌≢◌, refl, String, List, eq_iff, true, none, some, [], ◌∷◌, arith,
}
use lending_bank_gateway.WedapDelivery.{
  Batch, DeliveryStatus, Policy, WedapImportDeliveryTask, claim, claim_result,
  reclaim_stale_sending,
}
use lending_bank_gateway.WedapDelivery.Enqueue.{new_task, EnqueueAnswer}
use lending_bank_gateway.WedapDelivery.Collection.{
  task_of, Moves, done, after, reclaims, locks, Moves-collected,
}
use lending_bank_gateway.WedapDelivery.Turns.{
  delivered_rows, reopened_rows, finish_delivery-reopens,
}

abbrev pub batch : Batch
batch = record {
  tenant_id = "bank-a";
  request_id = "wedap-import-B1";
  import_batch_no = "B1";
  data_type = "LOAN";
  import_date = "20260101";
  staging_key = "staging/B1.csv";
  file_checksum = "c1";
  file_size = 1024;
  total_count = 10;
}

abbrev pub again : Batch
again = record batch { request_id = "wedap-import-B1-again"; file_checksum = "c2" }

abbrev pub policy : Policy
policy = record {
  max_attempts = 5;
  base_seconds = 60;
  result_deadline = some (record { watchdog_hours = 24; buffer_minutes = 15 });
}

abbrev pub task : WedapImportDeliveryTask
task = new_task 1 10 batch

abbrev pub delivered : WedapImportDeliveryTask
delivered = record task { status = DeliveryStatus.delivered; attempts = 1 }

abbrev pub collected : WedapImportDeliveryTask
collected = record delivered { result_collected_at = some 900 }

abbrev answer : EnqueueAnswer
answer = record {
  import_batch_no = "B1";
  request_id = "wedap-import-B1";
  status = DeliveryStatus.pending;
  task_id = 1;
}

there : task_of 1 (task ∷ []) ≡ some task
there = refl

left : task.attempts < policy.max_attempts
left = omega arith

room : task.attempts + 2 < policy.max_attempts
room = omega arith

stalled : 20 + 300 < 500
stalled = omega arith

-- claimed at 20 and again at 510, delivered at 520, failed at 600
abbrev after_delivery : List WedapImportDeliveryTask
after_delivery =
    delivered_rows policy 1 300 (task ∷ []) 20 500 510 520 530 600 610 none "ReadTimeout"

abbrev after_failure : List WedapImportDeliveryTask
after_failure = reopened_rows policy 1 300 (task ∷ []) 20 500 510 520 530 600 610 none "ReadTimeout"

finish_delivery-reopens_example :
    ((claim 1 20 (task ∷ [])).0 ≡ true)
    × ((claim 1 510 (reclaim_stale_sending 500 300 (claim 1 20 (task ∷ [])).1)).0 ≡ true)
    × ((done : WedapImportDeliveryTask) × (task_of 1 after_delivery ≡ some done)
        × (done.status ≡ DeliveryStatus.delivered))
    × ((late : WedapImportDeliveryTask) × (task_of 1 after_failure ≡ some late)
        × (late.status ≡ DeliveryStatus.pending)
        × (late.batch ≡ batch)
        × (late.accepted_at ≡ some 530))
finish_delivery-reopens_example =
    finish_delivery-reopens policy 1 300 (task ∷ []) 20 500 510 520 530 600 610 none "ReadTimeout"
      task there refl stalled room

collected_there : task_of 1 (collected ∷ []) ≡ some collected
collected_there = refl

-- a round of reclaims, then a collector that comes again
abbrev two_moves : List WedapImportDeliveryTask
two_moves = (claim_result 9999 300 1 "token-c" (reclaim_stale_sending 9998 60 (collected ∷ []))).1

moves : Moves (collected ∷ []) two_moves
moves =
    after (reclaim_stale_sending 9998 60 (collected ∷ [])) _
      (after (collected ∷ []) _ done (reclaims 9998 60)) (locks 9999 300 1 "token-c")

Moves-collected_example :
    (r' : WedapImportDeliveryTask) × (task_of 1 two_moves ≡ some r')
    × (r'.result_collected_at ≡ some 900)
    × (r'.batch ≡ batch)
Moves-collected_example =
    Moves-collected (collected ∷ []) 1 900 collected collected_there refl two_moves moves

abbrev old_token : String
old_token = "token-a"

other_token : old_token ≢ "token-b"
other_token = λ e. ground (arith, eq_iff old_token "token-b")
