-- ===== src/CustomGames/Tests.antt =====
-- A request whose game is ready, with two files, and the link to it.
use palingames.Base.{ok, err, ◌≡◌, refl, arith, String, some, none, [], ◌∷◌, true, false}
use palingames.Payments.Tests.{custom_game, env, for_request}
use palingames.Notifications.Enqueue.{enqueue_email_notification}
use palingames.CustomGames.Model.{CustomGameRequest, RequestStatus}
use palingames.CustomGames.Status.{
  Complaint, Facts, mark_delivered, mark_in_progress, mark_ready, price_complaints,
  validate_can_mark_in_progress, validate_can_mark_ready, validate_ready_status,
}
use palingames.Payments.Model.{InvoiceStatus}
use palingames.Payments.Apply.{
  apply_custom_game_request_status_from_invoice_status, mark_custom_game_request_paid,
}
use palingames.CustomGames.Status.Sound.{IsSound, Step, Steps, clean_request-IsSound}
use palingames.CustomGames.Downloads.{
  CustomGameFile, Db, DeliveryError, DownloadSettings, create_custom_game_download_token,
  deliver_custom_game_request, has_active_files, send_custom_game_download_link,
}
use palingames.CustomGames.Downloads.Delivered.{IsDelivery, deliver_custom_game_request-IsDelivery}

abbrev hash : String → String
hash s = s

abbrev url_of : CustomGameFile → String
url_of f = f.file_key

abbrev file : String → CustomGameFile
file key = record {
  request_id = 9;
  file_key = key;
  original_filename = "game.pdf";
  is_active = true;
}

abbrev ready_request : CustomGameRequest
ready_request = custom_game RequestStatus.ready

abbrev db : Db
db = record {
  files = record (file "new") { is_active = false } ∷ file "old" ∷ [];
  tokens = [];
  next_token_id = 1;
  outbox = record { rows = []; next_id = 1 };
}

abbrev settings : DownloadSettings
settings = record { expires_in = 10; max_downloads = 2 }

delivered_status :
    (deliver_custom_game_request hash settings 5 "secret-token" ready_request db).1
    ≡ mark_delivered 5 ready_request
unfolding deliver_custom_game_request send_custom_game_download_link has_active_files mark_delivered
    create_custom_game_download_token enqueue_email_notification
delivered_status = refl

not_delivered_twice :
    deliver_custom_game_request hash settings 5 "secret-token" (mark_delivered 5 ready_request) db
    ≡ ((err DeliveryError.not_ready, db), mark_delivered 5 ready_request)
unfolding deliver_custom_game_request send_custom_game_download_link has_active_files mark_delivered
not_delivered_twice = refl

deliver_custom_game_request-IsDelivery_example :
    IsDelivery hash url_of 14 "secret-token" ready_request
      (deliver_custom_game_request hash settings 5 "secret-token" ready_request db)
deliver_custom_game_request-IsDelivery_example =
    deliver_custom_game_request-IsDelivery hash url_of settings 5 14 "secret-token" ready_request db
      (omega arith) (omega arith)

abbrev paid_facts : Facts
paid_facts = record { has_active_files = true; has_paid_invoice = true }

abbrev started : CustomGameRequest
started = custom_game RequestStatus.in_progress

free_request :
    mark_in_progress paid_facts (record started { quoted_price = some 0; deadline = none })
    ≡ err (Complaint.price_not_positive ∷ Complaint.deadline_missing ∷ [])
unfolding mark_in_progress validate_can_mark_in_progress price_complaints
free_request = refl

made_ready : mark_ready paid_facts started ≡ ok ready_request
unfolding mark_ready validate_can_mark_ready validate_ready_status
made_ready = refl

paid :
    (apply_custom_game_request_status_from_invoice_status env none
      (some InvoiceStatus.paid)
      (custom_game RequestStatus.new)
      (record for_request { request = some (custom_game RequestStatus.new) })).request
    ≡ some started
unfolding apply_custom_game_request_status_from_invoice_status mark_custom_game_request_paid
paid = refl

abbrev life : Steps (custom_game RequestStatus.new) ready_request
life =
    Steps.then_step _ _ _
      (Steps.then_step _ _ _ (Steps.none_taken (custom_game RequestStatus.new)) (
        Step.pays env none (some InvoiceStatus.paid)
          (record for_request { request = some (custom_game RequestStatus.new) })
          (custom_game RequestStatus.new) started refl paid))
      (Step.readies paid_facts started ready_request made_ready)

clean_request-IsSound_example : IsSound ready_request
clean_request-IsSound_example =
    clean_request-IsSound (custom_game RequestStatus.new) ready_request tt life
