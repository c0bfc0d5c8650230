-- ===== src/CustomGames/Downloads/Delivered.antt =====
-- `deliver_custom_game_request` of apps/custom_games/services.py, and the link that it sends.
use palingames.Base.{
  Result, ok, err, ◌≡◌, ◌<◌, ◌+◌, refl, ℕ, String, Bool, true, false, not, some, List, [], ◌∷◌,
  find, any, arith, if◌then◌else◌, Bool-cases, inl, inr, ◌==◌,
}
use palingames.Base.Text.{str_eq-same}
use palingames.CustomGames.Model.{CustomGameRequest, RequestStatus}
use palingames.CustomGames.Status.{mark_delivered}
use palingames.Notifications.Enqueue.{EnqueueError, Outbox, enqueue_email_notification}
use palingames.CustomGames.Downloads.{
  CustomGameDownloadToken, CustomGameFile, Db, DeliveryError, DownloadResponse, DownloadSettings,
  Outcome, can_download, create_custom_game_download_token, deliver_custom_game_request,
  delivered_if, download_payload, get_custom_game, has_active_files, is_active_file_of, is_ready,
  queue_link, request_target, resolve_custom_game_download_token, send_custom_game_download_link,
  with_outbox, mark_custom_game_download_token_used,
}

-- The request afterwards, and what its link does at an instant, where every file has a URL.
abbrev pub IsDelivery :
    (String → String)
    → (CustomGameFile → String)
    → ℕ
    → String
    → CustomGameRequest
    → Outcome CustomGameDownloadToken × CustomGameRequest
    → Type 0
IsDelivery hash url at raw_token r ((ok token, db), r') =
    (r'.status ≡ RequestStatus.delivered)
    × (is_ready r.status ≡ true)
    × ((file : CustomGameFile) × (find (is_active_file_of r.id) db.files ≡ some file)
        × ((get_custom_game hash (λ f. some (url f)) at raw_token db).0
            ≡ DownloadResponse.redirect (url file)))
IsDelivery hash url at raw_token r ((err e, db), r') = r' ≡ r

any-found :
    (p : CustomGameFile → Bool) (files : List CustomGameFile)
    → any p files ≡ true
    → (file : CustomGameFile) × (find p files ≡ some file)
any-found p [] h = cc
any-found p (f ∷ files) h = elim (Bool-cases (p f)) [
  | inl e ↦ (f, ground (arith, e))
  | inr e ↦
      let (g, found) = any-found p files (ground (arith, h, e)) in (g, ground (arith, e, found))
]

module _ (hash : String → String) (url : CustomGameFile → String) (settings : DownloadSettings)
    (now at : ℕ) (raw_token : String) (r : CustomGameRequest) (db : Db) where
  abbrev token : CustomGameDownloadToken
  token = (create_custom_game_download_token hash settings now raw_token r db).0

  -- The tables with the new token, and any outbox.
  abbrev with_token : Outbox → Db
  with_token outbox =
      record (create_custom_game_download_token hash settings now raw_token r db).1 {
        outbox = outbox;
      }

  link_works :
      (outbox : Outbox) (file : CustomGameFile)
      → find (is_active_file_of r.id) db.files ≡ some file
      → at < now + settings.expires_in
      → 0 < settings.max_downloads
      → (get_custom_game hash (λ f. some (url f)) at raw_token (with_token outbox)).0
        ≡ DownloadResponse.redirect (url file)
  unfolding get_custom_game create_custom_game_download_token resolve_custom_game_download_token
      mark_custom_game_download_token_used
  link_works outbox file found early some_downloads =
      let same = str_eq-same (hash raw_token) in
      let can : can_download at token ≡ true = ground (arith, early, some_downloads) in
      let own : (db.next_token_id == db.next_token_id) ≡ true = ground arith in
      rw (same, can, found, own, can) refl

-- A delivery that succeeds, of a request that was READY, leaves it DELIVERED, and its link downloads the
-- newest active file at every instant before it expires, where the storage has a URL for it; one that
-- fails leaves the request as it was.
pub deliver_custom_game_request-IsDelivery :
    (hash : String → String) (url : CustomGameFile → String) (settings : DownloadSettings)
    (now at : ℕ) (raw_token : String) (r : CustomGameRequest) (db : Db)
    → at < now + settings.expires_in
    → 0 < settings.max_downloads
    → IsDelivery hash url at raw_token r
        (deliver_custom_game_request hash settings now raw_token r db)
unfolding deliver_custom_game_request send_custom_game_download_link mark_delivered has_active_files
deliver_custom_game_request-IsDelivery hash url settings now at raw_token r db early
      some_downloads =
    go (is_ready r.status) refl (any (is_active_file_of r.id) db.files) refl
  where
    queued :
        (m : Result EnqueueError Outbox) (file : CustomGameFile)
        → is_ready r.status ≡ true
        → find (is_active_file_of r.id) db.files ≡ some file
        → IsDelivery hash url at raw_token r (
            delivered_if hash settings now raw_token r (
              with_outbox
                (create_custom_game_download_token hash settings now raw_token r db).0
                (create_custom_game_download_token hash settings now raw_token r db).1
                m))
    queued (ok outbox) file ready found = (
      refl,
      ready,
      (
        file,
        found,
        link_works hash url settings now at raw_token r db outbox file found early some_downloads,
      ),
    )
    queued (err e) file ready found = refl

    go :
        (ready : Bool)
        → is_ready r.status ≡ ready
        → (active : Bool) → any (is_active_file_of r.id) db.files ≡ active
        → IsDelivery hash url at raw_token r (
            if not ready
            then ((err DeliveryError.not_ready, db), r)
            else if not active
            then ((err DeliveryError.no_active_file, db), r)
            else delivered_if hash settings now raw_token r (
                if active
                then queue_link hash settings now raw_token r
                    (create_custom_game_download_token hash settings now raw_token r db)
                else (err DeliveryError.no_active_file, db)))
    go false _ _ _ = refl
    go true _ false _ = refl
    go true ready true active =
        let (file, found) = any-found (is_active_file_of r.id) db.files active in
        let (made, db') = create_custom_game_download_token hash settings now raw_token r db in
        queued
          (enqueue_email_notification now "custom_game_download" r.contact_email
            (download_payload r made) (request_target r) db'.outbox)
          file ready found
