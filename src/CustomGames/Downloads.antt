-- ===== src/CustomGames/Downloads.antt =====
-- apps/custom_games/services.py and `CustomGameDownloadView`: the link to a delivered game. The hash and
-- the drawn tokens are parameters.
pub mod Delivered
use palingames.Base.{
  Result, ok, err, ◌>>=◌, ◌>>◌, raise_if, ℕ, suc, ◌+◌, ◌-◌, String, Bool, true, false, not, ◌&&◌,
  ◌||◌, Option, none, some, List, [], ◌∷◌, ◌++◌, map, find, any, ltb, ◌==◌, str_eq, is_some,
  if◌then◌else◌,
}
use palingames.Base.Text.{take}
use palingames.CustomGames.Model.{CustomGameRequest, RequestStatus}
use palingames.CustomGames.Status.{mark_delivered}
use palingames.Notifications.Enqueue.{Outbox, Target, EnqueueError, enqueue_email_notification}

pub record CustomGameFile : Type 0 where
  pub request_id : ℕ
  pub file_key : String
  pub original_filename : String
  pub is_active : Bool

pub record CustomGameDownloadToken : Type 0 where
  pub id : ℕ
  pub request_id : ℕ
  pub token_hash : String
  pub token_prefix : String
  pub email : String
  pub expires_at : ℕ
  pub max_downloads : ℕ
  pub downloads_count : ℕ
  pub last_downloaded_at : Option ℕ

-- The tables; files stand with the newest first.
pub record Db : Type 0 where
  pub files : List CustomGameFile
  pub tokens : List CustomGameDownloadToken
  pub next_token_id : ℕ
  pub outbox : Outbox

-- GUEST_ACCESS_EXPIRE_HOURS in the unit of the instants, and GUEST_ACCESS_MAX_DOWNLOADS.
pub record DownloadSettings : Type 0 where
  pub expires_in : ℕ
  pub max_downloads : ℕ

pub data DeliveryError : Type 0 where
  not_ready no_active_file : DeliveryError
  enqueue : EnqueueError → DeliveryError

abbrev pub is_active_file_of : ℕ → CustomGameFile → Bool
is_active_file_of request_id f = f.request_id == request_id && f.is_active

unfoldable pub has_active_files : ℕ → Db → Bool
has_active_files request_id db = any (is_active_file_of request_id) db.files

abbrev pub is_ready : RequestStatus → Bool
is_ready RequestStatus.ready = true
is_ready _ = false

-- The failure leaves what was written before it.
abbrev pub Outcome : Type 0 → Type 0
Outcome A = Result DeliveryError A × Db

abbrev pub with_outbox :
    CustomGameDownloadToken → Db → Result EnqueueError Outbox → Outcome CustomGameDownloadToken
with_outbox token db (ok outbox) = (ok token, record db { outbox = outbox })
with_outbox token db (err e) = (err (DeliveryError.enqueue e), db)

abbrev pub request_target : CustomGameRequest → Target
request_target r = record { content_type = "customgamerequest"; object_id = r.id }

abbrev pub download_payload : CustomGameRequest → CustomGameDownloadToken → List (String × ℕ)
download_payload r token = ("custom_game_request_id", r.id) ∷ ("download_token_id", token.id) ∷ []

module _ (hash : String → String) (settings : DownloadSettings) (now : ℕ) (raw_token : String) where
  -- The row, and the table with it.
  unfoldable pub create_custom_game_download_token :
      CustomGameRequest → Db → CustomGameDownloadToken × Db
  create_custom_game_download_token r db =
      let token : CustomGameDownloadToken = record {
        id = db.next_token_id;
        request_id = r.id;
        token_hash = hash raw_token;
        token_prefix = take 12 raw_token;
        email = r.contact_email;
        expires_at = now + settings.expires_in;
        max_downloads = settings.max_downloads;
        downloads_count = 0;
        last_downloaded_at = none;
      } in
      (token, record db { tokens = token ∷ db.tokens; next_token_id = suc db.next_token_id })

  abbrev pub queue_link :
      CustomGameRequest → CustomGameDownloadToken × Db → Outcome CustomGameDownloadToken
  queue_link r (token, db) = with_outbox token db (
      enqueue_email_notification now "custom_game_download" r.contact_email
        (download_payload r token) (request_target r) db.outbox)

  -- The raw token is the mail's alone, and is left out of the payload.
  unfoldable pub send_custom_game_download_link :
      CustomGameRequest → Db → Outcome CustomGameDownloadToken
  unfolding has_active_files create_custom_game_download_token enqueue_email_notification
  send_custom_game_download_link r db =
      if has_active_files r.id db
      then queue_link r (create_custom_game_download_token r db)
      else (err DeliveryError.no_active_file, db)

  abbrev pub delivered_if :
      CustomGameRequest
      → Outcome CustomGameDownloadToken
      → Outcome CustomGameDownloadToken × CustomGameRequest
  delivered_if r (ok token, db) = ((ok token, db), mark_delivered now r)
  delivered_if r (err e, db) = ((err e, db), r)

  -- The outcome, and the request afterwards.
  unfoldable pub deliver_custom_game_request :
      CustomGameRequest → Db → Outcome CustomGameDownloadToken × CustomGameRequest
  unfolding has_active_files send_custom_game_download_link mark_delivered
  deliver_custom_game_request r db =
      if not (is_ready r.status)
      then ((err DeliveryError.not_ready, db), r)
      else if not (has_active_files r.id db)
      then ((err DeliveryError.no_active_file, db), r)
      else delivered_if r (send_custom_game_download_link r db)

abbrev pub can_download : ℕ → CustomGameDownloadToken → Bool
can_download now t = ltb now t.expires_at && ltb t.downloads_count t.max_downloads

unfoldable pub resolve_custom_game_download_token :
    (String → String) → ℕ → String → Db → Option CustomGameDownloadToken
resolve_custom_game_download_token hash now raw_token db =
    find (λ t. str_eq t.token_hash (hash raw_token) && can_download now t) db.tokens

abbrev pub update_token :
    (CustomGameDownloadToken → Bool)
    → (CustomGameDownloadToken → CustomGameDownloadToken)
    → List CustomGameDownloadToken
    → List CustomGameDownloadToken
update_token p f tokens = map (λ (t : CustomGameDownloadToken). if p t then f t else t) tokens

abbrev pub may_use : ℕ → ℕ → CustomGameDownloadToken → Bool
may_use now pk t = t.id == pk && can_download now t

abbrev pub used_once : ℕ → CustomGameDownloadToken → CustomGameDownloadToken
used_once now t = record t {
  downloads_count = suc t.downloads_count;
  last_downloaded_at = some now;
}

unfoldable pub mark_custom_game_download_token_used : ℕ → ℕ → Db → Bool × Db
mark_custom_game_download_token_used now pk db = (
  any (may_use now pk) db.tokens,
  record db { tokens = update_token (may_use now pk) (used_once now) db.tokens },
)

abbrev pub has_uses : ℕ → CustomGameDownloadToken → Bool
has_uses pk t = t.id == pk && ltb 0 t.downloads_count

abbrev pub unused_once : CustomGameDownloadToken → CustomGameDownloadToken
unused_once t = record t { downloads_count = t.downloads_count - 1 }

unfoldable pub release_custom_game_download_token_use : ℕ → Db → Db
release_custom_game_download_token_use pk db = record db {
  tokens = update_token (has_uses pk) unused_once db.tokens;
}

-- The reason and the status of the page, or the URL of the redirect.
pub data DownloadResponse : Type 0 where
  invalid : String → ℕ → DownloadResponse
  redirect : String → DownloadResponse

-- The answer of the storage for a file, none for a `ProductFileDownloadUrlError`. The name that the
-- download is given is left out, as are logs, incidents and analytics.
module _ (hash : String → String) (presigned_url : CustomGameFile → Option String) where
  abbrev pub redirected : ℕ → Db → Option String → DownloadResponse × Db
  redirected pk db (some url) = (DownloadResponse.redirect url, db)
  redirected pk db none = (
    DownloadResponse.invalid "download_unavailable" 503,
    release_custom_game_download_token_use pk db,
  )

  abbrev pub served : ℕ → CustomGameFile → Bool × Db → DownloadResponse × Db
  served pk file (true, db) = redirected pk db (presigned_url file)
  served pk file (false, db) = (DownloadResponse.invalid "invalid_or_expired" 410, db)

  abbrev pub file_of :
      ℕ → CustomGameDownloadToken → Db → Option CustomGameFile → DownloadResponse × Db
  file_of now t db none = (DownloadResponse.invalid "file_not_found" 404, db)
  file_of now t db (some file) = served t.id file (mark_custom_game_download_token_used now t.id db)

  abbrev pub get_with : ℕ → Db → Option CustomGameDownloadToken → DownloadResponse × Db
  get_with now db none = (DownloadResponse.invalid "invalid_or_expired" 410, db)
  get_with now db (some t) = file_of now t db (find (is_active_file_of t.request_id) db.files)

  -- `CustomGameDownloadView.get`, with one instant for the two reads of the clock.
  unfoldable pub get_custom_game : ℕ → String → Db → DownloadResponse × Db
  unfolding resolve_custom_game_download_token mark_custom_game_download_token_used
      release_custom_game_download_token_use
  get_custom_game now raw_token db =
      get_with now db (resolve_custom_game_download_token hash now raw_token db)
