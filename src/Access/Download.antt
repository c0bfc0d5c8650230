-- ===== src/Access/Download.antt =====
-- apps/access/views.py: `GuestProductDownloadView.get`. The file of a product and the signed URL come
-- from outside; the instants of the two reads of the clock are arguments.
pub mod Accounting
use palingames.Base.{
  ℕ, ◌+◌, String, Bool, true, false, Option, none, some, List, [], ◌∷◌, ◌==◌, if◌then◌else◌,
}
use palingames.Access.Model.{GuestAccess, Tables}
use palingames.Access.Guests.{
  resolve_guest_access, mark_guest_access_used, release_guest_access_use,
}

-- The reason on the page, or the access that was used and the URL of the redirect.
pub data Response : Type 0 where
  invalid_or_expired : Response
  file_not_found : Response
  download_limit_exhausted : Response
  download_unavailable : Response
  redirect : ℕ → String → Response

unfoldable pub http_status : Response → ℕ
http_status invalid_or_expired = 410
http_status file_not_found = 404
http_status download_limit_exhausted = 410
http_status download_unavailable = 503
http_status (redirect id url) = 302

-- A request with what the outside answers: the active file of a product and its signed URL.
pub record Request : Type 0 where
  pub token : String
  pub resolved_at : ℕ
  pub marked_at : ℕ
  pub released_at : ℕ
  pub active_file : ℕ → Option String
  pub presigned_url : String → Option String

module _ (hash : String → String) (r : Request) where
  -- After the use has been counted.
  unfoldable pub deliver : ℕ → String → Tables → Response × Tables
  unfolding release_guest_access_use
  deliver pk file t = elim (r.presigned_url file) [
    | some url ↦ (redirect pk url, t)
    | none ↦ (
      download_unavailable,
      record t { guest_accesses = release_guest_access_use r.released_at pk t.guest_accesses },
    )
  ]

  unfoldable pub serve_file : ℕ → String → Tables → Response × Tables
  unfolding deliver mark_guest_access_used
  serve_file pk file t =
      let (marked, rows) = mark_guest_access_used r.marked_at pk t.guest_accesses in
      if marked
      then deliver pk file (record t { guest_accesses = rows })
      else (download_limit_exhausted, record t { guest_accesses = rows })

  unfoldable pub get : Tables → Response × Tables
  unfolding serve_file resolve_guest_access
  get t = elim (resolve_guest_access hash r.resolved_at r.token t) [
    | none ↦ (invalid_or_expired, t)
    | some a ↦ elim (r.active_file a.product_id) [
      | none ↦ (file_not_found, t)
      | some file ↦ serve_file a.id file t
    ]
  ]

-- A sequence of requests, and the number of them that were redirected to a file through one access.
unfoldable pub get_all : (String → String) → List Request → Tables → List Response × Tables
unfolding get
get_all hash [] t = ([], t)
get_all hash (r ∷ rs) t =
    let (x, t') = get hash r t in let (xs, t'') = get_all hash rs t' in (x ∷ xs, t'')

abbrev pub is_redirect_of : ℕ → Response → Bool
is_redirect_of pk (redirect id url) = id == pk
is_redirect_of pk _ = false
