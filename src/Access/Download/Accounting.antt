-- ===== src/Access/Download/Accounting.antt =====
-- The redirects of apps/access/views.py against the uses that are counted.
use palingames.Base.{
  ℕ, ◌+◌, ◌≤◌, ◌≡◌, refl, String, true, List, [], ◌∷◌, arith, count_if, if◌then◌else◌, Bool-cases,
  inl, inr, Option-cases, ◌∙◌,
}
use palingames.Access.Model.{GuestAccess, Tables}
use palingames.Access.Guests.{mark_guest_access_used, resolve_guest_access}
use palingames.Access.Guests.Limits.{
  IsValid, used_by, allowed_by, used_by-le-allowed_by, mark-IsValid, release-IsValid,
  allowed_by-mark, allowed_by-release, used_by-mark, used_by-release, has_use-mark,
}
use palingames.Access.Download.{
  Response, Request, deliver, serve_file, get, get_all, is_redirect_of,
}

-- What a request does to the table: it stays valid and keeps its limits, and the uses of each access
-- grow by the redirects through it.
abbrev Accounts : ℕ → Tables → Response × Tables → Type 0
Accounts pk t (x, t') =
    IsValid t'.guest_accesses
    × (allowed_by pk t'.guest_accesses ≡ allowed_by pk t.guest_accesses)
    × (used_by pk t'.guest_accesses
        ≡ used_by pk t.guest_accesses + (if is_redirect_of pk x then 1 else 0))

module _ (hash : String → String) (r : Request) (pk : ℕ) where
  deliver-Accounts :
      (k : ℕ) (file : String) (t : Tables)
      → IsValid t.guest_accesses
      → (mark_guest_access_used r.marked_at k t.guest_accesses).0 ≡ true
      → Accounts pk t (
          deliver hash r k file (record t {
            guest_accesses = (mark_guest_access_used r.marked_at k t.guest_accesses).1;
          }))
  unfolding deliver
  deliver-Accounts k file t v marked =
      let rows : List GuestAccess = (mark_guest_access_used r.marked_at k t.guest_accesses).1 in
      elim (Option-cases (r.presigned_url file)) [
        | inl failed ↦
            rw (failed, deliver)
              (
                release-IsValid r.released_at k (mark-IsValid r.marked_at k v),
                allowed_by-release r.released_at k pk rows
                    ∙ allowed_by-mark r.marked_at k pk t.guest_accesses,
                ground (
                  arith,
                  used_by-release r.released_at k pk rows (mark-IsValid r.marked_at k v).distinct
                      (has_use-mark r.marked_at k t.guest_accesses marked),
                  used_by-mark r.marked_at k pk t.guest_accesses v.distinct,
                ),
              )
        | inr (url, e) ↦
            rw (e, deliver)
              (
                mark-IsValid r.marked_at k v,
                allowed_by-mark r.marked_at k pk t.guest_accesses,
                ground (arith, used_by-mark r.marked_at k pk t.guest_accesses v.distinct),
              )
      ]

  serve_file-Accounts :
      (k : ℕ) (file : String) (t : Tables)
      → IsValid t.guest_accesses
      → Accounts pk t (serve_file hash r k file t)
  unfolding serve_file
  serve_file-Accounts k file t v =
      elim (Bool-cases (mark_guest_access_used r.marked_at k t.guest_accesses).0) [
        | inl marked ↦ rw (marked, serve_file) (deliver-Accounts k file t v marked)
        | inr refused ↦
            rw (refused, serve_file)
              (
                mark-IsValid r.marked_at k v,
                allowed_by-mark r.marked_at k pk t.guest_accesses,
                ground (arith, used_by-mark r.marked_at k pk t.guest_accesses v.distinct),
              )
      ]

  get-Accounts : (t : Tables) → IsValid t.guest_accesses → Accounts pk t (get hash r t)
  unfolding get
  get-Accounts t v = elim (Option-cases (resolve_guest_access hash r.resolved_at r.token t)) [
    | inl missing ↦ rw (missing, get) (v, refl, omega arith)
    | inr (a, found) ↦ elim (Option-cases (r.active_file a.product_id)) [
      | inl no_file ↦ rw (found, get) (rw (no_file, get) (v, refl, omega arith))
      | inr (file, e) ↦ rw (found, get) (rw (e, get) (serve_file-Accounts a.id file t v))
    ]
  ]

-- Over any sequence of requests, by whatever tokens, the uses of an access grow by the redirects
-- through it, and these stay within what the access has left. In between the table stays valid.
pub get_all-budget :
    (hash : String → String) (pk : ℕ) (rs : List Request) (t : Tables)
    → IsValid t.guest_accesses
    → let (xs, t') = get_all hash rs t in
      IsValid t'.guest_accesses
      × (used_by pk t'.guest_accesses
          ≡ used_by pk t.guest_accesses + count_if (is_redirect_of pk) xs)
      × (used_by pk t.guest_accesses + count_if (is_redirect_of pk) xs
          ≤ allowed_by pk t.guest_accesses)
unfolding get_all
get_all-budget hash pk [] t v =
    (v, omega arith, omega (arith, used_by-le-allowed_by pk t.guest_accesses v.within))
get_all-budget hash pk (r ∷ rs) t v =
    let first : Accounts pk t (get hash r t) = get-Accounts hash r pk t v in
    let rest = get_all-budget hash pk rs (get hash r t).1 first.0 in
    (rest.0, ground (arith, first.2, rest.1), ground (arith, first.1, first.2, rest.2))
