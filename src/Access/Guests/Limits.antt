-- ===== src/Access/Guests/Limits.antt =====
-- The number of downloads that the tokens of apps/access/services.py allow.
use palingames.Base.{
  ℕ, ◌+◌, ◌≤◌, ◌≡◌, refl, Bool, true, false, ◌&&◌, List, [], ◌∷◌, arith, All, any, elem, IsDistinct,
  sum_by, ltb, not, is_some, ◌==◌, if◌then◌else◌,
}
use palingames.Access.Model.{GuestAccess}
use palingames.Access.Guests.{
  update_where, can_use, used, has_use, released, mark_guest_access_used, release_guest_access_use,
}

-- The primary keys of the rows.
abbrev pub ids : List GuestAccess → List ℕ
ids [] = []
ids (a ∷ rows) = a.id ∷ ids rows

-- The primary key is unique, and every access is used at most as often as it allows.
pub record IsValid (rows : List GuestAccess) : Type 0 where
  pub distinct : IsDistinct (ids rows)
  pub within : All (λ a. a.downloads_count ≤ a.max_downloads) rows

-- The uses of the access with this id, and the uses that it allows.
abbrev pub used_by : ℕ → List GuestAccess → ℕ
used_by pk = sum_by (λ a. if a.id == pk then a.downloads_count else 0)

abbrev pub allowed_by : ℕ → List GuestAccess → ℕ
allowed_by pk = sum_by (λ a. if a.id == pk then a.max_downloads else 0)

pub used_by-le-allowed_by :
    (pk : ℕ) (rows : List GuestAccess)
    → All (λ a. a.downloads_count ≤ a.max_downloads) rows
    → used_by pk rows ≤ allowed_by pk rows
used_by-le-allowed_by pk [] h = omega arith
used_by-le-allowed_by pk (a ∷ rows) h = ground (arith, used_by-le-allowed_by pk rows h.1)

-- An update that keeps the id and the limit.
abbrev Keeps : (GuestAccess → Bool) → (GuestAccess → GuestAccess) → Type 0
Keeps p f =
    (a : GuestAccess)
    → ((f a).id ≡ a.id)
      × ((f a).max_downloads ≡ a.max_downloads)
      × (p a ≡ true → a.downloads_count ≤ a.max_downloads → (f a).downloads_count ≤ a.max_downloads)

module _ (p : GuestAccess → Bool) (f : GuestAccess → GuestAccess) (k : Keeps p f) where
  ids-update : (rows : List GuestAccess) → ids (update_where p f rows) ≡ ids rows
  ids-update [] = refl
  ids-update (a ∷ rows) = ground (arith, ids-update rows, k a)

  allowed_by-update :
      (pk : ℕ) (rows : List GuestAccess)
      → allowed_by pk (update_where p f rows) ≡ allowed_by pk rows
  allowed_by-update pk [] = refl
  allowed_by-update pk (a ∷ rows) = ground (arith, allowed_by-update pk rows, k a)

  within-update :
      (rows : List GuestAccess)
      → All (λ a. a.downloads_count ≤ a.max_downloads) rows
      → All (λ a. a.downloads_count ≤ a.max_downloads) (update_where p f rows)
  within-update [] h = tt
  within-update (a ∷ rows) h = (ground (arith, k a), within-update rows h.1)

  update-IsValid : {rows : List GuestAccess} → IsValid rows → IsValid (update_where p f rows)
  update-IsValid {rows} v = record {
    distinct = rw (ids-update rows) v.distinct;
    within = within-update rows v.within;
  }

Keeps-used : (now pk : ℕ) → Keeps (can_use now pk) (used now)
Keeps-used now pk a = (refl, refl, ground arith)

Keeps-released : (now pk : ℕ) → Keeps (has_use pk) (released now)
Keeps-released now pk a = (refl, refl, ground arith)

-- No row of the list has the key.
module _ (k : ℕ) (q : GuestAccess → Bool) (f : GuestAccess → GuestAccess) where
  update-absent :
      (rows : List GuestAccess)
      → elem k (ids rows) ≡ false
      → update_where (λ a. a.id == k && q a) f rows ≡ rows
  update-absent [] h = refl
  update-absent (a ∷ rows) h = ground (arith, update-absent rows)

  any-absent :
      (rows : List GuestAccess)
      → elem k (ids rows) ≡ false
      → any (λ a. a.id == k && q a) rows ≡ false
  any-absent [] h = refl
  any-absent (a ∷ rows) h = ground (arith, any-absent rows)

pub mark-IsValid :
    (now pk : ℕ) {rows : List GuestAccess}
    → IsValid rows
    → IsValid (mark_guest_access_used now pk rows).1
unfolding mark_guest_access_used
mark-IsValid now pk v = update-IsValid (can_use now pk) (used now) (Keeps-used now pk) v

pub release-IsValid :
    (now pk : ℕ) {rows : List GuestAccess}
    → IsValid rows
    → IsValid (release_guest_access_use now pk rows)
unfolding release_guest_access_use
release-IsValid now pk v = update-IsValid (has_use pk) (released now) (Keeps-released now pk) v

pub allowed_by-mark :
    (now k pk : ℕ) (rows : List GuestAccess)
    → allowed_by pk (mark_guest_access_used now k rows).1 ≡ allowed_by pk rows
unfolding mark_guest_access_used
allowed_by-mark now k pk rows =
    allowed_by-update (can_use now k) (used now) (Keeps-used now k) pk rows

pub allowed_by-release :
    (now k pk : ℕ) (rows : List GuestAccess)
    → allowed_by pk (release_guest_access_use now k rows) ≡ allowed_by pk rows
unfolding release_guest_access_use
allowed_by-release now k pk rows =
    allowed_by-update (has_use k) (released now) (Keeps-released now k) pk rows

abbrev usable : ℕ → GuestAccess → Bool
usable now a =
    not (is_some a.revoked_at) && ltb now a.expires_at && ltb a.downloads_count a.max_downloads

-- The conditional update counts one use of the access that it names, or none if it returns `False`.
pub used_by-mark :
    (now k pk : ℕ) (rows : List GuestAccess)
    → IsDistinct (ids rows)
    → used_by pk (mark_guest_access_used now k rows).1
      ≡ used_by pk rows + (if (mark_guest_access_used now k rows).0 && k == pk then 1 else 0)
unfolding mark_guest_access_used
used_by-mark now k pk [] d = ground arith
used_by-mark now k pk (a ∷ rows) d = ground (
  arith,
  update-absent k (usable now) (used now) rows,
  any-absent k (usable now) (used now) rows,
  used_by-mark now k pk rows d.1,
)

-- A use that was counted can be given back, once.
pub used_by-release :
    (now k pk : ℕ) (rows : List GuestAccess)
    → IsDistinct (ids rows)
    → any (has_use k) rows ≡ true
    → used_by pk (release_guest_access_use now k rows) + (if k == pk then 1 else 0)
      ≡ used_by pk rows
unfolding release_guest_access_use
used_by-release now k pk [] d h = cc
used_by-release now k pk (a ∷ rows) d h = ground (
  arith,
  update-absent k (λ (b : GuestAccess). ltb 0 b.downloads_count) (released now) rows,
  used_by-release now k pk rows d.1,
)

-- After a use was counted there is one to give back.
pub has_use-mark :
    (now k : ℕ) (rows : List GuestAccess)
    → (mark_guest_access_used now k rows).0 ≡ true
    → any (has_use k) (mark_guest_access_used now k rows).1 ≡ true
unfolding mark_guest_access_used
has_use-mark now k [] h = cc
has_use-mark now k (a ∷ rows) h = ground (arith, has_use-mark now k rows)
