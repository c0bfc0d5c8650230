-- ===== src/Favorites/Pagination.antt =====
-- `_build_mobile_pagination` of apps/favorites/services.py: which pages it lists.
use palingames.Base.{
  ℕ, zero, suc, ◌≡◌, ◌≤◌, ◌<◌, ◌-◌, refl, false, List, [], ◌∷◌, arith, leb, if◌then◌else◌,
  Bool-cases, inl, inr,
}
use palingames.Favorites.Page.{PageItem, build_mobile_pagination}

-- The numbers of the pages.
abbrev pub shown : List PageItem → List ℕ
shown [] = []
shown (PageItem.page n current ∷ items) = n ∷ shown items
shown (PageItem.ellipsis ∷ items) = shown items

-- Those that are marked as the current one.
abbrev pub marked : List PageItem → List ℕ
marked [] = []
marked (PageItem.page n current ∷ items) =
    let rest = marked items in if current then n ∷ rest else rest
marked (PageItem.ellipsis ∷ items) = marked items

-- The numbers rise from the first bound, itself left out, to the last, which is among them.
abbrev pub Climbs : ℕ → ℕ → List ℕ → Type 0
Climbs low high [] = low ≡ high
Climbs low high (n ∷ ns) = (low < n) × Climbs n high ns

-- For more than one page, the pagination lists pages in rising order, from the first one to the last,
-- and marks the current page, and no other.
pub build_mobile_pagination-Climbs :
    (total current : ℕ)
    → 2 ≤ total
    → 1 ≤ current
    → current ≤ total
    → Climbs 0 total (shown (build_mobile_pagination total current))
      × (marked (build_mobile_pagination total current) ≡ current ∷ [])
unfolding build_mobile_pagination
build_mobile_pagination-Climbs zero current t c d = absurd (omega (arith, t))
build_mobile_pagination-Climbs (suc zero) current t c d = absurd (omega (arith, t))
build_mobile_pagination-Climbs (suc (suc zero)) current t c d =
    ((omega arith, (omega arith, refl)), ground (arith, c, d))
build_mobile_pagination-Climbs (suc (suc (suc zero))) current t c d =
    ((omega arith, (omega arith, (omega arith, refl))), ground (arith, c, d))
build_mobile_pagination-Climbs (suc (suc (suc (suc n)))) current t c d =
    let total = suc (suc (suc (suc n))) in
    let e1 : leb total 1 ≡ false = ground arith in
    let e3 : leb total 3 ≡ false = ground arith in
    elim (Bool-cases (leb current 2)) [
      | inl low ↦
          rw (e1, e3, low)
            (
              (omega arith, (omega arith, (omega arith, (omega arith, refl)))),
              ground (arith, c, low),
            )
      | inr high ↦ elim (Bool-cases (leb (total - 1) current)) [
        | inl last ↦
            rw (e1, e3, high, last)
              (
                (omega arith, (omega arith, (omega arith, (omega arith, refl)))),
                ground (arith, d, last, high),
              )
        | inr mid ↦
            rw (e1, e3, high, mid)
              (
                (omega arith, (ground (arith, high), (ground (arith, mid), refl))),
                ground (arith, high, mid),
              )
      ]
    ]
