-- ===== src/Favorites/Merged.antt =====
-- `merge_guest_favorites_to_user` of apps/favorites/services.py: what a sign-in makes of the guest's
-- favourites and the account's.
use palingames.Base.{
  ℕ, ◌≡◌, refl, sym, ◌∙◌, subst, false, not, ◌&&◌, ◌||◌, List, [], ◌∷◌, elem, IsDistinct, arith,
  or_else,
}
use palingames.Cart.Guest.{normalize_product_ids-IsDistinct}
use palingames.Cart.Merge.{elem-filter, IsDistinct-filter}
use palingames.Favorites.Services.{
  Favorite, Request, Session, create_favorites, favorites_of, get_guest_favorite_ids,
  merge_guest_favorites_to_user, merge_ids, missing_favorites, set_guest_favorite_ids,
}

elem-create :
    (n user : ℕ) (ids : List ℕ) (rows : List Favorite)
    → elem n (favorites_of user (create_favorites user ids rows))
      ≡ (elem n ids || elem n (favorites_of user rows))
unfolding create_favorites
elem-create n user [] rows = refl
elem-create n user (id ∷ ids) rows =
    ground (arith, elem-create n user ids (record { user_id = user; product_id = id } ∷ rows))

favorites_of-new :
    (user id : ℕ) (rows : List Favorite)
    → favorites_of user (record { user_id = user; product_id = id } ∷ rows)
      ≡ id ∷ favorites_of user rows
favorites_of-new user id rows = ground arith

-- The new ones are told apart from each other and from the old ones.
create-IsDistinct :
    (user : ℕ) (ids : List ℕ) (rows : List Favorite)
    → IsDistinct ids
    → ((n : ℕ) → (elem n ids && elem n (favorites_of user rows)) ≡ false)
    → IsDistinct (favorites_of user rows)
    → IsDistinct (favorites_of user (create_favorites user ids rows))
unfolding create_favorites
create-IsDistinct user [] rows d apart old = old
create-IsDistinct user (id ∷ ids) rows d apart old =
    create-IsDistinct user ids (record { user_id = user; product_id = id } ∷ rows) d.1
      (λ n. ground (arith, apart n, d.0))
      (subst IsDistinct (sym (favorites_of-new user id rows)) (ground (arith, apart id), old))

missing-IsDistinct :
    (user : ℕ) (ids : List ℕ) (rows : List Favorite)
    → IsDistinct ids
    → IsDistinct (missing_favorites user ids rows)
unfolding missing_favorites
missing-IsDistinct user ids rows d = IsDistinct-filter _ ids d

elem-missing :
    (n user : ℕ) (ids : List ℕ) (rows : List Favorite)
    → elem n (missing_favorites user ids rows)
      ≡ (elem n ids && not (elem n (favorites_of user rows)))
unfolding missing_favorites
elem-missing n user ids rows = elem-filter n (λ m. not (elem m (favorites_of user rows))) ids

cleared : (s : Session) → get_guest_favorite_ids (set_guest_favorite_ids [] s) ≡ []
unfolding get_guest_favorite_ids set_guest_favorite_ids
cleared s = refl

guest-IsDistinct : (s : Session) → IsDistinct (get_guest_favorite_ids s)
unfolding get_guest_favorite_ids
guest-IsDistinct s = normalize_product_ids-IsDistinct (or_else s.guest_favorite_product_ids [])

-- The favourites after a merge of these ids.
IsMerged : Request → ℕ → List Favorite → List ℕ → Type 0
IsMerged r user rows ids =
    let after = merge_ids ids r user rows in
    IsDistinct (favorites_of user after.1)
    × ((n : ℕ)
        → elem n (favorites_of user after.1) ≡ (elem n ids || elem n (favorites_of user rows)))
    × (get_guest_favorite_ids after.0.session
        ≡ elim ids [ [] ↦ get_guest_favorite_ids r.session | x ∷ xs ↦ [] ])

merge_ids-IsMerged :
    (r : Request) (user : ℕ) (rows : List Favorite) (ids : List ℕ)
    → IsDistinct ids
    → IsDistinct (favorites_of user rows)
    → IsMerged r user rows ids
unfolding IsMerged
merge_ids-IsMerged r user rows [] d old = (old, λ n. refl, refl)
merge_ids-IsMerged r user rows (id ∷ ids) d old =
    let missing = missing_favorites user (id ∷ ids) rows in
    (
      create-IsDistinct user missing rows (missing-IsDistinct user (id ∷ ids) rows d)
          (λ n. ground (arith, elem-missing n user (id ∷ ids) rows)) old,
      λ n. ground (arith, elem-create n user missing rows, elem-missing n user (id ∷ ids) rows),
      cleared r.session,
    )

-- A merge keeps the account's favourites free of doubles. They are those from before and the guest's,
-- whose list is empty afterwards.
pub merge_guest_favorites_to_user-IsDistinct :
    (r : Request) (user : ℕ) (rows : List Favorite)
    → IsDistinct (favorites_of user rows)
    → let after = merge_guest_favorites_to_user r user rows in
      IsDistinct (favorites_of user after.1)
      × ((n : ℕ)
          → elem n (favorites_of user after.1)
            ≡ (elem n (get_guest_favorite_ids r.session) || elem n (favorites_of user rows)))
      × (get_guest_favorite_ids after.0.session ≡ [])
unfolding merge_guest_favorites_to_user IsMerged
merge_guest_favorites_to_user-IsDistinct r user rows old =
    go (get_guest_favorite_ids r.session) refl (
      merge_ids-IsMerged r user rows (get_guest_favorite_ids r.session) (guest-IsDistinct r.session)
        old)
  where
    go :
        (ids : List ℕ)
        → get_guest_favorite_ids r.session ≡ ids
        → IsMerged r user rows ids
        → let after = merge_ids ids r user rows in
          IsDistinct (favorites_of user after.1)
          × ((n : ℕ)
              → elem n (favorites_of user after.1)
                ≡ (elem n ids || elem n (favorites_of user rows)))
          × (get_guest_favorite_ids after.0.session ≡ [])
    go [] e m = (m.0, m.1, m.2 ∙ e)
    go (id ∷ ids) e m = m
