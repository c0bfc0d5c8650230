-- ===== src/Favorites/Services.antt =====
-- apps/favorites/services.py: reading and changing the favourites. `_normalize_product_ids` is, clause by
-- clause, the function of the same name of apps/cart/services.py, and its model is used.
use palingames.Base.{
  ℕ, Bool, true, false, not, ◌&&◌, Option, none, some, List, [], ◌∷◌, ◌++◌, map, filter, any, elem,
  ◌==◌, or_else, if◌then◌else◌,
}
use palingames.Cart.Request.{RawId}
use palingames.Cart.Services.{normalize_product_ids}

-- The key of the session.
pub record Session : Type 0 where
  pub guest_favorite_product_ids : Option (List RawId)
  pub modified : Bool

pub record Request : Type 0 where
  pub user : Option ℕ
  pub session : Session

pub record Favorite : Type 0 where
  pub user_id : ℕ
  pub product_id : ℕ

unfoldable pub get_guest_favorite_ids : Session → List ℕ
unfolding normalize_product_ids
get_guest_favorite_ids s = normalize_product_ids (or_else s.guest_favorite_product_ids [])

abbrev pub raw : List ℕ → List RawId
raw = map (λ n. RawId.whole n)

unfoldable pub set_guest_favorite_ids : List ℕ → Session → Session
unfolding normalize_product_ids
set_guest_favorite_ids ids s = record s {
  guest_favorite_product_ids = some (raw (normalize_product_ids (raw ids)));
  modified = true;
}

abbrev pub is_favorite_of : ℕ → Favorite → Bool
is_favorite_of user f = f.user_id == user

abbrev pub is_favorite : ℕ → ℕ → Favorite → Bool
is_favorite user product_id f = f.user_id == user && f.product_id == product_id

-- The rows stand with the newest first, as the query orders them.
abbrev pub favorites_of : ℕ → List Favorite → List ℕ
favorites_of user rows = map (λ (f : Favorite). f.product_id) (filter (is_favorite_of user) rows)

abbrev pub ids_for : Option ℕ → Session → List Favorite → List ℕ
ids_for (some user) session rows = favorites_of user rows
ids_for none session rows = get_guest_favorite_ids session

unfoldable pub get_favorite_product_ids : Request → List Favorite → List ℕ
unfolding get_guest_favorite_ids
get_favorite_product_ids r rows = ids_for r.user r.session rows

abbrev pub in_session : Request → List ℕ → Request
in_session r ids = record r { session = set_guest_favorite_ids ids r.session }

abbrev pub without : ℕ → List ℕ → List ℕ
without product_id ids = filter (λ n. not (n == product_id)) ids

abbrev pub toggle_as : Option ℕ → ℕ → Request → List Favorite → Bool × Request × List Favorite
toggle_as (some user) product_id r rows =
    if any (is_favorite user product_id) rows
    then (false, r, filter (λ f. not (is_favorite user product_id f)) rows)
    else (true, r, record { user_id = user; product_id = product_id } ∷ rows)
toggle_as none product_id r rows =
    let ids = get_guest_favorite_ids r.session in
    if elem product_id ids
    then (false, in_session r (without product_id ids), rows)
    else (true, in_session r (ids ++ product_id ∷ []), rows)

-- Whether the product is a favourite now, and what is left.
unfoldable pub toggle_favorite_product :
    ℕ → Request → List Favorite → Bool × Request × List Favorite
unfolding get_guest_favorite_ids set_guest_favorite_ids
toggle_favorite_product product_id r rows = toggle_as r.user product_id r rows

abbrev pub remove_as : Option ℕ → ℕ → Request → List Favorite → Request × List Favorite
remove_as (some user) product_id r rows =
    (r, filter (λ f. not (is_favorite user product_id f)) rows)
remove_as none product_id r rows =
    (in_session r (without product_id (get_guest_favorite_ids r.session)), rows)

unfoldable pub remove_favorite_product : ℕ → Request → List Favorite → Request × List Favorite
unfolding get_guest_favorite_ids set_guest_favorite_ids
remove_favorite_product product_id r rows = remove_as r.user product_id r rows

abbrev pub clear_as : Option ℕ → Request → List Favorite → Request × List Favorite
clear_as (some user) r rows = (r, filter (λ f. not (is_favorite_of user f)) rows)
clear_as none r rows = (in_session r [], rows)

unfoldable pub clear_favorites : Request → List Favorite → Request × List Favorite
unfolding set_guest_favorite_ids
clear_favorites r rows = clear_as r.user r rows

unfoldable pub missing_favorites : ℕ → List ℕ → List Favorite → List ℕ
missing_favorites user guest_ids rows =
    filter (λ n. not (elem n (favorites_of user rows))) guest_ids

-- `bulk_create`, the last one the newest.
unfoldable pub create_favorites : ℕ → List ℕ → List Favorite → List Favorite
create_favorites user [] rows = rows
create_favorites user (id ∷ ids) rows =
    create_favorites user ids (record { user_id = user; product_id = id } ∷ rows)

abbrev pub merge_ids : List ℕ → Request → ℕ → List Favorite → Request × List Favorite
merge_ids [] r user rows = (r, rows)
merge_ids (id ∷ ids) r user rows =
    (in_session r [], create_favorites user (missing_favorites user (id ∷ ids) rows) rows)

unfoldable pub merge_guest_favorites_to_user : Request → ℕ → List Favorite → Request × List Favorite
unfolding missing_favorites create_favorites get_guest_favorite_ids set_guest_favorite_ids
merge_guest_favorites_to_user r user rows = merge_ids (get_guest_favorite_ids r.session) r user rows
