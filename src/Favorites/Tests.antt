-- ===== src/Favorites/Tests.antt =====
-- Favourites of a guest and of the user 7, and the pages of the mobile version.
use palingames.Base.{
  ◌≡◌, refl, ℕ, true, false, ◌||◌, some, none, [], ◌∷◌, List, elem, IsDistinct, map,
}
use palingames.Cart.Request.{RawId}
use palingames.Products.{Product}
use palingames.Promocodes.Tests.{product}
use palingames.Favorites.Services.{
  Favorite, Request, favorites_of, get_guest_favorite_ids, merge_guest_favorites_to_user,
}
use palingames.Favorites.Page.{
  PageItem, build_mobile_pagination, format_category_label, sort_guest_favorite_products,
}
use palingames.Favorites.Merged.{merge_guest_favorites_to_user-IsDistinct}

abbrev guest : Request
guest = record {
  user = none;
  session = record {
    guest_favorite_product_ids = some (RawId.whole 4 ∷ RawId.whole 5 ∷ RawId.whole 4 ∷ []);
    modified = false;
  };
}

abbrev rows : List Favorite
rows =
    record { user_id = 7; product_id = 5 }
    ∷ record { user_id = 8; product_id = 4 }
    ∷ record { user_id = 7; product_id = 2 }
    ∷ []

merged : favorites_of 7 (merge_guest_favorites_to_user guest 7 rows).1 ≡ 4 ∷ 5 ∷ 2 ∷ []
unfolding merge_guest_favorites_to_user
merged = refl

merge_guest_favorites_to_user-IsDistinct_example :
    IsDistinct (favorites_of 7 (merge_guest_favorites_to_user guest 7 rows).1)
    × ((n : ℕ)
        → elem n (favorites_of 7 (merge_guest_favorites_to_user guest 7 rows).1)
          ≡ (elem n (get_guest_favorite_ids guest.session) || elem n (favorites_of 7 rows)))
    × (get_guest_favorite_ids (merge_guest_favorites_to_user guest 7 rows).0.session ≡ [])
merge_guest_favorites_to_user-IsDistinct_example =
    merge_guest_favorites_to_user-IsDistinct guest 7 rows (refl, (refl, tt))

middle_page :
    build_mobile_pagination 9 5
    ≡ PageItem.page 1 false
      ∷ PageItem.ellipsis
      ∷ PageItem.page 5 true
      ∷ PageItem.ellipsis
      ∷ PageItem.page 9 false
      ∷ []
unfolding build_mobile_pagination
middle_page = refl

speech_games :
    format_category_label (some (record { id = 1; title = "Логопедические игры" }))
    ≡ "Логопедическая игра"
unfolding format_category_label
speech_games = refl

dearest_first :
    map
      (λ (p : Product). p.id)
      (sort_guest_favorite_products
        (product 3 1005 1 ∷ product 4 2000 2 ∷ [])
        (3 ∷ 4 ∷ [])
        "price_desc")
    ≡ 4 ∷ 3 ∷ []
unfolding sort_guest_favorite_products
dearest_first = refl

added_last_first :
    map
      (λ (p : Product). p.id)
      (sort_guest_favorite_products
        (product 3 1005 1 ∷ product 4 2000 2 ∷ [])
        (3 ∷ 4 ∷ [])
        "newest")
    ≡ 4 ∷ 3 ∷ []
unfolding sort_guest_favorite_products
added_last_first = refl
