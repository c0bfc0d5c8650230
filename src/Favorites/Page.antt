-- ===== src/Favorites/Page.antt =====
-- apps/favorites/services.py: the guest's page of favourites, with its order, its cards and the pages of
-- its mobile version. Django's paginator is a parameter.
use Prim.Native.Nat.{Ordering}
use Prim.Native.String.{compare}
use palingames.Base.{
  ℕ, zero, suc, ◌-◌, String, Bool, true, false, not, ◌&&◌, ◌||◌, Option, none, some, List, [], ◌∷◌,
  map, find, elem, length, ltb, leb, ◌==◌, or_else, str_eq, if◌then◌else◌,
}
use palingames.Base.Text.{lower}
use palingames.Cart.Request.{RawId}
use palingames.Products.{Product, Category}
use palingames.Products.Reviews.{RatingSummary, Review, get_product_rating_summaries}
use palingames.Access.Model.{UserProductAccess}
use palingames.Access.Users.{get_user_product_access_ids}
use palingames.Checkout.Services.{in_bulk}
use palingames.Favorites.Services.{Request, Favorite, get_favorite_product_ids}

-- `s[:-len(source)] + target` where `s` ends with `source`.
unfoldable pub with_ending : String → String → String → Option String
with_ending source target String.[] = if str_eq source "" then some target else none
with_ending source target (String.◌∷◌ c s) =
    let rest = with_ending source target s in
    if str_eq (String.◌∷◌ c s) source
    then some target
    else elim rest [ none ↦ none | some t ↦ some (String.◌∷◌ c t) ]

-- `replacements`
abbrev pub replacements : List (String × String)
replacements =
    ("ческие игры", "ческая игра")
    ∷ ("тивные игры", "тивная игра")
    ∷ ("ные игры", "ная игра")
    ∷ ("ые игры", "ая игра")
    ∷ ("ие игры", "ая игра")
    ∷ ("ги", "га")
    ∷ []

unfoldable pub first_ending : List (String × String) → String → String
unfolding with_ending
first_ending [] title = title
first_ending ((source, target) ∷ rest) title =
    or_else (with_ending source target title) (first_ending rest title)

unfoldable pub format_category_label : Option Category → String
unfolding first_ending
format_category_label none = ""
format_category_label (some category) = first_ending replacements category.title

-- The place of the last occurrence, 0 for an id that is not listed.
unfoldable pub session_index : ℕ → List ℕ → ℕ → ℕ
session_index n [] id = 0
session_index n (x ∷ ids) id =
    let rest = session_index (suc n) ids id in
    if x == id then (if elem id ids then rest else n) else rest

abbrev pub text_before : String → String → Bool
text_before a b = elim (compare a b) [ Ordering.lt ↦ true | _ ↦ false ]

abbrev pub title_before : Product → Product → Bool
title_before p q = text_before (lower p.title) (lower q.title)

-- Whether the key of the first is less than the key of the second; `reverse=True` turns it around.
unfoldable pub sorts_before : String → List ℕ → Product → Product → Bool
unfolding session_index
sorts_before sort_value ids p q =
    if str_eq sort_value "title"
    then title_before p q
    else if str_eq sort_value "price_asc"
    then ltb p.price q.price || (p.price == q.price && title_before p q)
    else if str_eq sort_value "price_desc"
    then ltb q.price p.price || (p.price == q.price && title_before p q)
    else if str_eq sort_value "oldest"
    then ltb (session_index 0 ids p.id) (session_index 0 ids q.id)
    else ltb (session_index 0 ids q.id) (session_index 0 ids p.id)

-- Python's sort keeps the order of equal elements.
unfoldable pub insert_sorted : (Product → Product → Bool) → Product → List Product → List Product
insert_sorted before p [] = p ∷ []
insert_sorted before p (q ∷ qs) =
    let rest = insert_sorted before p qs in if before q p then q ∷ rest else p ∷ q ∷ qs

unfoldable pub sorted_by : (Product → Product → Bool) → List Product → List Product
unfolding insert_sorted
sorted_by before [] = []
sorted_by before (p ∷ ps) = insert_sorted before p (sorted_by before ps)

unfoldable pub sort_guest_favorite_products : List Product → List ℕ → String → List Product
unfolding sorted_by sorts_before
sort_guest_favorite_products products session_order_ids sort_value =
    sorted_by (sorts_before sort_value session_order_ids) products

-- The keys of a card that depend on more than the product.
pub record Card : Type 0 where
  pub product : Product
  pub category : String
  pub has_rating : Bool
  pub reviews_count : ℕ
  pub is_in_cart : Bool
  pub is_purchased : Bool

abbrev pub first_category : List Category → Option Category
first_category [] = none
first_category (c ∷ categories) = some c

abbrev pub reviews_of : Option RatingSummary → ℕ
reviews_of none = 0
reviews_of (some s) = s.count

unfoldable pub build_favorite_card : List ℕ → List ℕ → List RatingSummary → Product → Card
unfolding format_category_label
build_favorite_card cart_ids purchased_ids rating_summaries product =
    let summary = find (λ (s : RatingSummary). s.product_id == product.id) rating_summaries in
    record {
      product = product;
      category = format_category_label (first_category product.categories);
      has_rating = ltb 0 (reviews_of summary);
      reviews_count = reviews_of summary;
      is_in_cart = elem product.id cart_ids && not (elem product.id purchased_ids);
      is_purchased = elem product.id purchased_ids;
    }

-- An entry of the mobile pagination.
pub data PageItem : Type 0 where
  page : ℕ → Bool → PageItem
  ellipsis : PageItem

abbrev pub page_item : ℕ → ℕ → PageItem
page_item current_page page_number = PageItem.page page_number (page_number == current_page)

-- `range(first, first + count)`
unfoldable pub page_range : ℕ → ℕ → List ℕ
page_range first zero = []
page_range first (suc count) = first ∷ page_range (suc first) count

-- The number of pages, and the current one.
unfoldable pub build_mobile_pagination : ℕ → ℕ → List PageItem
unfolding page_range
build_mobile_pagination total_pages current_page =
    let item = page_item current_page in
    if leb total_pages 1
    then []
    else if leb total_pages 3
    then map item (page_range 1 total_pages)
    else if leb current_page 2
    then item 1 ∷ item 2 ∷ item 3 ∷ PageItem.ellipsis ∷ item total_pages ∷ []
    else if leb (total_pages - 1) current_page
    then item 1
      ∷ PageItem.ellipsis
      ∷ item (total_pages - 2)
      ∷ item (total_pages - 1)
      ∷ item total_pages
      ∷ []
    else item 1 ∷ PageItem.ellipsis ∷ item current_page ∷ PageItem.ellipsis ∷ item total_pages ∷ []

-- `Paginator(products, per_page).get_page(number)`
pub record PageObj : Type 0 where
  pub number : ℕ
  pub num_pages : ℕ
  pub object_list : List Product

pub record PageContext : Type 0 where
  pub favorites_products : List Card
  pub favorites_count : ℕ
  pub favorites_page_obj : Option PageObj
  pub favorites_sort_value : String
  pub favorites_mobile_pagination_items : List PageItem

-- `ACCOUNT_FAVORITES_SORT_OPTIONS`
abbrev pub sort_value_or_newest : String → String
sort_value_or_newest s =
    if str_eq s "title" || str_eq s "price_desc" || str_eq s "price_asc" || str_eq s "oldest"
    then s
    else "newest"

-- What the page reads besides the favourites.
pub record Catalogue : Type 0 where
  pub products : List Product
  pub reviews : List Review
  pub user_accesses : List UserProductAccess
  pub cart_ids : List ℕ

abbrev pub page_context :
    (List Product → ℕ → RawId → PageObj)
    → Catalogue
    → Option ℕ
    → List ℕ
    → String
    → RawId
    → PageContext
page_context get_page c user ids sort_value page_number =
    let ordered = sort_guest_favorite_products (in_bulk ids c.products) ids sort_value in
    let page_obj = get_page ordered 9 page_number in
    let page_ids = map (λ (p : Product). p.id) page_obj.object_list in
    let purchased_ids = get_user_product_access_ids user (some page_ids) c.user_accesses in
    record {
      favorites_products =
          map
            (build_favorite_card c.cart_ids purchased_ids
              (get_product_rating_summaries page_ids c.reviews))
            page_obj.object_list;
      favorites_count = length ordered;
      favorites_page_obj = some page_obj;
      favorites_sort_value = sort_value;
      favorites_mobile_pagination_items =
          build_mobile_pagination page_obj.num_pages page_obj.number;
    }

abbrev pub empty_context : PageContext
empty_context = record {
  favorites_products = [];
  favorites_count = 0;
  favorites_page_obj = none;
  favorites_sort_value = "newest";
  favorites_mobile_pagination_items = [];
}

-- `int` of the parameter, and 1 where it fails or there is none.
abbrev pub page_number : Option RawId → RawId
page_number none = RawId.whole 1
page_number (some RawId.refused) = RawId.whole 1
page_number (some raw) = raw

abbrev pub context_for :
    (List Product → ℕ → RawId → PageObj)
    → Catalogue
    → Option ℕ
    → String
    → Option RawId
    → List ℕ
    → PageContext
context_for get_page c user sort page_raw [] = empty_context
context_for get_page c user sort page_raw (id ∷ ids) =
    page_context get_page c user (id ∷ ids) (sort_value_or_newest sort) (page_number page_raw)

-- `page_raw` is none where the parameter is missing or empty.
unfoldable pub get_favorites_page_context :
    (List Product → ℕ → RawId → PageObj)
    → Catalogue
    → Request
    → List Favorite
    → String
    → Option RawId
    → PageContext
unfolding sort_guest_favorite_products in_bulk build_favorite_card build_mobile_pagination
    get_favorite_product_ids get_product_rating_summaries
get_favorites_page_context get_page c r rows sort page_raw =
    context_for get_page c r.user sort page_raw (get_favorite_product_ids r rows)
