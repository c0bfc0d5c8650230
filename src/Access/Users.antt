-- ===== src/Access/Users.antt =====
-- apps/access/services.py: the accesses of users with an account. A user is the id of the account,
-- and `none` is the anonymous user.
pub mod Granted
use palingames.Base.{
  ℕ, Bool, false, ◌&&◌, Option, none, some, List, [], ◌∷◌, ◌++◌, map, filter, any, elem, ◌==◌,
  if◌then◌else◌,
}
use palingames.Orders.Model.{Order, OrderItem}
use palingames.Access.Model.{UserProductAccess}

-- `filter(user=user, product_id=product_id)`
abbrev pub is_access_of : ℕ → ℕ → UserProductAccess → Bool
is_access_of user product_id a = a.user_id == user && a.product_id == product_id

unfoldable pub has_user_product_access : Option ℕ → ℕ → List UserProductAccess → Bool
has_user_product_access none product_id rows = false
has_user_product_access (some user) product_id rows = any (is_access_of user product_id) rows

abbrev among : Option (List ℕ) → UserProductAccess → Bool
among none a = Bool.true
among (some ids) a = elem a.product_id ids

-- The set of product ids, with `product_ids` as an optional filter.
unfoldable pub get_user_product_access_ids :
    Option ℕ → Option (List ℕ) → List UserProductAccess → List ℕ
get_user_product_access_ids none product_ids rows = []
get_user_product_access_ids (some user) product_ids rows =
    map (λ a. a.product_id) (filter (among product_ids) (filter (λ a. a.user_id == user) rows))

-- `UserProductAccess.objects.get_or_create(user=…, product=…, defaults={"order": order})`
unfoldable pub get_or_create_access :
    ℕ → ℕ → ℕ → ℕ → List UserProductAccess → List UserProductAccess
get_or_create_access now user product_id order_id rows =
    if any (is_access_of user product_id) rows
    then rows
    else rows
      ++ record {
        user_id = user;
        product_id = product_id;
        order_id = some order_id;
        granted_at = now;
      }
        ∷ []

-- The loop over the items of an order.
unfoldable pub grant_items :
    ℕ → ℕ → ℕ → List OrderItem → List UserProductAccess → List UserProductAccess
unfolding get_or_create_access
grant_items now user order_id [] rows = rows
grant_items now user order_id (item ∷ items) rows =
    grant_items now user order_id items
      (get_or_create_access now user item.product_id order_id rows)

abbrev grant_to : ℕ → Order → Option ℕ → List UserProductAccess → List UserProductAccess
grant_to now order none rows = rows
grant_to now order (some user) rows = grant_items now user order.id order.items rows

unfoldable pub grant_user_product_accesses :
    ℕ → Order → List UserProductAccess → List UserProductAccess
unfolding grant_items
grant_user_product_accesses now order rows = grant_to now order order.user_id rows
