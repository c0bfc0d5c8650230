-- ===== src/Orders/GuestMerge/Tests.antt =====
-- A guest's paid order of the products 3 and 4, which the account 8 with its address takes over.
use palingames.Base.{◌≡◌, refl, ◌&&◌, ◌||◌, none, some, [], ◌∷◌, any, filter, ◌==◌}
use palingames.Base.Text.{strip, lower, upper}
use palingames.Orders.Model.{OrderStatus}
use palingames.Access.Users.{has_user_product_access}
use palingames.Access.Tests.{order}
use palingames.Orders.GuestMerge.{MergeTables, is_guest_order, merge_guest_orders_for_user}
use palingames.Orders.GuestMerge.Taken.{has_bought, has_user_product_access-merge}

abbrev tables : MergeTables
tables = record {
  orders = record order { user_id = none; status = OrderStatus.paid } ∷ [];
  promo_codes = [];
  user_accesses = [];
}

one_merged : (merge_guest_orders_for_user 5 (some 8) " A@b.c" tables).0 ≡ 1
unfolding merge_guest_orders_for_user strip lower upper
one_merged = refl

blank_or_not : (lower (strip " A@b.c")) ≡ "a@b.c"
unfolding strip lower
blank_or_not = refl

has_user_product_access-merge_example :
    has_user_product_access
      (some 8)
      4
      (merge_guest_orders_for_user 5 (some 8) "a@b.c" tables).1.user_accesses
    ≡ (has_user_product_access (some 8) 4 []
        || (8 == 8
            && any (has_bought 4) (filter (is_guest_order (lower (strip "a@b.c"))) tables.orders)))
unfolding strip lower
has_user_product_access-merge_example = has_user_product_access-merge 5 8 "a@b.c" tables 8 4 refl
