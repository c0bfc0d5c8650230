-- ===== src/Cart/Tests.antt =====
-- Inputs for apps/cart: the user 7 with the product 3 in its cart and the product 4 bought, and a
-- guest's session.
use palingames.Base.{◌≡◌, refl, false, none, some, [], ◌∷◌}
use palingames.Cart.Request.{RawId, Session, Request, Shop}
use palingames.Cart.Services.{get_guest_cart_ids, merge_guest_cart_to_user}
use palingames.Cart.Merge.{cart_of}
use palingames.Promocodes.Tests.{products, promo, tables}

abbrev pub session : Session
session = record {
  guest_cart_product_ids = some (
      RawId.whole 4
      ∷ RawId.whole 5
      ∷ RawId.negative 3
      ∷ RawId.whole 5
      ∷ RawId.refused
      ∷ RawId.whole 0
      ∷ RawId.whole 3
      ∷ []);
  checkout_promo_code = none;
  checkout_idempotency_key = none;
  checkout_cart_fingerprint = none;
  modified = false;
}

abbrev pub shop : Shop
shop = record {
  products = products;
  orders = tables.orders;
  invoices = [];
  promo_codes = promo ∷ [];
  redemptions = [];
  user_accesses = record { user_id = 7; product_id = 4; order_id = none; granted_at = 0 } ∷ [];
  cart_items = record { user_id = 7; product_id = 3 } ∷ [];
  consents = [];
  custom_game_account_nos = [];
  next_order_id = 2;
}

abbrev pub guest : Request
guest = record { user = none; session = session }

session_ids : get_guest_cart_ids session ≡ 4 ∷ 5 ∷ 3 ∷ []
unfolding get_guest_cart_ids
session_ids = refl

merged_cart : cart_of 7 (merge_guest_cart_to_user guest 7 shop).1.cart_items ≡ 3 ∷ 5 ∷ []
unfolding merge_guest_cart_to_user
merged_cart = refl
