-- ===== src/Promocodes/Tests.antt =====
-- Inputs for apps/promocodes: a code of 10 percent for the category 1, used once, and two products.
use palingames.Base.{ok, err, ℕ, ◌≡◌, refl, true, false, none, some, List, [], ◌∷◌, find}
use palingames.Base.Text.{upper, strip, lower}
use palingames.Products.{Product}
use palingames.Promocodes.Model.{
  PromoCode, PromoCodeDiscount, PromoValidationOptions, PromoTables, limit_exceeded,
}
use palingames.Promocodes.Calculate.{normalize_promo_code, calculate_promo_code_discount, has_code}
use palingames.Promocodes.Calculate.Granted.{MayUse, IsSound, calculate_promo_code_discount-IsSound}
use palingames.Access.Tests.{order}

abbrev pub product : ℕ → ℕ → ℕ → Product
product id price category = record {
  id = id;
  title = "Cards";
  slug = "cards";
  price = price;
  currency = 933;
  is_published = true;
  categories = record { id = category; title = "Speech" } ∷ [];
  image_url = none;
}

abbrev pub products : List Product
products = product 3 1005 1 ∷ product 4 2000 2 ∷ []

abbrev pub promo : PromoCode
promo = record {
  id = 1;
  code = "SPRING";
  discount_percent = 10;
  is_reward = false;
  is_active = true;
  starts_at = some 2;
  ends_at = some 90;
  min_order_amount = some 1000;
  max_total_redemptions = some 2;
  max_redemptions_per_user = some 1;
  max_redemptions_per_email = some 1;
  assigned_user_id = none;
  assigned_email = "";
  categories = 1 ∷ [];
  products = [];
  note = "";
}

abbrev pub tables : PromoTables
tables = record {
  promo_codes = promo ∷ [];
  orders = record order { promo_code_id = some 1 } ∷ [];
  redemptions = [];
}

abbrev pub options : PromoValidationOptions
options = record { require_email_limits = true; exclude_order_id = none }

-- Half a cent is rounded up: 10 percent of 10.05 are 1.01.
abbrev pub discount : PromoCodeDiscount
discount = record {
  promo_code = promo;
  code = "SPRING";
  discount_percent = 10;
  eligible_amount = 1005;
  discount_amount = 101;
}

guest_discount :
    calculate_promo_code_discount 5 " spring " products none "x@y.z" options tables ≡ ok discount
unfolding calculate_promo_code_discount upper strip lower
guest_discount = refl

-- The user of the order has used the code.
user_limit :
    calculate_promo_code_discount 5 "spring" products (some 7) "x@y.z" options tables
    ≡ err limit_exceeded
unfolding calculate_promo_code_discount upper strip lower
user_limit = refl

calculate_promo_code_discount-IsSound_example :
    (find (has_code (normalize_promo_code " spring ")) tables.promo_codes ≡ some promo)
    × MayUse 5 promo none "x@y.z" options tables
    × IsSound products discount
calculate_promo_code_discount-IsSound_example =
    calculate_promo_code_discount-IsSound 5 " spring " products none "x@y.z" options tables
      {d = discount} guest_discount
