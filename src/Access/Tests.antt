-- ===== src/Access/Tests.antt =====
-- Inputs for apps/access: an order of two items by the user 7, and a table with one guest access.
use palingames.Base.{
  ℕ, ◌+◌, ◌≡◌, refl, ◌≤◌, String, false, Option, none, some, List, [], ◌∷◌, count_if, arith,
}
use palingames.Orders.Model.{Order, OrderItem, OrderStatus, CheckoutType}
use palingames.Access.Model.{UserProductAccess, Tables}
use palingames.Access.Users.{grant_user_product_accesses}
use palingames.Access.Guests.Limits.{IsValid, used_by, allowed_by}
use palingames.Access.Download.{Request, Response, get_all, is_redirect_of}
use palingames.Access.Download.Accounting.{get_all-budget}

abbrev pub item : ℕ → OrderItem
item n = record {
  product_id = n;
  title_snapshot = "Cards";
  category_snapshot = "Speech";
  unit_price_amount = 1000;
  quantity = 1;
  line_total_amount = 1000;
  promo_eligible = false;
  discount_amount = 0;
  discounted_line_total_amount = none;
  product_slug_snapshot = some "cards";
  product_image_snapshot = none;
}

abbrev pub order : Order
order = record {
  id = 1;
  public_id = "a";
  checkout_idempotency_key = some "k";
  payment_account_no = some "PG1";
  status = OrderStatus.waiting_for_payment;
  source = "PG";
  user_id = some 7;
  email = "a@b.c";
  checkout_type = CheckoutType.authenticated;
  subtotal_amount = 2000;
  promo_code_id = none;
  promo_code_snapshot = "";
  discount_percent_snapshot = none;
  promo_eligible_amount = 0;
  discount_amount = 0;
  total_amount = 2000;
  reward_promo_code_id = none;
  reward_issued_at = none;
  reward_email_sent_at = none;
  currency = 933;
  items_count = 2;
  paid_at = none;
  refunded_at = none;
  cancelled_at = none;
  failure_reason = none;
  analytics_storage_consent = false;
  ga4_client_id = "";
  ga4_session_id = "";
  ga4_purchase_sent_at = none;
  yandex_client_id = "";
  yandex_purchase_sent_at = none;
  items = item 3 ∷ item 4 ∷ [];
  created_at = 0;
}

abbrev rows : List UserProductAccess
rows = record { user_id = 7; product_id = 3; order_id = none; granted_at = 0 } ∷ []

granted : List UserProductAccess
granted = grant_user_product_accesses 5 order rows

granted_rows :
    granted
    ≡ record { user_id = 7; product_id = 3; order_id = none; granted_at = 0 }
      ∷ record { user_id = 7; product_id = 4; order_id = some 1; granted_at = 5 }
      ∷ []
unfolding granted grant_user_product_accesses
granted_rows = refl

abbrev table : Tables
table = record {
  user_accesses = [];
  guest_accesses =
      record {
        id = 1;
        order_id = 2;
        product_id = 3;
        token_hash = "h";
        expires_at = 100;
        last_used_at = none;
        downloads_count = 1;
        max_downloads = 3;
        revoked_at = none;
        email = "a@b.c";
        updated_at = 0;
      }
      ∷ [];
  next_id = 2;
}

table-IsValid : IsValid table.guest_accesses
table-IsValid = record { distinct = (refl, tt); within = (omega arith, tt) }

-- The third request finds the access used up; the second gives its use back.
abbrev request : Option String → Request
request url = record {
  token = "h";
  resolved_at = 10;
  marked_at = 11;
  released_at = 12;
  active_file = λ id. some "file";
  presigned_url = λ key. url;
}

abbrev requests : List Request
requests = request (some "u") ∷ request none ∷ request (some "u") ∷ request (some "u") ∷ []

responses : List Response
responses = (get_all (λ t. t) requests table).0

responses_counted : count_if (is_redirect_of 1) responses ≡ 2
unfolding responses get_all
responses_counted = refl

get_all-budget_example :
    let (xs, t') = get_all (λ t. t) requests table in
    IsValid t'.guest_accesses
    × (used_by 1 t'.guest_accesses
        ≡ used_by 1 table.guest_accesses + count_if (is_redirect_of 1) xs)
    × (used_by 1 table.guest_accesses + count_if (is_redirect_of 1) xs
        ≤ allowed_by 1 table.guest_accesses)
get_all-budget_example = get_all-budget (λ t. t) 1 requests table table-IsValid
