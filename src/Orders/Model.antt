-- ===== src/Orders/Model.antt =====
-- apps/orders/models.py: `Order` and `OrderItem`.
use palingames.Base.{ℕ, String, Bool, true, false, Option, List}

-- `Order.OrderStatus`
pub data OrderStatus : Type 0 where
  created waiting_for_payment paid refunded canceled failed : OrderStatus

-- `Order.CheckoutType`
pub data CheckoutType : Type 0 where
  authenticated guest : CheckoutType

pub record OrderItem : Type 0 where
  pub product_id : ℕ
  pub title_snapshot : String
  pub category_snapshot : String
  pub unit_price_amount : ℕ
  pub quantity : ℕ
  pub line_total_amount : ℕ
  pub promo_eligible : Bool
  pub discount_amount : ℕ
  pub discounted_line_total_amount : Option ℕ
  pub product_slug_snapshot : Option String
  pub product_image_snapshot : Option String

-- Amounts are whole cents, instants are numbers, and `items` are the rows of the related manager.
pub record Order : Type 0 where
  pub id : ℕ
  pub public_id : String
  pub checkout_idempotency_key : Option String
  pub payment_account_no : Option String
  pub status : OrderStatus
  pub source : String
  pub user_id : Option ℕ
  pub email : String
  pub checkout_type : CheckoutType
  pub subtotal_amount : ℕ
  pub promo_code_id : Option ℕ
  pub promo_code_snapshot : String
  pub discount_percent_snapshot : Option ℕ
  pub promo_eligible_amount : ℕ
  pub discount_amount : ℕ
  pub total_amount : ℕ
  pub reward_promo_code_id : Option ℕ
  pub reward_issued_at : Option ℕ
  pub reward_email_sent_at : Option ℕ
  pub currency : ℕ
  pub items_count : ℕ
  pub paid_at : Option ℕ
  pub refunded_at : Option ℕ
  pub cancelled_at : Option ℕ
  pub failure_reason : Option String
  pub analytics_storage_consent : Bool
  pub ga4_client_id : String
  pub ga4_session_id : String
  pub ga4_purchase_sent_at : Option ℕ
  pub yandex_client_id : String
  pub yandex_purchase_sent_at : Option ℕ
  pub items : List OrderItem
  pub created_at : ℕ

-- `order.status == Order.OrderStatus.PAID`
abbrev pub is_paid : OrderStatus → Bool
is_paid OrderStatus.paid = true
is_paid _ = false

-- `order.checkout_type == Order.CheckoutType.GUEST`
abbrev pub is_guest : CheckoutType → Bool
is_guest CheckoutType.guest = true
is_guest CheckoutType.authenticated = false
