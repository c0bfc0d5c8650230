-- ===== src/Promocodes/Model.antt =====
-- apps/promocodes/models.py, the errors and the discount of apps/promocodes/services.py, and the tables
-- that a calculation reads.
use palingames.Base.{ℕ, String, Bool, Option, List}
use palingames.Orders.Model.{Order}

-- `categories` and `products` are the ids of the many-to-many relations.
pub record PromoCode : Type 0 where
  pub id : ℕ
  pub code : String
  pub discount_percent : ℕ
  pub is_reward : Bool
  pub is_active : Bool
  pub starts_at : Option ℕ
  pub ends_at : Option ℕ
  pub min_order_amount : Option ℕ
  pub max_total_redemptions : Option ℕ
  pub max_redemptions_per_user : Option ℕ
  pub max_redemptions_per_email : Option ℕ
  pub assigned_user_id : Option ℕ
  pub assigned_email : String
  pub categories : List ℕ
  pub products : List ℕ
  pub note : String

pub record PromoCodeRedemption : Type 0 where
  pub promo_code_id : ℕ
  pub order_id : ℕ
  pub user_id : Option ℕ
  pub email : String
  pub subtotal_amount : ℕ
  pub eligible_amount : ℕ
  pub discount_amount : ℕ

-- The subclasses of `PromoCodeError`; `below_minimum` and `free_purchase` are `not_applicable` with a
-- message of their own.
pub data PromoCodeError : Type 0 where
  not_found inactive not_applicable limit_exceeded free_purchase : PromoCodeError
  below_minimum : ℕ → PromoCodeError

pub record PromoCodeDiscount : Type 0 where
  pub promo_code : PromoCode
  pub code : String
  pub discount_percent : ℕ
  pub eligible_amount : ℕ
  pub discount_amount : ℕ

pub record PromoValidationOptions : Type 0 where
  pub require_email_limits : Bool
  pub exclude_order_id : Option ℕ

-- The rows that a calculation reads.
pub record PromoTables : Type 0 where
  pub promo_codes : List PromoCode
  pub orders : List Order
  pub redemptions : List PromoCodeRedemption
