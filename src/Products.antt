-- ===== src/Products.antt =====
-- The rows of apps/products/models.py that the shop's services read.
pub mod Reviews
use palingames.Base.{ℕ, String, Bool, Option, List}

pub record Category : Type 0 where
  pub id : ℕ
  pub title : String

-- Prices are whole cents. `image_url` is the URL of the first image, if there is one.
pub record Product : Type 0 where
  pub id : ℕ
  pub title : String
  pub slug : String
  pub price : ℕ
  pub currency : ℕ
  pub is_published : Bool
  pub categories : List Category
  pub image_url : Option String
