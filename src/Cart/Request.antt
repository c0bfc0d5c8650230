-- ===== src/Cart/Request.antt =====
-- What the services of apps/cart and apps/orders read and write: the request with its session, and
-- the tables of the shop.
use palingames.Base.{ℕ, String, Bool, Option, List}
use palingames.Products.{Product}
use palingames.Orders.Model.{Order}
use palingames.Access.Model.{UserProductAccess}
use palingames.Promocodes.Model.{PromoCode, PromoCodeRedemption}
use palingames.Payments.Model.{InvoiceStatus}

-- A value of the list in the session, where anything may stand, by what `int` makes of it: a number
-- from 0 on, a negative one, or a TypeError or ValueError.
pub data RawId : Type 0 where
  whole : ℕ → RawId
  negative : ℕ → RawId
  refused : RawId

-- The session's keys that the services use; `none` is a missing key.
pub record Session : Type 0 where
  pub guest_cart_product_ids : Option (List RawId)
  pub checkout_promo_code : Option String
  pub checkout_idempotency_key : Option String
  pub checkout_cart_fingerprint : Option String
  pub modified : Bool

-- `user` is the id of the account, none for `AnonymousUser`.
pub record Request : Type 0 where
  pub user : Option ℕ
  pub session : Session

pub record CartItem : Type 0 where
  pub user_id : ℕ
  pub product_id : ℕ

-- Cart items stand in the order of their creation. An invoice is its order's id and its status; `consents` are
-- the ids of the orders that a logged consent to the processing of personal data names, and
-- `custom_game_account_nos` is a column of the requests.
pub record Shop : Type 0 where
  pub products : List Product
  pub orders : List Order
  pub invoices : List (ℕ × InvoiceStatus)
  pub promo_codes : List PromoCode
  pub redemptions : List PromoCodeRedemption
  pub user_accesses : List UserProductAccess
  pub cart_items : List CartItem
  pub consents : List ℕ
  pub custom_game_account_nos : List (Option String)
  pub next_order_id : ℕ
