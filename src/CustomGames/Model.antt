-- ===== src/CustomGames/Model.antt =====
-- apps/custom_games/models.py: `CustomGameRequest`, without the texts that only the staff read.
use palingames.Base.{ℕ, String, Option}

-- `CustomGameRequest.Status`
pub data RequestStatus : Type 0 where
  new in_progress ready waiting_for_payment payment_expired delivered cancelled : RequestStatus

pub record CustomGameRequest : Type 0 where
  pub id : ℕ
  pub payment_account_no : Option String
  pub user_id : Option ℕ
  pub status : RequestStatus
  pub contact_email : String
  pub quoted_price : Option ℕ
  pub currency : ℕ
  pub deadline : Option ℕ
  pub delivered_at : Option ℕ
  pub cancelled_at : Option ℕ
