-- ===== src/Access/Model.antt =====
-- apps/access/models.py: the two tables, and the properties of a guest access.
use palingames.Base.{ℕ, ◌-◌, String, Bool, not, ◌&&◌, Option, List, ltb, leb, is_some}

pub record UserProductAccess : Type 0 where
  pub user_id : ℕ
  pub product_id : ℕ
  pub order_id : Option ℕ
  pub granted_at : ℕ

pub record GuestAccess : Type 0 where
  pub id : ℕ
  pub order_id : ℕ
  pub product_id : ℕ
  pub token_hash : String
  pub expires_at : ℕ
  pub last_used_at : Option ℕ
  pub downloads_count : ℕ
  pub max_downloads : ℕ
  pub revoked_at : Option ℕ
  pub email : String
  pub updated_at : ℕ

-- `next_id` is the primary key that the database gives to the next guest access.
pub record Tables : Type 0 where
  pub user_accesses : List UserProductAccess
  pub guest_accesses : List GuestAccess
  pub next_id : ℕ

unfoldable pub is_expired : ℕ → GuestAccess → Bool
is_expired now a = leb a.expires_at now

unfoldable pub is_used : GuestAccess → Bool
is_used a = ltb 0 a.downloads_count

unfoldable pub has_remaining_downloads : GuestAccess → Bool
has_remaining_downloads a = ltb a.downloads_count a.max_downloads

-- `max(a - b, 0)` is the subtraction of natural numbers.
unfoldable pub remaining_downloads : GuestAccess → ℕ
remaining_downloads a = a.max_downloads - a.downloads_count

unfoldable pub is_revoked : GuestAccess → Bool
is_revoked a = is_some a.revoked_at

unfoldable pub is_active : ℕ → GuestAccess → Bool
unfolding is_expired has_remaining_downloads is_revoked
is_active now a = not (is_expired now a) && has_remaining_downloads a && not (is_revoked a)
