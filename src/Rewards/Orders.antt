-- ===== src/Rewards/Orders.antt =====
-- apps/orders/reward_services.py: `ensure_order_reward` and its mail. No transaction spans the steps:
-- what others write between the creation of the code and the update of the row is the argument
-- `between`. `used` is the promo code that was loaded with the order.
pub mod Issued
use Prim.Native.String.{◌++◌ as str_append}
use palingames.Base.{
  Result, ok, err, ◌>>=◌, ℕ, String, Bool, true, false, not, ◌&&◌, ◌||◌, Option, none, some, List,
  [], ◌∷◌, map, find, any, ltb, ◌==◌, is_some, str_eq, if◌then◌else◌,
}
use palingames.Base.Text.{str}
use palingames.Orders.Model.{Order, is_paid}
use palingames.Promocodes.Model.{PromoCode}
use palingames.Notifications.Outbox.{Status}
use palingames.Notifications.Enqueue.{
  Outbox, OutboxRow, Target, EnqueueError, enqueue_email_notification, same_target,
}
use palingames.Rewards.Codes.{
  PromoCodes, RewardError, RewardSettings, create_first_free, max_attempts, generate_reward_code,
  reward_code,
}

-- The tables, and the keys of their next rows.
pub record Db : Type 0 where
  pub orders : List Order
  pub promo_codes : PromoCodes
  pub outbox : Outbox

pub record Env : Type 0 where
  pub settings : RewardSettings
  pub now : ℕ
  pub draws : ℕ → String

abbrev pub is_reward_code : Option PromoCode → Bool
is_reward_code none = false
is_reward_code (some p) = p.is_reward

unfoldable pub get_order_reward_skip_reason :
    RewardSettings → Order → Option PromoCode → Option String
get_order_reward_skip_reason s order used =
    if not (is_paid order.status)
    then some "status_not_paid"
    else if ltb order.total_amount s.min_total_amount
    then some "below_threshold"
    else if is_some order.promo_code_id && is_reward_code used
    then some "reward_promo_used"
    else none

-- A guest's order has no limit per user.
abbrev pub per_user_limit : Option ℕ → Option ℕ
per_user_limit none = none
per_user_limit (some user) = some 1

-- The row of the n-th draw.
unfoldable pub drawn_order_code : Env → Order → ℕ → PromoCode
unfolding generate_reward_code reward_code
drawn_order_code env order n =
    reward_code env.settings env.now (generate_reward_code "ORDER" order.id (env.draws n))
      order.user_id (per_user_limit order.user_id) order.email
      (str_append "Reward for paid order #" (str order.id))

unfoldable pub create_order_reward_promo_code :
    Env → Order → PromoCodes → Result RewardError (PromoCode × PromoCodes)
unfolding create_first_free drawn_order_code
create_order_reward_promo_code env order t =
    create_first_free max_attempts 0 (drawn_order_code env order) t

-- `filter(pk=order.pk, reward_promo_code__isnull=True).update(…)`
abbrev pub rewarded : ℕ → ℕ → Order → Order
rewarded now code order = record order {
  reward_promo_code_id = some code;
  reward_issued_at = some now;
}

abbrev pub reward_row : ℕ → ℕ → ℕ → Order → Order
reward_row now code id o =
    if o.id == id && not (is_some o.reward_promo_code_id) then rewarded now code o else o

abbrev pub by_id : ℕ → Order → Bool
by_id id o = o.id == id

-- The two fields of the row, read again.
abbrev pub refreshed : Order → Option Order → Result RewardError Order
refreshed order none = err RewardError.does_not_exist
refreshed order (some row) = ok (record order {
  reward_promo_code_id = row.reward_promo_code_id;
  reward_issued_at = row.reward_issued_at;
})

-- The id of the reward, if there is one; the order as the caller holds it; and the tables.
abbrev pub Answer : Type 0
Answer = Option ℕ × Order × Db

abbrev pub answer_of : Db → Order → Result RewardError Answer
answer_of db order = ok (order.reward_promo_code_id, order, db)

-- The update and the refresh, after the code was created.
unfoldable pub record_order_reward : Env → Order → ℕ → Db → Result RewardError Answer
record_order_reward env order code db =
    let orders = map (reward_row env.now code order.id) db.orders in
    refreshed order (find (by_id order.id) orders) >>= answer_of (record db { orders = orders })

abbrev pub issue_new : Env → Order → (Db → Db) → Db → Result RewardError Answer
issue_new env order between db =
    create_order_reward_promo_code env order db.promo_codes >>= λ created.
    record_order_reward env order created.0.id (between (record db { promo_codes = created.1 }))

abbrev pub issue_if_none :
    Env → Order → (Db → Db) → Db → Option String → Option ℕ → Result RewardError Answer
issue_if_none env order between db (some reason) reward = ok (none, order, db)
issue_if_none env order between db none (some code) = ok (some code, order, db)
issue_if_none env order between db none none = issue_new env order between db

unfoldable pub ensure_order_reward :
    Env → Order → Option PromoCode → (Db → Db) → Db → Result RewardError Answer
unfolding get_order_reward_skip_reason create_order_reward_promo_code record_order_reward
ensure_order_reward env order used between db =
    issue_if_none env order between db (get_order_reward_skip_reason env.settings order used)
      order.reward_promo_code_id

-- PENDING, PROCESSING or SENT.
abbrev pub counts_as_notified : Status → Bool
counts_as_notified Status.pending = true
counts_as_notified Status.processing = true
counts_as_notified Status.sent = true
counts_as_notified _ = false

abbrev pub is_notification : String → Target → OutboxRow → Bool
is_notification kind target row =
    str_eq row.notification_type kind
    && same_target row.target (some target)
    && counts_as_notified row.state.status

abbrev pub order_target : Order → Target
order_target order = record { content_type = "order"; object_id = order.id }

unfoldable pub has_order_reward_email_notification : Order → Outbox → Bool
has_order_reward_email_notification order t =
    any (is_notification "order_reward_user" (order_target order)) t.rows

-- An exception of the enqueuing is logged, and ends nothing.
abbrev pub or_logged : Db → Result EnqueueError Outbox → Db
or_logged db (ok outbox) = record db { outbox = outbox }
or_logged db (err e) = db

abbrev pub email_payload : Order → ℕ → List (String × ℕ)
email_payload order code = ("order_id", order.id) ∷ ("promo_code_id", code) ∷ []

abbrev pub email_reward : Env → Answer → Order × Db
email_reward env (none, order, db) = (order, db)
email_reward env (some code, order, db) =
    if is_some order.reward_email_sent_at || has_order_reward_email_notification order db.outbox
    then (order, db)
    else (
      order,
      or_logged db (
          enqueue_email_notification env.now "order_reward_user" order.email
            (email_payload order code) (order_target order) db.outbox),
    )

unfoldable pub ensure_order_reward_email :
    Env → Order → Option PromoCode → (Db → Db) → Db → Result RewardError (Order × Db)
unfolding ensure_order_reward has_order_reward_email_notification enqueue_email_notification
ensure_order_reward_email env order used between db =
    ensure_order_reward env order used between db >>= λ answer. ok (email_reward env answer)

-- The promo code that is loaded with the order.
abbrev pub used_by : PromoCodes → Option ℕ → Option PromoCode
used_by t none = none
used_by t (some id) = find (λ (p : PromoCode). p.id == id) t.rows

abbrev pub issue_found : Env → (Db → Db) → Db → Option Order → Result RewardError (Order × Db)
issue_found env between db none = err RewardError.does_not_exist
issue_found env between db (some order) =
    ensure_order_reward_email env order (used_by db.promo_codes order.promo_code_id) between db

-- The callback after the commit.
unfoldable pub issue_order_reward_after_payment :
    Env → ℕ → (Db → Db) → Db → Result RewardError (Order × Db)
unfolding ensure_order_reward_email
issue_order_reward_after_payment env order_id between db =
    issue_found env between db (find (by_id order_id) db.orders)
