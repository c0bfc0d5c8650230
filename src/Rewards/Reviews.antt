-- ===== src/Rewards/Reviews.antt =====
-- apps/products/services/review_rewards.py: the promo code for a published review, and its mail. As with
-- the orders, no transaction spans the steps, and `between` is what others write meanwhile. The
-- addresses of the users are the argument `email_of`.
use Prim.Native.String.{◌++◌ as str_append}
use palingames.Base.{
  Result, ok, err, ◌>>=◌, ℕ, String, Bool, not, ◌&&◌, ◌||◌, Option, none, some, List, [], ◌∷◌, map,
  find, any, ◌==◌, is_some, str_eq, if◌then◌else◌,
}
use palingames.Base.Text.{str}
use palingames.Promocodes.Model.{PromoCode}
use palingames.Products.Reviews.{Review, is_published}
use palingames.Notifications.Enqueue.{Outbox, Target, EnqueueError, enqueue_email_notification}
use palingames.Rewards.Codes.{
  PromoCodes, RewardError, create_first_free, max_attempts, generate_reward_code, reward_code,
}
use palingames.Rewards.Orders.{Env, is_notification}

pub record Db : Type 0 where
  pub reviews : List Review
  pub promo_codes : PromoCodes
  pub outbox : Outbox

unfoldable pub drawn_review_code : Env → String → Review → ℕ → PromoCode
unfolding generate_reward_code reward_code
drawn_review_code env email review n =
    reward_code env.settings env.now (generate_reward_code "REVIEW" review.id (env.draws n))
      (some review.user_id) (some 1) email
      (str_append "Reward for published review #" (str review.id))

unfoldable pub create_review_reward_promo_code :
    Env → String → Review → PromoCodes → Result RewardError (PromoCode × PromoCodes)
unfolding create_first_free drawn_review_code
create_review_reward_promo_code env email review t =
    create_first_free max_attempts 0 (drawn_review_code env email review) t

abbrev pub by_id : ℕ → Review → Bool
by_id id r = r.id == id

-- `filter(pk=review.pk, reward_promo_code__isnull=True).update(…)`
abbrev pub reward_row : ℕ → ℕ → ℕ → Review → Review
reward_row now code id r =
    if r.id == id && not (is_some r.reward_promo_code_id)
    then record r { reward_promo_code_id = some code; reward_issued_at = some now }
    else r

abbrev pub refreshed : Review → Option Review → Result RewardError Review
refreshed review none = err RewardError.does_not_exist
refreshed review (some row) = ok (record review {
  reward_promo_code_id = row.reward_promo_code_id;
  reward_issued_at = row.reward_issued_at;
})

abbrev pub Answer : Type 0
Answer = Option ℕ × Review × Db

abbrev pub answer_of : Db → Review → Result RewardError Answer
answer_of db review = ok (review.reward_promo_code_id, review, db)

unfoldable pub record_review_reward : Env → Review → ℕ → Db → Result RewardError Answer
record_review_reward env review code db =
    let reviews = map (reward_row env.now code review.id) db.reviews in
    refreshed review (find (by_id review.id) reviews)
    >>= answer_of (record db { reviews = reviews })

abbrev pub issue_new : Env → String → Review → (Db → Db) → Db → Result RewardError Answer
issue_new env email review between db =
    create_review_reward_promo_code env email review db.promo_codes >>= λ created.
    record_review_reward env review created.0.id (between (record db { promo_codes = created.1 }))

abbrev pub issue_if_none :
    Env → String → Review → (Db → Db) → Db → Option ℕ → Result RewardError Answer
issue_if_none env email review between db (some code) = ok (some code, review, db)
issue_if_none env email review between db none = issue_new env email review between db

unfoldable pub ensure_review_reward :
    Env → String → Review → (Db → Db) → Db → Result RewardError Answer
unfolding create_review_reward_promo_code record_review_reward
ensure_review_reward env email review between db =
    if is_published review.status
    then issue_if_none env email review between db review.reward_promo_code_id
    else ok (none, review, db)

abbrev pub review_target : Review → Target
review_target review = record { content_type = "review"; object_id = review.id }

unfoldable pub has_review_reward_email_notification : Review → Outbox → Bool
has_review_reward_email_notification review t =
    any (is_notification "review_reward_user" (review_target review)) t.rows

abbrev pub or_logged : Db → Result EnqueueError Outbox → Db
or_logged db (ok outbox) = record db { outbox = outbox }
or_logged db (err e) = db

abbrev pub email_payload : Review → ℕ → List (String × ℕ)
email_payload review code = ("review_id", review.id) ∷ ("promo_code_id", code) ∷ []

abbrev pub email_reward : Env → String → Answer → Review × Db
email_reward env email (none, review, db) = (review, db)
email_reward env email (some code, review, db) =
    if is_some review.reward_email_sent_at
      || str_eq email ""
      || has_review_reward_email_notification review db.outbox
    then (review, db)
    else (
      review,
      or_logged db (
          enqueue_email_notification env.now "review_reward_user" email (email_payload review code)
            (review_target review) db.outbox),
    )

unfoldable pub ensure_review_reward_email :
    Env → String → Review → (Db → Db) → Db → Result RewardError (Review × Db)
unfolding ensure_review_reward has_review_reward_email_notification enqueue_email_notification
ensure_review_reward_email env email review between db =
    if is_published review.status
    then (ensure_review_reward env email review between db >>= λ answer.
        ok (email_reward env email answer))
    else ok (review, db)

abbrev pub issue_found :
    Env → (ℕ → String) → (Db → Db) → Db → Option Review → Result RewardError (Review × Db)
issue_found env email_of between db none = err RewardError.does_not_exist
issue_found env email_of between db (some review) =
    ensure_review_reward_email env (email_of review.user_id) review between db

unfoldable pub issue_review_reward_after_publish :
    Env → (ℕ → String) → ℕ → (Db → Db) → Db → Result RewardError (Review × Db)
unfolding ensure_review_reward_email
issue_review_reward_after_publish env email_of review_id between db =
    issue_found env email_of between db (find (by_id review_id) db.reviews)
