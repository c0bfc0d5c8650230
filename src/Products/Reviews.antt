-- ===== src/Products/Reviews.antt =====
-- apps/products/services/reviews.py and the model `Review`: a buyer's review of a product, from its
-- submission to the panel that the product's page shows.
pub mod Panel
pub mod Submitted
mod Tests
use Prim.Native.String.{◌++◌ as str_append}
use palingames.Base.{
  Result, ok, err, ◌>>=◌, ◌>>◌, raise_if, ℕ, suc, ◌+◌, String, Bool, true, false, not, ◌&&◌, ◌||◌,
  Option, none, some, List, [], ◌∷◌, ◌++◌, map, filter, find, length, sum_by, is_some, ◌==◌, str_eq,
  if◌then◌else◌,
}
use palingames.Base.Text.{strip}
use palingames.Access.Model.{UserProductAccess}
use palingames.Access.Users.{has_user_product_access}
use palingames.Products.{Product}

-- `ReviewStatus`, and any other value of the column.
pub data ReviewStatus : Type 0 where
  pending published rejected : ReviewStatus
  unexpected : String → ReviewStatus

pub record Review : Type 0 where
  pub id : ℕ
  pub product_id : ℕ
  pub user_id : ℕ
  pub rating : ℕ
  pub comment : String
  pub status : ReviewStatus
  pub rejection_reason : String
  pub moderated_at : Option ℕ
  pub rejection_notified_at : Option ℕ
  pub reward_promo_code_id : Option ℕ
  pub reward_issued_at : Option ℕ
  pub reward_email_sent_at : Option ℕ

-- The reviews, the key of the next one, and the accesses.
pub record Tables : Type 0 where
  pub reviews : List Review
  pub next_id : ℕ
  pub user_accesses : List UserProductAccess

abbrev pub is_published : ReviewStatus → Bool
is_published ReviewStatus.published = true
is_published _ = false

abbrev pub is_rejected : ReviewStatus → Bool
is_rejected ReviewStatus.rejected = true
is_rejected _ = false

-- `Review.clean`: whether the form of the admin takes the review.
unfoldable pub clean : Review → Bool
clean r = not (is_rejected r.status && str_eq (strip r.rejection_reason) "")

-- The average is the quotient of `total` and `count`, which the source rounds to a decimal.
pub record RatingSummary : Type 0 where
  pub product_id : ℕ
  pub total : ℕ
  pub count : ℕ

abbrev pub is_counted : ℕ → Review → Bool
is_counted product_id r = is_published r.status && r.product_id == product_id

abbrev pub summary_of : List Review → ℕ → RatingSummary
summary_of reviews product_id =
    let counted = filter (is_counted product_id) reviews in
    record {
      product_id = product_id;
      total = sum_by (λ (r : Review). r.rating) counted;
      count = length counted;
    }

abbrev pub has_reviews : List Review → ℕ → Bool
has_reviews reviews product_id = not (length (filter (is_counted product_id) reviews) == 0)

-- The groups of the query, in the order of the ids.
unfoldable pub get_product_rating_summaries : List ℕ → List Review → List RatingSummary
get_product_rating_summaries product_ids reviews =
    map (summary_of reviews) (filter (has_reviews reviews) product_ids)

pub record ReviewPanelContext : Type 0 where
  pub show_login : Bool
  pub show_purchase_required : Bool
  pub show_pending : Bool
  pub show_published : Bool
  pub show_rejected_hint : Bool
  pub show_form : Bool
  pub rejection_reason : String
  pub login_next_url : String
  pub existing_review_id : Option ℕ

unfoldable pub build_login_next_url : Product → String → String
build_login_next_url product active_tab =
    str_append "/products/" (str_append product.slug (str_append "/?tab=" active_tab))

-- All flags down.
abbrev pub closed : String → ReviewPanelContext
closed login_next = record {
  show_login = false;
  show_purchase_required = false;
  show_pending = false;
  show_published = false;
  show_rejected_hint = false;
  show_form = false;
  rejection_reason = "";
  login_next_url = login_next;
  existing_review_id = none;
}

abbrev pub panel_of : String → Review → ReviewStatus → ReviewPanelContext
panel_of login_next r ReviewStatus.pending = record (closed login_next) {
  show_pending = true;
  existing_review_id = some r.id;
}
panel_of login_next r ReviewStatus.published = record (closed login_next) {
  show_published = true;
  existing_review_id = some r.id;
}
panel_of login_next r ReviewStatus.rejected = record (closed login_next) {
  show_rejected_hint = true;
  show_form = true;
  rejection_reason = r.rejection_reason;
  existing_review_id = some r.id;
}
panel_of login_next r (ReviewStatus.unexpected s) = record (closed login_next) {
  existing_review_id = some r.id;
}

abbrev pub panel_for : String → Option Review → ReviewPanelContext
panel_for login_next none = record (closed login_next) { show_form = true }
panel_for login_next (some r) = panel_of login_next r r.status

abbrev pub is_review_of : ℕ → ℕ → Review → Bool
is_review_of product_id user r = r.product_id == product_id && r.user_id == user

unfoldable pub get_review_panel_context : Option ℕ → Product → Tables → ReviewPanelContext
unfolding build_login_next_url has_user_product_access
get_review_panel_context none product t = record (closed (build_login_next_url product "reviews")) {
  show_login = true;
}
get_review_panel_context (some user) product t =
    if has_user_product_access (some user) product.id t.user_accesses
    then panel_for (build_login_next_url product "reviews")
        (find (is_review_of product.id user) t.reviews)
    else record (closed (build_login_next_url product "reviews")) { show_purchase_required = true }

-- The two `PermissionError`s and the three `ValueError`s.
pub data ReviewError : Type 0 where
  auth_required purchase_required already_published already_pending invalid_state : ReviewError

-- A form of the page.
pub record Submission : Type 0 where
  pub rating : ℕ
  pub comment : String

abbrev pub created : Submission → ℕ → ℕ → ℕ → Review
created form id product_id user = record {
  id = id;
  product_id = product_id;
  user_id = user;
  rating = form.rating;
  comment = form.comment;
  status = ReviewStatus.pending;
  rejection_reason = "";
  moderated_at = none;
  rejection_notified_at = none;
  reward_promo_code_id = none;
  reward_issued_at = none;
  reward_email_sent_at = none;
}

abbrev pub resubmitted : Submission → Review → Review
resubmitted form r = record r {
  rating = form.rating;
  comment = form.comment;
  status = ReviewStatus.pending;
  rejection_reason = "";
  moderated_at = none;
  rejection_notified_at = none;
}

abbrev pub save_review : Review → List Review → List Review
save_review r reviews = map (λ (x : Review). if x.id == r.id then r else x) reviews

abbrev pub submit_again :
    Submission → Tables → Review → ReviewStatus → Result ReviewError (Review × Tables)
submit_again form t r ReviewStatus.published = err ReviewError.already_published
submit_again form t r ReviewStatus.pending = err ReviewError.already_pending
submit_again form t r ReviewStatus.rejected =
    ok (resubmitted form r, record t { reviews = save_review (resubmitted form r) t.reviews })
submit_again form t r (ReviewStatus.unexpected s) = err ReviewError.invalid_state

abbrev pub submit_for :
    Submission → ℕ → ℕ → Tables → Option Review → Result ReviewError (Review × Tables)
submit_for form product_id user t none = ok (
  created form t.next_id product_id user,
  record t {
    reviews = t.reviews ++ created form t.next_id product_id user ∷ [];
    next_id = suc t.next_id;
  },
)
submit_for form product_id user t (some r) = submit_again form t r r.status

unfoldable pub submit_or_resubmit_review :
    Option ℕ → Product → Submission → Tables → Result ReviewError (Review × Tables)
unfolding has_user_product_access
submit_or_resubmit_review none product form t = err ReviewError.auth_required
submit_or_resubmit_review (some user) product form t =
    if has_user_product_access (some user) product.id t.user_accesses
    then submit_for form product.id user t (find (is_review_of product.id user) t.reviews)
    else err ReviewError.purchase_required
