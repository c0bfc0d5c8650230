-- ===== src/Products/Reviews/Tests.antt =====
-- Reviews of the user 7, who has bought the product 4: one that was refused, and the published one of
-- another buyer.
use palingames.Base.{ok, ◌≡◌, refl, some, none, [], ◌∷◌}
use palingames.Products.Reviews.{
  RatingSummary, Review, ReviewStatus, Submission, Tables, get_product_rating_summaries,
  resubmitted, submit_or_resubmit_review,
}
use palingames.Products.Reviews.Submitted.{IsSubmitted, submit_or_resubmit_review-IsSubmitted}
use palingames.Promocodes.Tests.{product}

abbrev pub refused : Review
refused = record {
  id = 1;
  product_id = 4;
  user_id = 7;
  rating = 2;
  comment = "bad";
  status = ReviewStatus.rejected;
  rejection_reason = "rude";
  moderated_at = some 3;
  rejection_notified_at = none;
  reward_promo_code_id = none;
  reward_issued_at = none;
  reward_email_sent_at = none;
}

abbrev published : Review
published = record refused { id = 2; user_id = 8; rating = 5; status = ReviewStatus.published }

abbrev tables : Tables
tables = record {
  reviews = refused ∷ published ∷ [];
  next_id = 3;
  user_accesses = record { user_id = 7; product_id = 4; order_id = none; granted_at = 0 } ∷ [];
}

abbrev form : Submission
form = record { rating = 4; comment = "better" }

abbrev tables_after : Tables
tables_after = record tables { reviews = resubmitted form refused ∷ published ∷ [] }

abbrev shown : RatingSummary
shown = record { product_id = 4; total = 5; count = 1 }

ratings : get_product_rating_summaries (3 ∷ 4 ∷ []) tables.reviews ≡ shown ∷ []
unfolding get_product_rating_summaries
ratings = refl

taken :
    submit_or_resubmit_review (some 7) (product 4 2000 2) form tables
    ≡ ok (resubmitted form refused, tables_after)
unfolding submit_or_resubmit_review
taken = refl

submit_or_resubmit_review-IsSubmitted_example :
    IsSubmitted 7 (product 4 2000 2) form tables (resubmitted form refused) tables_after
submit_or_resubmit_review-IsSubmitted_example =
    submit_or_resubmit_review-IsSubmitted 7 (product 4 2000 2) form tables
      {review = resubmitted form refused} {t' = tables_after} (refl, (refl, tt)) taken
