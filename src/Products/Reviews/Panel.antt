-- ===== src/Products/Reviews/Panel.antt =====
-- The panel of apps/products/services/reviews.py against the submission of a review.
use palingames.Base.{Result, ok, err, Bool, true, false}
use palingames.Products.Reviews.{Review, ReviewError, ReviewPanelContext, Tables}

-- The flags, in the order login, purchase, pending, published, form.
abbrev pub flags : ReviewPanelContext → Bool × Bool × Bool × Bool × Bool
flags p = (p.show_login, p.show_purchase_required, p.show_pending, p.show_published, p.show_form)

-- The flags that fit the answer to a submission.
abbrev pub flags_for : Result ReviewError (Review × Tables) → Bool × Bool × Bool × Bool × Bool
flags_for (ok submitted) = (false, false, false, false, true)
flags_for (err ReviewError.auth_required) = (true, false, false, false, false)
flags_for (err ReviewError.purchase_required) = (false, true, false, false, false)
flags_for (err ReviewError.already_pending) = (false, false, true, false, false)
flags_for (err ReviewError.already_published) = (false, false, false, true, false)
flags_for (err ReviewError.invalid_state) = (false, false, false, false, false)
