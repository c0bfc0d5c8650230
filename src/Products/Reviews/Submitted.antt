-- ===== src/Products/Reviews/Submitted.antt =====
-- What a submission of apps/products/services/reviews.py leaves: the review, the answer to the next one,
-- and the ratings that are shown.
use palingames.Base.{
  ok, err, ok-injective, ◌≡◌, refl, sym, ap, ◌∙◌, subst, ℕ, Bool, true, false, Option, none, some,
  List, [], ◌∷◌, ◌++◌, map, filter, find, elem, IsDistinct, arith, if◌then◌else◌, Bool-cases, inl,
  inr,
}
use palingames.Access.Users.{has_user_product_access}
use palingames.Products.{Product}
use palingames.Products.Reviews.{
  Review, ReviewError, ReviewStatus, Submission, Tables, created, get_product_rating_summaries,
  is_counted, is_published, is_review_of, resubmitted, save_review, submit_again, submit_for,
  submit_or_resubmit_review,
}

-- The keys of the reviews.
abbrev pub ids_of : List Review → List ℕ
ids_of reviews = map (λ (r : Review). r.id) reviews

find-append :
    (p : Review → Bool) (xs : List Review) (x : Review)
    → find p xs ≡ none
    → p x ≡ true
    → find p (xs ++ x ∷ []) ≡ some x
find-append p [] x h e = ground (arith, e)
find-append p (y ∷ xs) x h e = ground (arith, h, e, find-append p xs x)

find-save :
    (p : Review → Bool) (xs : List Review) (r r' : Review)
    → find p xs ≡ some r
    → r'.id ≡ r.id
    → p r' ≡ true
    → find p (save_review r' xs) ≡ some r'
find-save p [] r r' h i e = cc
find-save p (x ∷ xs) r r' h i e = ground (arith, h, i, e, find-save p xs r r')

found-holds : (p : Review → Bool) (xs : List Review) (r : Review) → find p xs ≡ some r → p r ≡ true
found-holds p [] r h = cc
found-holds p (x ∷ xs) r h = ground (arith, h, found-holds p xs r)

found-elem :
    (p : Review → Bool) (xs : List Review) (r : Review)
    → find p xs ≡ some r
    → elem r.id (ids_of xs) ≡ true
found-elem p [] r h = cc
found-elem p (x ∷ xs) r h = ground (arith, h, found-elem p xs r)

save-absent :
    (xs : List Review) (r : Review) → elem r.id (ids_of xs) ≡ false → save_review r xs ≡ xs
save-absent [] r h = refl
save-absent (x ∷ xs) r h = ground (arith, h, save-absent xs r)

-- The published reviews of a product.
abbrev counted : ℕ → List Review → List Review
counted product_id reviews = filter (is_counted product_id) reviews

counted-append :
    (n : ℕ) (xs : List Review) (x : Review)
    → is_published x.status ≡ false
    → counted n (xs ++ x ∷ []) ≡ counted n xs
counted-append n [] x h = ground (arith, h)
counted-append n (y ∷ xs) x h = ground (arith, h, counted-append n xs x)

counted-save :
    (n : ℕ) (p : Review → Bool) (xs : List Review) (r r' : Review)
    → IsDistinct (ids_of xs)
    → find p xs ≡ some r
    → r'.id ≡ r.id
    → is_published r.status ≡ false
    → is_published r'.status ≡ false
    → counted n (save_review r' xs) ≡ counted n xs
counted-save n p [] r r' d h i u u' = cc
counted-save n p (x ∷ xs) r r' d h i u u' = elim (Bool-cases (p x)) [
  | inl e ↦
      let same : x ≡ r = ground (arith, h, e) in
      let absent : elem r'.id (ids_of xs) ≡ false =
        subst (λ (k : ℕ). elem k (ids_of xs) ≡ false) (ap (λ (y : Review). y.id) same ∙ sym i)
          d.0 in
      ground (arith, same, i, u, u', save-absent xs r' absent)
  | inr e ↦
      let rest : find p xs ≡ some r = ground (arith, h, e) in
      let there = found-elem p xs r rest in
      ground (arith, i, d.0, there, counted-save n p xs r r' d.1 rest i u u')
]

summaries-agree :
    (ids : List ℕ) (xs ys : List Review)
    → ((n : ℕ) → counted n xs ≡ counted n ys)
    → get_product_rating_summaries ids xs ≡ get_product_rating_summaries ids ys
unfolding get_product_rating_summaries
summaries-agree [] xs ys h = refl
summaries-agree (n ∷ ids) xs ys h = ground (arith, h n, summaries-agree ids xs ys h)

-- What an accepted submission leaves behind.
pub record IsSubmitted (user : ℕ) (product : Product) (form : Submission) (t : Tables)
    (review : Review) (t' : Tables) : Type 0 where
  pub saved : find (is_review_of product.id user) t'.reviews ≡ some review
  pub waits : review.status ≡ ReviewStatus.pending
  pub content : (review.rating ≡ form.rating) × (review.comment ≡ form.comment)
  pub ratings :
      (ids : List ℕ)
      → get_product_rating_summaries ids t'.reviews ≡ get_product_rating_summaries ids t.reviews
  pub next :
      (other : Submission)
      → submit_or_resubmit_review (some user) product other t' ≡ err ReviewError.already_pending

next-refused :
    (user : ℕ) (product : Product) (other : Submission) (t : Tables) (r : Review)
    → has_user_product_access (some user) product.id t.user_accesses ≡ true
    → find (is_review_of product.id user) t.reviews ≡ some r
    → r.status ≡ ReviewStatus.pending
    → submit_or_resubmit_review (some user) product other t ≡ err ReviewError.already_pending
unfolding submit_or_resubmit_review
next-refused user product other t r access found waits = rw (access, found, waits) refl

module _ (user : ℕ) (product : Product) (form : Submission) (t : Tables)
    (distinct : IsDistinct (ids_of t.reviews))
    (access : has_user_product_access (some user) product.id t.user_accesses ≡ true) where
  created-IsSubmitted :
      find (is_review_of product.id user) t.reviews ≡ none
      → let r = created form t.next_id product.id user in
        IsSubmitted user product form t r
          (record t { reviews = t.reviews ++ r ∷ []; next_id = ℕ.suc t.next_id })
  created-IsSubmitted absent =
      let r = created form t.next_id product.id user in
      let t' : Tables = record t { reviews = t.reviews ++ r ∷ []; next_id = ℕ.suc t.next_id } in
      let saved = find-append (is_review_of product.id user) t.reviews r absent (ground arith) in
      record {
        saved = saved;
        waits = refl;
        content = (refl, refl);
        ratings = λ ids.
            summaries-agree ids t'.reviews t.reviews (λ n. counted-append n t.reviews r refl);
        next = λ other. next-refused user product other t' r access saved refl;
      }

  resubmitted-IsSubmitted :
      (r : Review)
      → find (is_review_of product.id user) t.reviews ≡ some r
      → is_published r.status ≡ false
      → IsSubmitted user product form t
          (resubmitted form r)
          (record t { reviews = save_review (resubmitted form r) t.reviews })
  resubmitted-IsSubmitted r found hidden =
      let r' = resubmitted form r in
      let t' : Tables = record t { reviews = save_review r' t.reviews } in
      let saved =
        find-save (is_review_of product.id user) t.reviews r r' found refl
          (found-holds (is_review_of product.id user) t.reviews r found) in
      record {
        saved = saved;
        waits = refl;
        content = (refl, refl);
        ratings = λ ids. summaries-agree ids t'.reviews t.reviews (λ n.
            counted-save n (is_review_of product.id user) t.reviews r r' distinct found refl hidden
              refl);
        next = λ other. next-refused user product other t' r' access saved refl;
      }

  found-IsSubmitted :
      (found : Option Review) {review : Review} {t' : Tables}
      → find (is_review_of product.id user) t.reviews ≡ found
      → submit_for form product.id user t found ≡ ok (review, t')
      → IsSubmitted user product form t review t'
  found-IsSubmitted none {review} {t'} e h =
      subst (λ (x : Review × Tables). IsSubmitted user product form t x.0 x.1) {y = (review, t')}
        (ok-injective h) (created-IsSubmitted e)
  found-IsSubmitted (some r) {review} {t'} e h = go r.status refl h
    where
      go :
          (status : ReviewStatus)
          → r.status ≡ status
          → submit_again form t r status ≡ ok (review, t')
          → IsSubmitted user product form t review t'
      go ReviewStatus.pending s g = cc
      go ReviewStatus.published s g = cc
      go ReviewStatus.rejected s g =
          subst (λ (x : Review × Tables). IsSubmitted user product form t x.0 x.1)
            {y = (review, t')} (ok-injective g)
            (resubmitted-IsSubmitted r e (ap (λ (st : ReviewStatus). is_published st) s))
      go (ReviewStatus.unexpected x) s g = cc

-- A submission that is taken leaves the buyer's review of the product as it was sent, waiting for the
-- moderator. Until then a next one is refused as pending, and the ratings of all products are as before.
pub submit_or_resubmit_review-IsSubmitted :
    (user : ℕ) (product : Product) (form : Submission) (t : Tables) {review : Review} {t' : Tables}
    → IsDistinct (ids_of t.reviews)
    → submit_or_resubmit_review (some user) product form t ≡ ok (review, t')
    → IsSubmitted user product form t review t'
unfolding submit_or_resubmit_review
submit_or_resubmit_review-IsSubmitted user product form t {review} {t'} distinct h =
    go (has_user_product_access (some user) product.id t.user_accesses) refl h
  where
    go :
        (access : Bool)
        → has_user_product_access (some user) product.id t.user_accesses ≡ access
        → (if access
            then submit_for form product.id user t (find (is_review_of product.id user) t.reviews)
            else err ReviewError.purchase_required)
          ≡ ok (review, t')
        → IsSubmitted user product form t review t'
    go true e g =
        found-IsSubmitted user product form t distinct e
          (find (is_review_of product.id user) t.reviews) refl g
    go false e g = cc
