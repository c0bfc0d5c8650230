-- ===== src/Cart/Guest.antt =====
-- The guest's cart of apps/cart/services.py: the list in the session, how it is read and written, and
-- the toggle of a product.
use palingames.Base.{
  ℕ, zero, suc, ◌≡◌, refl, ◌∙◌, Bool, true, false, not, ◌&&◌, Option, none, some, List, [], ◌∷◌,
  ◌++◌, map, filter, any, elem, ◌==◌, option_eq, IsDistinct, elem-append, arith, Option-cases,
  Bool-cases, inl, inr, if◌then◌else◌, All, ◌<◌, or_else,
}
use palingames.Cart.Request.{RawId, Session}
use palingames.Cart.Services.{
  positive_int, normalize_from, normalize_product_ids, get_guest_cart_ids, set_guest_cart_ids,
  toggle_guest_product,
}

-- A value of the session's list counts for the id `n`.
abbrev pub stands_for : ℕ → RawId → Bool
unfolding positive_int
stands_for n raw = option_eq (positive_int raw) (some n)

elem-normalize_from :
    (n : ℕ) (seen : List ℕ) (raws : List RawId)
    → elem n (normalize_from seen raws) ≡ (any (stands_for n) raws && not (elem n seen))
unfolding normalize_from
elem-normalize_from n seen [] = refl
elem-normalize_from n seen (raw ∷ raws) = elim (Option-cases (positive_int raw)) [
  | inl e ↦ ground (arith, elem-normalize_from n seen raws)
  | inr (m, e) ↦
      ground (arith, elem-normalize_from n seen raws, elem-normalize_from n (m ∷ seen) raws)
]

-- An id is in the guest's cart exactly if a value of the session's list stands for it.
pub elem-normalize_product_ids :
    (n : ℕ) (raws : List RawId) → elem n (normalize_product_ids raws) ≡ any (stands_for n) raws
unfolding normalize_product_ids
elem-normalize_product_ids n raws = ground (arith, elem-normalize_from n [] raws)

-- A property of lists that holds of the empty one, and of an id that is kept before the rest.
normalize_from-keeps :
    (P : List ℕ → List ℕ → Type 0)
    → ((seen : List ℕ) → P seen [])
    → ((seen : List ℕ) (raw : RawId) (m : ℕ) (raws : List RawId)
        → positive_int raw ≡ some m
        → elem m seen ≡ false
        → P (m ∷ seen) (normalize_from (m ∷ seen) raws)
        → P seen (m ∷ normalize_from (m ∷ seen) raws))
    → (seen : List ℕ) (raws : List RawId) → P seen (normalize_from seen raws)
unfolding normalize_from
normalize_from-keeps P nil cons seen [] = nil seen
normalize_from-keeps P nil cons seen (raw ∷ raws) =
    go (positive_int raw) refl (normalize_from-keeps P nil cons seen raws)
      (λ m. normalize_from-keeps P nil cons (m ∷ seen) raws)
  where
    pick :
        (m : ℕ) (old : Bool)
        → elem m seen ≡ old
        → positive_int raw ≡ some m
        → P seen (normalize_from seen raws)
        → P (m ∷ seen) (normalize_from (m ∷ seen) raws)
        → P seen (elim old [
          | true ↦ normalize_from seen raws
          | false ↦ m ∷ normalize_from (m ∷ seen) raws
        ])
    pick m true e f rest kept = rest
    pick m false e f rest kept = cons seen raw m raws f e kept

    go :
        (o : Option ℕ)
        → positive_int raw ≡ o
        → P seen (normalize_from seen raws)
        → ((m : ℕ) → P (m ∷ seen) (normalize_from (m ∷ seen) raws))
        → P seen (elim o [
          | none ↦ normalize_from seen raws
          | some m ↦ elim (elem m seen) [
            | true ↦ normalize_from seen raws
            | false ↦ m ∷ normalize_from (m ∷ seen) raws
          ]
        ])
    go none f rest kept = rest
    go (some m) f rest kept = pick m (elem m seen) refl f rest (kept m)

normalize_from-IsDistinct :
    (seen : List ℕ) (raws : List RawId) → IsDistinct (normalize_from seen raws)
normalize_from-IsDistinct =
    normalize_from-keeps (λ seen ids. IsDistinct ids) (λ seen. tt)
      (λ seen raw m raws f e kept. (ground (arith, elem-normalize_from m (m ∷ seen) raws), kept))

pub normalize_product_ids-IsDistinct : (raws : List RawId) → IsDistinct (normalize_product_ids raws)
unfolding normalize_product_ids
normalize_product_ids-IsDistinct raws = normalize_from-IsDistinct [] raws

abbrev pub AllPositive : List ℕ → Type 0
AllPositive = All (λ n. 0 < n)

positive_int-positive : (raw : RawId) (n : ℕ) → positive_int raw ≡ some n → 0 < n
unfolding positive_int
positive_int-positive raw n e = ground arith

normalize_from-AllPositive :
    (seen : List ℕ) (raws : List RawId) → AllPositive (normalize_from seen raws)
normalize_from-AllPositive =
    normalize_from-keeps (λ seen ids. AllPositive ids) (λ seen. tt)
      (λ seen raw m raws f e kept. (positive_int-positive raw m f, kept))

pub normalize_product_ids-AllPositive :
    (raws : List RawId) → AllPositive (normalize_product_ids raws)
unfolding normalize_product_ids
normalize_product_ids-AllPositive raws = normalize_from-AllPositive [] raws

-- The list that the session stores for ids.
abbrev pub raw_ids : List ℕ → List RawId
raw_ids = map (λ n. RawId.whole n)

-- No number of the second list is in the first.
abbrev Apart : List ℕ → List ℕ → Type 0
Apart seen ids = All (λ n. elem n seen ≡ false) ids

Apart-cons :
    (m : ℕ) (seen ids : List ℕ) → elem m ids ≡ false → Apart seen ids → Apart (m ∷ seen) ids
Apart-cons m seen [] h a = tt
Apart-cons m seen (n ∷ ids) h a = (ground arith, Apart-cons m seen ids (ground arith) a.1)

normalize_from-stored :
    (seen ids : List ℕ)
    → AllPositive ids
    → IsDistinct ids
    → Apart seen ids
    → normalize_from seen (raw_ids ids) ≡ ids
unfolding normalize_from
normalize_from-stored seen [] p d a = refl
normalize_from-stored seen (zero ∷ ids) p d a = absurd (omega (arith, p.0))
normalize_from-stored seen (suc n ∷ ids) p d a = ground (
  arith,
  a.0,
  normalize_from-stored (suc n ∷ seen) ids p.1 d.1 (Apart-cons (suc n) seen ids d.0 a.1),
)

Apart-nil : (ids : List ℕ) → Apart [] ids
Apart-nil [] = tt
Apart-nil (n ∷ ids) = (refl, Apart-nil ids)

-- Distinct positive ids come back as they were stored.
pub normalize_product_ids-stored :
    (ids : List ℕ) → AllPositive ids → IsDistinct ids → normalize_product_ids (raw_ids ids) ≡ ids
unfolding normalize_product_ids
normalize_product_ids-stored ids p d = normalize_from-stored [] ids p d (Apart-nil ids)

-- What the session stores is read back unchanged.
pub get_guest_cart_ids-set :
    (ids : List ℕ) (s : Session)
    → get_guest_cart_ids (set_guest_cart_ids ids s) ≡ normalize_product_ids (raw_ids ids)
unfolding get_guest_cart_ids set_guest_cart_ids
get_guest_cart_ids-set ids s =
    let kept = normalize_product_ids (raw_ids ids) in
    normalize_product_ids-stored kept (normalize_product_ids-AllPositive (raw_ids ids))
      (normalize_product_ids-IsDistinct (raw_ids ids))

stands_for-whole : (n m : ℕ) → stands_for n (RawId.whole m) ≡ (m == n && not (n == 0))
unfolding positive_int
stands_for-whole zero zero = refl
stands_for-whole (suc n) zero = ground arith
stands_for-whole n (suc m) = ground arith

elem-raw_ids :
    (n : ℕ) (ids : List ℕ) → any (stands_for n) (raw_ids ids) ≡ (elem n ids && not (n == 0))
elem-raw_ids n [] = refl
elem-raw_ids n (m ∷ ids) = ground (arith, elem-raw_ids n ids, stands_for-whole n m)

elem-set :
    (n : ℕ) (ids : List ℕ) (s : Session)
    → elem n (get_guest_cart_ids (set_guest_cart_ids ids s)) ≡ (elem n ids && not (n == 0))
elem-set n ids s =
    rw (get_guest_cart_ids-set ids s)
      (elem-normalize_product_ids n (raw_ids ids) ∙ elem-raw_ids n ids)

elem-filter_out :
    (n p : ℕ) (ids : List ℕ)
    → elem n (filter (λ m. not (m == p)) ids) ≡ (elem n ids && not (n == p))
elem-filter_out n p [] = refl
elem-filter_out n p (m ∷ ids) = ground (arith, elem-filter_out n p ids)

elem-zero : (ids : List ℕ) → AllPositive ids → elem 0 ids ≡ false
elem-zero [] h = refl
elem-zero (n ∷ ids) h = ground (arith, elem-zero ids h.1)

get_guest_cart_ids-zero : (s : Session) → elem 0 (get_guest_cart_ids s) ≡ false
unfolding get_guest_cart_ids
get_guest_cart_ids-zero s =
    elem-zero (get_guest_cart_ids s)
      (normalize_product_ids-AllPositive (or_else s.guest_cart_product_ids []))

-- A toggle of a guest turns the product's place in the cart over, tells whether it is there now, and
-- leaves every other product alone.
pub toggle_guest_product-get :
    (n p : ℕ) (s : Session)
    → 0 < p
    → (elem n (get_guest_cart_ids (toggle_guest_product p s).1)
        ≡ (if n == p then not (elem p (get_guest_cart_ids s)) else elem n (get_guest_cart_ids s)))
      × ((toggle_guest_product p s).0.in_cart
          ≡ elem p (get_guest_cart_ids (toggle_guest_product p s).1))
unfolding toggle_guest_product
toggle_guest_product-get n p s h =
    let ids = get_guest_cart_ids s in
    let none_zero = get_guest_cart_ids-zero s in
    let without = filter (λ m. not (m == p)) ids in
    elim (Bool-cases (elem p ids)) [
      | inl there ↦ rw there (
        ground (arith, none_zero, elem-set n without s, elem-filter_out n p ids),
        ground (arith, none_zero, elem-set p without s, elem-filter_out p p ids),
      )
      | inr away ↦ rw away (
        ground (arith, none_zero, elem-set n (ids ++ p ∷ []) s, elem-append n ids (p ∷ [])),
        ground (arith, none_zero, elem-set p (ids ++ p ∷ []) s, elem-append p ids (p ∷ [])),
      )
    ]
