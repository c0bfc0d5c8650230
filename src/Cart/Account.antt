-- ===== src/Cart/Account.antt =====
-- The toggle of an account's cart of apps/cart/services.py: the guards for what is bought or waits for
-- its payment, and the change of the cart.
use palingames.Base.{
  ℕ, ◌≡◌, refl, sym, subst, Bool, true, false, not, ◌&&◌, ◌||◌, some, none, List, [], ◌∷◌, ◌++◌,
  filter, any, elem, ◌==◌, is_some, Bool-cases, inl, inr, arith, if◌then◌else◌,
}
use palingames.Access.Users.{has_user_product_access}
use palingames.Cart.Request.{CartItem, Shop}
use palingames.Cart.Services.{
  is_item, toggle_user_item, toggle_user_product, get_user_pending_order_item_by_product_ids,
  ToggleResult,
}
use palingames.Cart.Merge.{cart_of}

-- The account has bought the product, or an open order of it has the product.
abbrev pub is_blocked : ℕ → ℕ → Shop → Bool
is_blocked user p shop =
    has_user_product_access (some user) p shop.user_accesses
    || is_some (get_user_pending_order_item_by_product_ids (some user) (p ∷ []) shop)

any-is_item :
    (user p : ℕ) (items : List CartItem) → any (is_item user p) items ≡ elem p (cart_of user items)
any-is_item user p [] = refl
any-is_item user p (i ∷ items) = ground (arith, any-is_item user p items)

elem-without :
    (u n user p : ℕ) (items : List CartItem)
    → elem n (cart_of u (filter (λ i. not (is_item user p i)) items))
      ≡ (elem n (cart_of u items) && not (u == user && n == p))
elem-without u n user p [] = refl
elem-without u n user p (i ∷ items) = ground (arith, elem-without u n user p items)

elem-with :
    (u n user p : ℕ) (items : List CartItem)
    → elem n (cart_of u (items ++ record { user_id = user; product_id = p } ∷ []))
      ≡ (elem n (cart_of u items) || (u == user && n == p))
elem-with u n user p [] = ground arith
elem-with u n user p (i ∷ items) = ground (arith, elem-with u n user p items)

-- The result of the toggle tells what the cart holds then, and no other product or account is touched.
abbrev pub IsToggled : ℕ → ℕ → Shop → ToggleResult × Shop → Type 0
IsToggled user p shop (result, shop') =
    (result.in_cart ≡ elem p (cart_of user shop'.cart_items))
    × ((u n : ℕ)
        → elem n (cart_of u shop'.cart_items) ≡ (
            if u == user && n == p
            then not (elem p (cart_of user shop.cart_items))
            else elem n (cart_of u shop.cart_items)))

toggle_user_item-IsToggled :
    (user p : ℕ) (shop : Shop) → IsToggled user p shop (toggle_user_item user p shop)
unfolding toggle_user_item
toggle_user_item-IsToggled user p shop = elim (Bool-cases (any (is_item user p) shop.cart_items)) [
  | inl there ↦ rw there (
    ground (arith, there, elem-without user p user p shop.cart_items),
    λ u n.
        ground (
          arith,
          there,
          any-is_item user p shop.cart_items,
          elem-without u n user p shop.cart_items,
        ),
  )
  | inr away ↦ rw away (
    ground (arith, away, elem-with user p user p shop.cart_items),
    λ u n.
        ground
          (arith, away, any-is_item user p shop.cart_items, elem-with u n user p shop.cart_items),
  )
]

toggle_user_item-flags :
    (user p : ℕ) (shop : Shop)
    → ((toggle_user_item user p shop).0.already_purchased ≡ false)
      × ((toggle_user_item user p shop).0.already_pending_purchase ≡ false)
unfolding toggle_user_item
toggle_user_item-flags user p shop = ground arith

-- What a toggle answers where the product is blocked, and where it is not.
abbrev pub IsAnswer : Bool → ℕ → ℕ → Shop → ToggleResult × Shop → Type 0
IsAnswer true user p shop (result, shop') =
    (shop' ≡ shop)
    × (result.in_cart ≡ false)
    × ((result.already_purchased || result.already_pending_purchase) ≡ true)
IsAnswer false user p shop (result, shop') =
    (result.already_purchased ≡ false)
    × (result.already_pending_purchase ≡ false)
    × IsToggled user p shop (result, shop')

blocked-IsAnswer :
    (user p : ℕ) (shop : Shop)
    → is_blocked user p shop ≡ true
    → IsAnswer true user p shop (toggle_user_product user p shop)
unfolding toggle_user_product
blocked-IsAnswer user p shop blocked = ground arith

free-IsAnswer :
    (user p : ℕ) (shop : Shop)
    → is_blocked user p shop ≡ false
    → IsAnswer false user p shop (toggle_user_product user p shop)
unfolding toggle_user_product
free-IsAnswer user p shop free =
    rw (not_bought, not_pending)
      (
        ground (arith, toggle_user_item-flags user p shop),
        ground (arith, toggle_user_item-flags user p shop),
        toggle_user_item-IsToggled user p shop,
      )
  where
    not_bought : has_user_product_access (some user) p shop.user_accesses ≡ false
    not_bought = ground arith

    not_pending : get_user_pending_order_item_by_product_ids (some user) (p ∷ []) shop ≡ none
    not_pending = ground arith

-- A toggle of a product that the account has bought, or that waits for its payment in an order, is
-- refused and changes nothing; any other turns the product's place in the account's cart over, tells
-- whether it is there now, and leaves every other product and account alone.
pub toggle_user_product-IsAnswer :
    (user p : ℕ) (shop : Shop)
    → IsAnswer (is_blocked user p shop) user p shop (toggle_user_product user p shop)
toggle_user_product-IsAnswer user p shop = elim (Bool-cases (is_blocked user p shop)) [
  | inl blocked ↦
      subst (λ b. IsAnswer b user p shop (toggle_user_product user p shop)) (sym blocked)
        (blocked-IsAnswer user p shop blocked)
  | inr free ↦
      subst (λ b. IsAnswer b user p shop (toggle_user_product user p shop)) (sym free)
        (free-IsAnswer user p shop free)
]
