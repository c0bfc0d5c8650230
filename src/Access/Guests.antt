-- ===== src/Access/Guests.antt =====
-- apps/access/services.py: the tokens that let a guest download what an order paid for. The hash of
-- a token is a parameter, and so are the tokens that `secrets` draws, one for each item.
pub mod Limits
use palingames.Base.{
  ℕ, suc, ◌+◌, ◌-◌, String, Bool, true, false, not, ◌&&◌, ◌||◌, Option, none, some, List, [], ◌∷◌,
  ◌++◌, find, any, ltb, is_some, or_else, ◌==◌, str_eq, if◌then◌else◌,
}
use palingames.Orders.Model.{Order, OrderItem, is_guest}
use palingames.Access.Model.{GuestAccess, Tables, is_active}

-- The settings GUEST_ACCESS_EXPIRE_HOURS, in the unit of the instants, and GUEST_ACCESS_MAX_DOWNLOADS.
pub record GuestSettings : Type 0 where
  pub expires_in : ℕ
  pub max_downloads : ℕ

-- One entry of `guest_access_payloads`; the price is in cents and not yet a text.
pub record Payload : Type 0 where
  pub guest_access_id : ℕ
  pub product_id : ℕ
  pub title : String
  pub category : String
  pub price : ℕ
  pub image_url : String
  pub token : String

-- `queryset.filter(p).update(f)`: each row that passes is changed.
abbrev pub update_where :
    (GuestAccess → Bool) → (GuestAccess → GuestAccess) → List GuestAccess → List GuestAccess
update_where p f [] = []
update_where p f (a ∷ rows) = (if p a then f a else a) ∷ update_where p f rows

-- `filter(order=order, product=product)`
abbrev pub is_guest_access_of : ℕ → ℕ → GuestAccess → Bool
is_guest_access_of order_id product_id a = a.order_id == order_id && a.product_id == product_id

module _ (hash : String → String) where
  -- The row with the `defaults` of `update_or_create`.
  abbrev pub renewed : ℕ → ℕ → ℕ → String → String → GuestAccess → GuestAccess
  renewed now expires_in max_downloads token email a = record a {
    token_hash = hash token;
    expires_at = now + expires_in;
    last_used_at = none;
    downloads_count = 0;
    max_downloads = max_downloads;
    revoked_at = none;
    email = email;
    updated_at = now;
  }

  abbrev pub fresh : ℕ → ℕ → ℕ → ℕ → ℕ → ℕ → String → String → GuestAccess
  fresh id order_id product_id now expires_in max_downloads token email = record {
    id = id;
    order_id = order_id;
    product_id = product_id;
    token_hash = hash token;
    expires_at = now + expires_in;
    last_used_at = none;
    downloads_count = 0;
    max_downloads = max_downloads;
    revoked_at = none;
    email = email;
    updated_at = now;
  }

  -- The id of the access, and the tables after the call.
  unfoldable pub create_guest_access : ℕ → Order → ℕ → ℕ → ℕ → String → Tables → ℕ × Tables
  create_guest_access now order product_id expires_in max_downloads token t =
      elim (find (is_guest_access_of order.id product_id) t.guest_accesses) [
        | some old ↦ (
          old.id,
          record t {
            guest_accesses =
                update_where (λ a. a.id == old.id)
                  (renewed now expires_in max_downloads token order.email) t.guest_accesses;
          },
        )
        | none ↦ (
          t.next_id,
          record t {
            guest_accesses =
                t.guest_accesses
                ++ fresh t.next_id order.id product_id now expires_in max_downloads token
                    order.email
                  ∷ [];
            next_id = suc t.next_id;
          },
        )
      ]

  module _ (settings : GuestSettings) (now : ℕ) (order : Order) (tokens : ℕ → String) where
    -- The loop over the items, from the item with index `i` on.
    unfoldable pub grant_guest_items : ℕ → List OrderItem → Tables → List Payload × Tables
    unfolding create_guest_access
    grant_guest_items i [] t = ([], t)
    grant_guest_items i (item ∷ items) t =
        let (id, t') =
          create_guest_access now order item.product_id settings.expires_in settings.max_downloads
            (tokens i) t in
        let (payloads, t'') = grant_guest_items (suc i) items t' in
        (
          record {
            guest_access_id = id;
            product_id = item.product_id;
            title = item.title_snapshot;
            category = item.category_snapshot;
            price = item.line_total_amount;
            image_url = or_else item.product_image_snapshot "";
            token = tokens i;
          }
              ∷ payloads,
          t'',
        )

    unfoldable pub grant_guest_product_accesses : Tables → List Payload × Tables
    unfolding grant_guest_items
    grant_guest_product_accesses t =
        let granted = grant_guest_items 0 order.items t in
        if is_some order.user_id || not (is_guest order.checkout_type) then ([], t) else granted

  unfoldable pub resolve_guest_access : ℕ → String → Tables → Option GuestAccess
  unfolding is_active
  resolve_guest_access now token t =
      elim (find (λ a. str_eq a.token_hash (hash token)) t.guest_accesses) [
        | none ↦ none
        | some a ↦ if not (is_active now a) then none else some a
      ]

-- The filter of the conditional update in `mark_guest_access_used`.
abbrev pub can_use : ℕ → ℕ → GuestAccess → Bool
can_use now pk a =
    a.id == pk
    && (not (is_some a.revoked_at) && ltb now a.expires_at && ltb a.downloads_count a.max_downloads)

abbrev pub used : ℕ → GuestAccess → GuestAccess
used now a = record a {
  downloads_count = a.downloads_count + 1;
  last_used_at = some now;
  updated_at = now;
}

unfoldable pub mark_guest_access_used : ℕ → ℕ → List GuestAccess → Bool × List GuestAccess
mark_guest_access_used now pk rows =
    (any (can_use now pk) rows, update_where (can_use now pk) (used now) rows)

abbrev pub has_use : ℕ → GuestAccess → Bool
has_use pk a = a.id == pk && ltb 0 a.downloads_count

abbrev pub released : ℕ → GuestAccess → GuestAccess
released now a = record a { downloads_count = a.downloads_count - 1; updated_at = now }

unfoldable pub release_guest_access_use : ℕ → ℕ → List GuestAccess → List GuestAccess
release_guest_access_use now pk rows = update_where (has_use pk) (released now) rows
