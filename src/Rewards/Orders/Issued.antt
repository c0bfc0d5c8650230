-- ===== src/Rewards/Orders/Issued.antt =====
-- The rewards of apps/orders/reward_services.py: how a code is found, for whom it is, and a reward that is
-- asked for twice.
use palingames.Base.{
  Result, ok, err, ◌>>=◌, returned, ok-injective, ℕ, zero, suc, ◌≡◌, ◌≤◌, ◌<◌, ◌+◌, refl, ap, subst,
  ◌⊎◌, String, Bool, true, false, not, Option, none, some, List, [], ◌∷◌, ◌++◌, find, map, any,
  arith, if◌then◌else◌, str_eq,
}
use palingames.Base.Text.{strip, lower}
use palingames.Products.{Product}
use palingames.Orders.Model.{Order}
use palingames.Promocodes.Model.{PromoCode, PromoCodeDiscount, PromoValidationOptions, PromoTables}
use palingames.Promocodes.Calculate.{promo_total_usage_count, calculate_promo_code_discount}
use palingames.Promocodes.Calculate.Granted.{Given, MayUse, calculate_promo_code_discount-IsSound}
use palingames.Rewards.Codes.{
  PromoCodes, RewardError, create_first_free, inserted, is_code_taken, max_attempts,
  saved_promo_code, reward_code,
}
use palingames.Rewards.Orders.{
  Answer, answer_of, Db, Env, by_id, create_order_reward_promo_code, drawn_order_code,
  ensure_order_reward, get_order_reward_skip_reason, issue_if_none, record_order_reward, refreshed,
  reward_row,
}

-- `n`, `n + 1` and so on, `k` numbers.
abbrev pub numbers_from : ℕ → ℕ → List ℕ
numbers_from n zero = []
numbers_from n (suc k) = n ∷ numbers_from (suc n) k

abbrev pub is_free : (ℕ → PromoCode) → PromoCodes → ℕ → Bool
is_free drawn t n = not (is_code_taken (saved_promo_code (drawn n)).code t)

-- The created row: a drawn code that was free, added at the end with the table's next key.
abbrev pub IsCreated : (ℕ → PromoCode) → PromoCodes → PromoCode × PromoCodes → Type 0
IsCreated drawn t (p, t') =
    (is_code_taken p.code t ≡ false)
    × (t'.rows ≡ t.rows ++ p ∷ [])
    × ((n : ℕ) × (p ≡ record (saved_promo_code (drawn n)) { id = t.next_id }))

-- Either a code is created, and one of the draws was free, or none was.
abbrev pub IsCreation :
    (ℕ → PromoCode) → PromoCodes → List ℕ → Result RewardError (PromoCode × PromoCodes) → Type 0
IsCreation drawn t draws (ok created) =
    (any (is_free drawn t) draws ≡ true) × IsCreated drawn t created
IsCreation drawn t draws (err e) =
    (any (is_free drawn t) draws ≡ false) × (e ≡ RewardError.no_unique_code)

module _ (drawn : ℕ → PromoCode) (t : PromoCodes) where
  create_first_free-IsCreation :
      (attempts n : ℕ)
      → IsCreation drawn t (numbers_from n attempts) (create_first_free attempts n drawn t)
  unfolding create_first_free
  create_first_free-IsCreation zero n = (refl, refl)
  create_first_free-IsCreation (suc attempts) n =
      go (is_code_taken (saved_promo_code (drawn n)).code t) refl
        (create_first_free attempts (suc n) drawn t) (create_first_free-IsCreation attempts (suc n))
    where
      later :
          (draws : List ℕ) (m : Result RewardError (PromoCode × PromoCodes))
          → is_code_taken (saved_promo_code (drawn n)).code t ≡ true
          → IsCreation drawn t draws m
          → IsCreation drawn t (n ∷ draws) m
      later draws (ok created) e h = (ground (arith, e, h.0), h.1)
      later draws (err x) e h = (ground (arith, e, h.0), h.1)

      go :
          (taken : Bool)
          → is_code_taken (saved_promo_code (drawn n)).code t ≡ taken
          → (rest : Result RewardError (PromoCode × PromoCodes))
          → IsCreation drawn t (numbers_from (suc n) attempts) rest
          → IsCreation drawn t
              (n ∷ numbers_from (suc n) attempts)
              (if taken then rest else ok (inserted (saved_promo_code (drawn n)) t))
      go true e rest h = later (numbers_from (suc n) attempts) rest e h
      go false e rest h = (ground (arith, e), (e, refl, (n, refl)))

-- The creation of an order's reward gives a code exactly if one of the ten draws is free. The code is one of the
-- draws, no code of the table is equal to it, and its row is added at the end; otherwise the error is
-- that no unique code was found.
pub create_order_reward_promo_code-IsCreation :
    (env : Env) (order : Order) (t : PromoCodes)
    → IsCreation
        (drawn_order_code env order)
        t
        (numbers_from 0 max_attempts)
        (create_order_reward_promo_code env order t)
unfolding create_order_reward_promo_code
create_order_reward_promo_code-IsCreation env order t =
    create_first_free-IsCreation (drawn_order_code env order) t max_attempts 0

-- Who may use a code, when and how often.
pub record IsReserved (env : Env) (order : Order) (promo : PromoCode) (now : ℕ) (user : Option ℕ)
    (email : String) (opts : PromoValidationOptions) (t : PromoTables) : Type 0 where
  pub owner : Given (λ owner. user ≡ some owner) order.user_id
  pub address :
      (str_eq (lower (strip (lower (strip order.email)))) "" ≡ true)
      ⊎ (str_eq (lower (strip (lower (strip order.email)))) (lower (strip email)) ≡ true)
  pub started : env.now ≤ now
  pub not_ended : now ≤ env.now + env.settings.valid_for
  pub unused : promo_total_usage_count promo opts.exclude_order_id t ≡ 0

created-IsReserved :
    (env : Env) (order : Order) (promo : PromoCode) (id n : ℕ) (now : ℕ) (user : Option ℕ)
    (email : String) (opts : PromoValidationOptions) (t : PromoTables)
    → promo ≡ record (saved_promo_code (drawn_order_code env order n)) { id = id }
    → MayUse now promo user email opts t
    → IsReserved env order promo now user email opts t
unfolding drawn_order_code saved_promo_code reward_code
created-IsReserved env order promo id n now user email opts t e may = record {
  owner =
      subst (Given (λ owner. user ≡ some owner)) (ap (λ (p : PromoCode). p.assigned_user_id) e)
        may.own;
  address =
      subst (λ (a : String). (str_eq a "" ≡ true) ⊎ (str_eq a (lower (strip email)) ≡ true))
        (ap (λ (p : PromoCode). p.assigned_email) e) may.own_email;
  started = subst (Given (λ at. at ≤ now)) (ap (λ (p : PromoCode). p.starts_at) e) may.started;
  not_ended = subst (Given (λ at. now ≤ at)) (ap (λ (p : PromoCode). p.ends_at) e) may.not_ended;
  unused = omega (
    arith,
    subst (Given (λ limit. promo_total_usage_count promo opts.exclude_order_id t < limit))
        (ap (λ (p : PromoCode). p.max_total_redemptions) e) may.total,
  );
}

-- The reward of an order gives a discount only to the order's user, where it has one, and only with its
-- address, where it is not empty, from its creation to its end, and only while no other order uses it.
pub create_order_reward_promo_code-IsReserved :
    (env : Env) (order : Order) (codes : PromoCodes) {promo : PromoCode} {codes' : PromoCodes}
    (now : ℕ) (code : String) (products : List Product) (user : Option ℕ) (email : String)
    (opts : PromoValidationOptions) (t : PromoTables) {d : PromoCodeDiscount}
    → create_order_reward_promo_code env order codes ≡ ok (promo, codes')
    → calculate_promo_code_discount now code products user email opts t ≡ ok d
    → d.promo_code ≡ promo
    → IsReserved env order promo now user email opts t
create_order_reward_promo_code-IsReserved env order codes {promo} {codes'} now code products user
      email opts t {d} created given same =
    let creation =
      subst (IsCreation (drawn_order_code env order) codes (numbers_from 0 max_attempts)) created
        (create_order_reward_promo_code-IsCreation env order codes) in
    let (n, drawn) = creation.1.2 in
    let may =
      (calculate_promo_code_discount-IsSound now code products user email opts t {d = d} given).1 in
    created-IsReserved env order promo codes.next_id n now user email opts t drawn
      (subst (λ (p : PromoCode). MayUse now p user email opts t) same may)

-- A result that names a code: asked for again, the order as it was returned gives the same code.
abbrev Again : Env → (Db → Db) → Option PromoCode → Order → Db → ℕ → Type 0
Again env between used order db code =
    ensure_order_reward env order used between db ≡ ok (some code, order, db)

held-Again :
    (env : Env) (between : Db → Db) (used : Option PromoCode) (order : Order) (db : Db) (code : ℕ)
    → get_order_reward_skip_reason env.settings order used ≡ none
    → order.reward_promo_code_id ≡ some code
    → Again env between used order db code
unfolding ensure_order_reward
held-Again env between used order db code skip held = rw (skip, held) refl

-- The reward is in the order's row, and asking again with the returned order changes nothing.
abbrev pub IsSettled : Env → (Db → Db) → Option PromoCode → ℕ → Order → Db → ℕ → Type 0
IsSettled env between used id order db code =
    ((row : Order) × (find (by_id id) db.orders ≡ some row)
      × (row.reward_promo_code_id ≡ some code))
    × (ensure_order_reward env order used between db ≡ ok (some code, order, db))

module _ (env : Env) (now : ℕ) (draws : ℕ → String) (order : Order) (used : Option PromoCode)
    (later : Db → Db) where
  abbrev again : Env
  again = record env { now = now; draws = draws }

  refreshed-IsSettled :
      (row : Option Order) (db : Db) {code : ℕ} {order' : Order} {db' : Db}
      → get_order_reward_skip_reason env.settings order used ≡ none
      → find (by_id order.id) db.orders ≡ row
      → (refreshed order row >>= answer_of db) ≡ ok (some code, order', db')
      → IsSettled again later used order.id order' db' code
  unfolding get_order_reward_skip_reason
  refreshed-IsSettled none db skip found h = cc
  refreshed-IsSettled (some row) db {code} {order'} {db'} skip found h =
      let same = ok-injective h in
      let held = ap (λ (a : Answer). a.0) {y = (some code, order', db')} same in
      subst (λ (a : Answer). IsSettled again later used order.id a.1 a.2 code)
        {y = (some code, order', db')} same
        (
          (row, found, held),
          held-Again again later used
              (record order {
                reward_promo_code_id = row.reward_promo_code_id;
                reward_issued_at = row.reward_issued_at;
              })
              db code skip held,
        )

-- A reward that is issued to an order without one is in the order's row, whoever wrote it first. Asked
-- for again with the returned order, at any time and with any draws, it is the same, and no row changes.
pub ensure_order_reward-IsSettled :
    (env : Env) (order : Order) (used : Option PromoCode) (between : Db → Db) (db : Db) {code : ℕ}
    {order' : Order} {db' : Db} (now : ℕ) (draws : ℕ → String) (later : Db → Db)
    → order.reward_promo_code_id ≡ none
    → ensure_order_reward env order used between db ≡ ok (some code, order', db')
    → IsSettled (record env { now = now; draws = draws }) later used order.id order' db' code
unfolding ensure_order_reward record_order_reward
ensure_order_reward-IsSettled env order used between db {code} {order'} {db'} now draws later new
      h =
    go (get_order_reward_skip_reason env.settings order used) refl (
      subst
        (λ (reward : Option ℕ).
          issue_if_none env order between db (get_order_reward_skip_reason env.settings order used)
            reward
          ≡ ok (some code, order', db'))
        new h)
  where
    go :
        (skip : Option String)
        → get_order_reward_skip_reason env.settings order used ≡ skip
        → issue_if_none env order between db skip none ≡ ok (some code, order', db')
        → IsSettled (record env { now = now; draws = draws }) later used order.id order' db' code
    go (some reason) e g = cc
    go none e g =
        let (created, creation, rest) =
          returned (create_order_reward_promo_code env order db.promo_codes) g in
        let rows = between (record db { promo_codes = created.1 }) in
        let orders = map (reward_row env.now created.0.id order.id) rows.orders in
        refreshed-IsSettled env now draws order used later (find (by_id order.id) orders)
          (record rows { orders = orders }) {code = code} {order' = order'} {db' = db'} e refl rest
