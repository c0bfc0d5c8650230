-- ===== src/Rewards/Tests.antt =====
-- Inputs for the rewards: an order that is paid, and a draw that meets a code of the table.
use palingames.Base.{ok, ◌≡◌, refl, ℕ, some, none, [], ◌∷◌, ◌++◌, map}
use palingames.Base.Text.{upper, lower, strip, str}
use palingames.Access.Tests.{order}
use palingames.Orders.Model.{Order, OrderStatus}
use palingames.Promocodes.Model.{PromoCode, PromoCodeDiscount, PromoTables}
use palingames.Promocodes.Calculate.{calculate_promo_code_discount}
use palingames.Promocodes.Tests.{promo, products, options}
use palingames.Rewards.Codes.{PromoCodes, saved_promo_code}
use palingames.Rewards.Orders.{
  Db, Env, create_order_reward_promo_code, drawn_order_code, ensure_order_reward, rewarded,
}
use palingames.Rewards.Orders.Issued.{
  IsReserved, IsSettled, create_order_reward_promo_code-IsReserved, ensure_order_reward-IsSettled,
}

abbrev env : Env
env = record {
  settings = record { discount_percent = 15; valid_for = 30; min_total_amount = 1000 };
  now = 50;
  draws = λ n. elim n [ ℕ.zero ↦ "AAAAAAAA" | ℕ.suc m ↦ "BBBBBBBB" ];
}

abbrev paid : Order
paid = record order { status = OrderStatus.paid }

abbrev codes : PromoCodes
codes = record { rows = record promo { id = 1; code = "ORDER1-AAAAAAAA" } ∷ []; next_id = 2 }

abbrev reward : PromoCode
unfolding drawn_order_code saved_promo_code
reward = record (saved_promo_code (drawn_order_code env paid 1)) { id = 2 }

abbrev codes_after : PromoCodes
codes_after = record { rows = codes.rows ++ reward ∷ []; next_id = 3 }

drawn_twice : create_order_reward_promo_code env paid codes ≡ ok (reward, codes_after)
unfolding create_order_reward_promo_code drawn_order_code saved_promo_code upper lower strip str
drawn_twice = refl

abbrev tables : PromoTables
tables = record { promo_codes = codes_after.rows; orders = paid ∷ []; redemptions = [] }

-- 15 percent of 30.05.
abbrev discount : PromoCodeDiscount
discount = record {
  promo_code = reward;
  code = reward.code;
  discount_percent = 15;
  eligible_amount = 3005;
  discount_amount = 451;
}

used_by_owner :
    calculate_promo_code_discount 60 "order1-bbbbbbbb" products (some 7) "A@b.c" options tables
    ≡ ok discount
unfolding calculate_promo_code_discount drawn_order_code saved_promo_code upper lower strip str
used_by_owner = refl

create_order_reward_promo_code-IsReserved_example :
    IsReserved env paid reward 60 (some 7) "A@b.c" options tables
create_order_reward_promo_code-IsReserved_example =
    create_order_reward_promo_code-IsReserved env paid codes {promo = reward} {codes' = codes_after}
      60 "order1-bbbbbbbb" products (some 7) "A@b.c" options tables {d = discount} drawn_twice
      used_by_owner refl

abbrev db : Db
db = record { orders = paid ∷ []; promo_codes = codes; outbox = record { rows = []; next_id = 1 } }

-- Another run writes its code first.
abbrev overtake : Db → Db
overtake d = record d { orders = map (λ (o : Order). rewarded 49 9 o) d.orders }

abbrev db_after : Db
db_after = record db { orders = rewarded 49 9 paid ∷ []; promo_codes = codes_after }

overtaken :
    ensure_order_reward env paid none overtake db ≡ ok (some 9, rewarded 49 9 paid, db_after)
unfolding ensure_order_reward drawn_order_code saved_promo_code upper lower strip str
overtaken = refl

ensure_order_reward-IsSettled_example :
    IsSettled
      (record env { now = 70; draws = env.draws })
      (λ d. d)
      none
      1
      (rewarded 49 9 paid)
      db_after
      9
ensure_order_reward-IsSettled_example =
    ensure_order_reward-IsSettled env paid none overtake db {code = 9} {order' = rewarded 49 9 paid}
      {db' = db_after} 70 env.draws (λ d. d) refl overtaken
