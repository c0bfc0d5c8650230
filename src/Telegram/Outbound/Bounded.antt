-- ===== src/Telegram/Outbound/Bounded.antt =====
-- How often and how long bot/telegram_bot/outbound/consumer.py tries to deliver a message.
use palingames.Base.{
  Result, ok, err, ◌≡◌, refl, ap, ℕ, zero, suc, ◌+◌, ◌-◌, ◌*◌, ◌≤◌, ◌<◌, String, false, none, [],
  arith, Bool-cases, inl, inr, leb, sum_by,
}
use Prim.Native.Nat.{◌^◌}
use native.Mathlib.Nat.{pow-suc}
use palingames.Telegram.Messages.{
  BotReply, OutboundMessage, Sent, Settings, TelegramRoute, get_telegram_route, send_message,
}
use palingames.Telegram.Outbound.{
  Delivery, after_reply, attempts, deliver_on, deliver_outbound_message, retry_delay,
}

abbrev pub total_delay : Delivery → ℕ
total_delay d = sum_by (λ delay. delay) d.delays

module _ (now : String) (s : Settings) (replies : ℕ → BotReply) (m : OutboundMessage) where
  -- The sleep before the attempt with two attempts before it, and so on.
  abbrev sleep : ℕ → ℕ
  sleep n = s.telegram_retry_base * 2 ^ n

  sleep-suc : (n : ℕ) → sleep (suc n) ≡ sleep n + sleep n
  sleep-suc n = grind (arith, ap (λ (t : ℕ). s.telegram_retry_base * t) (pow-suc 2 n))

  sleep-le : (n left : ℕ) → sleep n ≤ sleep (n + left)
  sleep-le n zero = omega (arith, ap sleep (whole n))
    where
      whole : (n : ℕ) → n + zero ≡ n
      whole n = omega arith
  sleep-le n (suc left) =
      omega (arith, sleep-le n left, sleep-suc (n + left), ap sleep (same n left))
    where
      same : (n left : ℕ) → n + suc left ≡ suc (n + left)
      same n left = omega arith

  -- From the attempt `suc n` on, with `left` attempts after it: the calls, and all the sleeps.
  abbrev IsBounded : ℕ → ℕ → Delivery → Type 0
  IsBounded left n d = (d.calls ≤ suc left) × (total_delay d + sleep n ≤ sleep (n + left))

  round-IsBounded :
      (left n : ℕ) (rest : String → Delivery)
      → ((e : String)
          → leb s.telegram_max_retries (suc n) ≡ false
          → ((rest e).calls ≤ left) × (total_delay (rest e) + sleep (suc n) ≤ sleep (n + left)))
      → (outcome : Sent) → IsBounded left n (after_reply now s replies m (suc n) rest outcome)
  unfolding retry_delay
  round-IsBounded left n rest bounded (Sent.sent id) = (omega arith, omega (arith, sleep-le n left))
  round-IsBounded left n rest bounded (Sent.permanent e) =
      (omega arith, omega (arith, sleep-le n left))
  round-IsBounded left n rest bounded (Sent.configuration e) =
      (omega arith, omega (arith, sleep-le n left))
  round-IsBounded left n rest bounded Sent.uncaught = (omega arith, omega (arith, sleep-le n left))
  round-IsBounded left n rest bounded (Sent.transient e) =
      elim (Bool-cases (leb s.telegram_max_retries (suc n))) [
        | inl final ↦ rw final (omega arith, omega (arith, sleep-le n left))
        | inr more ↦
            let (calls, delays) = bounded e more in
            let before : suc n - 1 ≡ n = omega arith in
            rw more (omega (arith, calls), omega (arith, delays, sleep-suc n, ap sleep before))
      ]

  attempts-IsBounded :
      (left n : ℕ) (e : String)
      → n + suc left ≡ s.telegram_max_retries
      → IsBounded left n (attempts now s replies m (suc left) (suc n) e)
  unfolding attempts
  attempts-IsBounded zero n e h =
      round-IsBounded zero n (λ e. attempts now s replies m zero (suc (suc n)) e)
        (λ e more. absurd (ground (arith, more, h))) (send_message (replies (suc n)) m.parse_mode)
  attempts-IsBounded (suc left) n e h =
      round-IsBounded (suc left) n (λ e. attempts now s replies m (suc left) (suc (suc n)) e)
        (λ e more.
          let (calls, delays) = attempts-IsBounded left (suc n) e (omega (arith, h)) in
          (calls, omega (arith, delays, ap sleep (shifted n left))))
        (send_message (replies (suc n)) m.parse_mode)
    where
      shifted : (n left : ℕ) → suc n + left ≡ n + suc left
      shifted n left = omega arith

  abbrev IsWithin : Delivery → Type 0
  IsWithin d =
      (d.calls ≤ s.telegram_max_retries)
      × (total_delay d < s.telegram_retry_base * 2 ^ (s.telegram_max_retries - 1))

  attempts-IsWithin :
      (left : ℕ) (e : String)
      → left ≡ s.telegram_max_retries
      → 0 < left
      → 0 < s.telegram_retry_base
      → IsWithin (attempts now s replies m left 1 e)
  attempts-IsWithin zero e same some_tries some_base = absurd (omega arith)
  attempts-IsWithin (suc left) e same some_tries some_base =
      let (calls, delays) = attempts-IsBounded left zero e (omega (arith, same)) in
      let last : s.telegram_max_retries - 1 ≡ 0 + left = omega (arith, same) in
      (omega (arith, calls, same), rw last (omega (arith, delays, some_base)))

  unrouted-IsWithin :
      0 < s.telegram_retry_base
      → total_delay (record { answer = none; calls = 0; delays = [] })
        < s.telegram_retry_base * 2 ^ (s.telegram_max_retries - 1)
  unrouted-IsWithin some_base =
      let same : 0 + (s.telegram_max_retries - 1) ≡ s.telegram_max_retries - 1 = omega arith in
      omega (arith, sleep-le 0 (s.telegram_max_retries - 1), some_base, ap sleep same)

-- A message takes as many calls as there are attempts, at most, and the sleeps between them, in sum, are
-- shorter than the sleep that would come after the last.
pub deliver_outbound_message-bounds :
    (now : String) (s : Settings) (replies : ℕ → BotReply) (m : OutboundMessage)
    → 0 < s.telegram_max_retries
    → 0 < s.telegram_retry_base
    → let d = deliver_outbound_message now s replies m in
      (d.calls ≤ s.telegram_max_retries)
      × (total_delay d < s.telegram_retry_base * 2 ^ (s.telegram_max_retries - 1))
unfolding deliver_outbound_message
deliver_outbound_message-bounds now s replies m some_tries some_base =
    go (get_telegram_route s m.destination)
  where
    go :
        (route : Result String TelegramRoute)
        → IsWithin now s replies m (deliver_on now s replies m route)
    go (ok route) =
        attempts-IsWithin now s replies m s.telegram_max_retries "unknown delivery error" refl
          some_tries some_base
    go (err e) = (omega arith, unrouted-IsWithin now s replies m some_base)
