-- ===== src/Payments/Apply/Handovers.antt =====
-- What `mark_order_paid` of apps/payments/services.py sends, and whose access it changes, when it is called
-- by `apply_invoice_status_update`.
use palingames.Base.{
  ℕ, suc, ◌+◌, ◌≤◌, Bool-cases, inl, inr, ◌≡◌, refl, ap, String, Bool, true, false, not, Option,
  none, some, List, [], ◌∷◌, arith, or_else, count_if,
}
use palingames.Orders
use palingames.Orders.Model.{Order, OrderStatus, CheckoutType}
use palingames.CustomGames.Model.{CustomGameRequest}
use palingames.Access.Model.{Tables}
use palingames.Access.Guests.{Payload, grant_guest_product_accesses}
use palingames.Payments.Model.{InvoiceStatus}
use palingames.Payments.Session.{Effect, Env, Session, emit}
use palingames.Payments.Status.{is_paid_status_regression, resolve_status_update}
use palingames.Payments.Apply.{
  invoice_paid, order_marked_paid, send_guest_access, grant_accesses, fulfil, mark_order_paid,
  mark_custom_game_request_paid, apply_order_status_from_invoice_status,
  apply_custom_game_request_status_from_invoice_status, apply_to_target, save_invoice_and_target,
  saved,
}

-- What a fulfilment sends: the counter of `inc_order_paid`, the analytics of the purchase, and the mail
-- with a guest's accesses.
pub data Handover : Type 0 where
  order_paid purchase_analytics guest_access_email : Handover

abbrev pub is_handover : Handover → Effect → Bool
is_handover Handover.order_paid (Effect.order_paid id) = true
is_handover Handover.purchase_analytics (Effect.purchase_analytics id source) = true
is_handover Handover.guest_access_email (Effect.guest_access_email email payloads) = true
is_handover _ _ = false

abbrev pub handovers : Handover → Session → ℕ
handovers k s = count_if (is_handover k) s.effects

-- An update to PAID hands the order over if it is not paid yet.
abbrev pub hands_over : Option InvoiceStatus → Option Order → Bool
hands_over (some InvoiceStatus.paid) (some order) = not (Orders.Model.is_paid order.status)
hands_over _ _ = false

abbrev pub one_if : Bool → ℕ
one_if true = 1
one_if false = 0

-- What the grants themselves may send.
abbrev mails : Handover → ℕ
mails Handover.guest_access_email = 1
mails _ = 0

handovers-send :
    (k : Handover) (order : Order) (g : List Payload × Tables) (s : Session)
    → handovers k (send_guest_access order g s) ≤ mails k + handovers k s
handovers-send k order ([], access) s = omega arith
handovers-send Handover.order_paid order (p ∷ ps, access) s = omega arith
handovers-send Handover.purchase_analytics order (p ∷ ps, access) s = omega arith
handovers-send Handover.guest_access_email order (p ∷ ps, access) s = omega arith

handovers-grant :
    (k : Handover) (env : Env) (order : Order) (c : CheckoutType) (s : Session)
    → handovers k (grant_accesses env order c s) ≤ mails k + handovers k s
handovers-grant k env order CheckoutType.authenticated s = omega arith
handovers-grant k env order CheckoutType.guest s =
    handovers-send k order
      (grant_guest_product_accesses env.hash env.guest_settings env.now order env.tokens s.access) s

handovers-fulfil :
    (k : Handover) (env : Env) (source : String) (order : Order) (s : Session)
    → handovers k (fulfil env source order s) ≤ suc (handovers k s)
unfolding fulfil
handovers-fulfil Handover.order_paid env source order s =
    omega (arith, handovers-grant Handover.order_paid env order order.checkout_type s)
handovers-fulfil Handover.purchase_analytics env source order s =
    omega (arith, handovers-grant Handover.purchase_analytics env order order.checkout_type s)
handovers-fulfil Handover.guest_access_email env source order s =
    omega (arith, handovers-grant Handover.guest_access_email env order order.checkout_type s)

-- What follows `s` hands over once at most, and if `h` is not given, not at all; then no access changes.
abbrev pub HandsOver : Bool → Session → Session → Type 0
HandsOver h s t =
    ((k : Handover) → handovers k t ≤ one_if h + handovers k s) × (h ≡ false → t.access ≡ s.access)

pub is_handover-resolve :
    (k : Handover) (provider : String) (code : Option ℕ) (s : Session)
    → handovers k (resolve_status_update provider code s).1 ≡ handovers k s
unfolding resolve_status_update is_paid_status_regression
is_handover-resolve Handover.order_paid provider code s = ground arith
is_handover-resolve Handover.purchase_analytics provider code s = ground arith
is_handover-resolve Handover.guest_access_email provider code s = ground arith

pub access-save : (b : Bool) (s : Session) → (saved b s).access ≡ s.access
unfolding save_invoice_and_target
access-save b s = ground arith

pub handovers-save :
    (k : Handover) (b : Bool) (s : Session) → handovers k (saved b s) ≡ handovers k s
unfolding save_invoice_and_target
handovers-save k b s = ap (count_if (is_handover k)) (effects b s)
  where
    effects : (b : Bool) (s : Session) → (saved b s).effects ≡ s.effects
    effects b s = ground arith

module _ (env : Env) (at : Option ℕ) (source : String) where
  abbrev marked : Order → Session → Session
  marked order s = record s {
    invoice = invoice_paid (or_else at env.now) s.invoice;
    order = some (order_marked_paid (or_else at env.now) order);
  }

  counted :
      (order : Order) (s : Session) (k : Handover)
      → handovers k (
          emit
            (Effect.order_reward order.id)
            (emit (Effect.order_paid_duplicate order.id) (marked order s)))
        ≤ 0 + handovers k s
  counted order s Handover.order_paid = omega arith
  counted order s Handover.purchase_analytics = omega arith
  counted order s Handover.guest_access_email = omega arith

  rewarded :
      (order : Order) (k : Handover) (t : Session)
      → handovers k (emit (Effect.order_reward order.id) t) ≡ handovers k t
  rewarded order Handover.order_paid t = refl
  rewarded order Handover.purchase_analytics t = refl
  rewarded order Handover.guest_access_email t = refl

  fulfilled :
      (order : Order) (s : Session) (k : Handover)
      → handovers k (
          emit
            (Effect.order_reward order.id)
            (fulfil env source (order_marked_paid (or_else at env.now) order) (marked order s)))
        ≤ 1 + handovers k s
  fulfilled order s k = omega (
    arith,
    rewarded order k
        (fulfil env source (order_marked_paid (or_else at env.now) order) (marked order s)),
    handovers-fulfil k env source (order_marked_paid (or_else at env.now) order) (marked order s),
  )

  HandsOver-mark :
      (order : Order) (s : Session)
      → HandsOver
          (not (Orders.Model.is_paid order.status))
          s
          (mark_order_paid env at source false order s)
  unfolding mark_order_paid
  HandsOver-mark order s = elim (Bool-cases (Orders.Model.is_paid order.status)) [
    | inl again ↦ rw again ((λ k. counted order s k), λ h. refl)
    | inr first ↦ rw first ((λ k. fulfilled order s k), λ h. cc)
  ]

  refunded_lem :
      (k : Handover) (id invoice_id : ℕ) (provider : String) (s : Session)
      → handovers k (emit (Effect.order_refunded_incident provider id invoice_id) s) ≡ handovers k s
  refunded_lem Handover.order_paid id invoice_id provider s = refl
  refunded_lem Handover.purchase_analytics id invoice_id provider s = refl
  refunded_lem Handover.guest_access_email id invoice_id provider s = refl

  of_request :
      (st : Option InvoiceStatus) (request : CustomGameRequest) (s : Session) (k : Handover)
      → handovers k (apply_to_target env at source st none (some request) s)
        ≤ one_if (hands_over st none) + handovers k s
  unfolding apply_custom_game_request_status_from_invoice_status mark_custom_game_request_paid
  of_request st request s Handover.order_paid = ground arith
  of_request st request s Handover.purchase_analytics = ground arith
  of_request st request s Handover.guest_access_email = ground arith

  pub HandsOver-target :
      (st : Option InvoiceStatus) (order : Option Order) (request : Option CustomGameRequest)
      (s : Session)
      → HandsOver (hands_over st order) s (apply_to_target env at source st order request s)
  unfolding apply_order_status_from_invoice_status
      apply_custom_game_request_status_from_invoice_status mark_custom_game_request_paid
  HandsOver-target (some InvoiceStatus.paid) (some order) request s = HandsOver-mark order s
  HandsOver-target (some InvoiceStatus.refunded) (some order) request s =
      (λ k. omega (arith, refunded_lem k order.id s.invoice.id s.invoice.provider s), λ h. refl)
  HandsOver-target (some InvoiceStatus.canceled) (some order) request s =
      (λ k. omega arith, λ h. refl)
  HandsOver-target (some InvoiceStatus.expired) (some order) request s =
      (λ k. omega arith, λ h. refl)
  HandsOver-target (some InvoiceStatus.pending) (some order) request s =
      (λ k. omega arith, λ h. refl)
  HandsOver-target none (some order) request s = (λ k. omega arith, λ h. refl)
  HandsOver-target st none (some request) s = (λ k. of_request st request s k, λ h. ground arith)
  HandsOver-target st none none s = (λ k. ground arith, λ h. refl)
