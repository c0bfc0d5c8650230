-- ===== src/Payments/Apply/Fulfilled.antt =====
-- How often, and to whom, `apply_invoice_status_update` of apps/payments/services.py hands over what
-- an order has paid for.
use palingames.Base.{
  ℕ, ◌+◌, ◌≤◌, ◌≡◌, refl, ap, ◌∙◌, String, Bool, true, false, Option, none, some, List, [], ◌∷◌,
  arith, is_some, or_else,
}
use palingames.Orders.Model.{Order}
use palingames.CustomGames.Model.{CustomGameRequest}
use palingames.Payments.Model.{InvoiceStatus}
use palingames.Payments.Session.{Env, Session}
use palingames.Payments.Status.{map_invoice_status, is_forbidden_transition}
use palingames.Payments.Apply.{
  StatusPayload, mark_custom_game_request_paid, apply_order_status_from_invoice_status,
  apply_custom_game_request_status_from_invoice_status, apply_to_target,
  apply_payable_status_from_invoice_status, provider_of, normalize_notification_datetime,
  apply_invoice_status_update,
}
use palingames.Payments.Apply.Objects.{
  mark_order_paid-objects, heeded, resolve_status_update-objects,
}
use palingames.Payments.Apply.Settled.{
  OrderAgrees, IsConsistent, answer, reported, reported-order, saved-order, Report, receive,
  receive_all, apply_invoice_status_update-status, apply_invoice_status_update-IsConsistent,
}
use palingames.Payments.Apply.Handovers.{
  Handover, HandsOver, HandsOver-target, access-save, handovers, handovers-save, hands_over,
  is_handover-resolve, one_if,
}

module _ (env : Env) (at : Option ℕ) (source : String) where
  order_kept :
      (st : Option InvoiceStatus) (order : Option Order) (request : Option CustomGameRequest)
      (s : Session)
      → s.order ≡ order
      → is_some (apply_to_target env at source st order request s).order ≡ is_some order
  unfolding apply_order_status_from_invoice_status
      apply_custom_game_request_status_from_invoice_status mark_custom_game_request_paid
  order_kept (some InvoiceStatus.paid) (some order) request s e =
      ap (λ (t : Session). is_some t.order) (mark_order_paid-objects env at source order s)
  order_kept (some _) (some order) request s e = refl
  order_kept none (some order) request s e = ap is_some e
  order_kept st none (some request) s e = ground arith
  order_kept st none none s e = ap is_some e

module _ (env : Env) (code : Option ℕ) (source : String) (persist : Bool)
    (payload : StatusPayload) where
  -- An update hands over if it brings about PAID for an order that is not paid, and once.
  HandsOver-apply_invoice_status_update :
      (s : Session)
      → let (answer, t) = apply_invoice_status_update env code source persist payload s in
        HandsOver (hands_over answer s.order) s t
  unfolding apply_invoice_status_update apply_payable_status_from_invoice_status
  HandsOver-apply_invoice_status_update s =
      let r : Session = reported env code payload s in
      let at : Option ℕ = normalize_notification_datetime env payload.event_at in
      let same : hands_over (answer code s) r.order ≡ hands_over (answer code s) s.order =
        ap (hands_over (answer code s)) (reported-order env code payload s) in
      let applied = HandsOver-target env at source (answer code s) r.order r.request r in
      (
        λ k. omega (
          arith,
          handovers-save k persist
              (apply_to_target env at source (answer code s) r.order r.request r),
          applied.0 k,
          is_handover-resolve k (provider_of s.invoice) code s,
          ap one_if same,
        ),
        λ h.
            access-save persist (apply_to_target env at source (answer code s) r.order r.request r)
            ∙ applied.1 (same ∙ h)
            ∙ ap (λ (t : Session). t.access)
                (resolve_status_update-objects (provider_of s.invoice) code s),
      )

  is_some-order :
      (s : Session)
      → is_some (apply_invoice_status_update env code source persist payload s).1.order
        ≡ is_some s.order
  unfolding apply_invoice_status_update apply_payable_status_from_invoice_status
  is_some-order s =
      let r : Session = reported env code payload s in
      ap is_some (saved-order persist _)
      ∙ order_kept env (normalize_notification_datetime env payload.event_at) source (answer code s)
          r.order r.request r refl
      ∙ ap is_some (reported-order env code payload s)

-- The purchases that may still be counted.
abbrev pub open_purchases : InvoiceStatus → ℕ
open_purchases InvoiceStatus.paid = 0
open_purchases InvoiceStatus.refunded = 0
open_purchases _ = 1

open_purchases-heeded :
    (old : InvoiceStatus) (st : Option InvoiceStatus) (order : Option Order)
    → OrderAgrees old order
    → one_if (hands_over (heeded old st) order) + open_purchases (or_else (heeded old st) old)
      ≤ open_purchases old
unfolding is_forbidden_transition
open_purchases-heeded old st none h = ground arith
open_purchases-heeded old st (some order) h = ground arith

-- However often and in whatever order payments are reported for an order whose invoice agrees with it, the
-- order is handed over at most once, and not at all if its invoice was settled before: at most one purchase
-- is counted, at most one analytics of a purchase and at most one mail with a guest's accesses are sent,
-- and once the invoice is settled, nobody's access changes. The invoice and the order stay in agreement,
-- and a paid invoice has its instant.
pub purchases-receive_all :
    (rs : List Report) (s : Session)
    → is_some s.order ≡ true
    → IsConsistent s
    → ((k : Handover)
        → handovers k (receive_all rs s) ≤ handovers k s + open_purchases s.invoice.status)
      × (open_purchases s.invoice.status ≡ 0 → (receive_all rs s).access ≡ s.access)
      × IsConsistent (receive_all rs s)
unfolding receive_all
purchases-receive_all [] s o c = (λ k. omega arith, λ settled. refl, c)
purchases-receive_all (r ∷ rs) s o c =
    let st = apply_invoice_status_update-status r.env r.code r.source r.persist r.payload s in
    let h : Bool =
      hands_over (apply_invoice_status_update r.env r.code r.source r.persist r.payload s).0
        s.order in
    let (count, access) =
      HandsOver-apply_invoice_status_update r.env r.code r.source r.persist r.payload s in
    let bound : one_if h + open_purchases (receive r s).invoice.status
        ≤ open_purchases s.invoice.status =
      rw st.1 (
        rw st.0 (
          open_purchases-heeded s.invoice.status (map_invoice_status r.code) s.order
            c.order_agrees)) in
    let (later, kept, agrees) =
      purchases-receive_all rs (receive r s)
        (is_some-order r.env r.code r.source r.persist r.payload s ∙ o)
        (apply_invoice_status_update-IsConsistent r.env r.code r.source r.persist r.payload s
          (rw o refl) c) in
    (
      λ k. omega (arith, count k, bound, later k),
      λ settled.
          kept (omega (arith, bound, settled))
          ∙ access (not_given h (omega (arith, bound, settled))),
      agrees,
    )
  where
    not_given : (h : Bool) → one_if h ≡ 0 → h ≡ false
    not_given true e = absurd (omega (arith, e))
    not_given false e = refl
