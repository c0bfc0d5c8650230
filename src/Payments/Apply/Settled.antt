-- ===== src/Payments/Apply/Settled.antt =====
-- The statuses that `apply_invoice_status_update` of apps/payments/services.py lets follow one
-- another, for the invoice and for its order.
pub mod Targets
use palingames.Base.{
  ℕ, ◌≤◌, ◌≡◌, refl, ◌∙◌, ap, String, Bool, true, false, Option, none, some, List, [], ◌∷◌, arith,
  is_some, or_else, sym, subst, ◌||◌,
}
use native.Mathlib.Nat.{le_trans}
use palingames.Orders.Model.{Order, OrderStatus}
use palingames.CustomGames.Model.{CustomGameRequest}
use palingames.Payments.Model.{Invoice, InvoiceStatus, is_paid}
use palingames.Payments.Session.{Env, Session}
use palingames.Payments.Status.{map_invoice_status, is_forbidden_transition, resolve_status_update}
use palingames.Payments.Apply.{
  provider_of, with_report, saved, StatusPayload, mark_custom_game_request_paid,
  apply_order_status_from_invoice_status, apply_custom_game_request_status_from_invoice_status,
  apply_to_target, apply_payable_status_from_invoice_status, save_invoice_and_target, record_report,
  normalize_notification_datetime, apply_invoice_status_update,
}
use palingames.Payments.Apply.Objects.{
  heeded, resolve_status_update-heeded, resolve_status_update-objects, mark_order_paid-objects,
}
pub use palingames.Payments.Apply.Settled.Targets.{
  Carries, IsConsistent, OrderAgrees, target-IsConsistent, target-status,
}

Carries-record :
    (env : Env) (provider : String) (payload : StatusPayload) (st : Option InvoiceStatus)
    (s : Session)
    → Carries st (record s { invoice = record_report env provider payload st s.invoice })
unfolding record_report
Carries-record env provider payload none s = tt
Carries-record env provider payload (some st) s = refl

save-invoice : (s : Session) → (save_invoice_and_target s).invoice ≡ s.invoice
unfolding save_invoice_and_target
save-invoice s = ground arith

save-order : (s : Session) → (save_invoice_and_target s).order ≡ s.order
unfolding save_invoice_and_target
save-order s = ground arith

saved-invoice : (b : Bool) (t : Session) → (saved b t).invoice ≡ t.invoice
saved-invoice true t = save-invoice t
saved-invoice false t = refl

pub saved-order : (b : Bool) (t : Session) → (saved b t).order ≡ t.order
saved-order true t = save-order t
saved-order false t = refl

saved-IsConsistent : (b : Bool) (t : Session) → IsConsistent t → IsConsistent (saved b t)
saved-IsConsistent true t c = record {
  order_agrees = rw (save-order t) (rw (save-invoice t) c.order_agrees);
  paid_has_paid_at = rw (save-invoice t) c.paid_has_paid_at;
}
saved-IsConsistent false t c = c

-- The session between the assignments to the invoice and the update of its target.
abbrev pub reported : Env → Option ℕ → StatusPayload → Session → Session
reported env code payload s =
    with_report env (provider_of s.invoice) payload
      (resolve_status_update (provider_of s.invoice) code s)

abbrev pub answer : Option ℕ → Session → Option InvoiceStatus
answer code s = (resolve_status_update (provider_of s.invoice) code s).0

reported-Carries :
    (env : Env) (code : Option ℕ) (payload : StatusPayload) (s : Session)
    → Carries (answer code s) (reported env code payload s)
reported-Carries env code payload s =
    Carries-record env (provider_of s.invoice) payload (answer code s)
      (resolve_status_update (provider_of s.invoice) code s).1

reported-status :
    (env : Env) (code : Option ℕ) (payload : StatusPayload) (s : Session)
    → (reported env code payload s).invoice.status ≡ or_else (answer code s) s.invoice.status
unfolding record_report
reported-status env code payload s =
    ap (λ (t : Session). or_else (answer code s) t.invoice.status)
      (resolve_status_update-objects (provider_of s.invoice) code s)

pub reported-order :
    (env : Env) (code : Option ℕ) (payload : StatusPayload) (s : Session)
    → (reported env code payload s).order ≡ s.order
reported-order env code payload s =
    ap (λ (t : Session). t.order) (resolve_status_update-objects (provider_of s.invoice) code s)

pub reported-request :
    (env : Env) (code : Option ℕ) (payload : StatusPayload) (s : Session)
    → (reported env code payload s).request ≡ s.request
reported-request env code payload s =
    ap (λ (t : Session). t.request) (resolve_status_update-objects (provider_of s.invoice) code s)

reported-IsConsistent :
    (env : Env) (code : Option ℕ) (payload : StatusPayload) (s : Session)
    → IsConsistent s
    → answer code s ≡ none
    → IsConsistent (reported env code payload s)
unfolding record_report
reported-IsConsistent env code payload s c e = rw e (
    subst
      (λ (t : Session). IsConsistent (with_report env (provider_of s.invoice) payload (none, t)))
      (sym (resolve_status_update-objects (provider_of s.invoice) code s))
      (record { order_agrees = c.order_agrees; paid_has_paid_at = c.paid_has_paid_at }))

module _ (env : Env) (code : Option ℕ) (source : String) (persist : Bool)
    (payload : StatusPayload) where
  -- The answer of an update, and the invoice's status after it.
  pub apply_invoice_status_update-status :
      (s : Session)
      → let (answer, t) = apply_invoice_status_update env code source persist payload s in
        (answer ≡ heeded s.invoice.status (map_invoice_status code))
        × (t.invoice.status ≡ or_else answer s.invoice.status)
  unfolding apply_invoice_status_update apply_payable_status_from_invoice_status
  apply_invoice_status_update-status s =
      let r : Session = reported env code payload s in
      (
        resolve_status_update-heeded (provider_of s.invoice) code s,
        ap (λ (i : Invoice). i.status)
              (saved-invoice persist (
                apply_to_target env (normalize_notification_datetime env payload.event_at) source
                  (answer code s) r.order r.request r))
            ∙ target-status env (normalize_notification_datetime env payload.event_at) source
                (answer code s) r.order r.request r (reported-Carries env code payload s)
            ∙ reported-status env code payload s,
      )

  pub apply_invoice_status_update-IsConsistent :
      (s : Session)
      → (is_some s.order || is_some s.request) ≡ true
      → IsConsistent s
      → IsConsistent (apply_invoice_status_update env code source persist payload s).1
  unfolding apply_invoice_status_update apply_payable_status_from_invoice_status
  apply_invoice_status_update-IsConsistent s has c =
      let r : Session = reported env code payload s in
      saved-IsConsistent persist _ (
        target-IsConsistent env (normalize_notification_datetime env payload.event_at) source
          (answer code s) r.order r.request r refl
          (rw (reported-order env code payload s) (rw (reported-request env code payload s) has))
          (reported-Carries env code payload s) (reported-IsConsistent env code payload s c))

-- A report, as it reaches `apply_invoice_status_update`.
pub record Report : Type 0 where
  pub env : Env
  pub code : Option ℕ
  pub source : String
  pub persist : Bool
  pub payload : StatusPayload

abbrev pub receive : Report → Session → Session
receive r s = (apply_invoice_status_update r.env r.code r.source r.persist r.payload s).1

unfoldable pub receive_all : List Report → Session → Session
receive_all [] s = s
receive_all (r ∷ rs) s = receive_all rs (receive r s)

-- How far an invoice has been settled.
abbrev pub settlement : InvoiceStatus → ℕ
settlement InvoiceStatus.paid = 1
settlement InvoiceStatus.refunded = 2
settlement _ = 0

settlement-heeded :
    (old : InvoiceStatus) (st : Option InvoiceStatus)
    → settlement old ≤ settlement (or_else (heeded old st) old)
unfolding is_forbidden_transition
settlement-heeded old st = ground arith

-- Whatever is reported, in whatever order, a paid invoice stays paid or is refunded, and a refunded
-- one stays refunded.
pub settlement-receive_all :
    (rs : List Report) (s : Session)
    → settlement s.invoice.status ≤ settlement (receive_all rs s).invoice.status
unfolding receive_all
settlement-receive_all [] s = omega arith
settlement-receive_all (r ∷ rs) s =
    let st = apply_invoice_status_update-status r.env r.code r.source r.persist r.payload s in
    le_trans (rw st.1 (rw st.0 (settlement-heeded s.invoice.status (map_invoice_status r.code))))
      (settlement-receive_all rs (receive r s))
