-- ===== src/Payments/Webhook/Once.antt =====
-- Repeated deliveries of a notification to `_process_status_change` of
-- apps/payments/views/express_pay.py.
use palingames.Base.{
  ◌≡◌, refl, sym, ap, ◌∙◌, subst, String, Bool, true, false, not, Option, List, [], ◌∷◌, any, arith,
  Result, ok, err, ◌>>◌, raise_if, not_raised, passed, ok-injective,
}
use palingames.Base.Text.{str_eq-same}
use palingames.Orders.Model.{Order}
use palingames.CustomGames.Model.{CustomGameRequest}
use palingames.Access.Model.{Tables}
use palingames.Payments.Model.{Invoice, PaymentEvent}
use palingames.Payments.Session.{Env, Session, reload}
use palingames.Payments.Webhook.{
  Format, Notification, Gateway, WebhookError, build_payment_event_key, has_key, handle,
  is_addressed, process_status_change, validate_invoice_payment_payload,
}

-- An accepted notification was addressed to the invoice and agrees with it.
pub process_status_change-ok :
    (f : Format) (env : Env) (n : Notification) (g : Gateway) {g' : Gateway}
    → process_status_change f env n g ≡ ok g'
    → let s = reload g.session in
      (is_addressed n s ≡ true)
      × (validate_invoice_payment_payload s n.account_no n.invoice_no n.amount n.currency n.status
          ≡ ok tt)
      × (g' ≡ handle f env n s g.events (any (has_key (build_payment_event_key f n)) g.events))
unfolding process_status_change
process_status_change-ok f env n g {g'} h =
    let s = reload g.session in
    let valid =
      validate_invoice_payment_payload s n.account_no n.invoice_no n.amount n.currency n.status in
    let found = raise_if (not (is_addressed n s)) WebhookError.does_not_exist in
    let two = passed (found >> valid) h in
    let one = passed found two.0 in
    let missing = not_raised (not (is_addressed n s)) WebhookError.does_not_exist one.0 in
    (ground (arith, missing), one.1, sym (ok-injective two.1))

-- The state after a delivery: an error undoes the transaction.
abbrev pub delivered : Gateway → Result WebhookError Gateway → Gateway
delivered g (ok g') = g'
delivered g (err e) = g

unfoldable pub deliver : Format → Env → Notification → Gateway → Gateway
deliver f env n g = delivered g (process_status_change f env n g)

pub deliver_all : Format → List (Env × Notification) → Gateway → Gateway
unfolding deliver
deliver_all f [] g = g
deliver_all f ((env, n) ∷ ns) g = deliver_all f ns (deliver f env n g)

-- The rows of the database.
abbrev pub rows_of :
    Gateway → Invoice × Option Order × Option CustomGameRequest × Tables × List PaymentEvent
rows_of g = (
  g.session.stored_invoice, g.session.stored_order, g.session.stored_request, g.session.access,
  g.events,
)

abbrev pub is_known : String → Gateway → Bool
is_known key g = any (has_key key) g.events

known-handle :
    (f : Format) (env : Env) (n : Notification) (s : Session) (events : List PaymentEvent)
    (key : String) (b : Bool)
    → any (has_key key) events ≡ true
    → is_known key (handle f env n s events b) ≡ true
known-handle f env n s events key true h = h
known-handle f env n s events key false h = ground (arith, h)

pub known-deliver :
    (f : Format) (env : Env) (n : Notification) (key : String) (g : Gateway)
    → is_known key g ≡ true
    → is_known key (deliver f env n g) ≡ true
unfolding deliver
known-deliver f env n key g h = go (process_status_change f env n g) refl
  where
    go :
        (m : Result WebhookError Gateway)
        → process_status_change f env n g ≡ m
        → is_known key (delivered g m) ≡ true
    go (ok g') e =
        subst (λ (x : Gateway). is_known key x ≡ true)
          (sym {a = g'} ((process_status_change-ok f env n g {g' = g'} e).2))
          (known-handle f env n (reload g.session) g.events key
            (any (has_key (build_payment_event_key f n)) g.events) h)
    go (err e) r = h

known-deliver_all :
    (f : Format) (ns : List (Env × Notification)) (key : String) (g : Gateway)
    → is_known key g ≡ true
    → is_known key (deliver_all f ns g) ≡ true
unfolding deliver_all
known-deliver_all f [] key g h = h
known-deliver_all f ((env, n) ∷ ns) key g h =
    known-deliver_all f ns key (deliver f env n g) (known-deliver f env n key g h)

-- An accepted notification is known afterwards.
pub known-accepted :
    (f : Format) (env : Env) (n : Notification) (g : Gateway) {g' : Gateway}
    → process_status_change f env n g ≡ ok g'
    → is_known (build_payment_event_key f n) g' ≡ true
known-accepted f env n g {g'} h =
    subst (λ (x : Gateway). is_known key x ≡ true)
      (sym {a = g'} ((process_status_change-ok f env n g {g' = g'} h).2))
      (go (any (has_key key) g.events) refl)
  where
    key : String
    key = build_payment_event_key f n

    go :
        (b : Bool)
        → any (has_key key) g.events ≡ b
        → is_known key (handle f env n (reload g.session) g.events b) ≡ true
    go true e = e
    go false e = ground (arith, str_eq-same key)

-- A known notification changes no row.
pub rows-known :
    (f : Format) (env : Env) (n : Notification) (g : Gateway)
    → is_known (build_payment_event_key f n) g ≡ true
    → rows_of (deliver f env n g) ≡ rows_of g
unfolding deliver
rows-known f env n g h = go (process_status_change f env n g) refl
  where
    go :
        (m : Result WebhookError Gateway)
        → process_status_change f env n g ≡ m
        → rows_of (delivered g m) ≡ rows_of g
    go (ok g') e =
        ap rows_of (process_status_change-ok f env n g {g' = g'} e).2
        ∙ ap (λ (b : Bool). rows_of (handle f env n (reload g.session) g.events b)) h
    go (err e) r = refl

-- Once a notification is accepted, a later delivery of it, after any others, changes no row.
pub rows-again :
    (f : Format) (env : Env) (n : Notification) (g : Gateway) {g' : Gateway}
    → process_status_change f env n g ≡ ok g'
    → (ns : List (Env × Notification)) (env' : Env)
    → rows_of (deliver f env' n (deliver_all f ns g')) ≡ rows_of (deliver_all f ns g')
rows-again f env n g {g'} h ns env' =
    rows-known f env' n (deliver_all f ns g')
      (known-deliver_all f ns (build_payment_event_key f n) g' (known-accepted f env n g h))
