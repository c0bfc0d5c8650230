-- ===== src/Payments/Webhook/Endpoint/Repeated.antt =====
-- A request that `ExpressPayNotificationView` receives again, after others.
use palingames.Base.{
  Result, ok, err, ◌≡◌, inl, inr, refl, sym, ap, ◌∙◌, subst, ℕ, Bool, true, false, not, Option,
  none, some, List, [], ◌∷◌, ◌==◌, if◌then◌else◌,
}
use palingames.Payments.Session.{Env}
use palingames.Payments.Webhook.{
  Format, Gateway, Notification, WebhookError, build_payment_event_key, process_status_change,
}
use palingames.Payments.Webhook.Once.{
  deliver, delivered, is_known, known-accepted, known-deliver, rows-known, rows_of,
}
use palingames.Payments.Webhook.Endpoint.{
  Client, Field, HttpRequest, Json, Site, answer_to, get, handle_command, handle_known,
  handle_status_change_notification, int_of, post_notification, site_payment_account_exists,
  success_response, verify_webhook_signature,
}
use palingames.Payments.Webhook.Endpoint.Signed.{post_notification-IsHandled}

module _ (client : Client) (site : Site) (f : Format) where
  -- The tables after several requests.
  unfoldable pub post_all : List (Env × HttpRequest) → Gateway → Gateway
  post_all [] g = g
  post_all ((env, r) ∷ rs) g = post_all rs (post_notification client site f env r g).1

  known-post_all :
      client.use_signature ≡ true
      → (rs : List (Env × HttpRequest)) (g : Gateway) (n : Notification)
      → is_known (build_payment_event_key f n) g ≡ true
      → is_known (build_payment_event_key f n) (post_all rs g) ≡ true
  unfolding post_all deliver
  known-post_all asked [] g n known = known
  known-post_all asked ((env, r) ∷ rs) g n known =
      known-post_all asked rs (post_notification client site f env r g).1 n
        (elim (post_notification-IsHandled client site f env r g asked) [
          | inl same ↦
              subst (λ (x : Gateway). is_known (build_payment_event_key f n) x ≡ true) (sym same)
                known
          | inr (_, n', _, _, _, _, e, _) ↦
              subst (λ (x : Gateway). is_known (build_payment_event_key f n) x ≡ true)
                (ap (delivered g) e) (known-deliver f env n' (build_payment_event_key f n) g known)
        ])

answer_to-delivered :
    (g : Gateway) (m : Result WebhookError Gateway) → (answer_to g m).1 ≡ delivered g m
unfolding answer_to
answer_to-delivered g (ok g') = refl
answer_to-delivered g (err WebhookError.does_not_exist) = refl
answer_to-delivered g (err WebhookError.account_no) = refl
answer_to-delivered g (err WebhookError.invoice_no) = refl
answer_to-delivered g (err WebhookError.amount_missing) = refl
answer_to-delivered g (err WebhookError.amount) = refl
answer_to-delivered g (err WebhookError.target_amount) = refl
answer_to-delivered g (err WebhookError.currency) = refl

-- A request with a known notification changes no row.
rows-post :
    (client : Client) (site : Site) (f : Format) (env : Env) (r : HttpRequest) (g : Gateway)
    (fields : List Field) (n : Notification)
    → verify_webhook_signature client r ≡ ok (Json.object fields)
    → client.model_validate fields ≡ some n
    → is_known (build_payment_event_key f n) g ≡ true
    → rows_of (post_notification client site f env r g).1 ≡ rows_of g
unfolding post_notification handle_status_change_notification deliver
rows-post client site f env r g fields n verified valid known =
    rw verified (commanded (int_of (get "CmdType" fields)))
  where
    known_to : (b : Bool) → rows_of (handle_known client site f env n g b).1 ≡ rows_of g
    known_to true =
        ap rows_of (answer_to-delivered g (process_status_change f env n g))
        ∙ rows-known f env n g known
    known_to false = refl

    status_change :
        (b : Bool)
        → rows_of
            (if not b
              then (success_response, g)
              else handle_status_change_notification client site f env fields g).1
          ≡ rows_of g
    status_change true = rw valid (known_to (site_payment_account_exists site (some n.account_no)))
    status_change false = refl

    commanded :
        (cmd_type : Option ℕ)
        → rows_of (handle_command client site f env fields g cmd_type).1 ≡ rows_of g
    commanded none = refl
    commanded (some cmd_type) = status_change (cmd_type == 3)

-- With signatures asked for, a request whose notification was accepted changes no row when it comes again
-- after any other requests.
pub post_notification-again :
    (client : Client) (site : Site) (f : Format) (env : Env) (r : HttpRequest) (g : Gateway)
    {g' : Gateway} {fields : List Field} {n : Notification}
    → client.use_signature ≡ true
    → verify_webhook_signature client r ≡ ok (Json.object fields)
    → client.model_validate fields ≡ some n
    → process_status_change f env n g ≡ ok g'
    → (rs : List (Env × HttpRequest)) (env' : Env)
    → rows_of (post_notification client site f env' r (post_all client site f rs g')).1
      ≡ rows_of (post_all client site f rs g')
post_notification-again client site f env r g {g'} {fields} {n} asked verified valid accepted rs
      env' =
    rows-post client site f env' r (post_all client site f rs g') fields n verified valid
      (known-post_all client site f asked rs g' n (known-accepted f env n g accepted))
