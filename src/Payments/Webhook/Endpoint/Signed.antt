-- ===== src/Payments/Webhook/Endpoint/Signed.antt =====
-- What a request to `ExpressPayNotificationView` changes, where signatures are asked for.
use palingames.Base.{
  Result, ok, err, ok-injective, ◌≡◌, ◌⊎◌, inl, inr, refl, ap, ◌∙◌, ℕ, String, Bool, true, false,
  not, Option, none, some, List, ◌==◌, arith, Bool-cases, if◌then◌else◌,
}
use palingames.Payments.Session.{Env}
use palingames.Payments.Webhook.{Format, Gateway, Notification, WebhookError, process_status_change}
use palingames.Payments.Webhook.Endpoint.{
  Answer, Client, Failure, Field, HttpRequest, Json, Raw, Site, answer_to, get,
  get_raw_webhook_payload, handle_command, handle_known, handle_status_change_notification,
  handle_validated, handle_verified, int_of, parsed, post_notification, site_payment_account_exists,
  success_response, Value, verify_raw, verify_webhook_signature,
}

-- The request carries a text that has these fields, and its signature.
abbrev pub IsSigned : Client → HttpRequest → List Field → Type 0
IsSigned client r fields =
    (sent : String) × (signature : String) × (get_raw_webhook_payload client r
      ≡ some (sent, some (Value.text signature)))
    × (client.is_valid_signature sent signature ≡ true)
    × (client.loads sent ≡ some (Json.object fields))

-- Either nothing changes, or a signed notification on an account of the site is accepted.
abbrev pub IsHandled :
    Client → Site → Format → Env → HttpRequest → Gateway → Answer × Gateway → Type 0
IsHandled client site f env r g (answer, g') =
    (g' ≡ g)
    ⊎ ((fields : List Field) × (n : Notification) × IsSigned client r fields
        × (int_of (get "CmdType" fields) ≡ some 3)
        × (client.model_validate fields ≡ some n)
        × (site_payment_account_exists site (some n.account_no) ≡ true)
        × (process_status_change f env n g ≡ ok g')
        × (answer ≡ success_response))

pub parsed-IsSigned :
    (client : Client) (r : HttpRequest) (fields : List Field)
    → client.use_signature ≡ true
    → (raw : Option Raw) → get_raw_webhook_payload client r ≡ raw
    → verify_raw client raw ≡ ok (Json.object fields)
    → IsSigned client r fields
parsed-IsSigned client r fields asked none e h = cc
parsed-IsSigned client r fields asked (some (sent, none)) e h = absurd (ground (arith, asked, h))
parsed-IsSigned client r fields asked (some (sent, some Value.null)) e h =
    absurd (ground (arith, asked, h))
parsed-IsSigned client r fields asked (some (sent, some (Value.other printed))) e h =
    absurd (ground (arith, asked, h))
parsed-IsSigned client r fields asked (some (sent, some (Value.text signature))) e h =
    elim (Bool-cases (client.is_valid_signature sent signature)) [
      | inl valid ↦
          (sent, signature, e, valid, go (client.loads sent) refl (ground (arith, asked, h, valid)))
      | inr invalid ↦ absurd (ground (arith, asked, h, invalid))
    ]
  where
    go :
        (m : Option Json)
        → client.loads sent ≡ m
        → parsed client m ≡ ok (Json.object fields)
        → client.loads sent ≡ some (Json.object fields)
    go none e h = cc
    go (some payload) e h = e ∙ ap some (ok-injective h)

module _ (client : Client) (site : Site) (f : Format) (env : Env) (r : HttpRequest) (g : Gateway)
    (asked : client.use_signature ≡ true) where
  answered-IsHandled :
      (fields : List Field) (n : Notification)
      → IsSigned client r fields
      → int_of (get "CmdType" fields) ≡ some 3
      → client.model_validate fields ≡ some n
      → site_payment_account_exists site (some n.account_no) ≡ true
      → (m : Result WebhookError Gateway) → process_status_change f env n g ≡ m
      → IsHandled client site f env r g (answer_to g m)
  unfolding answer_to
  answered-IsHandled fields n signed three valid known (ok g') e =
      inr (fields, n, signed, three, valid, known, e, refl)
  answered-IsHandled fields n _ _ _ _ (err WebhookError.does_not_exist) _ = inl refl
  answered-IsHandled fields n _ _ _ _ (err WebhookError.account_no) _ = inl refl
  answered-IsHandled fields n _ _ _ _ (err WebhookError.invoice_no) _ = inl refl
  answered-IsHandled fields n _ _ _ _ (err WebhookError.amount_missing) _ = inl refl
  answered-IsHandled fields n _ _ _ _ (err WebhookError.amount) _ = inl refl
  answered-IsHandled fields n _ _ _ _ (err WebhookError.target_amount) _ = inl refl
  answered-IsHandled fields n _ _ _ _ (err WebhookError.currency) _ = inl refl

  known-IsHandled :
      (fields : List Field) (n : Notification)
      → IsSigned client r fields
      → int_of (get "CmdType" fields) ≡ some 3
      → client.model_validate fields ≡ some n
      → (known : Bool) → site_payment_account_exists site (some n.account_no) ≡ known
      → IsHandled client site f env r g (handle_known client site f env n g known)
  known-IsHandled fields n signed three valid true known =
      answered-IsHandled fields n signed three valid known (process_status_change f env n g) refl
  known-IsHandled fields n _ _ _ false _ = inl refl

  validated-IsHandled :
      (fields : List Field)
      → IsSigned client r fields
      → int_of (get "CmdType" fields) ≡ some 3
      → (m : Option Notification) → client.model_validate fields ≡ m
      → IsHandled client site f env r g (handle_validated client site f env g m)
  validated-IsHandled fields _ _ none _ = inl refl
  validated-IsHandled fields signed three (some n) valid =
      known-IsHandled fields n signed three valid
        (site_payment_account_exists site (some n.account_no)) refl

  commanded-IsHandled :
      (fields : List Field)
      → IsSigned client r fields
      → (cmd_type : Option ℕ) → int_of (get "CmdType" fields) ≡ cmd_type
      → IsHandled client site f env r g (handle_command client site f env fields g cmd_type)
  unfolding handle_status_change_notification
  commanded-IsHandled fields _ none _ = inl refl
  commanded-IsHandled fields signed (some cmd_type) e = go (cmd_type == 3) refl
    where
      go :
          (is_status_change : Bool)
          → (cmd_type == 3) ≡ is_status_change
          → IsHandled client site f env r g (
              if not is_status_change
              then (success_response, g)
              else handle_status_change_notification client site f env fields g)
      go false _ = inl refl
      go true same =
          validated-IsHandled fields signed (ground (arith, e, same)) (client.model_validate fields)
            refl

  verified-IsHandled :
      (m : Result Failure Json)
      → verify_webhook_signature client r ≡ m
      → IsHandled client site f env r g (handle_verified client site f env g m)
  unfolding verify_webhook_signature
  verified-IsHandled (err Failure.signature_error) _ = inl refl
  verified-IsHandled (err Failure.validation_error) _ = inl refl
  verified-IsHandled (err Failure.uncaught) _ = inl refl
  verified-IsHandled (ok (Json.plain v)) _ = inl refl
  verified-IsHandled (ok (Json.object fields)) e =
      commanded-IsHandled fields
        (parsed-IsSigned client r fields asked (get_raw_webhook_payload client r) refl e)
        (int_of (get "CmdType" fields)) refl

-- Where signatures are asked for, a request leaves the tables as they are, unless it carries a valid
-- signature for its data, which report the status of an invoice with an account number of the site; then
-- the tables are those of that notification, accepted, and the answer is SUCCESS.
pub post_notification-IsHandled :
    (client : Client) (site : Site) (f : Format) (env : Env) (r : HttpRequest) (g : Gateway)
    → client.use_signature ≡ true
    → IsHandled client site f env r g (post_notification client site f env r g)
unfolding post_notification
post_notification-IsHandled client site f env r g asked =
    verified-IsHandled client site f env r g asked (verify_webhook_signature client r) refl
