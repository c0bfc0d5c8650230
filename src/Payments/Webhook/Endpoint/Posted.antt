-- ===== src/Payments/Webhook/Endpoint/Posted.antt =====
-- What a request to `ExpressPaySettlementNotificationView` changes, where signatures are asked for.
use palingames.Base.{
  Result, ok, err, ◌≡◌, ◌⊎◌, inl, inr, refl, ℕ, Bool, true, false, Option, none, some, List, ◌==◌,
  if◌then◌else◌,
}
use palingames.Payments.Session.{Env}
use palingames.Payments.Webhook.{Format, Gateway, WebhookError}
use palingames.Payments.Webhook.Settlement.{Settlement, process_epos_notification}
use palingames.Payments.Webhook.Endpoint.{
  Answer, Client, Failure, Field, HttpRequest, Json, Site, get, get_raw_webhook_payload, int_of,
  site_payment_account_exists, success_response, verify_webhook_signature,
}
use palingames.Payments.Webhook.Endpoint.Signed.{IsSigned, parsed-IsSigned}
use palingames.Payments.Webhook.Endpoint.Settlements.{
  Validators, answer_erip, answer_to_settlement, get_parsed_webhook_payload, handle_cmd_type,
  handle_int, handle_payload, parse_express_pay_payload, post_settlement, settle_known,
  settle_validated,
}

-- Either nothing changes, or a signed settlement for an account of the site is accepted.
abbrev pub IsPosted :
    Client → Validators → Site → Format → Env → HttpRequest → Gateway → Answer × Gateway → Type 0
IsPosted client validators site f env r g (answer, g') =
    (g' ≡ g)
    ⊎ ((fields : List Field) × (n : Settlement) × IsSigned client r fields
        × (validators.epos fields ≡ some n)
        × (site_payment_account_exists site (some n.account_number) ≡ true)
        × (process_epos_notification f env n g ≡ ok g')
        × (answer ≡ success_response))

module _ (client : Client) (validators : Validators) (site : Site) (f : Format) (env : Env)
    (r : HttpRequest) (g : Gateway) (asked : client.use_signature ≡ true) where
  answered-IsPosted :
      (fields : List Field) (n : Settlement)
      → IsSigned client r fields
      → validators.epos fields ≡ some n
      → site_payment_account_exists site (some n.account_number) ≡ true
      → (m : Result WebhookError Gateway) → process_epos_notification f env n g ≡ m
      → IsPosted client validators site f env r g (answer_to_settlement g m)
  unfolding answer_to_settlement
  answered-IsPosted fields n signed valid known (ok g') e =
      inr (fields, n, signed, valid, known, e, refl)
  answered-IsPosted fields n _ _ _ (err WebhookError.does_not_exist) _ = inl refl
  answered-IsPosted fields n _ _ _ (err WebhookError.account_no) _ = inl refl
  answered-IsPosted fields n _ _ _ (err WebhookError.invoice_no) _ = inl refl
  answered-IsPosted fields n _ _ _ (err WebhookError.amount_missing) _ = inl refl
  answered-IsPosted fields n _ _ _ (err WebhookError.amount) _ = inl refl
  answered-IsPosted fields n _ _ _ (err WebhookError.target_amount) _ = inl refl
  answered-IsPosted fields n _ _ _ (err WebhookError.currency) _ = inl refl

  known-IsPosted :
      (fields : List Field) (n : Settlement)
      → IsSigned client r fields
      → validators.epos fields ≡ some n
      → (known : Bool) → site_payment_account_exists site (some n.account_number) ≡ known
      → IsPosted client validators site f env r g
          (settle_known client validators site f env n g known)
  known-IsPosted fields n signed valid true known =
      answered-IsPosted fields n signed valid known (process_epos_notification f env n g) refl
  known-IsPosted fields n _ _ false _ = inl refl

  validated-IsPosted :
      (fields : List Field)
      → IsSigned client r fields
      → (m : Option Settlement) → validators.epos fields ≡ m
      → IsPosted client validators site f env r g
          (settle_validated client validators site f env g m)
  validated-IsPosted fields _ none _ = inl refl
  validated-IsPosted fields signed (some n) valid =
      known-IsPosted fields n signed valid
        (site_payment_account_exists site (some n.account_number)) refl

  epos-IsPosted :
      (m : Result Failure Json)
      → verify_webhook_signature client r ≡ m
      → IsPosted client validators site f env r g (
          parse_express_pay_payload client validators site f env
            (λ fields. settle_validated client validators site f env g (validators.epos fields))
            g
            m)
  unfolding verify_webhook_signature
  epos-IsPosted (err Failure.signature_error) _ = inl refl
  epos-IsPosted (err Failure.validation_error) _ = inl refl
  epos-IsPosted (err Failure.uncaught) _ = inl refl
  epos-IsPosted (ok (Json.plain v)) _ = inl refl
  epos-IsPosted (ok (Json.object fields)) e =
      validated-IsPosted fields
        (parsed-IsSigned client r fields asked (get_raw_webhook_payload client r) refl e)
        (validators.epos fields) refl

  erip_fields-IsPosted :
      (b : Bool)
      → IsPosted client validators site f env r g
          (if b then (success_response, g) else (Answer.response "FAILED | Invalid payload" 400, g))
  erip_fields-IsPosted true = inl refl
  erip_fields-IsPosted false = inl refl

  erip-IsPosted :
      (m : Result Failure Json)
      → IsPosted client validators site f env r g (
          parse_express_pay_payload client validators site f env
            (answer_erip client validators site f env g)
            g
            m)
  erip-IsPosted (err Failure.signature_error) = inl refl
  erip-IsPosted (err Failure.validation_error) = inl refl
  erip-IsPosted (err Failure.uncaught) = inl refl
  erip-IsPosted (ok (Json.plain v)) = inl refl
  erip-IsPosted (ok (Json.object fields)) = erip_fields-IsPosted (validators.is_erip fields)

  command-IsPosted :
      (is_epos is_erip : Bool)
      → IsPosted client validators site f env r g (
          if is_epos
          then parse_express_pay_payload client validators site f env
              (λ fields. settle_validated client validators site f env g (validators.epos fields))
              g
              (verify_webhook_signature client r)
          else if is_erip
          then parse_express_pay_payload client validators site f env
              (answer_erip client validators site f env g)
              g
              (verify_webhook_signature client r)
          else (success_response, g))
  command-IsPosted true _ = epos-IsPosted (verify_webhook_signature client r) refl
  command-IsPosted false true = erip-IsPosted (verify_webhook_signature client r)
  command-IsPosted false false = inl refl

  number-IsPosted :
      (m : Option ℕ)
      → IsPosted client validators site f env r g (handle_int client validators site f env r g m)
  unfolding handle_cmd_type
  number-IsPosted none = inl refl
  number-IsPosted (some cmd_type) = command-IsPosted (cmd_type == 5) (cmd_type == 4)

  payload-IsPosted :
      (m : Option Json)
      → IsPosted client validators site f env r g
          (handle_payload client validators site f env r g m)
  payload-IsPosted none = inl refl
  payload-IsPosted (some (Json.plain v)) = inl refl
  payload-IsPosted (some (Json.object fields)) = number-IsPosted (int_of (get "CmdType" fields))

-- Where signatures are asked for, a request to the settlement endpoint leaves the tables as they are,
-- unless it carries a valid signature for its data, which are the settlement of an account number of the
-- site; then the tables are those of that settlement, accepted, and the answer is SUCCESS.
pub post_settlement-IsPosted :
    (client : Client) (validators : Validators) (site : Site) (f : Format) (env : Env)
    (r : HttpRequest) (g : Gateway)
    → client.use_signature ≡ true
    → IsPosted client validators site f env r g (post_settlement client validators site f env r g)
unfolding post_settlement
post_settlement-IsPosted client validators site f env r g asked =
    payload-IsPosted client validators site f env r g asked (get_parsed_webhook_payload client r)
