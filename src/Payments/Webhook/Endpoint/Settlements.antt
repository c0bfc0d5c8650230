-- ===== src/Payments/Webhook/Endpoint/Settlements.antt =====
-- `ExpressPaySettlementNotificationView.post` of apps/payments/views/express_pay.py. What pydantic makes of
-- the fields is a parameter.
use palingames.Base.{
  Result, ok, err, ℕ, Bool, true, false, Option, none, some, List, ◌==◌, if◌then◌else◌,
}
use palingames.Payments.Session.{Env}
use palingames.Payments.Webhook.{Format, Gateway, WebhookError}
use palingames.Payments.Webhook.Settlement.{Settlement, process_epos_notification}
use palingames.Payments.Webhook.Endpoint.{
  Answer, Client, Failure, Field, HttpRequest, Json, Raw, Site, get, get_raw_webhook_payload,
  int_of, site_payment_account_exists, success_response, verify_webhook_signature,
}

pub record Validators : Type 0 where
  pub epos : List Field → Option Settlement
  pub is_erip : List Field → Bool

abbrev pub invalid_payload : Gateway → Answer × Gateway
invalid_payload g = (Answer.response "FAILED | Invalid payload" 400, g)

abbrev pub parsed_raw : Client → Option Raw → Option Json
parsed_raw client none = none
parsed_raw client (some (sent, signature)) = client.loads sent

-- The payload before its signature is looked at; none for a body or data that are no JSON.
unfoldable pub get_parsed_webhook_payload : Client → HttpRequest → Option Json
unfolding get_raw_webhook_payload
get_parsed_webhook_payload client r = parsed_raw client (get_raw_webhook_payload client r)

-- The answer to each exception of `_process_epos_notification`, which undoes the transaction.
unfoldable pub answer_to_settlement : Gateway → Result WebhookError Gateway → Answer × Gateway
answer_to_settlement g (ok g') = (success_response, g')
answer_to_settlement g (err WebhookError.does_not_exist) =
    (Answer.response "FAILED | Order not found" 404, g)
answer_to_settlement g (err _) = (Answer.response "FAILED | Payment data mismatch" 400, g)

module _ (client : Client) (validators : Validators) (site : Site) (f : Format) (env : Env) where
  abbrev pub settle_known : Settlement → Gateway → Bool → Answer × Gateway
  settle_known n g false = (success_response, g)
  settle_known n g true = answer_to_settlement g (process_epos_notification f env n g)

  abbrev pub settle_validated : Gateway → Option Settlement → Answer × Gateway
  settle_validated g none = invalid_payload g
  settle_validated g (some n) =
      settle_known n g (site_payment_account_exists site (some n.account_number))

  -- `parse_express_pay_payload`, and what follows it.
  abbrev pub parse_express_pay_payload :
      (List Field → Answer × Gateway) → Gateway → Result Failure Json → Answer × Gateway
  parse_express_pay_payload next g (err Failure.signature_error) =
      (Answer.response "FAILED | Incorrect digital signature" 403, g)
  parse_express_pay_payload next g (err Failure.validation_error) = invalid_payload g
  parse_express_pay_payload next g (err Failure.uncaught) = (Answer.raises, g)
  parse_express_pay_payload next g (ok (Json.plain v)) = invalid_payload g
  parse_express_pay_payload next g (ok (Json.object fields)) = next fields

  abbrev pub answer_erip : Gateway → List Field → Answer × Gateway
  answer_erip g fields =
      if validators.is_erip fields then (success_response, g) else invalid_payload g

  unfoldable pub handle_cmd_type : HttpRequest → Gateway → ℕ → Answer × Gateway
  unfolding verify_webhook_signature site_payment_account_exists answer_to_settlement
  handle_cmd_type r g cmd_type =
      if cmd_type == 5
      then parse_express_pay_payload (λ fields. settle_validated g (validators.epos fields)) g
          (verify_webhook_signature client r)
      else if cmd_type == 4
      then parse_express_pay_payload (answer_erip g) g (verify_webhook_signature client r)
      else (success_response, g)

  abbrev pub handle_int : HttpRequest → Gateway → Option ℕ → Answer × Gateway
  handle_int r g none = invalid_payload g
  handle_int r g (some cmd_type) = handle_cmd_type r g cmd_type

  -- `raw_payload.get` raises on a payload that is no dictionary.
  abbrev pub handle_payload : HttpRequest → Gateway → Option Json → Answer × Gateway
  handle_payload r g none = invalid_payload g
  handle_payload r g (some (Json.plain v)) = (Answer.raises, g)
  handle_payload r g (some (Json.object fields)) = handle_int r g (int_of (get "CmdType" fields))

  unfoldable pub post_settlement : HttpRequest → Gateway → Answer × Gateway
  unfolding get_parsed_webhook_payload handle_cmd_type get
  post_settlement r g = handle_payload r g (get_parsed_webhook_payload client r)
