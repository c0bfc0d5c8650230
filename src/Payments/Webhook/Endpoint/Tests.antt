-- ===== src/Payments/Webhook/Endpoint/Tests.antt =====
-- Requests to the endpoint: a signed report of a payment, one with a wrong signature, and a body that is
-- no JSON.
use palingames.Base.{ok, ◌≡◌, refl, String, true, some, none, List, [], ◌∷◌, str_eq, if◌then◌else◌}
use palingames.Base.Text.{int_of_digits, str, strip, upper}
use palingames.Access.Tests.{order}
use palingames.Payments.Tests.{env}
use palingames.Payments.Webhook.{process_status_change}
use palingames.Payments.Webhook.Tests.{
  settlement, accepted, after_report, format, gateway, paid_report,
}
use palingames.Payments.Webhook.Endpoint.{
  Answer, Client, Field, HttpRequest, Json, Site, Value, answer_to, get, get_raw_webhook_payload,
  handle_status_change_notification, normalize_express_pay_account_number, post_notification,
  site_payment_account_exists, success_response, verify_webhook_signature,
}
use palingames.Payments.Webhook.Once.{rows_of}
use palingames.Payments.Webhook.Endpoint.Repeated.{post_all, post_notification-again}
use palingames.Payments.Webhook.Settlement.{process_epos_notification}
use palingames.Payments.Webhook.Endpoint.Settlements.{
  Validators, answer_to_settlement, get_parsed_webhook_payload, handle_cmd_type, post_settlement,
}
use palingames.Payments.Webhook.Endpoint.Posted.{IsPosted, post_settlement-IsPosted}
use palingames.Payments.Webhook.Endpoint.Signed.{IsHandled, post_notification-IsHandled}

last_part :
    normalize_express_pay_account_number (some " 3-15-pg123456abcdefgh ") ≡ some "PG123456ABCDEFGH"
unfolding normalize_express_pay_account_number strip upper
last_part = refl

whole : normalize_express_pay_account_number (some "3-15-pg1") ≡ some "3-15-PG1"
unfolding normalize_express_pay_account_number strip upper
whole = refl

abbrev report_fields : List Field
report_fields = ("CmdType", Value.other "3") ∷ ("Status", Value.other "3") ∷ []

abbrev client : Client
client = record {
  use_signature = true;
  loads = λ t. if str_eq t "<xml>" then none else some (Json.object report_fields);
  dumps = λ fields. "{}";
  is_valid_signature = λ sent signature. str_eq signature "A1";
  model_validate = λ fields. some paid_report;
}

abbrev site : Site
site = record { orders = order ∷ []; requests = [] }

abbrev signed_by : String → HttpRequest
signed_by signature = record { post = ("Data", "{..}") ∷ ("Signature", signature) ∷ []; body = "" }

taken :
    post_notification client site format env (signed_by "A1") gateway
    ≡ (success_response, after_report)
unfolding post_notification verify_webhook_signature get_raw_webhook_payload get
    handle_status_change_notification site_payment_account_exists
    normalize_express_pay_account_number answer_to process_status_change int_of_digits str strip
    upper
taken = refl

wrong_signature :
    post_notification client site format env (signed_by "B2") gateway
    ≡ (Answer.response "FAILED | Incorrect digital signature" 403, gateway)
unfolding post_notification verify_webhook_signature get_raw_webhook_payload get
wrong_signature = refl

no_json :
    post_notification client site format env (record { post = []; body = "<xml>" }) gateway
    ≡ (Answer.raises, gateway)
unfolding post_notification verify_webhook_signature get_raw_webhook_payload
no_json = refl

post_notification-IsHandled_example :
    IsHandled client site format env
      (signed_by "A1")
      gateway
      (post_notification client site format env (signed_by "A1") gateway)
post_notification-IsHandled_example =
    post_notification-IsHandled client site format env (signed_by "A1") gateway refl

report_is_signed : verify_webhook_signature client (signed_by "A1") ≡ ok (Json.object report_fields)
unfolding verify_webhook_signature get_raw_webhook_payload get
report_is_signed = refl

post_notification-again_example :
    rows_of
      (post_notification client site format env
        (signed_by "A1")
        (post_all client site format ((env, signed_by "B2") ∷ []) after_report)).1
    ≡ rows_of (post_all client site format ((env, signed_by "B2") ∷ []) after_report)
post_notification-again_example =
    post_notification-again client site format env (signed_by "A1") gateway {g' = after_report}
      {fields = report_fields} {n = paid_report} refl report_is_signed refl accepted
      ((env, signed_by "B2") ∷ []) env

abbrev validators : Validators
validators = record { epos = λ fields. some settlement; is_erip = λ fields. true }

abbrev settling : Client
settling = record client {
  loads =
      λ t. if str_eq t "<xml>" then none else some (Json.object (("CmdType", Value.text "5") ∷ []));
}

settlement_taken :
    (post_settlement settling validators site format env (signed_by "A1") gateway).0
    ≡ success_response
unfolding post_settlement get_parsed_webhook_payload get_raw_webhook_payload get handle_cmd_type
    verify_webhook_signature site_payment_account_exists normalize_express_pay_account_number
    answer_to_settlement process_epos_notification int_of_digits str strip upper
settlement_taken = refl

settlement_no_json :
    post_settlement settling validators site format env
      (record { post = []; body = "<xml>" })
      gateway
    ≡ (Answer.response "FAILED | Invalid payload" 400, gateway)
unfolding post_settlement get_parsed_webhook_payload get_raw_webhook_payload
settlement_no_json = refl

post_settlement-IsPosted_example :
    IsPosted settling validators site format env
      (signed_by "A1")
      gateway
      (post_settlement settling validators site format env (signed_by "A1") gateway)
post_settlement-IsPosted_example =
    post_settlement-IsPosted settling validators site format env (signed_by "A1") gateway refl
