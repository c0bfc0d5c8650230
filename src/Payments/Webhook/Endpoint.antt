-- ===== src/Payments/Webhook/Endpoint.antt =====
-- `ExpressPayNotificationView.post` of apps/payments/views/express_pay.py, with the reading of the request
-- in helpers.py beside it. JSON and the signature of the client are parameters.
pub mod Signed
pub mod Repeated
pub mod Settlements
pub mod Posted
mod Tests
use Prim.Native.Char.{code}
use palingames.Base.{
  Result, ok, err, ◌>>=◌, ◌>>◌, raise_if, ℕ, String, Bool, true, false, not, ◌&&◌, ◌||◌, Option,
  none, some, List, [], ◌∷◌, map, any, or_else, leb, ◌==◌, str_eq, if◌then◌else◌,
}
use palingames.Base.Text.{int_of_digits, is_truthy, strip, upper}
use palingames.Orders.Model.{Order}
use palingames.CustomGames.Model.{CustomGameRequest}
use palingames.Payments.Session.{Env}
use palingames.Payments.Webhook.{
  Format, Gateway, Notification, WebhookError, process_status_change, text_eq,
}

-- The tests of `ACCOUNT_NUMBER_PATTERN`, one for each character.
abbrev is_capital : ℕ → Bool
is_capital c = leb 65 c && leb c 90

abbrev is_digit : ℕ → Bool
is_digit c = leb 48 c && leb c 57

abbrev is_capital_or_digit : ℕ → Bool
is_capital_or_digit c = is_digit c || is_capital c

abbrev account_number_pattern : List (ℕ → Bool)
account_number_pattern =
    is_capital ∷ is_capital ∷ is_digit ∷ is_digit ∷ is_digit ∷ is_digit ∷ is_digit ∷ is_digit
    ∷ is_capital_or_digit ∷ is_capital_or_digit ∷ is_capital_or_digit ∷ is_capital_or_digit
    ∷ is_capital_or_digit ∷ is_capital_or_digit ∷ is_capital_or_digit ∷ is_capital_or_digit ∷ []

fullmatch : List (ℕ → Bool) → String → Bool
fullmatch [] String.[] = true
fullmatch (p ∷ ps) (String.◌∷◌ c s) = p (code c) && fullmatch ps s
fullmatch _ _ = false

-- The text behind the last "-", if there is one.
after_dash : String → Option String
after_dash String.[] = none
after_dash (String.◌∷◌ c s) =
    let rest = after_dash s in
    elim rest [ some t ↦ some t | none ↦ if code c == 45 then some s else none ]

unfoldable pub normalize_express_pay_account_number : Option String → Option String
unfolding fullmatch after_dash
normalize_express_pay_account_number none = none
normalize_express_pay_account_number (some value) =
    let normalized = upper (strip value) in
    let candidate = or_else (after_dash normalized) normalized in
    if fullmatch account_number_pattern normalized
    then some normalized
    else if fullmatch account_number_pattern candidate
    then some candidate
    else some normalized

-- The tables that `site_payment_account_exists` reads.
pub record Site : Type 0 where
  pub orders : List Order
  pub requests : List CustomGameRequest

abbrev is_account : Site → Option String → Bool
is_account site none = false
is_account site (some normalized) =
    any (λ (o : Order). text_eq o.payment_account_no (some normalized)) site.orders
    || any (λ (r : CustomGameRequest). text_eq r.payment_account_no (some normalized)) site.requests

unfoldable pub site_payment_account_exists : Site → Option String → Bool
unfolding normalize_express_pay_account_number
site_payment_account_exists site account_number =
    is_account site (normalize_express_pay_account_number account_number)

-- A value of an object; one that is neither null nor a text stands as `json.dumps` prints it.
pub data Value : Type 0 where
  null : Value
  text other : String → Value

pub data Json : Type 0 where
  object : List (String × Value) → Json
  plain : Value → Json

abbrev pub Field : Type 0
Field = String × Value

pub record Client : Type 0 where
  pub use_signature : Bool
  pub loads : String → Option Json
  pub dumps : List Field → String
  pub is_valid_signature : String → String → Bool
  pub model_validate : List Field → Option Notification

pub record HttpRequest : Type 0 where
  pub post : List (String × String)
  pub body : String

-- `ExpressPaySignatureError`, pydantic's `ValidationError`, and what no handler catches.
pub data Failure : Type 0 where
  signature_error validation_error uncaught : Failure

-- The text and the status of the answer; an exception that leaves the view becomes a 500.
pub data Answer : Type 0 where
  response : String → ℕ → Answer
  raises : Answer

abbrev pub success_response : Answer
success_response = Answer.response "SUCCESS" 200

-- `d.get(key)`
pub get {ℓ} : {A : Type ℓ} → String → List (String × A) → Option A
get key [] = none
get key ((k, v) ∷ fields) = let rest = get key fields in if str_eq k key then some v else rest

-- `{key: value for key, value in d.items() if key != "Signature"}`
unsigned {ℓ} : {A : Type ℓ} → List (String × A) → List (String × A)
unsigned [] = []
unsigned ((k, v) ∷ fields) =
    let rest = unsigned fields in if str_eq k "Signature" then rest else (k, v) ∷ rest

abbrev pub normalize_raw_payload_data : Value → String
normalize_raw_payload_data (Value.text s) = s
normalize_raw_payload_data Value.null = "{}"
normalize_raw_payload_data (Value.other printed) = printed

-- `not value`, of a value that is no text by what `json.dumps` prints.
abbrev is_falsy : Value → Bool
is_falsy Value.null = true
is_falsy (Value.text s) = str_eq s ""
is_falsy (Value.other printed) =
    any (λ (nothing : String). str_eq printed nothing)
      ("false" ∷ "0" ∷ "0.0" ∷ "-0.0" ∷ "[]" ∷ "{}" ∷ [])

-- The data, and the signature as it is in the request.
abbrev pub Raw : Type 0
Raw = String × Option Value

abbrev text_of : Option String → Option Value
text_of none = none
text_of (some s) = some (Value.text s)

module _ (client : Client) where
  abbrev data_or : Option String → String → String
  data_or (some given) rest = given
  data_or none rest = rest

  abbrev posted : List (String × String) → Raw
  posted fields = (
    data_or (get "Data" fields)
        (client.dumps (map (λ ((k, v) : String × String). (k, Value.text v)) (unsigned fields))),
    text_of (get "Signature" fields),
  )

  abbrev object_data : List Field → Option Value → String
  object_data fields (some v) = normalize_raw_payload_data v
  object_data fields none = client.dumps (unsigned fields)

  abbrev in_body : Option Json → Option Raw
  in_body none = none
  in_body (some (Json.object fields)) =
      some (object_data fields (get "Data" fields), get "Signature" fields)
  in_body (some (Json.plain v)) = some (normalize_raw_payload_data v, none)

  abbrev raw_of : List (String × String) → String → Option Raw
  raw_of [] body = in_body (client.loads (if str_eq body "" then "{}" else body))
  raw_of (field ∷ fields) body = some (posted (field ∷ fields))

  -- The data and the signature, none where the body is no JSON.
  unfoldable pub get_raw_webhook_payload : HttpRequest → Option Raw
  unfolding get unsigned
  get_raw_webhook_payload r = raw_of r.post r.body

  -- `WebhookSignatureVerification` refuses a signature that is no text.
  abbrev pub verified_by_client : String → Value → Result Failure (Unit {0})
  verified_by_client sent Value.null = err Failure.validation_error
  verified_by_client sent (Value.other printed) = err Failure.validation_error
  verified_by_client sent (Value.text signature) =
      raise_if (not (client.is_valid_signature sent signature)) Failure.signature_error

  abbrev pub check_signature : String → Option Value → Result Failure (Unit {0})
  check_signature sent none = err Failure.signature_error
  check_signature sent (some signature) =
      raise_if (is_falsy signature) Failure.signature_error >> verified_by_client sent signature

  abbrev pub parsed : Option Json → Result Failure Json
  parsed none = err Failure.uncaught
  parsed (some payload) = ok payload

  abbrev pub verify_raw : Option Raw → Result Failure Json
  verify_raw none = err Failure.uncaught
  verify_raw (some (sent, signature)) =
      (if client.use_signature then check_signature sent signature else ok tt)
      >> parsed (client.loads sent)

  unfoldable pub verify_webhook_signature : HttpRequest → Result Failure Json
  unfolding get_raw_webhook_payload
  verify_webhook_signature r = verify_raw (get_raw_webhook_payload r)

-- `int(value)`, without signs and fractions.
abbrev pub int_of : Option Value → Option ℕ
int_of (some (Value.text s)) = int_of_digits (strip s)
int_of (some (Value.other printed)) = int_of_digits printed
int_of _ = none

-- The answer to each exception of `_process_status_change`, which undoes the transaction.
unfoldable pub answer_to : Gateway → Result WebhookError Gateway → Answer × Gateway
answer_to g (ok g') = (success_response, g')
answer_to g (err WebhookError.does_not_exist) =
    (Answer.response "FAILED | Invoice not found" 404, g)
answer_to g (err _) = (Answer.response "FAILED | Payment data mismatch" 400, g)

module _ (client : Client) (site : Site) (f : Format) (env : Env) where
  abbrev pub handle_known : Notification → Gateway → Bool → Answer × Gateway
  handle_known n g false = (success_response, g)
  handle_known n g true = answer_to g (process_status_change f env n g)

  abbrev pub handle_validated : Gateway → Option Notification → Answer × Gateway
  handle_validated g none = (Answer.response "FAILED | Invalid payload" 400, g)
  handle_validated g (some n) =
      handle_known n g (site_payment_account_exists site (some n.account_no))

  -- With the success that `post` answers in the end.
  unfoldable pub handle_status_change_notification : List Field → Gateway → Answer × Gateway
  unfolding site_payment_account_exists answer_to
  handle_status_change_notification fields g = handle_validated g (client.model_validate fields)

  abbrev pub handle_command : List Field → Gateway → Option ℕ → Answer × Gateway
  handle_command fields g none = (Answer.response "FAILED | Invalid payload" 400, g)
  handle_command fields g (some cmd_type) =
      if not (cmd_type == 3)
      then (success_response, g)
      else handle_status_change_notification fields g

  -- `payload.get` raises on a payload that is no dictionary.
  abbrev pub handle_verified : Gateway → Result Failure Json → Answer × Gateway
  handle_verified g (err Failure.signature_error) =
      (Answer.response "FAILED | Incorrect digital signature" 403, g)
  handle_verified g (err Failure.validation_error) = (Answer.raises, g)
  handle_verified g (err Failure.uncaught) = (Answer.raises, g)
  handle_verified g (ok (Json.plain v)) = (Answer.raises, g)
  handle_verified g (ok (Json.object fields)) =
      handle_command fields g (int_of (get "CmdType" fields))

  unfoldable pub post_notification : HttpRequest → Gateway → Answer × Gateway
  unfolding verify_webhook_signature handle_status_change_notification get
  post_notification r g = handle_verified g (verify_webhook_signature client r)
