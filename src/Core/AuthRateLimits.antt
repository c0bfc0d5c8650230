-- ===== src/Core/AuthRateLimits.antt =====
-- apps/core/rate_limit_middleware.py: the limits on the posts to the sign-in paths. The body is what the
-- JSON parser makes of it, and none where it is no dictionary.
use Prim.Native.String.{◌++◌ as str_append}
use palingames.Base.{
  Result, ok, ◌>>=◌, ℕ, String, Bool, Option, none, some, or_else, str_eq, if◌then◌else◌,
}
use palingames.Base.Text.{strip, lower, is_truthy as has_text}
use palingames.Core.RateLimits.{
  Cache, Limit, Meta, RateLimitError, RateLimitResult, RateLimitScope, check_rate_limit,
  get_client_ip,
}

-- The values of the three keys, as texts; none is a key that is missing or false.
pub record Payload : Type 0 where
  pub email : Option String
  pub login : Option String
  pub key : Option String

pub record HttpRequest : Type 0 where
  pub is_post : Bool
  pub path : String
  pub meta : Meta
  pub body : Option Payload

unfoldable pub get_json_body : HttpRequest → Payload
get_json_body r = or_else r.body (record { email = none; login = none; key = none })

abbrev pub either_text : Option String → Option String → Option String
either_text a b = if has_text a then a else b

abbrev pub text_or_empty : Option String → String
text_or_empty none = ""
text_or_empty (some s) = s

unfoldable pub get_auth_email : HttpRequest → String
unfolding get_json_body
get_auth_email r =
    let payload = get_json_body r in
    lower (strip (text_or_empty (either_text payload.email payload.login)))

unfoldable pub get_auth_key : HttpRequest → String
unfolding get_json_body
get_auth_key r = strip (text_or_empty (get_json_body r).key)

-- The limits and the windows of one of the paths.
pub record AuthSettings : Type 0 where
  pub first_limit : ℕ
  pub first_window : ℕ
  pub ip_limit : ℕ
  pub ip_window : ℕ

pub record Settings : Type 0 where
  pub login : AuthSettings
  pub signup : AuthSettings
  pub reset_request : AuthSettings
  pub reset_confirm : AuthSettings

-- The last check, and the kind of identifier it was for.
abbrev pub Checked : Type 0
Checked = Option RateLimitResult × Option String

pub data Response : Type 0 where
  passed_on : Response
  rate_limited : String → ℕ → Response

-- The four paths, with their scope, message and prefix of the first identifier.
pub data AuthPath : Type 0 where
  login signup reset_request reset_confirm : AuthPath

-- `AUTH_RATE_LIMIT_CONFIGS.get(request.path)`
unfoldable pub auth_path : String → Option AuthPath
auth_path path =
    if str_eq path "/_allauth/browser/v1/auth/login"
    then some AuthPath.login
    else if str_eq path "/_allauth/browser/v1/auth/signup"
    then some AuthPath.signup
    else if str_eq path "/_allauth/browser/v1/auth/password/request"
    then some AuthPath.reset_request
    else if str_eq path "/_allauth/browser/v1/auth/password/reset"
    then some AuthPath.reset_confirm
    else none

unfoldable pub message_of : AuthPath → String
message_of AuthPath.login = "Слишком много попыток входа. Попробуйте позже."
message_of AuthPath.signup = "Слишком много попыток регистрации. Попробуйте позже."
message_of AuthPath.reset_request = "Слишком много запросов сброса пароля. Попробуйте позже."
message_of AuthPath.reset_confirm = "Слишком много попыток сброса пароля. Попробуйте позже."

abbrev pub scope_of : AuthPath → RateLimitScope
scope_of AuthPath.login = RateLimitScope.auth_login
scope_of AuthPath.signup = RateLimitScope.auth_signup
scope_of AuthPath.reset_request = RateLimitScope.auth_password_reset_request
scope_of AuthPath.reset_confirm = RateLimitScope.auth_password_reset_confirm

abbrev pub settings_of : Settings → AuthPath → AuthSettings
settings_of s AuthPath.login = s.login
settings_of s AuthPath.signup = s.signup
settings_of s AuthPath.reset_request = s.reset_request
settings_of s AuthPath.reset_confirm = s.reset_confirm

-- The kind and the value of the identifier that is checked before the address.
abbrev pub first_identifier : AuthPath → HttpRequest → String × String
first_identifier AuthPath.reset_confirm r = ("key", get_auth_key r)
first_identifier _ r = ("email", get_auth_email r)

abbrev pub first_check : AuthPath → AuthSettings → String → String → Limit
first_check path s kind value = record {
  scope = scope_of path;
  identifier = str_append kind (str_append ":" value);
  limit = s.first_limit;
  window_seconds = s.first_window;
}

abbrev pub ip_check : AuthPath → AuthSettings → String → Limit
ip_check path s ip = record {
  scope = scope_of path;
  identifier = str_append "ip:" ip;
  limit = s.ip_limit;
  window_seconds = s.ip_window;
}

-- `between` is what happens to the cache within a check.
module _ (hash : String → String) {S : Type 0} (cache : Cache S) (between : S → S) where
  abbrev pub by_ip : AuthPath → AuthSettings → String → S → Result RateLimitError (Checked × S)
  by_ip path s ip t =
      if str_eq ip ""
      then ok ((none, none), t)
      else check_rate_limit cache hash (ip_check path s ip) between t >>= λ checked.
          ok ((some checked.0, some "ip"), checked.1)

  abbrev pub unless_limited :
      AuthPath
      → AuthSettings
      → String
      → String
      → RateLimitResult × S
      → Result RateLimitError (Checked × S)
  unless_limited path s ip kind (result, t) =
      if result.allowed then by_ip path s ip t else ok ((some result, some kind), t)

  -- The four checkers, which differ in their scope, settings and first identifier.
  unfoldable pub check_auth_rate_limit :
      Settings → AuthPath → HttpRequest → S → Result RateLimitError (Checked × S)
  unfolding check_rate_limit get_auth_email get_auth_key get_client_ip
  check_auth_rate_limit settings path r t =
      let s = settings_of settings path in
      let (kind, value) = first_identifier path r in
      let ip = get_client_ip r.meta in
      if str_eq value ""
      then by_ip path s ip t
      else check_rate_limit cache hash (first_check path s kind value) between t
        >>= unless_limited path s ip kind

  abbrev pub respond : AuthPath → Option RateLimitResult → Response
  respond path none = Response.passed_on
  respond path (some result) =
      if result.allowed
      then Response.passed_on
      else Response.rate_limited (message_of path) result.retry_after_seconds

  abbrev pub handle_path :
      Settings → HttpRequest → S → Option AuthPath → Result RateLimitError (Response × S)
  handle_path settings r t none = ok (Response.passed_on, t)
  handle_path settings r t (some path) = check_auth_rate_limit settings path r t >>= λ checked.
      ok (respond path checked.0.0, checked.1)

  -- `AuthRateLimitMiddleware.__call__`
  unfoldable pub auth_rate_limit_middleware :
      Settings → HttpRequest → S → Result RateLimitError (Response × S)
  unfolding check_auth_rate_limit auth_path message_of
  auth_rate_limit_middleware settings r t =
      if r.is_post then handle_path settings r t (auth_path r.path) else ok (Response.passed_on, t)
