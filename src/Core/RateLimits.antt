-- ===== src/Core/RateLimits.antt =====
-- apps/core/rate_limits.py: the address of a client, and the counter of its requests. The cache of Django
-- and the hash are parameters: `S` is the state of the cache.
pub mod Bounded
use Prim.Native.Char.{code}
use Prim.Native.String.{◌++◌ as str_append}
use palingames.Base.{
  Result, ok, err, ◌>>=◌, ◌>>◌, raise_if, ℕ, suc, ◌+◌, String, Bool, true, false, not, ◌&&◌, ◌||◌,
  Option, none, some, List, [], ◌∷◌, leb, ltb, ◌==◌, or_else, str_eq, if◌then◌else◌,
}
use palingames.Base.Text.{strip, lower, str}

-- `MAX_IP_LENGTH`
abbrev pub max_ip_length : ℕ
max_ip_length = 45

-- `len(s)`
unfoldable pub text_length : String → ℕ
text_length String.[] = 0
text_length (String.◌∷◌ c s) = suc (text_length s)

abbrev pub normalize_stripped : String → String
normalize_stripped candidate =
    if str_eq candidate ""
    then ""
    else if ltb max_ip_length (text_length candidate)
    then ""
    else candidate

unfoldable pub normalize_ip : Option String → String
unfolding text_length
normalize_ip none = ""
normalize_ip (some value) = normalize_stripped (strip value)

-- `s.split(",")`
unfoldable pub split_commas : String → List String
split_commas String.[] = "" ∷ []
split_commas (String.◌∷◌ c s) =
    let rest = split_commas s in
    if code c == 44
    then "" ∷ rest
    else elim rest [ [] ↦ String.◌∷◌ c String.[] ∷ [] | part ∷ parts ↦ String.◌∷◌ c part ∷ parts ]

unfoldable pub first_hop : List String → String
unfolding normalize_ip
first_hop [] = ""
first_hop (part ∷ parts) =
    let rest = first_hop parts in
    if str_eq (normalize_ip (some part)) "" then rest else normalize_ip (some part)

unfoldable pub first_forwarded_for_hop : Option String → String
unfolding first_hop split_commas
first_forwarded_for_hop none = ""
first_forwarded_for_hop (some forwarded_for) =
    if str_eq forwarded_for "" then "" else first_hop (split_commas forwarded_for)

-- The entries of `request.META` that are read.
pub record Meta : Type 0 where
  pub cf_connecting_ip : Option String
  pub x_forwarded_for : Option String
  pub remote_addr : Option String

unfoldable pub get_client_ip : Meta → String
unfolding normalize_ip first_forwarded_for_hop
get_client_ip m =
    if not (str_eq (normalize_ip m.cf_connecting_ip) "")
    then normalize_ip m.cf_connecting_ip
    else if not (str_eq (first_forwarded_for_hop m.x_forwarded_for) "")
    then first_forwarded_for_hop m.x_forwarded_for
    else normalize_ip m.remote_addr

-- `RateLimitScope`
pub data RateLimitScope : Type 0 where
  checkout_create checkout_promo_apply auth_signup auth_login : RateLimitScope
  auth_password_reset_request auth_password_reset_confirm : RateLimitScope
  account_password_change product_download managed_link_redirect : RateLimitScope

abbrev pub scope_value : RateLimitScope → String
scope_value RateLimitScope.checkout_create = "checkout:create"
scope_value RateLimitScope.checkout_promo_apply = "checkout:promo_apply"
scope_value RateLimitScope.auth_signup = "auth:signup"
scope_value RateLimitScope.auth_login = "auth:login"
scope_value RateLimitScope.auth_password_reset_request = "auth:password_reset_request"
scope_value RateLimitScope.auth_password_reset_confirm = "auth:password_reset_confirm"
scope_value RateLimitScope.account_password_change = "account:password_change"
scope_value RateLimitScope.product_download = "product:download"
scope_value RateLimitScope.managed_link_redirect = "managed_link:redirect"

pub record RateLimitResult : Type 0 where
  pub allowed : Bool
  pub count : ℕ
  pub limit : ℕ
  pub retry_after_seconds : ℕ

-- What the code calls of the cache: `incr` of a missing key is a ValueError, and a backend may have no
-- `ttl`, or answer with no positive number.
pub record Cache (S : Type 0) : Type 0 where
  pub add : String → ℕ → S → Bool × S
  pub incr : String → S → Option ℕ × S
  pub ttl : String → S → Option ℕ

pub data RateLimitError : Type 0 where
  bad_limit bad_window empty_identifier : RateLimitError

unfoldable pub check_limit_params : String → ℕ → ℕ → Result RateLimitError (Unit {0})
check_limit_params identifier limit window_seconds = do
  raise_if (leb limit 0) RateLimitError.bad_limit
  raise_if (leb window_seconds 0) RateLimitError.bad_window
  raise_if (str_eq (strip identifier) "") RateLimitError.empty_identifier

-- What a check is made for.
pub record Limit : Type 0 where
  pub scope : RateLimitScope
  pub identifier : String
  pub limit : ℕ
  pub window_seconds : ℕ

unfoldable pub hash_identifier : (String → String) → String → String
hash_identifier hash value = hash (strip (lower value))

unfoldable pub build_rate_limit_key : (String → String) → RateLimitScope → String → ℕ → String
unfolding hash_identifier
build_rate_limit_key hash scope identifier window_seconds = str_append "rate-limit:" (
    str_append (scope_value scope) (
      str_append ":"
        (str_append (str window_seconds) (str_append ":" (hash_identifier hash identifier)))))

module _ {S : Type 0} (cache : Cache S) where
  -- After `incr`: its answer, or a counter that is begun anew.
  abbrev pub counted : String → ℕ → Option ℕ × S → ℕ × S
  counted key window_seconds (some n, s) = (n, s)
  counted key window_seconds (none, s) = (1, (cache.add key window_seconds s).1)

  -- `between` is what happens to the cache after `add`.
  abbrev pub count_from : String → ℕ → (S → S) → Bool × S → ℕ × S
  count_from key window_seconds between (true, s) = (1, s)
  count_from key window_seconds between (false, s) =
      counted key window_seconds (cache.incr key (between s))

  abbrev pub retry_after : ℕ → Option ℕ → ℕ
  retry_after window_seconds none = window_seconds
  retry_after window_seconds (some n) = if ltb 0 n then n else window_seconds

  abbrev pub result_of : String → Limit → ℕ × S → RateLimitResult × S
  result_of key l (n, s) = (
    record {
      allowed = leb n l.limit;
      count = n;
      limit = l.limit;
      retry_after_seconds = retry_after l.window_seconds (cache.ttl key s);
    },
    s,
  )

  unfoldable pub check_rate_limit :
      (String → String) → Limit → (S → S) → S → Result RateLimitError (RateLimitResult × S)
  unfolding check_limit_params build_rate_limit_key
  check_rate_limit hash l between s =
      let key = build_rate_limit_key hash l.scope l.identifier l.window_seconds in
      check_limit_params l.identifier l.limit l.window_seconds
      >> ok (
          result_of key l
            (count_from key l.window_seconds between (cache.add key l.window_seconds s)))
