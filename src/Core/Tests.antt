-- ===== src/Core/Tests.antt =====
-- A cache that is one counter, and three sign-ins with one address.
use palingames.Base.{
  ok, ◌≡◌, refl, ℕ, zero, suc, String, Bool, true, false, Option, none, some, List, [], ◌∷◌,
}
use palingames.Base.Text.{strip, lower, str}
use palingames.Core.RateLimits.{
  Cache, Limit, Meta, RateLimitScope, check_limit_params, get_client_ip,
}
use palingames.Core.RateLimits.Bounded.{
  IsCounter, allowed_in, check_rate_limit-allowed, key_of, lesser,
}
use palingames.Core.AuthRateLimits.{
  AuthSettings, HttpRequest, Response, Settings, auth_rate_limit_middleware, message_of, AuthPath,
}

abbrev add_one : ℕ → Bool × ℕ
add_one zero = (true, 1)
add_one (suc n) = (false, suc n)

abbrev incr_one : ℕ → Option ℕ × ℕ
incr_one zero = (none, 0)
incr_one (suc n) = (some (suc (suc n)), suc (suc n))

abbrev counter : Cache ℕ
counter = record {
  add = λ key timeout s. add_one s;
  incr = λ key s. incr_one s;
  ttl = λ key s. some 7;
}

abbrev hash : String → String
hash s = s

abbrev same : ℕ → ℕ
same n = n

counter-IsCounter : (key : String) → IsCounter counter key same
counter-IsCounter key = record {
  add_new = λ w s. add_new s;
  add_old = λ w n s. add_old n s;
  incr_old = λ n s. incr_old n s;
}
  where
    add_new : (s : ℕ) → s ≡ 0 → ((add_one s).0 ≡ true) × ((add_one s).1 ≡ 1)
    add_new zero e = (refl, refl)
    add_new (suc n) e = cc

    add_old : (n s : ℕ) → s ≡ suc n → add_one s ≡ (false, s)
    add_old n zero e = cc
    add_old n (suc s) e = refl

    incr_old :
        (n s : ℕ)
        → s ≡ suc n
        → ((incr_one s).0 ≡ some (suc (suc n))) × ((incr_one s).1 ≡ suc (suc n))
    incr_old n zero e = cc
    incr_old n (suc s) e = (cc, cc)

abbrev sign_in : Limit
sign_in = record {
  scope = RateLimitScope.auth_login;
  identifier = "email:a@b.c";
  limit = 2;
  window_seconds = 60;
}

valid : check_limit_params "email:a@b.c" 2 60 ≡ ok tt
unfolding check_limit_params strip
valid = refl

abbrev three : List (ℕ → ℕ)
three = same ∷ same ∷ same ∷ []

check_rate_limit-allowed_example : allowed_in hash counter sign_in same three 0 ≡ lesser 3 2
check_rate_limit-allowed_example =
    check_rate_limit-allowed hash counter sign_in same {value = same} three 0
      (counter-IsCounter (key_of hash counter sign_in same)) (λ s. refl)
      (λ s. refl, (λ s. refl, (λ s. refl, tt))) valid

abbrev meta : Meta
meta = record {
  cf_connecting_ip = some "  ";
  x_forwarded_for = some " , 10.0.0.1 ,10.0.0.2";
  remote_addr = some "127.0.0.1";
}

first_hop_of_proxy : get_client_ip meta ≡ "10.0.0.1"
unfolding get_client_ip strip
first_hop_of_proxy = refl

abbrev limits : AuthSettings
limits = record { first_limit = 2; first_window = 60; ip_limit = 9; ip_window = 60 }

abbrev settings : Settings
settings = record {
  login = limits;
  signup = limits;
  reset_request = limits;
  reset_confirm = limits;
}

abbrev post : HttpRequest
post = record {
  is_post = true;
  path = "/_allauth/browser/v1/auth/login";
  meta = meta;
  body = some (record { email = none; login = some " A@b.c "; key = none });
}

third_sign_in :
    auth_rate_limit_middleware hash counter same settings post 2
    ≡ ok (Response.rate_limited (message_of AuthPath.login) 7, 3)
unfolding auth_rate_limit_middleware message_of strip lower str
third_sign_in = refl
