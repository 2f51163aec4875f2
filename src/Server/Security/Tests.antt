-- ===== src/Server/Security/Tests.antt =====
-- A request to a server that has a token.
use quotio_cli.Base.{
  ℕ, ◌≤◌, String, ◌≡◌, ◌↔◌, refl, Bool, true, false, not, ◌||◌, List, [], ◌∷◌, Option, none, some,
  arith, ok, ◌==◌, string_eq, nat_eq, byte_len, bytes, if◌then◌else◌, String-discrete,
}
use quotio_cli.Server.Security.{
  Url, Hmac, Request, Policy, new_policy, one, bearer, authorized, allowed_origin, is_allowed_host,
  is_read, has_values, is_some, guard, forwarded,
}
use quotio_cli.Server.Security.Guarded.{IsPassed, guard-forwards, token_needed}

-- A stand-in for HMAC whose tag is the length of the key.
abbrev plain : Hmac
plain = record {
  Key = ℕ;
  Tag = ℕ;
  key_of = quotio_cli.Base.length;
  sign = λ k. k;
  verify = λ k t. k == t;
}

abbrev secret : String
secret = "0123456789abcdef0123456789abcdef"

abbrev policy : Policy plain
policy = record {
  manage = true;
  hosts = "127.0.0.1:80" ∷ "localhost:80" ∷ [];
  origins = [];
  token = some 32;
}

abbrev headers : String → List (Option String)
headers name =
    if name == "host"
    then some "LocalHost:80" ∷ []
    else if name == "authorization"
    then some "Bearer 0123456789abcdef0123456789abcdef" ∷ []
    else []

abbrev request : Request
request = record { get_all = headers; method = "POST"; query = none }

made : new_policy plain (λ t. none) "127.0.0.1:80" "80" true none [] (some secret) ≡ ok policy
unfolding new_policy byte_len quotio_cli.Base.is_ascii_graphic quotio_cli.Server.Security.origins_of
made = refl

passes : guard plain policy request true ≡ forwarded
unfolding guard String-discrete quotio_cli.Base.eq_ignore_ascii_case authorized
    quotio_cli.Base.strip_prefix byte_len native.Mathlib.Decide.ℕ_discrete
passes = refl

guard-forwards_example :
    (guard plain policy request true ≡ forwarded) ↔ (IsPassed plain policy request × (true ≡ true))
guard-forwards_example = guard-forwards plain policy request true

token_needed_example :
    (key : ℕ) × (token : String) × (policy.token ≡ some key)
    × (bearer plain (one plain request "authorization") ≡ some token)
    × (32 ≤ byte_len token)
    × (byte_len token ≤ 4096)
    × (plain.verify key (plain.sign (plain.key_of (bytes token))) ≡ true)
token_needed_example =
    token_needed plain (λ t. none) "127.0.0.1:80" "80" true none [] (some secret) policy request
      true made refl passes
