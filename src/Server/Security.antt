-- ===== src/Server/Security.antt =====
-- src/server/security.rs: who may send what to the server. The parser of `reqwest::Url`, HMAC-SHA-256 and
-- the header map of `axum` are arguments.
pub mod Guarded
pub mod Tests
use quotio_cli.Base.{
  ℕ, String, Bool, true, false, not, ◌&&◌, ◌||◌, List, [], ◌∷◌, ◌++◌, map, Option, none, some, all,
  any, find, leb, if◌then◌else◌, Result, ok, err, ◌==◌, string_eq, option_eq, is_empty, byte_len,
  bytes, is_ascii_graphic, trim, append, strip_prefix, eq_ignore_ascii_case, split, Result-cases,
}

-- What the source reads of a `reqwest::Url`. `origin` is `origin().ascii_serialization()`.
pub record Url : Type 0 where
  pub scheme : String
  pub host : Option String
  pub username : String
  pub password : Option String
  pub path : String
  pub query : Option String
  pub fragment : Option String
  pub port : Option ℕ
  pub origin : String

-- `ring::hmac` with SHA-256: the key of a text, the tag of the server's fixed message, and its check.
pub record Hmac : Type 1 where
  pub Key : Type 0
  pub Tag : Type 0
  pub key_of : List ℕ → Key
  pub sign : Key → Tag
  pub verify : Key → Tag → Bool

-- A request: `get_all` is each value of a header, through `to_str().ok()`, in order.
pub record Request : Type 0 where
  pub get_all : String → List (Option String)
  pub method : String
  pub query : Option String

abbrev pub is_some {ℓ} : {A : Type ℓ} → Option A → Bool
is_some none = false
is_some (some a) = true

module _ (parse : String → Option Url) where
  abbrev is_http : Url → Bool
  is_http u = u.scheme == "http" || u.scheme == "https"

  abbrev is_local : Url → Bool
  is_local u = u.host == some "localhost" || u.host == some "127.0.0.1" || u.host == some "[::1]"

  abbrev checked_url : Option Url → Result String Url
  checked_url none = err "invalid_origin"
  checked_url (some u) =
      if not (is_http u)
        || not (is_some u.host)
        || not (is_empty u.username)
        || is_some u.password
        || not (u.path == "/")
        || is_some u.query
        || is_some u.fragment
      then err "invalid_origin"
      else if u.scheme == "http" && not (is_local u)
      then err "invalid_origin"
      else ok u

  unfoldable pub origin_url : String → Result String Url
  origin_url value = checked_url (parse value)

  -- `collect::<Result<Vec<_>, _>>()`, each through `ascii_serialization`.
  abbrev and_origin : Result String Url → Result String (List String) → Result String (List String)
  and_origin (err e) rest = err e
  and_origin (ok u) (err e) = err e
  and_origin (ok u) (ok os) = ok (u.origin ∷ os)

  unfoldable pub origins_of : List String → Result String (List String)
  origins_of [] = ok []
  origins_of (v ∷ vs) = and_origin (origin_url v) (origins_of vs)

  abbrev authorities : Url → Option String → Result String (List String)
  authorities u none = err "invalid_public_url"
  authorities u (some authority) =
      ok (authority ∷ (if is_some u.port then [] else append authority ":443" ∷ []))

  abbrev public_hosts : Result String Url → Result String (List String)
  public_hosts (err e) = err e
  public_hosts (ok u) =
      if not (u.scheme == "https")
      then err "invalid_public_url"
      else authorities u (strip_prefix "https://" u.origin)

  abbrev pub hosts_of : Option String → Result String (List String)
  hosts_of none = ok []
  hosts_of (some url) = public_hosts (origin_url url)

module _ (H : Hmac) where
  open H use {Key}

  pub record Policy : Type 0 where
    pub manage : Bool
    pub hosts : List String
    pub origins : List String
    pub token : Option Key

  abbrev pub is_token : String → Bool
  is_token value = leb 32 (byte_len value) && leb (byte_len value) 4096

  abbrev pub key_for : Option String → Result String (Option Key)
  key_for none = ok none
  key_for (some value) =
      if not (is_token value) || not (all is_ascii_graphic (bytes value))
      then err "invalid_server_token"
      else ok (some (H.key_of (bytes value)))

  abbrev pub policy_of :
      Bool
      → List String
      → Result String (Option Key)
      → Result String (List String)
      → Result String (List String)
      → Result String Policy
  policy_of manage local (err e) hosts origins = err e
  policy_of manage local (ok token) (err e) origins = err e
  policy_of manage local (ok token) (ok hosts) (err e) = err e
  policy_of manage local (ok token) (ok hosts) (ok origins) =
      ok (record { manage = manage; hosts = local ++ hosts; origins = origins; token = token })

  -- `Policy::new`. The address comes as its text and the text of its port.
  unfoldable pub new_policy :
      (String → Option Url)
      → String
      → String
      → Bool
      → Option String
      → List String
      → Option String
      → Result String Policy
  new_policy parse address port manage public_url origins token =
      if (manage || is_some public_url) && not (is_some token)
      then err "server_token_required"
      else policy_of manage (address ∷ append "localhost:" port ∷ []) (key_for token)
          (hosts_of parse public_url) (origins_of parse origins)

  abbrev pub only : List (Option String) → Option String
  only (v ∷ []) = v
  only _ = none

  -- `one(headers, key)`: the value of a header that is there once and is a text.
  abbrev pub one : Request → String → Option String
  one request key = only (request.get_all key)

  abbrev pub bearer : Option String → Option String
  bearer none = none
  bearer (some v) = strip_prefix "Bearer " v

  abbrev pub verified : Key → Option String → Bool
  verified key none = false
  verified key (some token) = is_token token && H.verify key (H.sign (H.key_of (bytes token)))

  unfoldable pub authorized : Request → Option Key → Bool
  authorized request none = true
  authorized request (some key) = verified key (bearer (one request "authorization"))

  abbrev listed : (String → Bool) → Option String → Option String
  listed p none = none
  listed p (some o) = if p o then some o else none

  abbrev pub allowed_origin : Policy → Request → Option String
  allowed_origin policy request =
      listed (λ o. any (λ p. p == o) policy.origins) (one request "origin")

  abbrev holds : (String → Bool) → Option String → Bool
  holds p none = false
  holds p (some v) = p v

  abbrev pub has_values : List (Option String) → Bool
  has_values [] = false
  has_values (v ∷ vs) = true

  abbrev pub is_allowed_host : Policy → Request → Bool
  is_allowed_host policy request =
      holds (λ host. any (λ h. eq_ignore_ascii_case h host) policy.hosts) (one request "host")

  -- The methods a page may ask for in a preflight, `OPTIONS` left out.
  abbrev methods : Bool → List String
  methods manage =
      if manage then "GET" ∷ "HEAD" ∷ "POST" ∷ "PATCH" ∷ "DELETE" ∷ [] else "GET" ∷ "HEAD" ∷ []

  abbrev is_simple : String → Bool
  is_simple h =
      let t = trim h in
      eq_ignore_ascii_case t "authorization"
      || eq_ignore_ascii_case t "content-type"
      || eq_ignore_ascii_case t "idempotency-key"

  abbrev is_refused_preflight : Policy → Request → Bool
  is_refused_preflight policy request =
      not (is_some (allowed_origin policy request))
      || not (
          holds (λ v. any (λ m. m == v) (methods policy.manage))
            (one request "access-control-request-method"))
      || holds (λ v. any (λ h. not (is_simple h)) (split b',' v))
          (one request "access-control-request-headers")

  -- What the guard does with a request: it answers by itself, or passes it on.
  pub data Verdict : Type 0 where
    refused : ℕ → String → Verdict
    no_content : Verdict
    forwarded : Verdict

  abbrev pub is_read : String → Bool
  is_read method = method == "GET" || method == "HEAD"

  -- `guard`, up to `next.run`. `free` tells whether `try_acquire` gets one of the 16 permits.
  unfoldable pub guard : Policy → Request → Bool → Verdict
  guard policy request free =
      if not (is_allowed_host policy request)
      then refused 403 "host_not_allowed"
      else if has_values (request.get_all "origin") && not (is_some (allowed_origin policy request))
      then refused 403 "origin_not_allowed"
      else if request.method == "OPTIONS"
      then (if is_refused_preflight policy request
          then refused 403 "preflight_not_allowed"
          else no_content)
      else if not (authorized request policy.token)
      then refused 401 "unauthorized"
      else if not (is_read request.method) && not policy.manage
      then refused 405 "read_only"
      else if is_some request.query
      then refused 400 "unsupported_query"
      else if free
      then forwarded
      else refused 503 "server_busy"
