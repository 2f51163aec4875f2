-- ===== src/Accounts/Oauth/Codes.antt =====
-- src/accounts/oauth.rs, oauth/claude.rs and oauth/copilot.rs: what is accepted from a browser, a user
-- and a token endpoint. The parsers of URLs, of JSON and of `id_token`s are arguments: a URL is given
-- by its parts, and the claims of a token by the fields that are read.
use quotio_cli.Base.{
  ℕ, String, Bool, not, ◌&&◌, ◌||◌, List, [], ◌∷◌, Option, none, some, any, retain, ltb, leb,
  if◌then◌else◌, Result, ok, err, ◌==◌, string_eq, option_eq, nat_eq, is_empty, byte_len,
  is_control, chars, trim, same_code,
}
use Prim.Native.Char.{code}
use quotio_cli.Accounts.Credential.{AccountError, oauth, Credential}
use quotio_cli.Accounts.Oauth.{is_some}
use quotio_cli.Accounts.Oauth.Begin.{Device}

-- A query is its pairs. `reqwest::Url`, as far as it is read.
pub record Url : Type 0 where
  pub scheme : String
  pub host : Option String
  pub port : Option ℕ
  pub path : String
  pub username : String
  pub password : Option String
  pub fragment : Option String
  pub query : Option (List (String × String))

abbrev named : String → String × String → Bool
named name (k, v) = k == name

abbrev pub pairs_of : Url → List (String × String)
pairs_of u = elim u.query [ none ↦ [] | some pairs ↦ pairs ]

abbrev only_code :
    String → List (String × String) → List (String × String) → Result AccountError String
only_code state ((s, given) ∷ []) ((c, text) ∷ []) =
    if not (given == state) || is_empty text then err oauth else ok text
only_code state states codes = err oauth

-- `callback_code`, of the URL that the target parses to, if it does.
unfoldable pub callback_code : String → Option Url → Result AccountError String
callback_code state none = err oauth
callback_code state (some u) =
    if not (u.path == "/auth/callback")
    then err oauth
    else if any (named "error") (pairs_of u)
    then err oauth
    else only_code state (retain (named "state") (pairs_of u)) (retain (named "code") (pairs_of u))

-- The check of the URL in `exchange`.
abbrev is_own_callback : Url → Bool
is_own_callback u =
    u.scheme == "http"
    && u.host == some "localhost"
    && u.port == some 1455
    && u.path == "/auth/callback"
    && is_empty u.username
    && not (is_some u.password)
    && not (is_some u.fragment)

-- The part of `exchange` before the network: the code. `reparsed` is the target built from the query,
-- parsed again.
unfoldable pub accepted_code :
    String → (String → Option Url) → (Url → Option Url) → String → Result AccountError String
unfolding callback_code
accepted_code state parse reparsed full_url =
    if is_empty full_url || ltb 8192 (byte_len full_url) || any is_control (chars full_url)
    then err oauth
    else elim (parse full_url) [
      | none ↦ err oauth
      | some u ↦
          if not (is_own_callback u) || not (is_some u.query)
          then err oauth
          else callback_code state (reparsed u)
    ]

-- `split_once('#')`
unfoldable pub split_once : String → Option (String × String)
split_once String.[] = none
split_once (String.◌∷◌ c s) =
    let rest = split_once s in
    if same_code (code c) b'#'
    then some (String.[], s)
    else elim rest [ none ↦ none | some (before, after) ↦ some (String.◌∷◌ c before, after) ]

abbrev checked_code : String → String → Option String → Result AccountError String
checked_code state text none = if is_empty text then err oauth else ok text
checked_code state text (some given) =
    if is_empty text || not (given == state) then err oauth else ok text

-- `claude::manual_code`
unfoldable pub manual_code : String → String → Result AccountError String
unfolding trim is_control split_once
manual_code raw state =
    let text = trim raw in
    if is_empty text || ltb 8192 (byte_len text) || any is_control (chars text)
    then err oauth
    else elim (split_once text) [
      | none ↦ checked_code state text none
      | some (before, after) ↦ checked_code state before (some after)
    ]

-- The checks of `copilot::begin`.
unfoldable pub is_device : Device → Bool
is_device d =
    not (is_empty d.device_code)
    && leb (byte_len d.device_code) 8192
    && not (is_empty d.user_code)
    && leb (byte_len d.user_code) 128
    && not (any is_control (chars d.user_code))
    && d.verification_uri == "https://github.com/login/device"
    && leb 1 d.expires_in
    && leb d.expires_in 3600
    && leb d.interval 3600

pub data Poll : Type 0 where
  pending slow_down over denied : Poll
  token : String → Poll

-- `copilot::poll`, of the two fields of the answer.
unfoldable pub poll : Option String → Option String → Result AccountError Poll
poll (some t) none =
    if not (is_empty t) && leb (byte_len t) 16384 && not (any is_control (chars t))
    then ok (token t)
    else err oauth
poll none (some e) =
    if e == "authorization_pending"
    then ok pending
    else if e == "slow_down"
    then ok slow_down
    else if e == "expired_token"
    then ok over
    else if e == "access_denied"
    then ok denied
    else err oauth
poll (some t) (some e) = err oauth
poll none none = err oauth

-- `copilot::credential`, of the profile: `text_of` prints an id.
unfoldable pub profile_credential :
    (ℕ → String) → String → String → ℕ → Result AccountError Credential
profile_credential text_of access login id =
    if id == 0 || is_empty login || ltb 80 (byte_len login) || any is_control (chars login)
    then err oauth
    else ok (Credential.copilot_oauth access (text_of id) login)
