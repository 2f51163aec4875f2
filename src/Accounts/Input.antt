-- ===== src/Accounts/Input.antt =====
-- src/accounts/service.rs: the checks of what a user gives for a new account (`provider_settings`,
-- `default_label`), and what a saved account tells the collector (`idempotent`, and the error of a fetch).
pub mod Settings
pub mod Tests
use quotio_cli.Base.{
  ℕ, ◌-◌, String, Bool, true, false, not, ◌&&◌, ◌||◌, List, [], ◌∷◌, Option, none, some, all, any,
  length, ltb, leb, if◌then◌else◌, Result, ok, err, ◌==◌, string_eq, is_empty, is_control, chars,
  bytes, byte_len, append,
}
use quotio_cli.Base.Dict.{Dict, lookup, insert}
use quotio_cli.Provider.{Provider, provider_eq, codex, antigravity, catalog, Definition, definition}
use quotio_cli.Provider
use quotio_cli.Accounts.Credential
use quotio_cli.Accounts.Credential.{AccountError, Credential, AccountOrigin, ProviderError}
use quotio_cli.Accounts.Document.{validate_label}

abbrev pub is_some {ℓ} : {A : Type ℓ} → Option A → Bool
is_some none = false
is_some (some a) = true

-- A value that is empty, too long, or has a control character.
abbrev pub is_bad_value : String → Bool
is_bad_value value = is_empty value || ltb 2048 (byte_len value) || any is_control (chars value)

abbrev pub is_declared : Definition → String → Bool
is_declared d name = any (λ s. s.name == name) d.settings

-- `iter().drop(n)` on the text: the last code points of an ASCII text.
abbrev drop : ℕ → String → String
drop n String.[] = String.[]
drop n (String.◌∷◌ c s) = if ltb 0 n then drop (n - 1) s else String.◌∷◌ c s

-- The last four characters of an ASCII text that is longer than eight, without control characters.
unfoldable pub suffix : String → String
suffix token =
    if ltb 8 (byte_len token)
      && all (λ b. ltb b 128) (bytes token)
      && not (any is_control (chars token))
    then drop (byte_len token - 4) token
    else ""

unfoldable pub default_label : Option String → Credential → Result AccountError String
unfolding suffix
default_label (some label) c = validate_label label
default_label none (Credential.quotio_custom_provider domain record_id) = err Credential.input
default_label none (Credential.amp_native path enabled) = err Credential.input
default_label none (Credential.codex_native path) = err Credential.input
default_label none (Credential.claude_native location path) = err Credential.input
default_label none (Credential.copilot_native location path entry_key) = err Credential.input
default_label none (Credential.grok_native path entry_key) = err Credential.input
default_label none (Credential.devin_desktop_native path location) = err Credential.input
default_label none (Credential.kiro_native path) = err Credential.input
default_label none (Credential.antigravity_native location path) = err Credential.input
default_label none (Credential.factory_native directory location) = err Credential.input
default_label none (Credential.cursor_native path) = err Credential.input
default_label none (Credential.copilot_oauth access_token account_id login) = validate_label login
default_label none (Credential.grok_oauth access_token refresh_token e p) = ok "Grok owned account"
default_label none (Credential.kiro_token access_token region arn machine e) = ok "Kiro account"
default_label none (Credential.kiro_oauth access_token refresh_token e m region arn i s machine p) =
    ok "Kiro account"
default_label none (Credential.antigravity_token access_token e) = ok "Antigravity account"
default_label none (Credential.antigravity_oauth access_token refresh_token e i s p) =
    ok "Antigravity account"
default_label none (Credential.factory_oauth access_token refresh_token o e p) =
    ok "Factory owned account"
default_label none (Credential.codex_oauth access_token refresh_token id_token i email e) =
    validate_label email
default_label none (Credential.claude_oauth access_token refresh_token i email e p) =
    validate_label email
default_label none (Credential.api_key token region organization) =
    ok (append "API key ****" (suffix token))
default_label none (Credential.catalog_key token settings) =
    ok (append "API key ****" (suffix token))

abbrev pub is_refused : Definition → String × String → Bool
is_refused d (name, value) = not (is_declared d name) || is_bad_value value

module _ (get : String → Option String) where
  -- One turn of the loop over the settings of the definition.
  abbrev from_env :
      Provider.Setting → Option String → Dict String → Result AccountError (Dict String)
  from_env s none values = if s.required then err Credential.settings else ok values
  from_env s (some value) values =
      if is_bad_value value then err Credential.settings else ok (insert s.name value values)

  abbrev pub fill : Provider.Setting → Dict String → Result AccountError (Dict String)
  fill s values =
      if is_some (lookup s.name values) then ok values else from_env s (get s.env) values

  abbrev and_then :
      Result AccountError (Dict String)
      → (Dict String → Result AccountError (Dict String))
      → Result AccountError (Dict String)
  and_then (err e) f = err e
  and_then (ok values) f = f values

  unfoldable pub fill_all : List Provider.Setting → Dict String → Result AccountError (Dict String)
  fill_all [] values = ok values
  fill_all (s ∷ ss) values = and_then (fill s values) (fill_all ss)

  abbrev pub checked : Option Definition → Dict String → Result AccountError (Dict String)
  checked none [] = ok []
  checked none (v ∷ values) = err Credential.settings
  checked (some d) values =
      if any (is_refused d) values then err Credential.settings else fill_all d.settings values

  -- `provider_settings`. `get` is the credential store of the context.
  unfoldable pub provider_settings :
      List Definition → Provider → Dict String → Result AccountError (Dict String)
  unfolding fill_all
  provider_settings definitions p values = checked (definition definitions p) values

abbrev is_owned : AccountOrigin → Bool
is_owned Credential.owned = true
is_owned _ = false

abbrev renews : Provider → Bool
renews antigravity = true
renews (catalog i) = i == "grok" || i == "claude" || i == "kiro"
renews _ = false

abbrev is_factory_oauth : Credential → Bool
is_factory_oauth (Credential.factory_oauth access_token refresh_token o e p) = true
is_factory_oauth _ = false

-- `ManagedProvider::idempotent`, of the adapter that `managed` makes of an account.
unfoldable pub is_idempotent : Provider → Credential → AccountOrigin → Bool
is_idempotent p c origin =
    not (p == codex) && not (is_factory_oauth c) && not (renews p && is_owned origin)

abbrev is_borrowed_native : AccountOrigin → Bool
is_borrowed_native Credential.borrowed_native = true
is_borrowed_native _ = false

-- The error of `ManagedProvider::fetch` for that of `read`.
unfoldable pub fetch_error : AccountOrigin → AccountError → ProviderError
fetch_error origin (Credential.provider Credential.authentication) =
    if is_borrowed_native origin
    then Credential.owner_refresh_required
    else Credential.authentication
fetch_error origin (Credential.provider e) = e
fetch_error origin Credential.busy = Credential.transient
fetch_error origin Credential.AccountError.source_disabled =
    Credential.ProviderError.source_disabled
fetch_error origin Credential.storage = Credential.credential_storage
fetch_error origin Credential.corrupt = Credential.credential_storage
fetch_error origin Credential.commit_uncertain = Credential.credential_storage
fetch_error origin e = Credential.authentication
