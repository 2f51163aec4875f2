-- ===== src/Accounts/Choice.antt =====
-- src/accounts/service.rs: which adapters a collection asks: those of the logins on this machine, those of
-- the saved accounts, or one that only reports that the vault cannot be read. What the machine holds is
-- the argument `Machine`; the catalog of providers is `definitions`.
pub mod Saved
pub mod Tests
use quotio_cli.Base.{
  ℕ, String, Bool, true, false, not, ◌&&◌, ◌||◌, List, [], ◌∷◌, ◌++◌, map, Option, none, some, all,
  any, find, retain, length, if◌then◌else◌, Result, ok, err, ◌==◌, string_eq, option_eq, nat_eq,
  eq_ignore_ascii_case, is_empty, same_code,
}
use Prim.Native.Char.{code}
use quotio_cli.Provider.{
  Provider, provider_eq, mock, codex, amp, antigravity, factory, catalog, Definition, Setting,
  is_api_key, definition, api_key_name, key_api, supports_accounts,
}
use quotio_cli.Accounts.Credential
use quotio_cli.Accounts.Credential.{
  AccountError, unsupported, not_found, Account, is_enabled, Credential, AntigravityLocation,
  gemini_keychain, state_db,
}

-- The environment of the process and the files that it reads. `is_set` is `var_os(..).is_some()`, and `get`
-- is `var(..)`, where the value is a text. `host` is `host_str` of a URL, if it can be parsed.
-- `codex_path` is the path of the native login of Codex, in `CODEX_HOME` or elsewhere.
pub record Machine : Type 0 where
  pub is_set : String → Bool
  pub get : String → Option String
  pub executable : String → Bool
  pub has_local_amp_key : Bool
  pub host : String → Option (Option String)
  pub codex_path : Bool → Option String

abbrev pub is_some {ℓ} : {A : Type ℓ} → Option A → Bool
is_some none = false
is_some (some a) = true

abbrev pub contains : List Provider → Provider → Bool
contains ps p = any (λ q. q == p) ps

-- `trim_end_matches('/')`
unfoldable pub trim_slashes : String → String
trim_slashes String.[] = String.[]
trim_slashes (String.◌∷◌ c s) =
    let rest = trim_slashes s in
    if same_code (code c) b'/' && is_empty rest then String.[] else String.◌∷◌ c rest

abbrev holds {ℓ} : {A : Type ℓ} → (A → Bool) → Option A → Bool
holds p none = false
holds p (some a) = p a

abbrev none_or {ℓ} : {A : Type ℓ} → (A → Bool) → Option A → Bool
none_or p none = true
none_or p (some a) = p a

-- An adapter: of the login on this machine, of a saved account, or one that always fails.
pub data Chosen : Type 0 where
  local_login : Provider → Chosen
  managed : Account → Chosen
  failed_provider : Provider → Chosen

module _ (machine : Machine) where
  abbrev is_ampcode : Option (Option String) → Bool
  is_ampcode none = true
  is_ampcode (some none) = true
  is_ampcode (some (some host)) = eq_ignore_ascii_case host "ampcode.com"

  unfoldable pub native_amp_selection : Bool → Option String → Bool
  native_amp_selection has_key url = not has_key && none_or (λ u. is_ampcode (machine.host u)) url

  unfoldable pub uses_native_amp_source : Bool
  unfolding native_amp_selection
  uses_native_amp_source =
      native_amp_selection (machine.is_set "AMP_API_KEY") (machine.get "AMP_URL")

  abbrev is_gemini_keychain : AntigravityLocation → Bool
  is_gemini_keychain gemini_keychain = true
  is_gemini_keychain state_db = false

  abbrev is_unset : String → Bool
  is_unset name = not (machine.is_set name)

  unfoldable pub native_reference_replaces_local : Provider → Credential → Bool
  native_reference_replaces_local p (Credential.devin_desktop_native path location) =
      p == catalog "devin-desktop" && is_unset "DEVIN_DESKTOP_API_KEY"
  native_reference_replaces_local p (Credential.antigravity_native location path) =
      p == antigravity
      && is_unset "ANTIGRAVITY_ACCESS_TOKEN"
      && is_unset "ANTIGRAVITY_AUTH_FILE"
      && is_gemini_keychain location
      && not (is_some path)
  native_reference_replaces_local p (Credential.kiro_native path) =
      p == catalog "kiro" && is_unset "KIRO_ACCESS_TOKEN"
  native_reference_replaces_local p (Credential.factory_native directory location) =
      p == factory && is_unset "FACTORY_API_KEY"
  native_reference_replaces_local p (Credential.copilot_native location path entry_key) =
      p == catalog "copilot" && is_unset "COPILOT_API_TOKEN"
  native_reference_replaces_local p (Credential.claude_native location path) =
      p == catalog "claude" && is_unset "CLAUDE_OAUTH_ACCESS_TOKEN"
  native_reference_replaces_local p (Credential.codex_native path) =
      p == codex && machine.codex_path (machine.is_set "CODEX_HOME") == some path
  native_reference_replaces_local p (Credential.amp_native path enabled) =
      p == amp && uses_native_amp_source
  native_reference_replaces_local p (Credential.grok_native path entry_key) =
      p == catalog "grok" && is_unset "GROK_OAUTH_TOKEN"
  native_reference_replaces_local p (Credential.cursor_native path) =
      p == catalog "cursor" && is_unset "CURSOR_ACCESS_TOKEN"
  native_reference_replaces_local p c = false

  module _ (definitions : List Definition) where
    abbrev is_configured : Provider → Bool
    is_configured p = holds machine.is_set (api_key_name definitions p)

    abbrev has_key_for : Provider → Option Definition → Bool
    has_key_for p (some d) =
        is_api_key d.auth
        && is_configured p
        && all (λ s. not s.required || machine.is_set s.env) d.settings
    has_key_for p none = is_some (key_api p) && is_configured p

    -- The variables that stand for a login of a provider.
    abbrev tokens : List (Provider × String)
    tokens =
        (catalog "kiro", "KIRO_ACCESS_TOKEN")
        ∷ (antigravity, "ANTIGRAVITY_ACCESS_TOKEN")
        ∷ (antigravity, "ANTIGRAVITY_AUTH_FILE")
        ∷ (factory, "FACTORY_API_KEY")
        ∷ (catalog "cursor", "CURSOR_ACCESS_TOKEN")
        ∷ (catalog "claude", "CLAUDE_OAUTH_ACCESS_TOKEN")
        ∷ (catalog "copilot", "COPILOT_API_TOKEN")
        ∷ (catalog "devin-desktop", "DEVIN_DESKTOP_API_KEY")
        ∷ []

    abbrev from_tokens : List Provider → List (Provider × String) → List Provider
    from_tokens requested [] = []
    from_tokens requested ((p, token) ∷ rest) =
        if contains requested p && machine.is_set token
        then p ∷ from_tokens requested rest
        else from_tokens requested rest

    abbrev when : Bool → Provider → List Provider
    when b p = if b then p ∷ [] else []

    abbrev is_public_amp : Bool
    is_public_amp =
        none_or (λ url. trim_slashes url == "https://ampcode.com") (machine.get "AMP_URL")

    abbrev has_amp : Bool
    has_amp =
        machine.executable "amp"
        || (is_public_amp && (machine.is_set "AMP_API_KEY" || machine.has_local_amp_key))

    unfoldable pub local_sources : List Provider → List Provider
    unfolding trim_slashes
    local_sources requested =
        retain (λ p. has_key_for p (definition definitions p)) requested
        ++ (from_tokens requested tokens
            ++ (when (contains requested codex && machine.executable "codex") codex
                ++ when (contains requested amp && has_amp) amp))

    unfoldable pub automatically_detected_providers :
        List Provider → List Provider → List Account → List Provider → List Provider
    automatically_detected_providers candidates disabled accounts local =
        retain
          (λ p.
            not (p == mock)
            && not (contains disabled p)
            && (contains local p || any (λ a. a.provider == p && is_enabled a) accounts))
          candidates

    abbrev is_state_db : Credential → Bool
    is_state_db (Credential.antigravity_native state_db path) = true
    is_state_db _ = false

    abbrev pub accounts_of : Provider → List Account → List Account
    accounts_of p = retain (λ a. a.provider == p)

    -- Whether the login on the machine is asked beside the saved accounts.
    unfoldable pub asks_local : Provider → List Provider → List Account → Bool
    asks_local p local matching =
        (contains local p
          || length matching == 0
          || (p == antigravity && any (λ a. is_state_db a.credential) matching))
        && not (any (λ a. native_reference_replaces_local p a.credential) matching)

    abbrev pub choose_for : Provider → List Provider → List Account → List Chosen
    choose_for p local matching =
        (if asks_local p local matching then local_login p ∷ [] else []) ++ map managed matching

    abbrev pub choose_one :
        List Provider → Result AccountError (List Account) → Provider → List Chosen
    choose_one local accounts p =
        if not (supports_accounts definitions p) then local_login p ∷ [] else elim accounts [
          | ok saved ↦ choose_for p local (accounts_of p saved)
          | err e ↦ (if contains local p then local_login p ∷ [] else []) ++ failed_provider p ∷ []
        ]

    abbrev pub choose_all :
        List Provider → Result AccountError (List Account) → List Provider → List Chosen
    choose_all local accounts [] = []
    choose_all local accounts (p ∷ ps) = choose_one local accounts p ++ choose_all local accounts ps

    abbrev filtered : List Provider → String → List Account → Result AccountError (List Chosen)
    filtered providers id accounts =
        elim (find (λ a. a.id == id && contains providers a.provider) accounts) [
          | none ↦ err not_found
          | some account ↦ ok (managed account ∷ [])
        ]

    unfoldable pub choose :
        List Provider
        → Option String
        → Result AccountError (List Account)
        → List Provider
        → Result AccountError (List Chosen)
    choose providers (some id) (err e) local = err e
    choose providers (some id) (ok accounts) local = filtered providers id accounts
    choose providers none accounts local = ok (choose_all local accounts providers)

    abbrev has_native_logins : Provider → Bool
    has_native_logins codex = true
    has_native_logins antigravity = true
    has_native_logins factory = true
    has_native_logins amp = true
    has_native_logins (catalog i) =
        i == "cursor"
        || i == "grok"
        || i == "claude"
        || i == "copilot"
        || i == "devin-desktop"
        || i == "kiro"
    has_native_logins _ = false

    abbrev locals : List Provider → List Chosen
    locals = map local_login

    abbrev replaced_local :
        List Provider → Result AccountError (List Account) → Result AccountError (List Chosen)
    replaced_local providers (err e) = err e
    replaced_local providers (ok accounts) =
        if any
          (λ a.
            contains providers a.provider
            && native_reference_replaces_local a.provider a.credential)
          accounts
        then err unsupported
        else ok (locals providers)

    abbrev local_only :
        List Provider
        → Bool
        → Result AccountError (List Account)
        → Result AccountError (List Chosen)
    local_only providers saved accounts =
        if saved && any has_native_logins providers
        then replaced_local providers accounts
        else ok (locals providers)

    -- `adapters_with_vault`, on macOS or Linux. `accounts` is what `vault` and `discover` give.
    unfoldable pub adapters_with_vault :
        List Provider
        → Bool
        → Option String
        → Result AccountError (Unit {0})
        → Result AccountError (List Account)
        → Result AccountError (List Chosen)
    unfolding choose local_sources
    adapters_with_vault providers saved filter vault accounts =
        if is_some filter && not (length providers == 1)
        then err unsupported
        else if filter == some "local"
        then local_only providers saved (elim vault [ ok u ↦ accounts | err e ↦ err e ])
        else if not saved
        then (if is_some filter then err unsupported else ok (locals providers))
        else if not (any (supports_accounts definitions) providers)
        then (if is_some filter then err not_found else ok (locals providers))
        else elim vault [
          | err e ↦ err e
          | ok u ↦
              choose providers filter accounts
                (if is_some filter then [] else local_sources providers)
        ]

    -- `detected_adapters`, on macOS or Linux.
    unfoldable pub detected_adapters :
        List Provider
        → List Provider
        → Bool
        → Result AccountError (List Account)
        → Result AccountError (List Chosen)
    unfolding choose local_sources automatically_detected_providers
    detected_adapters variants disabled saved accounts =
        let candidates = retain (λ p. not (p == mock) && not (contains disabled p)) variants in
        let local = local_sources candidates in
        if not saved then ok (locals local) else elim accounts [
          | err e ↦ err e
          | ok found ↦
              choose (automatically_detected_providers candidates disabled found local) none
                (ok (retain is_enabled found)) local
        ]
