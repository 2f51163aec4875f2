-- ===== src/Accounts/Credential.antt =====
-- src/accounts/mod.rs: `AccountError`, `Credential` and `Account`, with the references to native
-- logins of src/accounts/sources.rs. A path is its text.
use quotio_cli.Base.{String, Bool, true, ◌&&◌, Option, Eq, string_eq, String-discrete, ℤ, Dict.Dict}
use native.Mathlib.Decide.{ℕ_discrete}
use quotio_cli.Provider.{Provider}

pub data ProviderError : Type 0 where
  timeout cancelled transient authentication owner_refresh_required source_disabled : ProviderError
  invalid_data quota_unavailable rate_limited unavailable credential_storage : ProviderError
  local_credential_storage internal : ProviderError

pub data AccountError : Type 0 where
  storage commit_uncertain source_disabled idempotency_conflict idempotency_full : AccountError
  corrupt busy not_found duplicate label unsupported input input_mode settings : AccountError
  native_oauth : String → AccountError
  quota_forbidden : AccountError
  provider : ProviderError → AccountError
  cancelled callback_port oauth : AccountError

pub data KiroAuthMethod : Type 0 where
  social id_c : KiroAuthMethod

pub data AntigravityLocation : Type 0 where
  gemini_keychain state_db : AntigravityLocation

pub data CopilotLocation : Type 0 where
  apps hosts gh_hosts gh_keychain : CopilotLocation

pub data ClaudeLocation : Type 0 where
  code_file code_keychain : ClaudeLocation

pub data FactoryLocation : Type 0 where
  v2_file v2_login_keychain v2_keyring legacy : FactoryLocation

pub data DevinDesktopLocation : Type 0 where
  credentials_toml state_database : DevinDesktopLocation

pub data QuotioDomain : Type 0 where
  production development : QuotioDomain

-- The fields of an OAuth constructor come in the order of the source; `refresh_pending` is the last.
pub data Credential : Type 0 where
  copilot_oauth : (access_token account_id login : String) → Credential
  claude_oauth :
      (access_token refresh_token account_id email : String) (expires_at : ℤ)
      (refresh_pending : Bool)
      → Credential
  devin_desktop_native : (path : String) (location : DevinDesktopLocation) → Credential
  antigravity_native : (location : AntigravityLocation) (path : Option String) → Credential
  antigravity_token : (access_token : String) (expires_at : Option ℤ) → Credential
  antigravity_oauth :
      (access_token refresh_token : String) (expires_at : ℤ) (client_id client_secret : String)
      (refresh_pending : Bool)
      → Credential
  kiro_oauth :
      (access_token refresh_token : String) (expires_at : ℤ) (auth_method : KiroAuthMethod)
      (region : String) (profile_arn client_id client_secret : Option String) (machine : String)
      (refresh_pending : Bool)
      → Credential
  kiro_native : (path : String) → Credential
  kiro_token :
      (access_token region : String) (profile_arn : Option String) (machine : String)
      (expires_at : Option ℤ)
      → Credential
  factory_native : (directory : String) (location : FactoryLocation) → Credential
  factory_oauth :
      (access_token refresh_token : String) (organization_id : Option String) (expires_at : ℤ)
      (refresh_pending : Bool)
      → Credential
  grok_oauth :
      (access_token refresh_token : String) (expires_at : ℤ) (refresh_pending : Bool) → Credential
  grok_native : (path entry_key : String) → Credential
  codex_native : (path : String) → Credential
  claude_native : (location : ClaudeLocation) (path : Option String) → Credential
  copilot_native :
      (location : CopilotLocation) (path : Option String) (entry_key : String) → Credential
  cursor_native : (path : String) → Credential
  amp_native : (path : String) (enabled : Bool) → Credential
  quotio_custom_provider : (domain : QuotioDomain) (record_id : String) → Credential
  catalog_key : (token : String) (settings : Dict String) → Credential
  api_key : (token : String) (region organization : Option String) → Credential
  codex_oauth :
      (access_token refresh_token id_token account_id email : String) (expires_at : ℤ) → Credential

unfoldable pub Credential-discrete : Discrete Credential
Credential-discrete = hlevel (String-discrete, ℕ_discrete)

instance abbrev pub credential_eq : Eq Credential
credential_eq = record { dec = Credential-discrete }

pub data AccountOrigin : Type 0 where
  borrowed_native owned borrowed_proxy : AccountOrigin

pub record Account : Type 0 where
  pub id : String
  pub provider : Provider
  pub label : String
  pub identity : String
  pub active : Bool
  pub enabled : Bool
  pub credential : Credential

-- `AmpNative { source } => source.enabled, _ => true`
unfoldable pub source_enabled : Credential → Bool
source_enabled (amp_native path enabled) = enabled
source_enabled _ = true

-- `Account::enabled`
unfoldable pub is_enabled : Account → Bool
unfolding source_enabled
is_enabled a = a.enabled && source_enabled a.credential

unfoldable pub origin_of : Credential → AccountOrigin
origin_of (quotio_custom_provider domain record_id) = borrowed_proxy
origin_of (amp_native path enabled) = borrowed_native
origin_of (devin_desktop_native path location) = borrowed_native
origin_of (factory_native directory location) = borrowed_native
origin_of (antigravity_native location path) = borrowed_native
origin_of (kiro_native path) = borrowed_native
origin_of (copilot_native location path entry_key) = borrowed_native
origin_of (claude_native location path) = borrowed_native
origin_of (codex_native path) = borrowed_native
origin_of (cursor_native path) = borrowed_native
origin_of (grok_native path entry_key) = borrowed_native
origin_of _ = owned

-- `Account::origin`
unfoldable pub origin : Account → AccountOrigin
unfolding origin_of
origin a = origin_of a.credential
