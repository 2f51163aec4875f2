-- ===== src/Provider.antt =====
-- src/cli.rs: the providers, and the static entries of src/providers/catalog/mod.rs that they name.
-- The table of the catalog is an argument: every statement holds for any table.
pub mod Named
pub mod Tests
use quotio_cli.Base.{
  String, Bool, true, false, ◌||◌, List, Option, none, some, find, Eq, ◌==◌, string_eq,
  String-discrete, if◌then◌else◌,
}
use mathlib.Core.Option

pub data AuthKind : Type 0 where
  api_key oauth : AuthKind

pub record Setting : Type 0 where
  pub name : String
  pub env : String
  pub required : Bool

-- The `fetch` function of a definition is a network call, and is left out.
pub record Definition : Type 0 where
  pub id : String
  pub name : String
  pub key_env : String
  pub auth : AuthKind
  pub settings : List Setting

pub data Provider : Type 0 where
  mock codex amp antigravity synthetic open_router zai mini_max factory : Provider
  catalog : String → Provider

unfoldable pub Provider-discrete : Discrete Provider
Provider-discrete = hlevel String-discrete

instance abbrev pub provider_eq : Eq Provider
provider_eq = record { dec = Provider-discrete }

unfoldable pub id : Provider → String
id mock = "mock"
id codex = "codex"
id amp = "amp"
id antigravity = "antigravity"
id synthetic = "synthetic"
id open_router = "openrouter"
id zai = "zai"
id mini_max = "minimax"
id factory = "factory"
id (catalog i) = i

abbrev pub is_api_key : AuthKind → Bool
is_api_key api_key = true
is_api_key oauth = false

-- src/providers/key_api.rs: `Kind`.
pub data Kind : Type 0 where
  synthetic_kind open_router_kind zai_kind mini_max_kind : Kind

unfoldable pub key : Kind → String
key synthetic_kind = "SYNTHETIC_API_KEY"
key open_router_kind = "OPENROUTER_API_KEY"
key zai_kind = "ZAI_API_KEY"
key mini_max_kind = "MINIMAX_API_KEY"

unfoldable pub region_key : Kind → Option String
region_key zai_kind = some "ZAI_REGION"
region_key mini_max_kind = some "MINIMAX_REGION"
region_key _ = none

unfoldable pub key_api : Provider → Option Kind
key_api synthetic = some synthetic_kind
key_api open_router = some open_router_kind
key_api zai = some zai_kind
key_api mini_max = some mini_max_kind
key_api _ = none

abbrev is_account_catalog : String → Bool
is_account_catalog i =
    i == "cursor" || i == "grok" || i == "claude" || i == "copilot" || i == "kiro"

abbrev is_some {ℓ} : {A : Type ℓ} → Option A → Bool
is_some none = false
is_some (some a) = true

abbrev key_env_of : Definition → Option String
key_env_of d = if is_api_key d.auth then some d.key_env else none

module _ (definitions : List Definition) where
  -- `providers::catalog::find`
  unfoldable pub find_definition : String → Option Definition
  find_definition i = find (λ d. d.id == i) definitions

  unfoldable pub definition : Provider → Option Definition
  unfolding find_definition
  definition (catalog i) = find_definition i
  definition _ = none

  unfoldable pub api_key_name : Provider → Option String
  unfolding find_definition key_api key
  api_key_name amp = some "AMP_API_KEY"
  api_key_name factory = some "FACTORY_API_KEY"
  api_key_name (catalog i) = Option.bind (find_definition i) key_env_of
  api_key_name other = Option.map key (key_api other)

  unfoldable pub supports_accounts : Provider → Bool
  unfolding api_key_name
  supports_accounts codex = true
  supports_accounts antigravity = true
  supports_accounts (catalog i) = is_account_catalog i || is_some (api_key_name (catalog i))
  supports_accounts other = is_some (api_key_name other)
