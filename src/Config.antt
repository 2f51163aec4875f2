-- ===== src/Config.antt =====
-- src/config.rs: the configuration file. TOML is the argument `Toml`: a text is parsed to a configuration,
-- or to an error that may say at which byte it stands; a configuration is printed, or cannot be. The
-- lookup of a provider by its name (`Provider::from_str`) is an argument.
pub mod Position
pub mod Providers
pub mod Tests
use quotio_cli.Base.{
  ℕ, ◌+◌, ◌-◌, String, Bool, true, false, not, List, [], ◌∷◌, ◌++◌, Option, none, some, any, count,
  length, leb, if◌then◌else◌, Result, ok, err, ◌==◌, nat_eq, chars, utf8,
}
use quotio_cli.Provider.{Provider, provider_eq}

pub data ConfigError : Type 0 where
  unreadable : ConfigError
  parse_error : (line column : ℕ) → ConfigError
  unsupported : ConfigError

-- `F` stands for `f64`.
pub record LegacyNotificationPreferences (F : Type 0) : Type 0 where
  pub enabled : Bool
  pub quota_threshold : F
  pub quota_low : Bool
  pub cooling : Bool
  pub proxy_crash : Bool
  pub proxy_update : Bool
  pub suppressed_update_version : Option String

pub record Config (F : Type 0) : Type 0 where
  pub notifications : Option (LegacyNotificationPreferences F)
  pub enabled_providers : List String
  pub disabled_providers : List String
  pub cache_ttl_seconds : ℕ
  pub refresh_interval : ℕ
  pub provider_timeout : ℕ

-- `Config::default`
abbrev pub default_config : {F : Type 0} → Config F
default_config = record {
  notifications = none;
  enabled_providers = [];
  disabled_providers = [];
  cache_ttl_seconds = 300;
  refresh_interval = 60;
  provider_timeout = 10;
}

-- `&input[..end]`, as code points. The end stands between two code points.
unfoldable pub slice_to : ℕ → List ℕ → List ℕ
slice_to end [] = []
slice_to end (c ∷ cs) =
    if leb (length (utf8 c)) end then c ∷ slice_to (end - length (utf8 c)) cs else []

-- `rsplit('\n').next()`: what follows the last line feed.
unfoldable pub last_line : List ℕ → List ℕ
last_line [] = []
last_line (c ∷ cs) = if any (λ d. d == 10) (c ∷ cs) then last_line cs else c ∷ cs

-- The line and the column of an error that comes after a prefix of the text. A byte 10 of UTF-8 is a
-- line feed.
unfoldable pub position : List ℕ → ℕ × ℕ
unfolding last_line
position prefix = (count (λ c. c == 10) prefix + 1, length (last_line prefix) + 1)

abbrev start_of : Option ℕ → ℕ
start_of none = 0
start_of (some start) = start

abbrev located : ℕ × ℕ → ConfigError
located (line, column) = parse_error line column

-- `toml::from_str`, whose error may hold the start of its span, and `toml::to_string`.
pub record Toml (F : Type 0) : Type 0 where
  pub read : String → Result (Option ℕ) (Config F)
  pub print : Config F → Option String

-- How a file is opened and read.
pub data Input : Type 0 where
  text : String → Input
  missing : Input
  failed : Input

module _ {F : Type 0} (T : Toml F) where
  abbrev parsed : String → Result (Option ℕ) (Config F) → Result ConfigError (Config F)
  parsed input (ok config) = ok config
  parsed input (err span) = err (located (position (slice_to (start_of span) (chars input))))

  -- `Config::parse`
  unfoldable pub parse : String → Result ConfigError (Config F)
  unfolding slice_to position
  parse input = parsed input (T.read input)

  abbrev loaded : Bool → Input → Result ConfigError (Config F)
  loaded explicit (text input) = parse input
  loaded explicit missing = if explicit then err unreadable else ok default_config
  loaded explicit failed = err unreadable

  -- `Config::load`: whether the path is explicit, and the input at the path, if there is a path.
  unfoldable pub load : Bool → Option Input → Result ConfigError (Config F)
  load explicit none = ok default_config
  load explicit (some input) = loaded explicit input

module _ (from_str : String → Option Provider) where
  abbrev pub is_in : List Provider → Provider → Bool
  is_in ps p = any (λ q. q == p) ps

  abbrev pushed : Option Provider → List Provider → Option (List Provider)
  pushed none ps = none
  pushed (some p) ps = some (if is_in ps p then ps else ps ++ p ∷ [])

  -- The loop of `parse_providers`, with the providers that are found so far.
  unfoldable pub parse_from : List String → List Provider → Result ConfigError (List Provider)
  parse_from [] ps = ok ps
  parse_from (id ∷ ids) ps = elim (pushed (from_str id) ps) [
    | none ↦ err unsupported
    | some qs ↦ parse_from ids qs
  ]

  unfoldable pub parse_providers : List String → Result ConfigError (List Provider)
  unfolding parse_from
  parse_providers ids = parse_from ids []

  -- `Config::providers` and `Config::disabled_providers`
  abbrev pub providers : {F : Type 0} → Config F → Result ConfigError (List Provider)
  providers config = parse_providers config.enabled_providers

  abbrev pub disabled_providers : {F : Type 0} → Config F → Result ConfigError (List Provider)
  disabled_providers config = parse_providers config.disabled_providers
