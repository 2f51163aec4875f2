-- ===== src/Settings.antt =====
-- src/settings.rs: the settings that clients may change, in the configuration file, with a revision that
-- makes each change conditional. The file is its text, if it is there; what the operating system
-- answers is in `Env`. TOML, SHA-256 and the lookup of a provider by its name are arguments.
pub mod Patch
pub mod Bounds
pub mod Tests
use quotio_cli.Base.{
  ℕ, ◌+◌, String, Bool, true, false, not, ◌&&◌, ◌||◌, List, [], ◌∷◌, ◌++◌, map, Option, none, some,
  length, ltb, leb, if◌then◌else◌, Result, ok, err, ◌==◌, string_eq, nat_eq, byte_len, bytes, utf8,
  chars,
}
use quotio_cli.Fingerprint.{fingerprint}
use quotio_cli.Provider.{Provider, id}
use quotio_cli.Config.{Config, Toml, ConfigError, parse, providers, disabled_providers, slice_to}

pub record Overrides : Type 0 where
  pub providers : Option (List Provider)
  pub refresh_interval : Option ℕ
  pub provider_timeout : Option ℕ

pub record SettingsView (F : Type 0) : Type 0 where
  pub revision : String
  pub values : Config F
  pub overridden : List String

pub record SettingsPatch : Type 0 where
  pub revision : String
  pub enabled_providers : Option (List Provider)
  pub disabled_providers : Option (List Provider)
  pub cache_ttl_seconds : Option ℕ
  pub refresh_interval : Option ℕ
  pub provider_timeout : Option ℕ

pub data SettingsError : Type 0 where
  invalid conflict overridden busy storage : SettingsError

-- How the writing of the new text ends: it is in place, it is in place but the directory is not synced,
-- or the old text is left.
pub data Saved : Type 0 where
  saved unsynced unsaved : Saved

-- What the operating system answers: to the lock of `patch`, to the opening and reading of a file that
-- is there, and to the writing; and whether the random source works.
pub record Env : Type 0 where
  pub lock : Option SettingsError
  pub unreadable : Bool
  pub random : Bool
  pub write : Saved

abbrev pub is_some {ℓ} : {A : Type ℓ} → Option A → Bool
is_some none = false
is_some (some a) = true

abbrev pub or_old {ℓ} : {A : Type ℓ} → Option A → A → A
or_old none old = old
or_old (some new) old = new

abbrev pub ids : List Provider → List String
ids = map id

-- `file.take(65537).read_to_string(..)` cuts the last code point of a longer text, or not.
abbrev encoded_len : List ℕ → ℕ
encoded_len [] = 0
encoded_len (c ∷ cs) = length (utf8 c) + encoded_len cs

abbrev is_cut : String → Bool
is_cut text = not (encoded_len (slice_to 65537 (chars text)) == 65537)

abbrev pub text_of : Option String → String
text_of none = ""
text_of (some text) = text

-- The revision of a text of the file.
abbrev pub revision_of : (List ℕ → List ℕ) → String → String
revision_of sha256 text = fingerprint sha256 (text ∷ [])

abbrev is_ok {ℓ κ} : {E : Type ℓ} {A : Type κ} → Result E A → Bool
is_ok (ok a) = true
is_ok (err e) = false

abbrev pub in_range : ℕ → ℕ → Bool
in_range most n = leb 1 n && leb n most

-- `validate`
unfoldable pub validate : (String → Option Provider) → {F : Type 0} → Config F → Bool
validate from_str config =
    is_ok (providers from_str config)
    && is_ok (disabled_providers from_str config)
    && in_range 86400 config.refresh_interval
    && in_range 3600 config.provider_timeout

abbrev listed : Bool → String → List String
listed b name = if b then name ∷ [] else []

abbrev ids_or : Option (List Provider) → List String → List String
ids_or none old = old
ids_or (some ps) old = ids ps

abbrev pub is_overridden : Overrides → SettingsPatch → Bool
is_overridden overrides patch =
    (is_some patch.enabled_providers && is_some overrides.providers)
    || (is_some patch.refresh_interval && is_some overrides.refresh_interval)
    || (is_some patch.provider_timeout && is_some overrides.provider_timeout)

module _ {F : Type 0} where
  -- `SettingsStore::effective`
  unfoldable pub effective : Overrides → Config F → String → SettingsView F
  effective overrides values revision = record {
    revision = revision;
    values = record values {
      enabled_providers = ids_or overrides.providers values.enabled_providers;
      refresh_interval = or_old overrides.refresh_interval values.refresh_interval;
      provider_timeout = or_old overrides.provider_timeout values.provider_timeout;
    };
    overridden =
        listed (is_some overrides.providers) "enabled_providers"
        ++ (listed (is_some overrides.refresh_interval) "refresh_interval"
            ++ listed (is_some overrides.provider_timeout) "provider_timeout");
  }

  unfoldable pub patched : SettingsPatch → Config F → Config F
  patched patch config = record config {
    enabled_providers = ids_or patch.enabled_providers config.enabled_providers;
    disabled_providers = ids_or patch.disabled_providers config.disabled_providers;
    cache_ttl_seconds = or_old patch.cache_ttl_seconds config.cache_ttl_seconds;
    refresh_interval = or_old patch.refresh_interval config.refresh_interval;
    provider_timeout = or_old patch.provider_timeout config.provider_timeout;
  }

  module _ (sha256 : List ℕ → List ℕ) (from_str : String → Option Provider) (T : Toml F) where
    abbrev pub checked : Result ConfigError (Config F) → Result SettingsError (Config F)
    checked (ok config) = if validate from_str config then ok config else err invalid
    checked (err e) = err invalid

    abbrev with_revision :
        String → Result SettingsError (Config F) → Result SettingsError (Config F × String)
    with_revision text (ok config) = ok (config, revision_of sha256 text)
    with_revision text (err e) = err e

    abbrev pub read_text : String → Result SettingsError (Config F × String)
    read_text text =
        if ltb 65536 (byte_len text)
        then err (if ltb 65537 (byte_len text) && is_cut text then storage else invalid)
        else with_revision text (checked (parse T text))

    -- `SettingsStore::read`
    unfoldable pub read : Env → Option String → Result SettingsError (Config F × String)
    read env none = read_text ""
    read env (some text) = if env.unreadable then err storage else read_text text

    module _ (overrides : Overrides) where
      abbrev viewed :
          Result SettingsError (Config F × String) → Result SettingsError (SettingsView F)
      viewed (ok (config, revision)) = ok (effective overrides config revision)
      viewed (err e) = err e

      -- `SettingsStore::load`
      unfoldable pub load : Env → Option String → Result SettingsError (SettingsView F)
      load env stored = viewed (read env stored)

      abbrev Answer : Type 0
      Answer = Option String × Result SettingsError (SettingsView F)

      abbrev pub written : Saved → Option String → String → Config F → Answer
      written saved stored text config =
          (some text, ok (effective overrides config (revision_of sha256 text)))
      written unsynced stored text config = (some text, err storage)
      written unsaved stored text config = (stored, err storage)

      abbrev printed : Env → Option String → Config F → Option String → Answer
      printed env stored config none = (stored, err invalid)
      printed env stored config (some text) =
          if env.random then written env.write stored text config else (stored, err storage)

      abbrev pub store : Env → Option String → Config F → Answer
      store env stored config =
          if validate from_str config
          then printed env stored config (T.print config)
          else (stored, err invalid)

      abbrev apply :
          Env → SettingsPatch → Option String → Result SettingsError (Config F × String) → Answer
      apply env change stored (err e) = (stored, err e)
      apply env change stored (ok (config, revision)) =
          if not (change.revision == revision)
          then (stored, err conflict)
          else if is_overridden overrides change
          then (stored, err overridden)
          else store env stored (patched change config)

      -- `SettingsStore::patch`, which holds the lock of the file from the start.
      unfoldable pub patch : Env → SettingsPatch → Option String → Answer
      patch env change stored = elim env.lock [
        | some e ↦ (stored, err e)
        | none ↦ apply env change stored (read env stored)
      ]
