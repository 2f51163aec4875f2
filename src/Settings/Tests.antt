-- ===== src/Settings/Tests.antt =====
-- A change of the refresh interval, and a second one that comes too late.
use quotio_cli.Base.{
  ℕ, ◌≤◌, ◌<◌, ◌%◌, String, ◌≡◌, ◌≢◌, ◌⊎◌, refl, sym, ap, subst, ◌∙◌, true, false, List, [], ◌∷◌,
  All, Option, none, some, arith, ok, err, ◌==◌, string_eq, if◌then◌else◌, byte_len, is_empty,
  Result, String-discrete,
}
use mathlib.Core.Logic.{ite}
use native.Mathlib.Decide.{ℕ_discrete}
use quotio_cli.Fingerprint.{message}
use quotio_cli.Provider.{Provider}
use quotio_cli.Config.{Config, Toml, default_config, LegacyNotificationPreferences}
use quotio_cli.Settings.{
  Env, saved, Overrides, SettingsPatch, SettingsView, SettingsError, patch, load, text_of,
  revision_of, effective,
}
use quotio_cli.Settings.Patch.{patch-load, patch-conflict, IsRefused}
use quotio_cli.Settings.Bounds.{load-IsBounded, IsBounded}

abbrev from_str : String → Option Provider
from_str s = none

-- A digest of bytes that forgets nothing of them.
digest : List ℕ → List ℕ
digest [] = []
digest (b ∷ bs) = (b % 256) ∷ digest bs

digest_octets : (m : List ℕ) → All (λ b. b < 256) (digest m)
unfolding digest
digest_octets [] = tt
digest_octets (b ∷ bs) = (omega arith, digest_octets bs)

abbrev slow : Config (Unit {0})
slow = record {
  notifications = none;
  enabled_providers = [];
  disabled_providers = [];
  cache_ttl_seconds = 300;
  refresh_interval = 600;
  provider_timeout = 10;
}

Config-discrete : Discrete (Config (Unit {0}))
Config-discrete = hlevel (String-discrete, ℕ_discrete)

abbrev toml : Toml (Unit {0})
toml = record {
  read = λ text. if text == "slow" then ok slow else ok default_config;
  print = λ config. ite (Config-discrete config slow) (some "slow") none;
}

toml_prints :
    (config : Config (Unit {0})) (text : String)
    → toml.print config ≡ some text
    → toml.read text ≡ ok config
toml_prints config text h = ground arith

abbrev env : Env
env = record { lock = none; unreadable = false; random = true; write = saved }

abbrev no_overrides : Overrides
no_overrides = record { providers = none; refresh_interval = none; provider_timeout = none }

abbrev change : SettingsPatch
change = record {
  revision = revision_of digest "";
  enabled_providers = none;
  disabled_providers = none;
  cache_ttl_seconds = none;
  refresh_interval = some 600;
  provider_timeout = none;
}

abbrev view : SettingsView (Unit {0})
view = effective no_overrides slow (revision_of digest "slow")

patched_once : patch digest from_str toml no_overrides env change none ≡ (some "slow", ok view)
unfolding patch quotio_cli.Settings.read byte_len quotio_cli.Config.parse String-discrete
    quotio_cli.Settings.validate quotio_cli.Config.parse_providers
    quotio_cli.Fingerprint.fingerprint digest quotio_cli.Settings.patched Config-discrete ℕ_discrete
patched_once = refl

abbrev after : Option String × Result SettingsError (SettingsView (Unit {0}))
after = patch digest from_str toml no_overrides env change none

after_text : text_of after.0 ≡ "slow"
after_text = ap (λ r. text_of r.0) patched_once

patch-load_example :
    ((byte_len (text_of after.0) ≤ 65536)
      × (load digest from_str toml no_overrides env after.0 ≡ ok view))
    ⊎ ((65536 < byte_len (text_of after.0))
        × ((e : SettingsError) × (load digest from_str toml no_overrides env after.0 ≡ err e)))
patch-load_example =
    patch-load digest from_str toml no_overrides env env change none view toml_prints refl
      (ap (λ r. r.1) patched_once)

digests_differ : ¬ (digest (message ("slow" ∷ [])) ≡ digest (message ("" ∷ [])))
unfolding digest message quotio_cli.Base.bytes
digests_differ h = ground arith

slow-ne-empty : ◌≢◌ {A = String} "slow" ""
slow-ne-empty p = ground (arith, ap is_empty p)

changed : text_of after.0 ≢ ""
changed h = slow-ne-empty (sym after_text ∙ h)

abbrev first_view : SettingsView (Unit {0})
first_view = effective no_overrides default_config (revision_of digest "")

first_loaded : load digest from_str toml no_overrides env none ≡ ok first_view
unfolding load quotio_cli.Settings.read byte_len quotio_cli.Config.parse String-discrete
    quotio_cli.Settings.validate quotio_cli.Config.parse_providers
first_loaded = refl

patch-conflict_example :
    IsRefused digest from_str toml no_overrides after.0
      (patch digest from_str toml no_overrides env change after.0)
unfolding effective
patch-conflict_example =
    patch-conflict digest from_str toml no_overrides env env first_view change none after.0
      digest_octets
      (λ same. absurd (
        digests_differ
          (subst (λ t. digest (message (t ∷ [])) ≡ digest (message ("" ∷ []))) after_text same)))
      first_loaded refl changed

loaded : load digest from_str toml no_overrides env (some "slow") ≡ ok view
unfolding load quotio_cli.Settings.read byte_len quotio_cli.Config.parse String-discrete
    quotio_cli.Settings.validate quotio_cli.Config.parse_providers
loaded = refl

load-IsBounded_example : IsBounded view
load-IsBounded_example =
    load-IsBounded digest from_str toml no_overrides env (some "slow") view refl refl loaded
