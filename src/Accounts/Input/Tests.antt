-- ===== src/Accounts/Input/Tests.antt =====
-- A provider with a required setting that the environment has, and one that the user gives.
use quotio_cli.Base.{
  String, ◌≡◌, ◌⊎◌, refl, false, true, List, [], ◌∷◌, Option, none, some, any, All, ok, ◌==◌,
  string_eq, if◌then◌else◌,
}
use quotio_cli.Base.Dict.{Dict, lookup}
use quotio_cli.Provider.{Provider, catalog, Definition, Setting, api_key}
use quotio_cli.Accounts.Input.{provider_settings, is_refused}
use quotio_cli.Accounts.Input.Settings.{IsPresent, settings-IsPresent}

abbrev get : String → Option String
get name = if name == "REGION" then some "eu" else none

abbrev definition : Definition
definition = record {
  id = "azure";
  name = "Azure";
  key_env = "AZURE_KEY";
  auth = api_key;
  settings =
      record { name = "region"; env = "REGION"; required = true }
      ∷ record { name = "project"; env = "PROJECT"; required = false }
      ∷ [];
}

abbrev given : Dict String
given = ("project", "mine") ∷ []

abbrev filled : Dict String
filled = ("project", "mine") ∷ ("region", "eu") ∷ []

filled_lem : provider_settings get (definition ∷ []) (catalog "azure") given ≡ ok filled
unfolding provider_settings quotio_cli.Provider.definition quotio_cli.Base.String-discrete
    quotio_cli.Base.byte_len quotio_cli.Base.is_control lookup quotio_cli.Base.Dict.insert
filled_lem = refl

settings-IsPresent_example :
    (any (is_refused definition) filled ≡ false)
    × All (IsPresent filled) definition.settings
    × ((lookup "project" given ≡ none) ⊎ (lookup "project" filled ≡ lookup "project" given))
unfolding quotio_cli.Provider.definition quotio_cli.Base.String-discrete lookup
settings-IsPresent_example =
    settings-IsPresent get (definition ∷ []) (catalog "azure") definition given filled "project"
      refl filled_lem
