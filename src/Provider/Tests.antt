-- ===== src/Provider/Tests.antt =====
-- A catalog of two providers, and their names.
use quotio_cli.Base.{String, ◌≡◌, refl, false, List, [], ◌∷◌, some, find, All, String-discrete}
use quotio_cli.Provider.{Provider, catalog, factory, Definition, api_key}
use quotio_cli.Provider.Named.{value_variants, has_name, is_reserved, from_str-names, names}

abbrev entry : String → Definition
entry i = record { id = i; name = i; key_env = "KEY"; auth = api_key; settings = [] }

abbrev definitions : List Definition
definitions = entry "zed" ∷ entry "groq" ∷ []

apart : All (λ d. is_reserved d.id ≡ false) definitions
unfolding names quotio_cli.Provider.id String-discrete
apart = (refl, (refl, tt))

from_str-names_example : find (has_name "groq") (value_variants definitions) ≡ some (catalog "groq")
unfolding value_variants names quotio_cli.Provider.id String-discrete
    quotio_cli.Provider.Provider-discrete quotio_cli.Base.bytes native.Mathlib.Decide.ℕ_discrete
from_str-names_example =
    from_str-names definitions (λ s. find (has_name s) (value_variants definitions)) (λ s. refl)
      apart (catalog "groq") "groq" refl refl
