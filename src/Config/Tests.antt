-- ===== src/Config/Tests.antt =====
-- An error on the second line of a configuration, and a list of names.
use quotio_cli.Base.{
  ℕ, String, ◌≡◌, ◌⊎◌, refl, true, false, ◌||◌, List, [], ◌∷◌, ◌++◌, any, Option, none, some, ok,
  err, ◌==◌, string_eq, if◌then◌else◌, chars,
}
use quotio_cli.Provider.{Provider, amp, zai, provider_eq}
use quotio_cli.Config.{Toml, parse, parse_error, parse_providers, unsupported}
use quotio_cli.Config.Position.{IsEnd, scan, parse-located}
use quotio_cli.Config.Providers.{distinct, names, is_unknown, parse_providers-cases}

abbrev broken : Toml (Unit {0})
broken = record { read = λ input. err (some 6); print = λ config. none }

abbrev broken_text : String
broken_text = "a = 1\n= 2"

parse-located_example :
    (front rest : List ℕ) × (front ++ rest ≡ chars broken_text)
    × IsEnd 6 front rest
    × (parse broken broken_text ≡ err (parse_error (scan (1, 1) front).0 (scan (1, 1) front).1))
parse-located_example = parse-located broken broken_text 6 refl

abbrev from_str : String → Option Provider
from_str s = if s == "amp" then some amp else if s == "zai" || s == "glm" then some zai else none

abbrev listed : List String
listed = "zai" ∷ "amp" ∷ "glm" ∷ []

parse_providers-cases_example :
    ((qs : List Provider) × (parse_providers from_str listed ≡ ok qs)
      × (any (is_unknown from_str) listed ≡ false)
      × (distinct qs ≡ true)
      × (any (λ q. q == zai) qs ≡ names from_str listed zai))
    ⊎ ((parse_providers from_str listed ≡ err unsupported)
        × (any (is_unknown from_str) listed ≡ true))
parse_providers-cases_example = parse_providers-cases from_str listed zai
