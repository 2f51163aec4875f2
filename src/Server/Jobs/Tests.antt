-- ===== src/Server/Jobs/Tests.antt =====
-- The same refresh, asked for twice.
use quotio_cli.Base.{
  ℕ, String, ◌≡◌, refl, true, List, [], ◌∷◌, Option, none, some, ok, ◌≢◌, ne_of_==, string_eq,
  String-discrete,
}
use quotio_cli.Provider.{Provider, codex}
use quotio_cli.Server.Operations.{Operation, running, get}
use quotio_cli.Server.Refresh.{RefreshRequest}
use quotio_cli.Server.Jobs.{State, manual_refresh, refresh_scope}
use quotio_cli.Server.Jobs.History.{Step, ended, run}
use quotio_cli.Server.Jobs.Shared.{manual_refresh-shared}

abbrev enabled : List Provider
enabled = codex ∷ []

abbrev request : RefreshRequest
request = record { providers = codex ∷ []; account_id = none; force = true }

abbrev encode : RefreshRequest → Option String
encode r = some "codex"

abbrev idle : State (Unit {0})
idle = record { pending = []; operations = []; jobs = [] }

abbrev first : Operation (Unit {0})
first = running "1" "refresh"

-- Another refresh ends.
abbrev steps : List (Step (Unit {0}))
steps = ended 6 "9" "amp" (ok tt) ∷ []

amp-ne-codex : ◌≢◌ {A = String} "amp" "codex"
unfolding String-discrete
amp-ne-codex = ne_of_== "amp" "codex" refl

abbrev after : State (Unit {0})
after = run encode steps (manual_refresh encode enabled (λ p id. ok tt) 5 (some "1") request idle).0

scope : refresh_scope enabled (λ p id. ok tt) request ≡ ok request
unfolding refresh_scope quotio_cli.Provider.Named.sort_by_id native.Mathlib.Decide.ℕ_discrete
    quotio_cli.Provider.Provider-discrete
scope = refl

begun : (manual_refresh encode enabled (λ p id. ok tt) 5 (some "1") request idle).1 ≡ ok first
unfolding manual_refresh quotio_cli.Provider.Named.sort_by_id native.Mathlib.Decide.ℕ_discrete
    quotio_cli.Provider.Provider-discrete quotio_cli.Base.Dict.lookup
    quotio_cli.Server.Operations.start quotio_cli.Server.Operations.admit
    quotio_cli.Server.Operations.prune quotio_cli.Server.Operations.remove_first_ones
    quotio_cli.Server.Operations.completed
begun = refl

known : (get 7 "1" after.operations).1 ≡ some first
unfolding manual_refresh get quotio_cli.Provider.Named.sort_by_id native.Mathlib.Decide.ℕ_discrete
    quotio_cli.Provider.Provider-discrete quotio_cli.Base.Dict.lookup
    quotio_cli.Server.Operations.start quotio_cli.Server.Operations.admit
    quotio_cli.Server.Operations.prune quotio_cli.Server.Operations.remove_first_ones
    quotio_cli.Server.Operations.completed quotio_cli.Base.Dict.insert String-discrete run
    quotio_cli.Server.Jobs.History.step quotio_cli.Server.Jobs.finish_refresh
    quotio_cli.Server.Operations.finish
known = refl

manual_refresh-shared_example :
    manual_refresh encode enabled (λ p id. ok tt) 7 (some "2") request after
    ≡ (record after { operations = (get 7 "1" after.operations).0 }, ok first)
unfolding quotio_cli.Base.Dict.lookup
manual_refresh-shared_example =
    manual_refresh-shared encode enabled enabled (λ p id. ok tt) (λ p id. ok tt) 5 7 (some "1")
      (some "2") request request request "codex" idle steps first first scope scope refl refl begun
      (amp-ne-codex, tt) known
