-- ===== src/Accounts/Choice/Tests.antt =====
-- Two saved accounts of Codex, and a machine without logins.
use quotio_cli.Base.{String, ◌≡◌, refl, false, true, List, [], ◌∷◌, none, all, ok}
use quotio_cli.Provider.{Provider, codex, mock}
use quotio_cli.Accounts.Credential.{Account, api_key}
use quotio_cli.Accounts.Choice.{
  Machine, Chosen, managed, local_login, adapters_with_vault, local_sources,
}
use quotio_cli.Accounts.Choice.Saved.{managed_of, saved_for, is_allowed, adapters_with_vault-saved}

abbrev machine : Machine
machine = record {
  is_set = λ name. false;
  get = λ name. none;
  executable = λ name. false;
  has_local_amp_key = false;
  host = λ url. none;
  codex_path = λ home. none;
}

abbrev account : String → Account
account id = record {
  id = id;
  provider = codex;
  label = id;
  identity = id;
  active = false;
  enabled = true;
  credential = api_key "token" none none;
}

abbrev accounts : List Account
accounts = account "1" ∷ account "2" ∷ []

abbrev providers : List Provider
providers = mock ∷ codex ∷ []

abbrev chosen : List Chosen
chosen = local_login mock ∷ managed (account "1") ∷ managed (account "2") ∷ []

chosen_lem : adapters_with_vault machine [] providers true none (ok tt) (ok accounts) ≡ ok chosen
unfolding adapters_with_vault quotio_cli.Base.Option-discrete quotio_cli.Provider.definition
    quotio_cli.Provider.supports_accounts quotio_cli.Accounts.Choice.asks_local
    native.Mathlib.Decide.ℕ_discrete quotio_cli.Provider.Provider-discrete
chosen_lem = refl

adapters_with_vault-saved_example :
    (managed_of chosen
      ≡ saved_for machine [] accounts (local_sources machine [] providers) providers)
    × (all (is_allowed machine [] accounts (local_sources machine [] providers)) chosen ≡ true)
adapters_with_vault-saved_example =
    adapters_with_vault-saved machine [] accounts providers chosen chosen_lem
