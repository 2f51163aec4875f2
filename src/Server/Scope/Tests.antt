-- ===== src/Server/Scope/Tests.antt =====
-- A refresh of one saved account of Codex.
use quotio_cli.Base.{◌≡◌, refl, true, false, [], ◌∷◌, Option, none, some, ok, String-discrete}
use quotio_cli.Provider.{Provider, codex}
use quotio_cli.Accounts.Credential.{Account, api_key}
use quotio_cli.Accounts.Choice.{Machine}
use quotio_cli.Server.Refresh.{RefreshRequest}
use quotio_cli.Server.Jobs.{refresh_scope}
use quotio_cli.Server.Scope.{Answers, validate_refresh_account}
use quotio_cli.Server.Scope.Checked.{IsNarrow, refresh_scope-IsNarrow}

abbrev machine : Machine
machine = record {
  is_set = λ name. false;
  get = λ name. none;
  executable = λ name. false;
  has_local_amp_key = false;
  host = λ url. none;
  codex_path = λ home. none;
}

abbrev account : Account
account = record {
  id = "1";
  provider = codex;
  label = "main";
  identity = "me";
  active = false;
  enabled = true;
  credential = api_key "token" none none;
}

abbrev vault : Option Answers
vault = some (record { listed = ok (account ∷ []); got = λ id. some (ok account) })

abbrev request : RefreshRequest
request = record { providers = codex ∷ []; account_id = some "1"; force = false }

accepted : refresh_scope [] (validate_refresh_account machine [] vault false) request ≡ ok request
unfolding refresh_scope validate_refresh_account native.Mathlib.Decide.ℕ_discrete
    quotio_cli.Provider.Named.sort_by_id String-discrete quotio_cli.Provider.Provider-discrete
accepted = refl

refresh_scope-IsNarrow_example : IsNarrow machine [] vault false [] request request
refresh_scope-IsNarrow_example =
    refresh_scope-IsNarrow machine [] vault false [] request request accepted
