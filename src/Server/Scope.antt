-- ===== src/Server/Scope.antt =====
-- src/server/management.rs: the check of the account that a manual refresh is for.
pub mod Checked
pub mod Tests
use quotio_cli.Base.{
  ℕ, String, ◌≡◌, refl, sym, ap, ◌∙◌, subst, ◌⊎◌, inl, inr, Bool, true, false, not, ◌&&◌, ◌||◌,
  List, [], ◌∷◌, Option, none, some, arith, any, length, if◌then◌else◌, Result, ok, err, ◌==◌,
  string_eq, Bool-cases, Result-cases, Option-cases,
}
use quotio_cli.Provider.{Provider, Definition, provider_eq, supports_accounts}
use quotio_cli.Accounts.Credential.{AccountError, Account, Credential}
use quotio_cli.Accounts.Choice.{Machine, native_reference_replaces_local}
use quotio_cli.Server.Answers.{ApiError, api_error, account_error}
use quotio_cli.Server.Mutations.{waited}
use quotio_cli.Server.Refresh.{RefreshRequest, is_in}
use quotio_cli.Server.Jobs.{refresh_scope}

-- The answers that the vault gives to the check: to `list`, and to `get` in ten seconds.
pub record Answers : Type 0 where
  pub listed : Result AccountError (List Account)
  pub got : String → Option (Result AccountError Account)

module _ (machine : Machine) where
  abbrev pub is_replacing : Provider → Account → Bool
  is_replacing p a = a.provider == p && native_reference_replaces_local machine p a.credential

  abbrev pub local_checked :
      Provider → Result AccountError (List Account) → Result ApiError (Unit {0})
  local_checked p (err e) = err (account_error e)
  local_checked p (ok accounts) =
      if any (is_replacing p) accounts
      then err (api_error 409 "registered_source_requires_account_id")
      else ok tt

  abbrev pub of_this_provider : Provider → Result ApiError Account → Result ApiError (Unit {0})
  of_this_provider p (err e) = err e
  of_this_provider p (ok a) =
      if a.provider == p then ok tt else err (api_error 400 "invalid_refresh_scope")

  -- `validate_refresh_account`, where there is a vault, for a provider that supports accounts or not.
  unfoldable pub validate_refresh_account :
      List Definition → Option Answers → Bool → Provider → String → Result ApiError (Unit {0})
  unfolding waited
  validate_refresh_account definitions vault no_saved_accounts p id =
      if id == "local"
      then (if not no_saved_accounts && supports_accounts definitions p
          then elim vault [
            | none ↦ err (api_error 503 "account_storage_disabled")
            | some answers ↦ local_checked p answers.listed
          ]
          else ok tt)
      else elim vault [
        | none ↦ err (api_error 503 "account_storage_disabled")
        | some answers ↦ of_this_provider p (waited (answers.got id))
      ]
