-- ===== src/Accounts/Service/History.antt =====
-- Any sequence of transactions on the vault, each with its answers from the operating system.
pub mod Steps
pub mod Kept
use quotio_cli.Base.{
  ℕ, ◌+◌, ◌≤◌, max, String, ◌≡◌, refl, sym, ap, ◌∙◌, ◌⊎◌, inl, inr, Bool, true, false, not, ◌&&◌,
  ◌||◌, List, [], ◌∷◌, map, Option, none, some, arith, All, find, any, Result, ok, err, Method,
  Bool-cases, Option-cases, Result-cases, if◌then◌else◌, leb, ◌>>=◌, ◌>>◌, done, modify, with_self,
  ok_or, update_first, ◌==◌, string_eq, length,
}
use quotio_cli.Base.Dict.{Dict, lookup, insert, lookup-insert, length-insert-le}
use quotio_cli.Provider.{Provider}
use quotio_cli.Accounts.Credential.{
  AccountError, corrupt, Credential, claude_oauth, antigravity_oauth, kiro_oauth, factory_oauth,
  grok_oauth, codex_oauth, Account, origin_of, credential_eq,
}
use quotio_cli.Accounts.Document.{
  Document, MutationReceipt, empty, Change, has_id, add, select, remove, rename, patch,
  patch_enabled, reserve_factory_refresh, raise_for, reserve_token, raise,
}
use quotio_cli.Accounts.Document.Rule.{patch_rule}
use quotio_cli.Accounts.Document.Ledger
use quotio_cli.Accounts.Vault.{Codec, upgraded, has}
use quotio_cli.Accounts.Vault.Format.{IsFormatted, Fits, credential_format}
use quotio_cli.Accounts.Vault.Mutations
use quotio_cli.Accounts.Service.{
  Env, Stored, MutationIntent, transact, commit_once, fence, install, installed, set_pending,
  replace_credential, of_provider, receipt, record_receipt,
}

-- The methods that a transaction may run.
pub data Mutation : Type 0 where
  adds persists :
      (random : Result AccountError String) (provider : Provider) (text identity : String)
      (credential : Credential)
      → Mutation
  removes selects : (id : String) → Mutation
  renames : (id text : String) → Mutation
  patches : (id : String) (text : Option String) (active enabled : Option Bool) → Mutation
  fences : (id : String) (credential : Credential) → Mutation
  installs : (id : String) (provider : Provider) (latest updated : Credential) → Mutation

-- A transaction by itself, or under a retry key.
pub data Call : Type 0 where
  plain : Mutation → Call
  once : MutationIntent → Mutation → Call

-- What `read` refreshes, and gets back from a refresh.
abbrev pub is_refreshable : Credential → Bool
is_refreshable (codex_oauth access_token refresh_token id_token i email e) = true
is_refreshable (claude_oauth access_token refresh_token i email e p) = true
is_refreshable (grok_oauth access_token refresh_token e p) = true
is_refreshable (factory_oauth access_token refresh_token o e p) = true
is_refreshable (kiro_oauth access_token refresh_token e m region arn i s machine p) = true
is_refreshable (antigravity_oauth access_token refresh_token e i s p) = true
is_refreshable _ = false

abbrev pub IsAllowed : Mutation → Type 0
IsAllowed (fences id credential) = is_refreshable credential ≡ true
IsAllowed (installs id provider latest updated) = is_refreshable updated ≡ true
IsAllowed _ = Unit {0}

abbrev pub IsAllowedCall : Env × Call → Type 0
IsAllowedCall (env, plain m) = IsAllowed m
IsAllowedCall (env, once intent m) = IsAllowed m

module _ (sha256 : List ℕ → List ℕ) where
  unfoldable pub apply : Mutation → Change String
  apply (adds random p text identity c) = add sha256 random p text identity c
  apply (persists random p text identity c) = do
    id ← add sha256 random p text identity c
    account ← with_self (λ d. ok_or (find (has_id id) d.accounts) corrupt)
    done account.id
  apply (removes id) = do remove sha256 id; done id
  apply (selects id) = do select id; done id
  apply (renames id text) = do rename id text; done id
  apply (patches id text active enabled) = do patch id text active enabled; done id
  apply (fences id credential) = do fence sha256 id credential; done id
  apply (installs id p latest updated) = do outcome ← install sha256 id p latest updated; done id

  module _ (C : Codec) where
    unfoldable pub serve : Env × Call → Stored C → Stored C
    serve (env, plain m) stored = (transact C env (apply m) stored).0
    serve (env, once intent m) stored = (commit_once C env intent (apply m) stored).0

    unfoldable pub run : List (Env × Call) → Stored C → Stored C
    run [] stored = stored
    run (call ∷ calls) stored = run calls (serve call stored)
