-- ===== src/Accounts/Service/Read.antt =====
-- src/accounts/service.rs: `ManagedProvider::read` and `verify_current`, which read the usage of a saved
-- account and refresh its credential. Other transactions may be committed before each transaction of
-- `read`. The network answers, the clock and the lock file are arguments.
pub mod Marks
pub mod Fenced
pub mod Tests
use quotio_cli.Base.{
  ℕ, String, Bool, true, false, not, ◌&&◌, ◌||◌, List, [], ◌∷◌, Option, none, some, find,
  if◌then◌else◌, ℤ, pos, ◌+ℤ◌, leb_ℤ, Result, ok, err, Method, ◌>>=◌, ◌>>◌, done, fail, refuse_if,
  ok_or, modify, with_self, lift, ◌==◌, string_eq,
}
use quotio_cli.Provider.{Provider, catalog, provider_eq}
use quotio_cli.Accounts.Credential
use quotio_cli.Accounts.Credential.{
  AccountError, busy, not_found, source_disabled, commit_uncertain, provider, ProviderError,
  authentication, Credential, codex_oauth, grok_oauth, factory_oauth, claude_oauth, kiro_oauth,
  antigravity_oauth, credential_eq, Account, is_enabled,
}
use quotio_cli.Accounts.Document.{Document}
use quotio_cli.Accounts.Vault.{Codec}
use quotio_cli.Accounts.Service.{
  Env, Stored, begin, transact, set_pending, has_pending, fence, install, of_provider,
}
use quotio_cli.Accounts.Service.History.{Call, is_refreshable, run}

-- `refresh_pending: true`
abbrev pub is_pending : Credential → Bool
is_pending (grok_oauth access_token refresh_token e p) = p
is_pending (factory_oauth access_token refresh_token o e p) = p
is_pending (claude_oauth access_token refresh_token i email e p) = p
is_pending (kiro_oauth access_token refresh_token e m region arn i s machine p) = p
is_pending (antigravity_oauth access_token refresh_token e i s p) = p
is_pending _ = false

abbrev expires_at : Credential → Option ℤ
expires_at (codex_oauth access_token refresh_token id_token i email e) = some e
expires_at (grok_oauth access_token refresh_token e p) = some e
expires_at (factory_oauth access_token refresh_token o e p) = some e
expires_at (claude_oauth access_token refresh_token i email e p) = some e
expires_at (kiro_oauth access_token refresh_token e m region arn i s machine p) = some e
expires_at (antigravity_oauth access_token refresh_token e i s p) = some e
expires_at _ = none

abbrev refresh_margin : Provider → ℤ
refresh_margin p = if p == catalog "grok" then pos 300 else pos 60

abbrev is_due : ℤ → Option ℤ → Bool
is_due limit none = false
is_due limit (some e) = leb_ℤ e limit

abbrev pub needs_refresh : Provider → ℤ → Credential → Bool
needs_refresh p now c = is_due (now +ℤ refresh_margin p) (expires_at c)

abbrev pub is_authentication : AccountError → Bool
is_authentication (provider authentication) = true
is_authentication _ = false

module _ (C : Codec) where
  -- The vault, and each request for a refresh with the vault at that time, the latest first.
  pub record World : Type 0 where
    pub stored : Stored C
    pub refreshed : List (Credential × Stored C)

  abbrev pub Action : Type 0 → Type 0
  Action = Method World AccountError

-- What one read meets. Its transactions are numbered: `others n` are committed before the n-th.
pub record Reading (Usage : Type 0) : Type 0 where
  pub id : String
  pub provider : Provider
  pub now : ℤ
  pub quota : Credential → Result AccountError Usage
  pub quota_again : Credential → Result AccountError Usage
  pub refresh : Credential → Result AccountError Credential
  pub refresh_lock : Result AccountError (Unit {0})
  pub env : ℕ → Env
  pub others : ℕ → List (Env × Call)

abbrev pub account_in :
    {Usage : Type 0} → Reading Usage → Result AccountError Document → Result AccountError Account
account_in R (err e) = err e
account_in R (ok d) = elim (find (of_provider R.id R.provider) d.accounts) [
  | none ↦ err not_found
  | some a ↦ ok a
]

module _ (sha256 : List ℕ → List ℕ) {C : Codec} where
  abbrev pub in_store : {A : Type 0} → Method (Stored C) AccountError A → Action C A
  in_store m w = (record w { stored = (m w.stored).0 }, (m w.stored).1)

  module _ {Usage : Type 0} (R : Reading Usage) where
    abbrev pub wait : ℕ → Action C (Unit {0})
    wait n = modify (λ w. record w { stored = run sha256 C (R.others n) w.stored })

    -- `begin`, the search for the account, and `drop(tx)`.
    abbrev pub look_up : ℕ → Action C Account
    look_up n = do
      wait n
      with_self (λ w. lift (account_in R (begin C (R.env n).attempts w.stored)))

    unfoldable pub verify_current : ℕ → Credential → Usage → Action C Usage
    verify_current n credential usage = do
      current ← look_up n
      refuse_if (not (is_enabled current) || not (current.credential == credential)) busy
      done usage

    -- The part under `if let .. = &mut latest`.
    unfoldable pub fence_first : Credential → Action C (Unit {0})
    fence_first credential =
        if has_pending credential
        then (do wait 2; in_store (transact C (R.env 2) (fence sha256 R.id credential)))
        else done tt

    abbrev pub send : Credential → Action C Credential
    send latest w = (record w { refreshed = (latest, w.stored) ∷ w.refreshed }, R.refresh latest)

    abbrev pub install_it : Credential → Credential → Action C (Unit {0})
    install_it latest updated = do
      wait 3
      outcome ← in_store (transact C (R.env 3) (install sha256 R.id R.provider latest updated))
      lift outcome

    -- The end of `read`, where the credential is still the latest one.
    unfoldable pub renew : Credential → Action C Usage
    renew credential = do
      fence_first credential
      updated ← send (set_pending credential)
      install_it (set_pending credential) updated
      usage ← lift (R.quota_again updated)
      verify_current 4 updated usage

    abbrev pub read_again : Credential → Action C Usage
    read_again latest = do usage ← lift (R.quota_again latest); verify_current 4 latest usage

    -- From `refresh_lock` on.
    unfoldable pub refresh_and_read : Credential → Action C Usage
    refresh_and_read credential = do
      lift R.refresh_lock
      account ← look_up 1
      refuse_if (not (is_enabled account)) source_disabled
      (if not (credential == account.credential)
          then read_again account.credential
          else renew credential)

    abbrev pub first_answer : Credential → Result AccountError Usage → Action C Usage
    first_answer credential (ok usage) = verify_current 5 credential usage
    first_answer credential (err e) =
        if is_authentication e then refresh_and_read credential else fail e

    abbrev pub read_plain : Credential → Action C Usage
    read_plain credential = do usage ← lift (R.quota credential); verify_current 5 credential usage

    abbrev pub read_credential : Credential → Action C Usage
    read_credential credential =
        if not (is_refreshable credential)
        then read_plain credential
        else if needs_refresh R.provider R.now credential
        then refresh_and_read credential
        else first_answer credential (R.quota credential)

    -- `ManagedProvider::read`
    unfoldable pub read : Action C Usage
    read = do
      account ← look_up 0
      refuse_if (not (is_enabled account)) source_disabled
      refuse_if (is_pending account.credential) commit_uncertain
      read_credential account.credential
