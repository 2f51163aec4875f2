-- ===== src/Accounts/Service.antt =====
-- src/accounts/service.rs: the transactions on the vault, the retry ledger of `commit_once`, and the
-- two transactions of `ManagedProvider::read` that fence and install a refreshed credential.
pub mod History
pub mod Replay
pub mod Durable
pub mod Promises
pub mod Receipts
pub mod Read
pub mod Tests
use quotio_cli.Base.{
  ℕ, String, Bool, true, false, not, ◌&&◌, ◌||◌, List, [], ◌∷◌, Option, none, some, all, any, find,
  length, leb, update_first, if◌then◌else◌, Result, ok, err, Method, ◌>>=◌, ◌>>◌, done, fail,
  refuse_if, ok_or, modify, with_self, lift, ◌==◌, string_eq, is_empty, byte_len, bytes,
  is_ascii_graphic,
}
use quotio_cli.Base.Dict.{Dict, lookup, insert}
use quotio_cli.Fingerprint.{fingerprint}
use quotio_cli.Provider.{Provider, provider_eq}
use quotio_cli.Accounts.Credential.{
  AccountError, busy, corrupt, input, not_found, source_disabled, idempotency_conflict,
  idempotency_full, Credential, claude_oauth, antigravity_oauth, kiro_oauth, factory_oauth,
  grok_oauth, credential_eq, Account, is_enabled,
}
use quotio_cli.Accounts.Document.{
  Document, MutationReceipt, Change, raise, has_id, reserve_factory_refresh, add, remove, select,
  rename, patch,
}
use quotio_cli.Accounts.Vault.{Codec, Attempt, Written, begin_once, commit}

pub record MutationIntent : Type 0 where
  pub key : String
  pub fingerprint : String

-- `MutationIntent::new`
unfoldable pub new_intent : (List ℕ → List ℕ) → String → String → Result AccountError MutationIntent
new_intent sha256 key print =
    if is_empty key || not (leb (byte_len key) 128) || not (all is_ascii_graphic (bytes key))
    then err input
    else ok (record { key = fingerprint sha256 (key ∷ []); fingerprint = print })

abbrev pub matched : MutationIntent → Option MutationReceipt → Result AccountError (Option String)
matched intent none = ok none
matched intent (some r) =
    if r.fingerprint == intent.fingerprint then ok (some r.account_id) else err idempotency_conflict

-- `MutationIntent::receipt`
unfoldable pub receipt : MutationIntent → Document → Result AccountError (Option String)
receipt intent d = matched intent (lookup intent.key d.mutation_receipts)

abbrev pub record_receipt : MutationIntent → String → Document → Document
record_receipt intent id d = raise 2 (record d {
  mutation_receipts =
      insert intent.key (record { fingerprint = intent.fingerprint; account_id = id })
        d.mutation_receipts;
})

-- `refresh_pending` is set, in the kinds that have it.
abbrev pub set_pending : Credential → Credential
set_pending (grok_oauth access_token refresh_token e p) =
    grok_oauth access_token refresh_token e true
set_pending (factory_oauth access_token refresh_token o e p) =
    factory_oauth access_token refresh_token o e true
set_pending (claude_oauth access_token refresh_token i email e p) =
    claude_oauth access_token refresh_token i email e true
set_pending (kiro_oauth access_token refresh_token e m region arn i s machine p) =
    kiro_oauth access_token refresh_token e m region arn i s machine true
set_pending (antigravity_oauth access_token refresh_token e i s p) =
    antigravity_oauth access_token refresh_token e i s true
set_pending c = c

abbrev pub has_pending : Credential → Bool
has_pending (grok_oauth access_token refresh_token e p) = true
has_pending (factory_oauth access_token refresh_token o e p) = true
has_pending (claude_oauth access_token refresh_token i email e p) = true
has_pending (kiro_oauth access_token refresh_token e m region arn i s machine p) = true
has_pending (antigravity_oauth access_token refresh_token e i s p) = true
has_pending c = false

abbrev pub replace_credential : Credential → Account → Account
replace_credential c a = record a { credential = c }

abbrev pub of_provider : String → Provider → Account → Bool
of_provider id p a = a.id == id && a.provider == p

abbrev pub installed :
    String
    → Provider
    → Credential
    → Credential
    → Option Account
    → Change (Result AccountError (Unit {0}))
installed id p latest updated none d = (d, ok (err not_found))
installed id p latest updated (some account) d =
    if not (account.credential == latest) then (d, ok (err busy)) else (
      record d {
        accounts = update_first (of_provider id p) (replace_credential updated) d.accounts;
      },
      ok (if is_enabled (replace_credential updated account) then ok tt else err source_disabled),
    )

module _ (sha256 : List ℕ → List ℕ) where
  -- The transaction of `read` that writes the fence before the refresh.
  unfoldable pub fence : String → Credential → Change (Unit {0})
  fence id credential = do
    reserve_factory_refresh sha256 id (set_pending credential)
    account ← with_self (λ d. ok_or (find (has_id id) d.accounts) not_found)
    refuse_if (not (is_enabled account) || not (account.credential == credential)) busy
    modify (λ d. record d {
      accounts = update_first (has_id id) (replace_credential (set_pending credential)) d.accounts;
    })

  -- The transaction of `read` after the refresh. It is committed whatever the inner result is.
  unfoldable pub install :
      String → Provider → Credential → Credential → Change (Result AccountError (Unit {0}))
  install id p latest updated = do
    reserve_factory_refresh sha256 id updated
    with_self (λ d. installed id p latest updated (find (of_provider id p) d.accounts))

-- What the operating system answers in one transaction: at each attempt to begin, until the timeout of
-- ten seconds, and at the write.
pub record Env : Type 0 where
  pub attempts : List Attempt
  pub written : Written

abbrev pub is_busy : AccountError → Bool
is_busy busy = true
is_busy _ = false

abbrev pub with_account : String → AccountError → Change (Unit {0}) → Change Account
with_account id missing m = do m; with_self (λ d. ok_or (find (has_id id) d.accounts) missing)

module _ (C : Codec) where
  open C use {Bytes}

  abbrev pub Stored : Type 0
  Stored = Option Bytes

  abbrev retry :
      Result AccountError Document → Result AccountError Document → Result AccountError Document
  retry (ok d) rest = ok d
  retry (err e) rest = if is_busy e then rest else err e

  -- `begin_with_timeout`
  unfoldable pub begin : List Attempt → Stored → Result AccountError Document
  begin [] stored = err busy
  begin (a ∷ attempts) stored = retry (begin_once C a stored) (begin attempts stored)

  abbrev pub committed :
      {A : Type 0} → A → Stored × Result AccountError (Unit {0}) → Stored × Result AccountError A
  committed a (stored, ok u) = (stored, ok a)
  committed a (stored, err e) = (stored, err e)

  abbrev pub conclude :
      {A : Type 0}
      → Written
      → Stored
      → Document × Result AccountError A
      → Stored × Result AccountError A
  conclude w stored (d, err e) = (stored, err e)
  conclude w stored (d, ok a) = committed a (commit C w d stored)

  abbrev pub begun :
      {A : Type 0}
      → Stored
      → Result AccountError Document
      → (Document → Stored × Result AccountError A)
      → Stored × Result AccountError A
  begun stored (ok d) f = f d
  begun stored (err e) f = (stored, err e)

  -- `begin(vault).await?`, a method of the document with `?`, and `commit(tx).await?`.
  unfoldable pub transact : {A : Type 0} → Env → Change A → Method Stored AccountError A
  transact env m stored =
      begun stored (begin env.attempts stored) (λ d. conclude env.written stored (m d))

  abbrev pub answer :
      Env
      → MutationIntent
      → Change String
      → Stored
      → Document
      → Result AccountError (Option String)
      → Stored × Result AccountError String
  answer env intent mutation stored d (err e) = (stored, err e)
  answer env intent mutation stored d (ok (some id)) = (stored, ok id)
  answer env intent mutation stored d (ok none) =
      if leb 4096 (length d.mutation_receipts)
      then (stored, err idempotency_full)
      else conclude env.written stored
          ((do id ← mutation; modify (record_receipt intent id); done id) d)

  unfoldable pub commit_once :
      Env → MutationIntent → Change String → Method Stored AccountError String
  commit_once env intent mutation stored =
      begun stored (begin env.attempts stored)
        (λ d. answer env intent mutation stored d (receipt intent d))

  unfoldable pub mutation_receipt :
      Env → MutationIntent → Stored → Result AccountError (Option String)
  mutation_receipt env intent stored = elim (begin env.attempts stored) [
    | ok d ↦ receipt intent d
    | err e ↦ err e
  ]

  abbrev accounts_of : Result AccountError Document → Result AccountError (List Account)
  accounts_of (ok d) = ok d.accounts
  accounts_of (err e) = err e

  unfoldable pub list : Env → Stored → Result AccountError (List Account)
  list env stored = accounts_of (begin env.attempts stored)

  abbrev account_of : String → Result AccountError Document → Result AccountError Account
  account_of id (ok d) = elim (find (has_id id) d.accounts) [ none ↦ err not_found | some a ↦ ok a ]
  account_of id (err e) = err e

  unfoldable pub get : Env → String → Stored → Result AccountError Account
  get env id stored = account_of id (begin env.attempts stored)

  module _ (sha256 : List ℕ → List ℕ) where
    unfoldable pub add_persisted :
        Env
        → Result AccountError String
        → Provider
        → String
        → Credential
        → String
        → Method Stored AccountError Account
    add_persisted env random p text credential identity = transact env (do
      id ← add sha256 random p text identity credential
      with_self (λ d. ok_or (find (has_id id) d.accounts) corrupt))

    unfoldable pub remove_account : Env → String → Method Stored AccountError (Unit {0})
    remove_account env id = transact env (remove sha256 id)

  unfoldable pub select_account : Env → String → Method Stored AccountError (Unit {0})
  select_account env id = transact env (select id)

  unfoldable pub rename_account : Env → String → String → Method Stored AccountError (Unit {0})
  rename_account env id text = transact env (rename id text)

  unfoldable pub patch_account :
      Env → String → Option String → Option Bool → Option Bool → Method Stored AccountError Account
  patch_account env id text active enabled =
      transact env (with_account id not_found (patch id text active enabled))
