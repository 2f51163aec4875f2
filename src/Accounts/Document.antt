-- ===== src/Accounts/Document.antt =====
-- src/accounts/mod.rs: `Document`, its methods and `validate_label`. `random_string` reads the
-- system's random source: its result, a fresh text or an error, is an argument of `add`. SHA-256 is
-- the argument `sha256`. A method returns the document as it leaves it, on an error too.
pub mod Rule
pub mod Ledger
pub mod Active
pub mod Unique
pub mod Consistent
pub mod Calls
pub mod Tests
use quotio_cli.Base.{
  ℕ, String, Bool, true, false, not, ◌&&◌, ◌||◌, List, [], ◌∷◌, ◌++◌, map, Option, none, some, max,
  any, find, length, update_first, remove_first, Eq, ◌==◌, string_eq, option_eq, String-discrete,
  if◌then◌else◌, leb, Result, ok, err, Method, ◌>>=◌, ◌>>◌, done, fail, refuse_if, ok_or, modify,
  with_self, lift, and_then_rule, Bool-cases, inl, inr, trim, chars, is_empty, is_control,
}
use quotio_cli.Base.Dict.{Dict, lookup, insert}
use quotio_cli.Fingerprint.{fingerprint}
use quotio_cli.Provider.{Provider, provider_eq}
use quotio_cli.Accounts.Credential.{
  AccountError, storage, duplicate, not_found, unsupported, label, Credential, copilot_oauth,
  claude_oauth, antigravity_oauth, kiro_oauth, factory_oauth, amp_native, AccountOrigin, owned,
  borrowed_native, borrowed_proxy, origin_of, Account,
}

pub record MutationReceipt : Type 0 where
  pub fingerprint : String
  pub account_id : String

pub record Document : Type 0 where
  pub version : ℕ
  pub accounts : List Account
  pub mutation_receipts : Dict MutationReceipt
  pub factory_refresh_owners : Dict String
  pub claude_refresh_owners : Dict String
  pub kiro_refresh_owners : Dict String
  pub antigravity_refresh_owners : Dict String

-- `Document::empty`
abbrev pub empty : Document
empty = record {
  version = 1;
  accounts = [];
  mutation_receipts = [];
  factory_refresh_owners = [];
  claude_refresh_owners = [];
  kiro_refresh_owners = [];
  antigravity_refresh_owners = [];
}

abbrev pub Change : Type 0 → Type 0
Change = Method Document AccountError

-- `self.version = self.version.max(n)`
abbrev pub raise : ℕ → Document → Document
raise n d = record d { version = max d.version n }

-- The four kinds of credential whose refresh token is spent by one use, each with its ledger of
-- owners in the document.
pub data Family : Type 0 where
  antigravity kiro claude factory : Family

unfoldable pub Family-discrete : Discrete Family
Family-discrete = hlevel

instance abbrev pub family_eq : Eq Family
family_eq = record { dec = Family-discrete }

-- The tag that goes into the fingerprint.
abbrev pub tag : Family → String
tag antigravity = "antigravity_owned"
tag kiro = "kiro_owned"
tag claude = "claude_owned"
tag factory = "factory_owned"

-- The first format whose readers know the ledger.
abbrev pub format : Family → ℕ
format antigravity = 8
format kiro = 7
format claude = 6
format factory = 5

abbrev pub ledger : Family → Document → Dict String
ledger antigravity d = d.antigravity_refresh_owners
ledger kiro d = d.kiro_refresh_owners
ledger claude d = d.claude_refresh_owners
ledger factory d = d.factory_refresh_owners

abbrev pub set_ledger : Family → Dict String → Document → Document
set_ledger antigravity o d = record d { antigravity_refresh_owners = o }
set_ledger kiro o d = record d { kiro_refresh_owners = o }
set_ledger claude o d = record d { claude_refresh_owners = o }
set_ledger factory o d = record d { factory_refresh_owners = o }

-- The family and the refresh token that the `if let` chain of `reserve_factory_refresh` looks for.
abbrev pub lineage : Credential → Option (Family × String)
lineage (antigravity_oauth access_token refresh_token expires_at client_id client_secret pending) =
    some (antigravity, refresh_token)
lineage (kiro_oauth access_token refresh_token e m region arn client_id client_secret machine p) =
    some (kiro, refresh_token)
lineage (claude_oauth access_token refresh_token account_id email expires_at pending) =
    some (claude, refresh_token)
lineage (factory_oauth access_token refresh_token organization_id expires_at pending) =
    some (factory, refresh_token)
lineage _ = none

abbrev pub carries : Family → String → Option (Family × String) → Bool
carries f token none = false
carries f token (some (g, existing)) = f == g && existing == token

-- `.get(&fingerprint).is_some_and(|owner| owner != id)`
abbrev pub is_other : String → Option String → Bool
is_other id none = false
is_other id (some owner) = not (owner == id)

module _ (sha256 : List ℕ → List ℕ) where
  abbrev pub token_key : Family → String → String
  token_key f token = fingerprint sha256 (tag f ∷ token ∷ [])

  -- Another account owns the token, by the ledger or by its credential.
  unfoldable pub is_taken : String → Family → String → Document → Bool
  is_taken id f token d =
      is_other id (lookup (token_key f token) (ledger f d))
      || any (λ a. not (a.id == id) && carries f token (lineage a.credential)) d.accounts

  unfoldable pub reserve_token : String → Family → String → Change (Unit {0})
  reserve_token id f token d =
      if is_taken id f token d
      then (d, err duplicate)
      else (raise (format f) (set_ledger f (insert (token_key f token) id (ledger f d)) d), ok tt)

  abbrev reserve_lineage : String → Option (Family × String) → Change (Unit {0})
  reserve_lineage id none d = (d, ok tt)
  reserve_lineage id (some (f, token)) d = reserve_token id f token d

  unfoldable pub reserve_factory_refresh : String → Credential → Change (Unit {0})
  reserve_factory_refresh id credential = reserve_lineage id (lineage credential)

-- `validate_label`
unfoldable pub validate_label : String → Result AccountError String
unfolding trim is_control
validate_label text =
    let trimmed = trim text in
    if is_empty trimmed || not (leb (length (chars trimmed)) 80) || any is_control (chars trimmed)
    then err label
    else ok trimmed

-- A credential that refers to a login that another program owns.
abbrev pub is_reference : AccountOrigin → Bool
is_reference borrowed_native = true
is_reference borrowed_proxy = true
is_reference owned = false

abbrev pub is_copilot_oauth : Credential → Bool
is_copilot_oauth (copilot_oauth access_token account_id login) = true
is_copilot_oauth _ = false

-- The two steps of `version` that `add` makes.
abbrev pub raise_for : Credential → Document → Document
raise_for credential d =
    let e = (if is_reference (origin_of credential) then raise 3 d else d) in
    if is_copilot_oauth credential then raise 6 e else e

abbrev pub clashes : Provider → String → String → Account → Bool
clashes provider text identity a =
    a.provider == provider && (a.label == text || a.identity == identity)

abbrev pub is_active_of : Provider → Account → Bool
is_active_of provider a = a.provider == provider && a.active

abbrev pub push : Provider → String → String → Credential → String → Document → Document
push provider text identity credential id d = record d {
  accounts =
      d.accounts
      ++ record {
        id = id;
        provider = provider;
        label = text;
        identity = identity;
        active = not (any (is_active_of provider) d.accounts);
        enabled = true;
        credential = credential;
      }
        ∷ [];
}

abbrev pub has_id : String → Account → Bool
has_id id a = a.id == id

-- The accounts after `remove`: where the removed one was active, the first other account of its
-- provider becomes so.
abbrev pub without : Account → List Account → List Account
without removed rest =
    if removed.active
    then update_first (λ a. a.provider == removed.provider) (λ a. record a { active = true }) rest
    else rest

module _ (sha256 : List ℕ → List ℕ) where
  unfoldable pub add :
      Result AccountError String → Provider → String → String → Credential → Change String
  add random_string provider text identity credential = do
    trimmed ← lift (validate_label text)
    with_self (λ d. refuse_if (any (clashes provider trimmed identity) d.accounts) duplicate)
    id ← lift random_string
    reserve_factory_refresh sha256 id credential
    modify (λ d. push provider trimmed identity credential id (raise_for credential d))
    done id

  unfoldable pub remove : String → Change (Unit {0})
  remove id = do
    account ← with_self (λ d. ok_or (find (has_id id) d.accounts) not_found)
    reserve_factory_refresh sha256 account.id account.credential
    modify (λ d. record d { accounts = without account (remove_first (has_id id) d.accounts) })

abbrev pub set_active : Provider → String → Account → Account
set_active provider id a = if a.provider == provider then record a { active = a.id == id } else a

unfoldable pub select : String → Change (Unit {0})
select id = do
  account ← with_self (λ d. ok_or (find (has_id id) d.accounts) not_found)
  modify (λ d. record d { accounts = map (set_active account.provider id) d.accounts })

abbrev pub same_label : Provider → String → String → Account → Bool
same_label provider id text a = not (a.id == id) && a.provider == provider && a.label == text

abbrev pub relabel : String → Account → Account
relabel text a = record a { label = text }

unfoldable pub rename : String → String → Change (Unit {0})
rename id text = do
  trimmed ← lift (validate_label text)
  account ← with_self (λ d. ok_or (find (has_id id) d.accounts) not_found)
  with_self (λ d. refuse_if (any (same_label account.provider id trimmed) d.accounts) duplicate)
  modify (λ d. record d { accounts = update_first (has_id id) (relabel trimmed) d.accounts })

abbrev pub enable_source : Bool → Credential → Credential
enable_source on (amp_native path enabled) = amp_native path on
enable_source on credential = credential

abbrev pub set_enabled : Bool → Account → Account
set_enabled on a = record a { enabled = on; credential = enable_source on a.credential }

unfoldable pub patch_enabled : String → Option Bool → Change (Unit {0})
patch_enabled id none = done tt
patch_enabled id (some on) = do
  account ← with_self (λ d. ok_or (find (has_id id) d.accounts) not_found)
  modify
      (λ d. raise 4 (record d { accounts = update_first (has_id id) (set_enabled on) d.accounts }))
  done tt

abbrev pub refuse_deselect : Option Bool → Change (Unit {0})
refuse_deselect (some false) = fail unsupported
refuse_deselect _ = done tt

abbrev pub patch_label : String → Option String → Change (Unit {0})
patch_label id none = done tt
patch_label id (some text) = rename id text

abbrev pub patch_active : String → Option Bool → Change (Unit {0})
patch_active id (some true) = select id
patch_active id _ = done tt

-- The end of `patch`: the last test, and what comes before it.
abbrev pub patch_found : String → Change (Unit {0})
patch_found id = with_self (λ d. refuse_if (not (any (has_id id) d.accounts)) not_found)

abbrev pub patch_rest : String → Option String → Option Bool → Change (Unit {0})
patch_rest id text active = do patch_label id text; patch_active id active; patch_found id

unfoldable pub patch : String → Option String → Option Bool → Option Bool → Change (Unit {0})
patch id text active enabled = do
  patch_enabled id enabled
  refuse_deselect active
  patch_rest id text active
