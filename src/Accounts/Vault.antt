-- ===== src/Accounts/Vault.antt =====
-- src/accounts/vault.rs: `Vault::begin` and `Transaction::commit`, over a backend that holds at most
-- one text of bytes. `serde_json` is the argument `C`, and what the operating system answers to the
-- lock, the read and the write comes as arguments.
pub mod Format
pub mod Mutations
pub mod Tests
use quotio_cli.Base.{
  ℕ, ◌*◌, String, Bool, true, false, not, ◌&&◌, ◌||◌, List, [], ◌∷◌, Option, none, some, any,
  length, ltb, leb, if◌then◌else◌, Result, ok, err, ◌==◌, nat_eq,
}
use quotio_cli.Base.Dict.{Dict}
use quotio_cli.Accounts.Credential.{
  AccountError, busy, corrupt, input, commit_uncertain, Credential, antigravity_oauth, kiro_oauth,
  claude_oauth, copilot_oauth, origin_of, Account,
}
use quotio_cli.Accounts.Document.{Document, empty, raise, is_reference}

-- `serde_json::to_vec` and `serde_json::from_slice` at `Document`, and the length of a `Vec<u8>`.
pub record Codec : Type 1 where
  pub Bytes : Type 0
  pub size : Bytes → ℕ
  pub encode : Document → Option Bytes
  pub decode : Bytes → Option Document

abbrev pub is_antigravity_oauth : Credential → Bool
is_antigravity_oauth (antigravity_oauth access_token refresh_token e client_id secret pending) =
    true
is_antigravity_oauth _ = false

abbrev pub is_kiro_oauth : Credential → Bool
is_kiro_oauth (kiro_oauth access_token refresh_token e m region arn i s machine pending) = true
is_kiro_oauth _ = false

-- `ClaudeOAuth { .. } | CopilotOAuth { .. }`
abbrev pub is_claude_or_copilot_oauth : Credential → Bool
is_claude_or_copilot_oauth (claude_oauth access_token refresh_token i email e pending) = true
is_claude_or_copilot_oauth (copilot_oauth access_token account_id login) = true
is_claude_or_copilot_oauth _ = false

abbrev pub has {ℓ} : {V : Type ℓ} → Dict V → Bool
has [] = false
has (e ∷ d) = true

abbrev pub any_credential : (Credential → Bool) → List Account → Bool
any_credential p = any (λ a. p a.credential)

-- The test under which `begin` finds the document corrupt.
unfoldable pub is_rejected : Document → Bool
is_rejected d =
    not (leb 1 d.version && leb d.version 8)
    || (ltb d.version 8
        && (has d.antigravity_refresh_owners || any_credential is_antigravity_oauth d.accounts))
    || (ltb d.version 7 && (has d.kiro_refresh_owners || any_credential is_kiro_oauth d.accounts))
    || (ltb d.version 6
        && (has d.claude_refresh_owners || any_credential is_claude_or_copilot_oauth d.accounts))
    || (d.version == 1 && has d.mutation_receipts)
    || (ltb d.version 3 && any_credential (λ c. is_reference (origin_of c)) d.accounts)
    || (ltb d.version 4 && any (λ a. not a.enabled) d.accounts)
    || not (leb (length d.mutation_receipts) 4096)

-- The versions that `commit` raises.
unfoldable pub upgraded : Document → Document
upgraded d =
    let d₁ = (if has d.factory_refresh_owners then raise 5 d else d) in
    let d₂ = (if has d.antigravity_refresh_owners then raise 8 d₁ else d₁) in
    let d₃ = (if has d.kiro_refresh_owners then raise 7 d₂ else d₂) in
    if has d.claude_refresh_owners then raise 6 d₃ else d₃

abbrev pub max_bytes : ℕ
max_bytes = 1024 * 1024

-- What the backend does on `write`: it replaces the bytes, it replaces them without confirming that
-- they are durable, or it leaves them.
pub data Written : Type 0 where
  replaced uncertain : Written
  refused : AccountError → Written

-- The answers to one attempt at `Vault::begin`: the error of the locks or of the read, if any.
pub record Attempt : Type 0 where
  pub lock : Option AccountError
  pub failed_read : Option AccountError

module _ (C : Codec) where
  open C use {Bytes, size, encode, decode}

  abbrev pub checked : Option Document → Result AccountError Document
  checked none = err corrupt
  checked (some d) = if is_rejected d then err corrupt else ok d

  abbrev pub opened : Option Bytes → Result AccountError Document
  opened none = ok empty
  opened (some bytes) = if leb (size bytes) max_bytes then checked (decode bytes) else err corrupt

  abbrev read_through : Option AccountError → Option Bytes → Result AccountError Document
  read_through none stored = opened stored
  read_through (some e) stored = err e

  -- `Vault::begin`
  unfoldable pub begin_once : Attempt → Option Bytes → Result AccountError Document
  begin_once a stored = elim a.lock [ some e ↦ err e | none ↦ read_through a.failed_read stored ]

  -- What the caller sees, and what is stored.
  abbrev pub write : Written → Bytes → Option Bytes → Option Bytes × Result AccountError (Unit {0})
  write replaced bytes stored = (some bytes, ok tt)
  write uncertain bytes stored = (some bytes, err commit_uncertain)
  write (refused e) bytes stored = (stored, err e)

  abbrev pub store :
      Written → Option Bytes → Option Bytes → Option Bytes × Result AccountError (Unit {0})
  store w none stored = (stored, err corrupt)
  store w (some bytes) stored =
      if leb (size bytes) max_bytes then write w bytes stored else (stored, err input)

  -- `Transaction::commit`
  unfoldable pub commit :
      Written → Document → Option Bytes → Option Bytes × Result AccountError (Unit {0})
  commit w d stored = store w (encode (upgraded d)) stored
