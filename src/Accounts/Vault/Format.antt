-- ===== src/Accounts/Vault/Format.antt =====
-- Every document that the methods make is one that `begin` accepts after `commit`.
use quotio_cli.Base.{
  ℕ, ◌≤◌, ◌≡◌, Bool, true, false, not, List, [], ◌∷◌, arith, any, string_eq, if◌then◌else◌, All,
  length,
}
use quotio_cli.Accounts.Credential.{Credential, Account, origin_of, origin_of}
use quotio_cli.Accounts.Document.{Document, raise, is_reference}
use quotio_cli.Accounts.Vault.{
  is_rejected, upgraded, has, any_credential, is_antigravity_oauth, is_kiro_oauth,
  is_claude_or_copilot_oauth,
}

-- The first format that may hold the credential.
abbrev pub credential_format : Credential → ℕ
credential_format c =
    if is_antigravity_oauth c
    then 8
    else if is_kiro_oauth c
    then 7
    else if is_claude_or_copilot_oauth c
    then 6
    else if is_reference (origin_of c)
    then 3
    else 1

abbrev pub Fits : ℕ → Account → Type 0
Fits v a = (credential_format a.credential ≤ v) × (a.enabled ≡ false → 4 ≤ v)

pub record IsFormatted (d : Document) : Type 0 where
  pub low : 1 ≤ d.version
  pub high : d.version ≤ 8
  pub fits : All (Fits d.version) d.accounts
  pub receipts : has d.mutation_receipts ≡ true → 2 ≤ d.version
  pub bounded : length d.mutation_receipts ≤ 4096

any_credential-Fits :
    (p : Credential → Bool) (n v : ℕ) (xs : List Account)
    → ((c : Credential) → p c ≡ true → n ≤ credential_format c)
    → All (Fits v) xs
    → any_credential p xs ≡ true
    → n ≤ v
any_credential-Fits p n v [] h f e = cc
any_credential-Fits p n v (x ∷ xs) h f e =
    ground (arith, h x.credential, any_credential-Fits p n v xs h f.1)

disabled-Fits :
    (v : ℕ) (xs : List Account) → All (Fits v) xs → any (λ a. not a.enabled) xs ≡ true → 4 ≤ v
disabled-Fits v [] f e = cc
disabled-Fits v (x ∷ xs) f e = ground (arith, disabled-Fits v xs f.1)

-- The credentials and receipts that a reader of the format knows, and the ledgers too.
pub record IsReadable (d : Document) : Type 0 where
  pub formatted : IsFormatted d
  pub antigravity : has d.antigravity_refresh_owners ≡ true → 8 ≤ d.version
  pub kiro : has d.kiro_refresh_owners ≡ true → 7 ≤ d.version
  pub claude : has d.claude_refresh_owners ≡ true → 6 ≤ d.version

format_of_antigravity : (c : Credential) → is_antigravity_oauth c ≡ true → 8 ≤ credential_format c
format_of_antigravity c e = ground arith

format_of_kiro : (c : Credential) → is_kiro_oauth c ≡ true → 7 ≤ credential_format c
format_of_kiro c e = ground arith

format_of_claude : (c : Credential) → is_claude_or_copilot_oauth c ≡ true → 6 ≤ credential_format c
format_of_claude c e = ground arith

format_of_reference : (c : Credential) → is_reference (origin_of c) ≡ true → 3 ≤ credential_format c
format_of_reference c e = ground arith

readable-accepted : (d : Document) → IsReadable d → is_rejected d ≡ false
unfolding is_rejected
readable-accepted d h =
    let f = h.formatted in
    ground (
      arith,
      any_credential-Fits is_antigravity_oauth 8 d.version d.accounts format_of_antigravity f.fits,
      any_credential-Fits is_kiro_oauth 7 d.version d.accounts format_of_kiro f.fits,
      any_credential-Fits is_claude_or_copilot_oauth 6 d.version d.accounts format_of_claude f.fits,
      any_credential-Fits (λ c. is_reference (origin_of c)) 3 d.version d.accounts
          format_of_reference f.fits,
      disabled-Fits d.version d.accounts f.fits,
    )

pub Fits-mono : (v w : ℕ) (xs : List Account) → v ≤ w → All (Fits v) xs → All (Fits w) xs
Fits-mono v w [] h f = tt
Fits-mono v w (x ∷ xs) h f = ((omega arith, λ e. omega (arith, f.0.1 e)), Fits-mono v w xs h f.1)

abbrev pub step_up : Bool → ℕ → Document → Document
step_up b n d = if b then raise n d else d

pub step_up-IsFormatted :
    (b : Bool) (n : ℕ) (d : Document) → n ≤ 8 → IsFormatted d → IsFormatted (step_up b n d)
step_up-IsFormatted false n d le h = h
step_up-IsFormatted true n d le h = record {
  low = omega (arith, h.low);
  high = omega (arith, h.high);
  fits = Fits-mono d.version _ d.accounts (omega arith) h.fits;
  receipts = λ e. omega (arith, h.receipts e);
  bounded = h.bounded;
}

upgraded-IsFormatted : (d : Document) → IsFormatted d → IsFormatted (upgraded d)
unfolding upgraded
upgraded-IsFormatted d h = step_up-IsFormatted (has d.claude_refresh_owners) 6 _ (omega arith) (
    step_up-IsFormatted (has d.kiro_refresh_owners) 7 _ (omega arith) (
      step_up-IsFormatted (has d.antigravity_refresh_owners) 8 _ (omega arith)
        (step_up-IsFormatted (has d.factory_refresh_owners) 5 d (omega arith) h)))

upgraded-IsReadable : (d : Document) → IsFormatted d → IsReadable (upgraded d)
unfolding upgraded
upgraded-IsReadable d h = record {
  formatted = upgraded-IsFormatted d h;
  antigravity = λ e. ground arith;
  kiro = λ e. ground arith;
  claude = λ e. ground arith;
}

-- A document whose version is in range and admits its accounts, their states and its receipts,
-- and that has at most 4096 receipts, is not rejected by `begin` after the upgrade that `commit`
-- makes, whatever its ledgers hold.
pub upgraded-accepted : (d : Document) → IsFormatted d → is_rejected (upgraded d) ≡ false
upgraded-accepted d h = readable-accepted (upgraded d) (upgraded-IsReadable d h)

-- The other way round: an accepted document is formatted.
accepted-Fits :
    (v : ℕ) (xs : List Account)
    → (any_credential is_antigravity_oauth xs ≡ true → 8 ≤ v)
    → (any_credential is_kiro_oauth xs ≡ true → 7 ≤ v)
    → (any_credential is_claude_or_copilot_oauth xs ≡ true → 6 ≤ v)
    → (any_credential (λ c. is_reference (origin_of c)) xs ≡ true → 3 ≤ v)
    → (any (λ a. not a.enabled) xs ≡ true → 4 ≤ v)
    → 1 ≤ v
    → All (Fits v) xs
accepted-Fits v [] a k c r e l = tt
accepted-Fits v (x ∷ xs) a k c r e l = (
  (ground arith, λ off. ground arith),
  accepted-Fits v xs (λ t. ground arith) (λ t. ground arith) (λ t. ground arith) (λ t. ground arith)
      (λ t. ground arith) l,
)

pub accepted-IsFormatted : (d : Document) → is_rejected d ≡ false → IsFormatted d
unfolding is_rejected
accepted-IsFormatted d h = record {
  low = ground arith;
  high = ground arith;
  fits =
      accepted-Fits d.version d.accounts (λ t. ground arith) (λ t. ground arith) (λ t. ground arith)
        (λ t. ground arith) (λ t. ground arith) (ground arith);
  receipts = λ e. ground arith;
  bounded = ground arith;
}
