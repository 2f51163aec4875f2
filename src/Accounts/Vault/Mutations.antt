-- ===== src/Accounts/Vault/Mutations.antt =====
-- Every method of a document keeps it formatted.
use quotio_cli.Base.{
  ℕ, ◌≤◌, max, String, ◌≡◌, refl, inl, inr, Bool, List, [], ◌∷◌, map, Option, none, some, arith,
  any, Result, ok, err, Bool-cases, Option-cases, Result-cases, ◌==◌, string_eq, find, update_first,
  remove_first, All, All-append,
}
use quotio_cli.Provider.{Provider, provider_eq}
use quotio_cli.Accounts.Credential.{AccountError, Credential, Account, origin_of, origin_of}
use quotio_cli.Accounts.Document.{
  Document, Family, format, lineage, same_label, enable_source, is_copilot_oauth, is_reference,
  raise, is_taken, reserve_token, reserve_factory_refresh, raise_for, add, remove, select, rename,
  patch_enabled, patch, push, validate_label, clashes, has_id, without, set_active, set_enabled,
  relabel,
}
use quotio_cli.Accounts.Document.Rule.{patch_rule}
use quotio_cli.Accounts.Document.Active.{activate}
use quotio_cli.Accounts.Vault.Format.{
  IsFormatted, Fits, Fits-mono, step_up-IsFormatted, credential_format,
}

-- An account list that fits, under the changes that the methods make.
Fits-remove_first :
    (v : ℕ) (r : Account → Bool) (xs : List Account)
    → All (Fits v) xs
    → All (Fits v) (remove_first r xs)
Fits-remove_first v r [] h = tt
Fits-remove_first v r (x ∷ xs) h = ground (arith, Fits-remove_first v r xs h.1)

pub Fits-update_first :
    (v : ℕ) (f : Account → Account) (r : Account → Bool) (xs : List Account)
    → ((a : Account) → Fits v a → Fits v (f a))
    → All (Fits v) xs
    → All (Fits v) (update_first r f xs)
Fits-update_first v f r [] k h = tt
Fits-update_first v f r (x ∷ xs) k h = ground (arith, Fits-update_first v f r xs k h.1, k x h.0)

Fits-map :
    (v : ℕ) (f : Account → Account) (xs : List Account)
    → ((a : Account) → Fits v a → Fits v (f a))
    → All (Fits v) xs
    → All (Fits v) (map f xs)
Fits-map v f [] k h = tt
Fits-map v f (x ∷ xs) k h = (k x h.0, Fits-map v f xs k h.1)

Fits-without :
    (v : ℕ) (a : Account) (xs : List Account) → All (Fits v) xs → All (Fits v) (without a xs)
Fits-without v a xs h = elim (Bool-cases a.active) [
  | inl e ↦ rw e (Fits-update_first v activate (λ b. b.provider == a.provider) xs (λ b f. f) h)
  | inr e ↦ rw e h
]

format-enable_source :
    (on : Bool) (c : Credential) → credential_format (enable_source on c) ≡ credential_format c
unfolding origin_of
format-enable_source on c = ground arith

Fits-set_enabled : (v : ℕ) (on : Bool) (a : Account) → 4 ≤ v → Fits v a → Fits v (set_enabled on a)
Fits-set_enabled v on a h f = (rw format-enable_source f.0, λ e. h)

-- Only the version, the accounts and the receipts count.
pub with_accounts :
    (d : Document) (xs : List Account)
    → IsFormatted d
    → All (Fits d.version) xs
    → IsFormatted (record d { accounts = xs })
with_accounts d xs h f = record {
  low = h.low;
  high = h.high;
  fits = f;
  receipts = h.receipts;
  bounded = h.bounded;
}

raised-IsFormatted :
    (d e : Document) (n : ℕ)
    → n ≤ 8
    → e.version ≡ max d.version n
    → e.accounts ≡ d.accounts
    → e.mutation_receipts ≡ d.mutation_receipts
    → IsFormatted d
    → IsFormatted e
raised-IsFormatted d e n le v a r h = record {
  low = omega (arith, h.low);
  high = omega (arith, h.high);
  fits = rw a (Fits-mono d.version e.version d.accounts (omega arith) h.fits);
  receipts = λ t. omega (arith, h.receipts (rw r at t));
  bounded = rw r h.bounded;
}

module _ (sha256 : List ℕ → List ℕ) where
  reserve_token-IsFormatted :
      (id : String) (f : Family) (token : String) (d : Document)
      → IsFormatted d
      → IsFormatted (reserve_token sha256 id f token d).0
  unfolding reserve_token
  reserve_token-IsFormatted id f token d h = elim (Bool-cases (is_taken sha256 id f token d)) [
    | inl e ↦ rw e h
    | inr e ↦ rw e (
        raised-IsFormatted d _ (format f) (ground arith) (ground arith) (ground arith)
          (ground arith) h)
  ]

  pub reserve-IsFormatted :
      (id : String) (c : Credential) (d : Document)
      → IsFormatted d
      → IsFormatted (reserve_factory_refresh sha256 id c d).0
  unfolding reserve_factory_refresh
  reserve-IsFormatted id c d h = elim (Option-cases (lineage c)) [
    | inl e ↦ rw e h
    | inr ((f, token), e) ↦ rw e (reserve_token-IsFormatted id f token d h)
  ]

  -- After a reservation that succeeds, the format is one that may hold the credential.
  pub reserve-format :
      (id : String) (c : Credential) (d : Document)
      → (reserve_factory_refresh sha256 id c d).1 ≡ ok tt
      → 1 ≤ d.version
      → credential_format c ≤ (raise_for c (reserve_factory_refresh sha256 id c d).0).version
  unfolding reserve_factory_refresh reserve_token
  reserve-format id c d e l = ground arith

raise_for-IsFormatted :
    (c : Credential) (d : Document) → IsFormatted d → IsFormatted (raise_for c d)
raise_for-IsFormatted c d h =
    step_up-IsFormatted (is_copilot_oauth c) 6 _ (omega arith)
      (step_up-IsFormatted (is_reference (origin_of c)) 3 d (omega arith) h)

push-IsFormatted :
    (p : Provider) (text identity : String) (c : Credential) (id : String) (d : Document)
    → credential_format c ≤ d.version
    → IsFormatted d
    → IsFormatted (push p text identity c id d)
push-IsFormatted p text identity c id d k h =
    with_accounts d _ h (All-append (Fits d.version) d.accounts _ h.fits ((k, λ e. cc), tt))

module _ (sha256 : List ℕ → List ℕ) where
  pub add-IsFormatted :
      (random : Result AccountError String) (p : Provider) (text identity : String) (c : Credential)
      (d : Document)
      → IsFormatted d
      → IsFormatted (add sha256 random p text identity c d).0
  unfolding add
  add-IsFormatted (err e) p text identity c d h = ground arith
  add-IsFormatted (ok id) p text identity c d h = elim (Result-cases (validate_label text)) [
    | inr (e, bad) ↦ rw (bad, add) h
    | inl (trimmed, good) ↦
        let r = reserve_factory_refresh sha256 id c d in
        let kept = reserve-IsFormatted sha256 id c d h in
        elim (Bool-cases (any (clashes p trimmed identity) d.accounts)) [
          | inl taken ↦ rw (good, add, taken) h
          | inr free ↦ elim (Result-cases r.1) [
            | inr (e, bad) ↦ rw (good, add, free, bad) kept
            | inl (u, fine) ↦
                rw (good, add, free, fine)
                  (push-IsFormatted p trimmed identity c id _
                    (reserve-format sha256 id c d fine h.low) (raise_for-IsFormatted c r.0 kept))
          ]
        ]
  ]

  pub remove-IsFormatted :
      (id : String) (d : Document) → IsFormatted d → IsFormatted (remove sha256 id d).0
  unfolding remove
  remove-IsFormatted id d h = elim (Option-cases (find (has_id id) d.accounts)) [
    | inl e ↦ rw (e, remove) h
    | inr (a, e) ↦
        let r = reserve_factory_refresh sha256 a.id a.credential d in
        let kept = reserve-IsFormatted sha256 a.id a.credential d h in
        elim (Result-cases r.1) [
          | inr (x, bad) ↦ rw (e, remove, bad) kept
          | inl (u, fine) ↦
              rw (e, remove, fine)
                (with_accounts r.0 _ kept (
                  Fits-without r.0.version a _
                    (Fits-remove_first r.0.version (has_id id) r.0.accounts kept.fits)))
        ]
  ]

pub select-IsFormatted : (id : String) (d : Document) → IsFormatted d → IsFormatted (select id d).0
unfolding select
select-IsFormatted id d h = elim (Option-cases (find (has_id id) d.accounts)) [
  | inl e ↦ rw (e, select) h
  | inr (a, e) ↦
      rw (e, select)
        (with_accounts d _ h
          (Fits-map d.version (set_active a.provider id) d.accounts (λ b f. ground arith) h.fits))
]

pub rename-IsFormatted :
    (id text : String) (d : Document) → IsFormatted d → IsFormatted (rename id text d).0
unfolding rename
rename-IsFormatted id text d h = elim (Result-cases (validate_label text)) [
  | inr (e, bad) ↦ rw (bad, rename) h
  | inl (trimmed, good) ↦ elim (Option-cases (find (has_id id) d.accounts)) [
    | inl e ↦ rw (good, rename, e) h
    | inr (a, e) ↦ elim (Bool-cases (any (same_label a.provider id trimmed) d.accounts)) [
      | inl taken ↦ rw (good, rename, e) (simp taken h)
      | inr free ↦
          rw (good, rename, e)
            (simp free (
              with_accounts d _ h (
                Fits-update_first d.version (relabel trimmed) (has_id id) d.accounts (λ b f. f)
                  h.fits)))
    ]
  ]
]

pub patch_enabled-IsFormatted :
    (id : String) (enabled : Option Bool) (d : Document)
    → IsFormatted d
    → IsFormatted (patch_enabled id enabled d).0
unfolding patch_enabled
patch_enabled-IsFormatted id none d h = h
patch_enabled-IsFormatted id (some on) d h = elim (Option-cases (find (has_id id) d.accounts)) [
  | inl e ↦ rw (e, patch_enabled) h
  | inr (a, e) ↦
      let r : Document = raise 4 d in
      let up = raised-IsFormatted d r 4 (omega arith) refl refl refl h in
      rw (e, patch_enabled)
        (with_accounts r _ up (
          Fits-update_first r.version (set_enabled on) (has_id id) d.accounts
            (λ b. Fits-set_enabled r.version on b (omega arith)) up.fits))
]

pub patch-IsFormatted :
    (id : String) (text : Option String) (active enabled : Option Bool) (d : Document)
    → IsFormatted d
    → IsFormatted (patch id text active enabled d).0
patch-IsFormatted id text active enabled =
    patch_rule IsFormatted id text active enabled (patch_enabled-IsFormatted id)
      (rename-IsFormatted id) (select-IsFormatted id)
