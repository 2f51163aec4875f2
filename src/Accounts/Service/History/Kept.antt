-- ===== src/Accounts/Service/History/Kept.antt =====
-- Every method keeps the ledgers, the receipts and the format.
use quotio_cli.Base.{
  ℕ, ◌≤◌, String, ◌≡◌, refl, ◌∙◌, Bool, true, List, Option, arith, find, Result, ok, err,
  update_first, Option-cases, inl, inr,
}
use quotio_cli.Provider.{Provider}
use quotio_cli.Accounts.Credential.{AccountError, Credential, Account, origin_of}
use quotio_cli.Accounts.Document.{
  Document, add, select, remove, rename, patch, patch_enabled, reserve_factory_refresh,
  reserve_token, has_id,
}
use quotio_cli.Accounts.Document.Rule.{patch_rule}
use quotio_cli.Accounts.Document.Ledger.{
  Kept, reserve_factory_refresh-Kept, add-Kept, remove-Kept, rename-Kept, select-Kept, patch-Kept,
}
use quotio_cli.Accounts.Vault.Format.{IsFormatted, credential_format}
use quotio_cli.Accounts.Vault.Mutations.{
  reserve-IsFormatted, reserve-format, add-IsFormatted, remove-IsFormatted, select-IsFormatted,
  rename-IsFormatted, patch-IsFormatted, with_accounts, Fits-update_first,
}
use quotio_cli.Accounts.Service.{set_pending, replace_credential, of_provider}
use quotio_cli.Accounts.Service.History.{Mutation, IsAllowed, is_refreshable, apply}
use quotio_cli.Accounts.Service.History.Steps.{fence_rule, install_rule, apply_rule}

module _ (sha256 : List ℕ → List ℕ) where
  pub apply-Kept : (m : Mutation) (d : Document) → IsAllowed m → Kept d (apply sha256 m d).0
  apply-Kept m d =
      apply_rule sha256 (Kept d) m d (λ r p t i c. add-Kept sha256 r p t i c d)
        (λ id. remove-Kept sha256 id d) (λ id. select-Kept id d) (λ id t. rename-Kept id t d)
        (λ id t a e. patch-Kept id t a e d)
        (λ id c w.
          let kept = reserve_factory_refresh-Kept sha256 id (set_pending c) d in
          fence_rule sha256 (Kept d) id c d kept λ _ g k j h. ground (arith, kept g k j h))
        (λ id p latest updated w.
          let kept = reserve_factory_refresh-Kept sha256 id updated d in
          install_rule sha256 (Kept d) id p latest updated d kept
            λ _ g k j h. ground (arith, kept g k j h))

abbrev SameReceipts : Document → Document → Type 0
SameReceipts d e = e.mutation_receipts ≡ d.mutation_receipts

module _ (sha256 : List ℕ → List ℕ) where
  reserve-receipts :
      (id : String) (c : Credential) (d : Document)
      → SameReceipts d (reserve_factory_refresh sha256 id c d).0
  unfolding reserve_factory_refresh reserve_token
  reserve-receipts id c d = ground arith

  add-receipts :
      (r : Result AccountError String) (p : Provider) (text identity : String) (c : Credential)
      (d : Document)
      → SameReceipts d (add sha256 r p text identity c d).0
  unfolding add
  add-receipts (err e) p text identity c d = ground arith
  add-receipts (ok id) p text identity c d = ground (arith, reserve-receipts id c d)

  remove-receipts : (id : String) (d : Document) → SameReceipts d (remove sha256 id d).0
  unfolding remove
  remove-receipts id d = elim (Option-cases (find (has_id id) d.accounts)) [
    | inl e ↦ rw (e, remove)
    | inr (a, e) ↦ ground (arith, reserve-receipts a.id a.credential d)
  ]

select-receipts : (id : String) (d : Document) → SameReceipts d (select id d).0
unfolding select
select-receipts id d = ground arith

rename-receipts : (id text : String) (d : Document) → SameReceipts d (rename id text d).0
unfolding rename
rename-receipts id text d = ground arith

patch_enabled-receipts :
    (id : String) (on : Option Bool) (d : Document) → SameReceipts d (patch_enabled id on d).0
unfolding patch_enabled
patch_enabled-receipts id on d = ground arith

patch-receipts :
    (id : String) (text : Option String) (active enabled : Option Bool) (d : Document)
    → SameReceipts d (patch id text active enabled d).0
patch-receipts id text active enabled d =
    patch_rule (SameReceipts d) id text active enabled
      (λ on s e. patch_enabled-receipts id on s ∙ e) (λ to s e. rename-receipts id to s ∙ e)
      (λ s e. select-receipts id s ∙ e) d refl

module _ (sha256 : List ℕ → List ℕ) where
  pub apply-receipts :
      (m : Mutation) (d : Document) → IsAllowed m → SameReceipts d (apply sha256 m d).0
  apply-receipts m d =
      apply_rule sha256 (SameReceipts d) m d (λ r p t i c. add-receipts sha256 r p t i c d)
        (λ id. remove-receipts sha256 id d) (λ id. select-receipts id d)
        (λ id t. rename-receipts id t d) (λ id t a e. patch-receipts id t a e d)
        (λ id c w.
          let kept = reserve-receipts sha256 id (set_pending c) d in
          fence_rule sha256 (SameReceipts d) id c d kept λ _. kept)
        (λ id p latest updated w.
          let kept = reserve-receipts sha256 id updated d in
          install_rule sha256 (SameReceipts d) id p latest updated d kept λ _. kept)

  -- A credential that may be refreshed, once reserved, fits the format.
  refreshable-format :
      (id : String) (c : Credential) (d : Document)
      → is_refreshable c ≡ true
      → (reserve_factory_refresh sha256 id c d).1 ≡ ok tt
      → 1 ≤ d.version
      → credential_format c ≤ (reserve_factory_refresh sha256 id c d).0.version
  unfolding origin_of
  refreshable-format id c d w e l = ground (arith, reserve-format sha256 id c d e l)

  refreshable-pending :
      (c : Credential) → is_refreshable c ≡ true → is_refreshable (set_pending c) ≡ true
  refreshable-pending c e = ground arith

  replaced-IsFormatted :
      (r : Account → Bool) (c : Credential) (d : Document)
      → credential_format c ≤ d.version
      → IsFormatted d
      → IsFormatted (record d { accounts = update_first r (replace_credential c) d.accounts })
  replaced-IsFormatted r c d k h =
      with_accounts d _ h
        (Fits-update_first d.version (replace_credential c) r d.accounts (λ a f. (k, f.1)) h.fits)

  pub apply-IsFormatted :
      (m : Mutation) (d : Document) → IsFormatted d → IsAllowed m → IsFormatted (apply sha256 m d).0
  apply-IsFormatted m d h =
      apply_rule sha256 IsFormatted m d (λ r p t i c. add-IsFormatted sha256 r p t i c d h)
        (λ id. remove-IsFormatted sha256 id d h) (λ id. select-IsFormatted id d h)
        (λ id t. rename-IsFormatted id t d h) (λ id t a e. patch-IsFormatted id t a e d h)
        (λ id c w.
          let kept = reserve-IsFormatted sha256 id (set_pending c) d h in
          fence_rule sha256 IsFormatted id c d kept λ fine.
            replaced-IsFormatted (has_id id) (set_pending c) _
              (refreshable-format id (set_pending c) d (refreshable-pending c w) fine h.low) kept)
        (λ id p latest updated w.
          let kept = reserve-IsFormatted sha256 id updated d h in
          install_rule sha256 IsFormatted id p latest updated d kept λ fine.
            replaced-IsFormatted (of_provider id p) updated _
              (refreshable-format id updated d w fine h.low) kept)
