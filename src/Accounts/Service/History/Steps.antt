-- ===== src/Accounts/Service/History/Steps.antt =====
-- What each method of a transaction keeps.
use quotio_cli.Base.{
  ℕ, String, ◌≡◌, refl, ◌⊎◌, inl, inr, Bool, not, ◌||◌, List, Option, none, some, arith, find,
  Result, ok, Result-cases, ◌>>=◌, ◌>>◌, done, modify, with_self, ok_or, update_first, ◌==◌,
  string_eq, and_then_rule, refuse_if,
}
use quotio_cli.Provider.{Provider}
use quotio_cli.Accounts.Credential.{
  AccountError, busy, not_found, Credential, Account, credential_eq, is_enabled,
}
use quotio_cli.Accounts.Document.{
  Document, Change, has_id, add, select, remove, rename, patch, reserve_factory_refresh,
}
use quotio_cli.Accounts.Service.{
  fence, install, installed, set_pending, replace_credential, of_provider,
}
use quotio_cli.Accounts.Service.History.{
  Mutation, adds, persists, removes, selects, renames, patches, fences, installs, IsAllowed, apply,
}

module _ (sha256 : List ℕ → List ℕ) where
  -- The part of `fence` after the reservation.
  abbrev fence_rest : String → Credential → Change (Unit {0})
  fence_rest id credential = do
    account ← with_self (λ d. ok_or (find (has_id id) d.accounts) not_found)
    refuse_if (not (is_enabled account) || not (account.credential == credential)) busy
    modify (λ d. record d {
      accounts = update_first (has_id id) (replace_credential (set_pending credential)) d.accounts;
    })

  fence_rest-cases :
      (id : String) (credential : Credential) (d : Document)
      → ((fence_rest id credential d).0 ≡ d)
        ⊎ ((fence_rest id credential d).0 ≡ record d {
          accounts =
              update_first (has_id id) (replace_credential (set_pending credential)) d.accounts;
        })
  fence_rest-cases id credential d = ground arith

  installed-cases :
      (id : String) (p : Provider) (latest updated : Credential) (o : Option Account) (d : Document)
      → ((installed id p latest updated o d).0 ≡ d)
        ⊎ ((installed id p latest updated o d).0 ≡ record d {
          accounts = update_first (of_provider id p) (replace_credential updated) d.accounts;
        })
  installed-cases id p latest updated none d = inl refl
  installed-cases id p latest updated (some a) d = ground arith

  abbrev fenced : String → Credential → Document → Document
  fenced id credential s = record s {
    accounts = update_first (has_id id) (replace_credential (set_pending credential)) s.accounts;
  }

  abbrev updated_in : String → Provider → Credential → Document → Document
  updated_in id p updated s = record s {
    accounts = update_first (of_provider id p) (replace_credential updated) s.accounts;
  }

  module _ {ℓ} (P : Document → Type ℓ) where
    pub fence_rule :
        (id : String) (credential : Credential) (d : Document)
        → P (reserve_factory_refresh sha256 id (set_pending credential) d).0
        → ((reserve_factory_refresh sha256 id (set_pending credential) d).1 ≡ ok tt
            → P (
                fenced id credential
                  (reserve_factory_refresh sha256 id (set_pending credential) d).0))
        → P (fence sha256 id credential d).0
    unfolding fence
    fence_rule id credential d p k =
        let r = reserve_factory_refresh sha256 id (set_pending credential) d in
        elim (Result-cases r.1) [
          | inr (e, bad) ↦ rw (bad, fence) p
          | inl (u, fine) ↦ elim (fence_rest-cases id credential r.0) [
            | inl e ↦ rw (fine, fence) (rw e p)
            | inr e ↦ rw (fine, fence) (rw e (k fine))
          ]
        ]

    pub install_rule :
        (id : String) (q : Provider) (latest updated : Credential) (d : Document)
        → P (reserve_factory_refresh sha256 id updated d).0
        → ((reserve_factory_refresh sha256 id updated d).1 ≡ ok tt
            → P (updated_in id q updated (reserve_factory_refresh sha256 id updated d).0))
        → P (install sha256 id q latest updated d).0
    unfolding install
    install_rule id q latest updated d p k =
        let r = reserve_factory_refresh sha256 id updated d in
        elim (Result-cases r.1) [
          | inr (e, bad) ↦ rw (bad, install) p
          | inl (u, fine) ↦
              elim (installed-cases id q latest updated (find (of_provider id q) r.0.accounts)
                r.0) [
                  | inl e ↦ rw (fine, install) (rw e p)
                  | inr e ↦ rw (fine, install) (rw e (k fine))
                ]
        ]

    -- The rule for a whole method: what comes after the change reads only.
    pub apply_rule :
        (m : Mutation) (d : Document)
        → ((random : Result AccountError String) (p : Provider) (text identity : String)
              (c : Credential)
            → P (add sha256 random p text identity c d).0)
        → ((id : String) → P (remove sha256 id d).0)
        → ((id : String) → P (select id d).0)
        → ((id text : String) → P (rename id text d).0)
        → ((id : String) (text : Option String) (active enabled : Option Bool)
            → P (patch id text active enabled d).0)
        → ((id : String) (c : Credential) → IsAllowed (fences id c) → P (fence sha256 id c d).0)
        → ((id : String) (p : Provider) (latest updated : Credential)
            → IsAllowed (installs id p latest updated)
            → P (install sha256 id p latest updated d).0)
        → IsAllowed m
        → P (apply sha256 m d).0
    unfolding apply
    apply_rule (adds random p text identity c) d a r s n t f i w = a random p text identity c
    apply_rule (persists random p text identity c) d a r s n t f i w =
        and_then_rule P (add sha256 random p text identity c d) _ (a random p text identity c)
          λ id e q. ground arith
    apply_rule (removes id) d a r s n t f i w =
        and_then_rule P (remove sha256 id d) (λ _. done id) (r id) λ _ _ q. q
    apply_rule (selects id) d a r s n t f i w =
        and_then_rule P (select id d) (λ _. done id) (s id) λ _ _ q. q
    apply_rule (renames id text) d a r s n t f i w =
        and_then_rule P (rename id text d) (λ _. done id) (n id text) λ _ _ q. q
    apply_rule (patches id text active enabled) d a r s n t f i w =
        and_then_rule P (patch id text active enabled d) (λ _. done id) (t id text active enabled)
          λ _ _ q. q
    apply_rule (fences id c) d a r s n t f i w =
        and_then_rule P (fence sha256 id c d) (λ _. done id) (f id c w) λ _ _ q. q
    apply_rule (installs id p latest updated) d a r s n t f i w =
        and_then_rule P (install sha256 id p latest updated d) (λ _. done id)
          (i id p latest updated w) λ _ _ q. q
