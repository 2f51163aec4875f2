-- ===== src/Accounts/Document/Ledger.antt =====
-- The ledgers of refresh tokens: an entry is never lost or given to another account.
use quotio_cli.Base.{
  ℕ, String, ◌≡◌, ◌≢◌, ◌⊎◌, ◌≤◌, refl, not, ◌&&◌, ◌==◌, inl, inr, Bool, any_found, any_of_mem, Memᴰ,
  none, true, false, List, Option, some, arith, Result, ok, err, Bool-cases, Option-cases,
  string_eq, find,
}
use quotio_cli.Base.Dict.{lookup, insert, lookup-insert, lookup-insert_self}
use quotio_cli.Provider.{Provider}
use quotio_cli.Accounts.Credential.{AccountError, duplicate, Credential, Account}
use quotio_cli.Accounts.Document.{
  Document, Family, ledger, set_ledger, lineage, token_key, is_taken, reserve_token,
  reserve_factory_refresh, add, remove, select, rename, patch_enabled, patch, is_other, carries,
  format, has_id, raise,
}
use quotio_cli.Accounts.Document.Rule.{patch_rule}

-- Every entry of a ledger of `d` is an entry of that ledger of `e`.
abbrev pub Kept : Document → Document → Type 0
Kept d e =
    (g : Family) (k j : String) → lookup k (ledger g d) ≡ some j → lookup k (ledger g e) ≡ some j

pub Kept-refl : (d : Document) → Kept d d
Kept-refl d g k j h = h

pub Kept-trans : (c d e : Document) → Kept c d → Kept d e → Kept c e
Kept-trans c d e p q g k j h = q g k j (p g k j h)

-- The write that `reserve_token` makes.
abbrev entered : String → String → Family → Document → Document
entered key id f d = set_ledger f (insert key id (ledger f d)) d

entered-Kept :
    (key id : String) (f : Family) (d : Document)
    → is_other id (lookup key (ledger f d)) ≡ false
    → Kept d (entered key id f d)
entered-Kept key id f d free g k j h = ground (arith, lookup-insert k key id (ledger f d))

raise-Kept : (n : ℕ) (d : Document) → Kept d (raise n d)
raise-Kept n d g k j h = ground arith

module _ (sha256 : List ℕ → List ℕ) where
  is_other_of_free :
      (id : String) (f : Family) (token : String) (d : Document)
      → is_taken sha256 id f token d ≡ false
      → is_other id (lookup (token_key sha256 f token) (ledger f d)) ≡ false
  unfolding is_taken
  is_other_of_free id f token d h = ground arith

  pub reserve_token-Kept :
      (id : String) (f : Family) (token : String) (d : Document)
      → Kept d (reserve_token sha256 id f token d).0
  unfolding reserve_token
  reserve_token-Kept id f token d = elim (Bool-cases (is_taken sha256 id f token d)) [
    | inl taken ↦ rw taken (Kept-refl d)
    | inr free ↦ rw free (
        Kept-trans d _ _ (entered-Kept _ id f d (is_other_of_free id f token d free))
          (raise-Kept (format f) (entered _ id f d)))
  ]

  pub reserve_factory_refresh-Kept :
      (id : String) (credential : Credential) (d : Document)
      → Kept d (reserve_factory_refresh sha256 id credential d).0
  unfolding reserve_factory_refresh
  reserve_factory_refresh-Kept id credential d = elim (Option-cases (lineage credential)) [
    | inl e ↦ rw e (Kept-refl d)
    | inr ((f, token), e) ↦ rw e (reserve_token-Kept id f token d)
  ]

  pub add-Kept :
      (random : Result AccountError String) (p : Provider) (text identity : String) (c : Credential)
      (d : Document)
      → Kept d (add sha256 random p text identity c d).0
  unfolding add
  add-Kept (err e) p text identity c d g k j h = ground arith
  add-Kept (ok id) p text identity c d g k j h =
      ground (arith, reserve_factory_refresh-Kept id c d g k j h)

  pub remove-Kept : (id : String) (d : Document) → Kept d (remove sha256 id d).0
  unfolding remove
  remove-Kept id d g k j h = elim (Option-cases (find (has_id id) d.accounts)) [
    | inl e ↦ rw (e, remove) h
    | inr (a, e) ↦ ground (arith, reserve_factory_refresh-Kept a.id a.credential d g k j h)
  ]

pub rename-Kept : (id text : String) (d : Document) → Kept d (rename id text d).0
unfolding rename
rename-Kept id text d g k j h = ground arith

pub select-Kept : (id : String) (d : Document) → Kept d (select id d).0
unfolding select
select-Kept id d g k j h = ground arith

patch_enabled-Kept :
    (id : String) (enabled : Option Bool) (d : Document) → Kept d (patch_enabled id enabled d).0
unfolding patch_enabled
patch_enabled-Kept id enabled d g k j h = ground arith

pub patch-Kept :
    (id : String) (text : Option String) (active enabled : Option Bool) (d : Document)
    → Kept d (patch id text active enabled d).0
patch-Kept id text active enabled d =
    patch_rule (Kept d) id text active enabled
      (λ on s p. Kept-trans d s _ p (patch_enabled-Kept id on s))
      (λ to s p. Kept-trans d s _ p (rename-Kept id to s))
      (λ s p. Kept-trans d s _ p (select-Kept id s)) d (Kept-refl d)

module _ (sha256 : List ℕ → List ℕ) (id token : String) (f : Family) (d : Document) where
  -- The ledger gives the token to another account.
  abbrev pub IsListed : Type 0
  IsListed =
      (owner : String) × (lookup (token_key sha256 f token) (ledger f d) ≡ some owner)
      × (owner ≢ id)

  -- Another account has the token in its credential.
  abbrev pub IsCarried : Type 0
  IsCarried =
      (a : Account) × Memᴰ a d.accounts × (a.id ≢ id) × (lineage a.credential ≡ some (f, token))

  abbrev pub IsOthers : Type 0
  IsOthers = IsListed ⊎ IsCarried

  listed_other :
      (o : Option String)
      → is_other id o ≡ true
      → (owner : String) × (o ≡ some owner) × (owner ≢ id)
  listed_other none h = absurd (ground arith)
  listed_other (some owner) h = (owner, refl, ground arith)

  carried : (o : Option (Family × String)) → carries f token o ≡ true → o ≡ some (f, token)
  carried none h = absurd (ground arith)
  carried (some (g, t)) h = ground arith

  carrying : (o : Option (Family × String)) → o ≡ some (f, token) → carries f token o ≡ true
  carrying none h = absurd (ground arith)
  carrying (some (g, t)) h = ground arith

  taken-IsOthers : is_taken sha256 id f token d ≡ true → IsOthers
  unfolding is_taken
  taken-IsOthers h =
      elim (Bool-cases (is_other id (lookup (token_key sha256 f token) (ledger f d)))) [
        | inl listed ↦ inl (listed_other _ listed)
        | inr unlisted ↦
            let (a, there, own) =
              any_found (λ a. not (a.id == id) && carries f token (lineage a.credential)) d.accounts
                (rw unlisted at h) in
            inr (a, there, ground arith, carried (lineage a.credential) (ground arith))
      ]

  others-taken : IsOthers → is_taken sha256 id f token d ≡ true
  unfolding is_taken
  others-taken (inl (owner, there, other)) = rw there (ground arith)
  others-taken (inr (a, there, other, own)) =
      let found =
        any_of_mem (λ a. not (a.id == id) && carries f token (lineage a.credential)) d.accounts a
          there (rw (carrying (lineage a.credential) own) (ground arith)) in
      ground arith

module _ (sha256 : List ℕ → List ℕ) (id token : String) (f : Family) (c : Credential)
    (d : Document) where
  -- A credential of family `f` with the refresh token `token` is refused, and the document left
  -- as it is, exactly if the ledger gives the token to another account, or another account has a
  -- credential of the family with this token. Otherwise the ledger gives the token to `id`, the
  -- accounts stay, the version does not fall, and it is one whose readers know the ledger.
  pub reserve-decides :
      lineage c ≡ some (f, token)
      → let r = reserve_factory_refresh sha256 id c d in
        (IsOthers sha256 id token f d × (r ≡ (d, err duplicate)))
        ⊎ (¬ IsOthers sha256 id token f d
            × (r.1 ≡ ok tt)
            × (lookup (token_key sha256 f token) (ledger f r.0) ≡ some id)
            × (r.0.accounts ≡ d.accounts)
            × (format f ≤ r.0.version)
            × (d.version ≤ r.0.version))
  unfolding reserve_factory_refresh reserve_token
  reserve-decides e = elim (Bool-cases (is_taken sha256 id f token d)) [
    | inl taken ↦ inl (taken-IsOthers sha256 id token f d taken, rw (e, taken) refl)
    | inr free ↦
        rw (e, free)
          (inr (
            λ h. absurd (ground (arith, others-taken sha256 id token f d h)),
            refl,
            ground (arith, lookup-insert_self (token_key sha256 f token) id (ledger f d)),
            ground arith,
            ground arith,
            ground arith,
          ))
  ]

  -- A token that the ledger gives to one account is refused to every other.
  pub reserve_owned :
      {owner : String}
      → lineage c ≡ some (f, token)
      → lookup (token_key sha256 f token) (ledger f d) ≡ some owner
      → owner ≢ id
      → reserve_factory_refresh sha256 id c d ≡ (d, err duplicate)
  unfolding reserve_factory_refresh reserve_token is_taken
  reserve_owned e o h = rw e (ground arith)
