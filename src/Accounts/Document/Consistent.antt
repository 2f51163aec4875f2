-- ===== src/Accounts/Document/Consistent.antt =====
-- The invariant of the account list, kept by every method, on its error paths too.
use quotio_cli.Base.{
  ℕ, String, ◌≡◌, refl, ap, ◌⊎◌, inl, inr, Bool, false, List, Option, none, some, arith, any,
  Result, ok, err, Bool-cases, Option-cases, Result-cases, ◌==◌, string_eq, find, update_first,
  remove_first,
}
use quotio_cli.Provider.{Provider, provider_eq}
use quotio_cli.Accounts.Credential.{AccountError, Credential, Account}
use quotio_cli.Accounts.Document.{
  Document, reserve_factory_refresh, reserve_token, validate_label, add, remove, select, rename,
  patch_enabled, patch, raise_for, push, has_id, set_active, without, relabel, set_enabled, clashes,
  same_label,
}
use quotio_cli.Accounts.Document.Rule.{patch_rule}
use quotio_cli.Accounts.Document.Unique.{
  UniqueIds, UniqueLabels, same_id, conflicts, Apart-concat, Apart-remove_first, Apart-update_first,
  Apart-map, relabel-UniqueLabels,
}
use quotio_cli.Accounts.Document.Active.{
  OneActive, push-OneActive, without-OneActive, select-OneActive, update-OneActive, activate,
}

pub record IsConsistent (xs : List Account) : Type 0 where
  pub ids : UniqueIds xs
  pub labels : UniqueLabels xs
  pub one_active : OneActive xs

module _ (sha256 : List ℕ → List ℕ) where
  pub accounts-reserve :
      (id : String) (c : Credential) (d : Document)
      → (reserve_factory_refresh sha256 id c d).0.accounts ≡ d.accounts
  unfolding reserve_factory_refresh reserve_token
  accounts-reserve id c d = ground arith

push-IsConsistent :
    (q : Provider) (text identity : String) (c : Credential) (id : String) (d : Document)
    → any (has_id id) d.accounts ≡ false
    → any (clashes q text identity) d.accounts ≡ false
    → IsConsistent d.accounts
    → IsConsistent (push q text identity c id d).accounts
push-IsConsistent q text identity c id d fresh free h = record {
  ids = Apart-concat same_id d.accounts _ fresh h.ids;
  labels = Apart-concat conflicts d.accounts _ free h.labels;
  one_active = push-OneActive q text identity c id d h.one_active;
}

-- A change of one entry that is seen by neither list test nor the count of active accounts.
update-IsConsistent :
    (f : Account → Account) (r : Account → Bool) (xs : List Account)
    → ((a b : Account) → same_id (f a) b ≡ same_id a b)
    → ((a b : Account) → same_id a (f b) ≡ same_id a b)
    → UniqueLabels (update_first r f xs)
    → OneActive (update_first r f xs)
    → UniqueIds xs
    → IsConsistent (update_first r f xs)
update-IsConsistent f r xs left right labels one_active ids = record {
  ids = Apart-update_first same_id f left right r xs ids;
  labels = labels;
  one_active = one_active;
}

rest-IsConsistent :
    (r : Account → Bool) (a : Account) (xs : List Account)
    → UniqueIds xs
    → UniqueLabels xs
    → OneActive (without a xs)
    → IsConsistent (without a xs)
rest-IsConsistent r a xs ids labels one_active = elim (Bool-cases a.active) [
  | inl e ↦ rw e (
      update-IsConsistent activate (λ b. b.provider == a.provider) xs (λ _ _. refl) (λ _ _. refl)
        (Apart-update_first conflicts activate (λ _ _. refl) (λ _ _. refl) _ xs labels)
        (rw e at one_active) ids)
  | inr e ↦ rw e (record { ids = ids; labels = labels; one_active = rw e at one_active })
]

without-IsConsistent :
    (r : Account → Bool) (a : Account) (xs : List Account)
    → find r xs ≡ some a
    → IsConsistent xs
    → IsConsistent (without a (remove_first r xs))
without-IsConsistent r a xs e h =
    rest-IsConsistent r a (remove_first r xs) (Apart-remove_first same_id r xs h.ids)
      (Apart-remove_first conflicts r xs h.labels) (without-OneActive r a xs e h.one_active)

accounts-push :
    (p : Provider) (text identity : String) (c : Credential) (id : String) (r d : Document)
    → r.accounts ≡ d.accounts
    → (push p text identity c id (raise_for c r)).accounts ≡ (push p text identity c id d).accounts
accounts-push p text identity c id r d e = ground arith

module _ (sha256 : List ℕ → List ℕ) where
  -- What `add` leaves: the account list as it was, or with the new account at the end.
  add-cases :
      (random : Result AccountError String) (p : Provider) (text identity : String) (c : Credential)
      (d : Document)
      → ((add sha256 random p text identity c d).0.accounts ≡ d.accounts)
        ⊎ ((trimmed id : String) × (random ≡ ok id)
            × (any (clashes p trimmed identity) d.accounts ≡ false)
            × ((add sha256 random p text identity c d).0.accounts
                ≡ (push p trimmed identity c id d).accounts))
  unfolding add
  add-cases (err e) p text identity c d = ground arith
  add-cases (ok id) p text identity c d = elim (Result-cases (validate_label text)) [
    | inr (e, bad) ↦ inl (rw (bad, add))
    | inl (trimmed, good) ↦
        let r = reserve_factory_refresh sha256 id c d in
        let same = accounts-reserve sha256 id c d in
        elim (Bool-cases (any (clashes p trimmed identity) d.accounts)) [
          | inl taken ↦ inl (rw (good, add, taken))
          | inr free ↦ elim (Result-cases r.1) [
            | inr (e, bad) ↦ inl (rw (good, add, free, bad) same)
            | inl (u, fine) ↦ inr (
              trimmed,
              id,
              refl,
              free,
              rw (good, add, free, fine) (accounts-push p trimmed identity c id r.0 d same),
            )
          ]
        ]
  ]

  -- The account list stays consistent when an account is added, on the error paths too, if the
  -- random id is new: ids are unique, no two accounts of a provider share a label or an
  -- identity, and a provider with accounts has exactly one active.
  pub add-IsConsistent :
      (random : Result AccountError String) (p : Provider) (text identity : String) (c : Credential)
      (d : Document)
      → ((id : String) → random ≡ ok id → any (has_id id) d.accounts ≡ false)
      → IsConsistent d.accounts
      → IsConsistent (add sha256 random p text identity c d).0.accounts
  add-IsConsistent random p text identity c d fresh h =
      elim (add-cases random p text identity c d) [
        | inl same ↦ rw same h
        | inr (trimmed, id, new, free, pushed) ↦
            rw pushed (push-IsConsistent p trimmed identity c id d (fresh id new) free h)
      ]

  remove-cases :
      (id : String) (d : Document)
      → ((remove sha256 id d).0.accounts ≡ d.accounts)
        ⊎ ((a : Account) × (find (has_id id) d.accounts ≡ some a)
            × ((remove sha256 id d).0.accounts ≡ without a (remove_first (has_id id) d.accounts)))
  unfolding remove
  remove-cases id d = elim (Option-cases (find (has_id id) d.accounts)) [
    | inl e ↦ inl (rw (e, remove))
    | inr (a, e) ↦
        let r = reserve_factory_refresh sha256 a.id a.credential d in
        let same = accounts-reserve sha256 a.id a.credential d in
        elim (Result-cases r.1) [
          | inr (x, bad) ↦ inl (rw (e, remove, bad) same)
          | inl (u, fine) ↦
              inr (
                a,
                e,
                rw (e, remove, fine) (ap (λ xs. without a (remove_first (has_id id) xs)) same),
              )
        ]
  ]

  -- The account list stays consistent when an account is removed, or found missing, or its
  -- refresh token is refused: where the active account of a provider goes, exactly one other of
  -- its accounts becomes active, if there is one.
  pub remove-IsConsistent :
      (id : String) (d : Document)
      → IsConsistent d.accounts
      → IsConsistent (remove sha256 id d).0.accounts
  remove-IsConsistent id d h = elim (remove-cases id d) [
    | inl same ↦ rw same h
    | inr (a, e, gone) ↦ rw gone (without-IsConsistent (has_id id) a d.accounts e h)
  ]

-- The account list stays consistent under `select`, for a known and for an unknown id.
pub select-IsConsistent :
    (id : String) (d : Document) → IsConsistent d.accounts → IsConsistent (select id d).0.accounts
unfolding select
select-IsConsistent id d h = elim (Option-cases (find (has_id id) d.accounts)) [
  | inl e ↦ rw (e, select) h
  | inr (a, e) ↦
      rw (e, select)
        (record {
          ids =
              Apart-map same_id (set_active a.provider id) (λ _ _. ground arith)
                (λ _ _. ground arith) d.accounts h.ids;
          labels =
              Apart-map conflicts (set_active a.provider id) (λ _ _. ground arith)
                (λ _ _. ground arith) d.accounts h.labels;
          one_active = select-OneActive id d.accounts a e h.ids h.one_active;
        })
]

-- The account list stays consistent under `rename`, for a label that is accepted, invalid or
-- taken.
pub rename-IsConsistent :
    (id text : String) (d : Document)
    → IsConsistent d.accounts
    → IsConsistent (rename id text d).0.accounts
unfolding rename
rename-IsConsistent id text d h = elim (Result-cases (validate_label text)) [
  | inr (e, bad) ↦ rw (bad, rename) h
  | inl (trimmed, good) ↦ elim (Option-cases (find (has_id id) d.accounts)) [
    | inl e ↦ rw (good, rename, e) h
    | inr (a, e) ↦ elim (Bool-cases (any (same_label a.provider id trimmed) d.accounts)) [
      | inl taken ↦ rw (good, rename, e) (simp taken h)
      | inr free ↦
          rw (good, rename, e)
            (simp free (
              update-IsConsistent (relabel trimmed) (has_id id) d.accounts (λ _ _. refl)
                (λ _ _. refl) (relabel-UniqueLabels id trimmed d.accounts a e free h.ids h.labels)
                (update-OneActive (relabel trimmed) (has_id id) d.accounts (λ _. refl) (λ _. refl)
                  h.one_active)
                h.ids))
    ]
  ]
]

pub patch_enabled-IsConsistent :
    (id : String) (enabled : Option Bool) (d : Document)
    → IsConsistent d.accounts
    → IsConsistent (patch_enabled id enabled d).0.accounts
unfolding patch_enabled
patch_enabled-IsConsistent id none d h = h
patch_enabled-IsConsistent id (some on) d h = elim (Option-cases (find (has_id id) d.accounts)) [
  | inl e ↦ rw (e, patch_enabled) h
  | inr (a, e) ↦
      rw (e, patch_enabled)
        (update-IsConsistent (set_enabled on) (has_id id) d.accounts (λ _ _. refl) (λ _ _. refl)
          (Apart-update_first conflicts (set_enabled on) (λ _ _. refl) (λ _ _. refl) _ d.accounts
            h.labels)
          (update-OneActive (set_enabled on) (has_id id) d.accounts (λ _. refl) (λ _. refl)
            h.one_active)
          h.ids)
]

-- The account list stays consistent under `patch` with any combination of its three options,
-- also where `patch` fails after some of its changes are made.
pub patch-IsConsistent :
    (id : String) (text : Option String) (active enabled : Option Bool) (d : Document)
    → IsConsistent d.accounts
    → IsConsistent (patch id text active enabled d).0.accounts
patch-IsConsistent id text active enabled =
    patch_rule (λ d. IsConsistent d.accounts) id text active enabled (patch_enabled-IsConsistent id)
      (rename-IsConsistent id) (select-IsConsistent id)
