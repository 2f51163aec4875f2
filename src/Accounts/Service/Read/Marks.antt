-- ===== src/Accounts/Service/Read/Marks.antt =====
-- What the transaction that fences a refresh leaves in the vault.
use quotio_cli.Base.{
  ℕ, String, ◌≡◌, refl, Bool, true, not, ◌&&◌, ◌||◌, List, [], ◌∷◌, none, some, arith, find, any,
  update_first, Result, ok, err, Bool-cases, Option-cases, Result-cases, and_then, done, inl, inr,
  ◌==◌, string_eq,
}
use quotio_cli.Accounts.Credential.{AccountError, Credential, Account, credential_eq, is_enabled}
use quotio_cli.Accounts.Document.{Document, Change, empty, has_id, reserve_factory_refresh}
use quotio_cli.Accounts.Vault.{Codec, upgraded}
use quotio_cli.Accounts.Vault.Format.{IsFormatted, accepted-IsFormatted}
use quotio_cli.Accounts.Service.{
  Env, Stored, begin, transact, conclude, set_pending, has_pending, replace_credential, fence,
  install,
}
use quotio_cli.Accounts.Service.Durable.{IsCodec, Holds, begin-Holds}
use quotio_cli.Accounts.Service.History.{fences, installs, is_refreshable, apply}
use quotio_cli.Accounts.Service.Receipts.{concluded_has}
use quotio_cli.Accounts.Service.Read.{is_pending}

module _ (C : Codec) where
  pub Holds-map {ℓ κ} :
      (P : Document → Type ℓ) (Q : Document → Type κ) (stored : Stored C)
      → ((d : Document) → P d → Q d)
      → Holds C P stored
      → Holds C Q stored
  Holds-map P Q none f h = f empty h
  Holds-map P Q (some b) f (d, fits, readable, accepted, p) = (d, fits, readable, accepted, f d p)

  pub transact_has {ℓ} :
      (P : Document → Type ℓ) (codec : IsCodec C) (raised : (d : Document) → P d → P (upgraded d))
      {A : Type 0} (env : Env) (m : Change A) (stored s : Stored C) (a : A)
      → Holds C (λ _. Unit {0}) stored
      → ((d : Document) (b : A) → IsFormatted d → (m d).1 ≡ ok b → IsFormatted (m d).0 × P (m d).0)
      → transact C env m stored ≡ (s, ok a)
      → Holds C P s
  unfolding transact
  transact_has P codec raised env m stored s a h k e =
      elim (Result-cases (begin C env.attempts stored)) [
        | inr (x, bad) ↦ ground (arith, rw bad at e)
        | inl (d, fine) ↦
            let f =
              accepted-IsFormatted d
                (begin-Holds C (λ _. Unit {0}) env.attempts stored d h fine).0 in
            let told : conclude C env.written stored (m d) ≡ (s, ok a) = rw fine at e in
            elim (Result-cases (m d).1) [
              | inr (x, bad) ↦ ground (arith, rw bad at told)
              | inl (b, good) ↦
                  let (f', p) = k d b f good in
                  concluded_has C P codec raised env.written (m d).0 (m d).1 stored s a f' p told
            ]
      ]

-- The account with this id has this credential.
abbrev pub has_credential : String → Credential → Document → Bool
has_credential id c d = any (λ a. a.id == id && a.credential == c) d.accounts

any-replaced :
    (id : String) (c : Credential) (xs : List Account) (a : Account)
    → find (has_id id) xs ≡ some a
    → any
        (λ b. b.id == id && b.credential == c)
        (update_first (has_id id) (replace_credential c) xs)
      ≡ true
any-replaced id c [] a h = ground arith
any-replaced id c (x ∷ xs) a h = ground (arith, any-replaced id c xs a)

pub has_credential-upgraded :
    (id : String) (c : Credential) (d : Document) → (upgraded d).accounts ≡ d.accounts
unfolding upgraded
has_credential-upgraded id c d = ground arith

fst_done :
    {A B : Type 0} (a : B) (r : Document × Result AccountError A)
    → (and_then r (λ _. done a)).0 ≡ r.0
fst_done a (d, ok b) = refl
fst_done a (d, err e) = refl

module _ (sha256 : List ℕ → List ℕ) where
  pub fence-has :
      (id : String) (c : Credential) (d : Document)
      → (fence sha256 id c d).1 ≡ ok tt
      → has_credential id (set_pending c) (fence sha256 id c d).0 ≡ true
  unfolding fence
  fence-has id c d h =
      let r = reserve_factory_refresh sha256 id (set_pending c) d in
      elim (Result-cases r.1) [
        | inr (e, bad) ↦ ground (arith, rw bad at h)
        | inl (u, fine) ↦ elim (Option-cases (find (has_id id) r.0.accounts)) [
          | inl missing ↦ ground (arith, rw (fine, missing) at h)
          | inr (a, found) ↦ elim (Bool-cases (not (is_enabled a) || not (a.credential == c))) [
            | inl clash ↦ ground (arith, rw (fine, found) at h)
            | inr calm ↦
                rw (fine, fence, found)
                  (simp calm (any-replaced id (set_pending c) r.0.accounts a found))
          ]
        ]
      ]

  pub fence-kept :
      (id : String) (c : Credential) (d : Document)
      → (apply sha256 (fences id c) d).0 ≡ (fence sha256 id c d).0
  unfolding apply
  fence-kept id c d = fst_done id (fence sha256 id c d)

  pub install-kept :
      (id : String) (p : quotio_cli.Provider.Provider) (c u : Credential) (d : Document)
      → (apply sha256 (installs id p c u) d).0 ≡ (install sha256 id p c u d).0
  unfolding apply
  install-kept id p c u d = fst_done id (install sha256 id p c u d)

pub set_pending-pending :
    (c : Credential)
    → (is_pending (set_pending c) ≡ has_pending c)
      × (has_pending (set_pending c) ≡ has_pending c)
      × (is_refreshable (set_pending c) ≡ is_refreshable c)
set_pending-pending c = ground arith
