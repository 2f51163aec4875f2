-- ===== src/Cache/Lookup.antt =====
-- What one lookup serves, and what it writes, under the identities that it sees.
use quotio_cli.Base.{
  ℕ, String, ◌≡◌, ◌⊎◌, refl, sym, ◌∙◌, ap, subst, ==_iff, Bool, true, false, ◌&&◌, List, [], ◌∷◌,
  Option, none, some, All, arith, ◌==◌, string_eq, option_eq, Bool-cases, Option-cases, inl, inr,
}
use quotio_cli.Base.Dict.{Dict, lookup, insert, lookup-insert}
use quotio_cli.Provider.{Definition}
use quotio_cli.Accounts.Credential.{ProviderError}
use quotio_cli.Usage.{Float, ProviderUsage, UsageReport}
use quotio_cli.Usage.Fetch.{WindowEq}
use quotio_cli.Cache.{
  Env, Adapter, keep, key_of, snapshot, read_entry, is_same_login, is_of, with_ref, stale, fresh,
  fetched, one, after_fetch, retain_entry, is_served,
}

same_login :
    (env : Env) (identity : String)
    → env.prepared ≡ some identity
    → is_same_login env ≡ true
    → (env.recheck ≡ some identity) × (env.last_check ≡ some identity)
same_login env identity prepared h = ground arith

keep-some :
    {Fl : Float} (p : ProviderUsage Fl → Bool) (o : Option (ProviderUsage Fl))
    (u : ProviderUsage Fl)
    → keep p o ≡ some u
    → (o ≡ some u) × (p u ≡ true)
keep-some p none u h = absurd (ground arith)
keep-some p (some v) u h = ground arith

module _ {Fl : Float} (sha256 : List ℕ → List ℕ) where
  -- A snapshot that a lookup uses: the entry of the identity, which a second look confirms.
  abbrev pub IsSnapshot :
      Env → Adapter Fl → Dict (ProviderUsage Fl) → String → ProviderUsage Fl → Type 0
  IsSnapshot env a entries identity usage =
      (env.prepared ≡ some identity)
      × (env.recheck ≡ some identity)
      × (lookup (key_of sha256 a identity) entries ≡ some usage)
      × (is_of a usage ≡ true)

  pub snapshot-IsSnapshot :
      (env : Env) (a : Adapter Fl) (entries : Dict (ProviderUsage Fl)) (usage : ProviderUsage Fl)
      → snapshot sha256 env a entries ≡ some usage
      → (identity : String) × IsSnapshot env a entries identity usage
  unfolding snapshot
  snapshot-IsSnapshot env a entries usage h = elim (Option-cases env.prepared) [
    | inl unprepared ↦ absurd (ground arith)
    | inr (identity, prepared) ↦ elim (Bool-cases (env.readable && env.recheck == some identity)) [
      | inr unread ↦ absurd (ground arith)
      | inl read ↦
          let (found, own) =
            keep-some (is_of a) (lookup (key_of sha256 a identity) entries) usage
              (sym (ap (read_entry sha256 env a entries) prepared ∙ rw read refl) ∙ h) in
          (identity, (prepared, ground arith, found, own))
    ]
  ]

  -- Every usage of an entry is one that may stand under its name.
  abbrev pub IsOwned : (String → ProviderUsage Fl → Type 0) → Dict (ProviderUsage Fl) → Type 0
  IsOwned P entries = (k : String) (u : ProviderUsage Fl) → lookup k entries ≡ some u → P k u

  some_injective : (u v : ProviderUsage Fl) → some u ≡ some v → u ≡ v
  some_injective u v h = ground arith

  insert-IsOwned :
      (P : String → ProviderUsage Fl → Type 0) (k : String) (u : ProviderUsage Fl)
      (entries : Dict (ProviderUsage Fl))
      → P k u
      → IsOwned P entries
      → IsOwned P (insert k u entries)
  insert-IsOwned P k u entries p owned j v h = elim (Bool-cases (j == k)) [
    | inl same ↦
        subst (λ i. P i v) (sym ((==_iff j k).0 same))
          (subst (P k) (some_injective u v (rw (lookup-insert j k u entries, same) at h)) p)
    | inr other ↦ owned j v (rw (lookup-insert j k u entries, other) at h)
  ]

  retained-IsOwned :
      (P : String → ProviderUsage Fl → Type 0) (env : Env) (a : Adapter Fl)
      (old : Option (ProviderUsage Fl)) (entries : Dict (ProviderUsage Fl))
      (report : UsageReport Fl) (identity : String)
      → env.prepared ≡ some identity
      → (us : List (ProviderUsage Fl)) → All (P (key_of sha256 a identity)) us
      → IsOwned P entries
      → IsOwned P (retain_entry sha256 env a old report entries us).0
  retained-IsOwned P env a old entries report identity prepared [] collected owned = owned
  retained-IsOwned P env a old entries report identity prepared (u ∷ us) (p, ps) owned =
      elim (Bool-cases (a.cacheable u)) [
        | inr never ↦ rw never owned
        | inl cached ↦ elim (Bool-cases env.written) [
          | inr failed ↦ rw (cached, prepared, failed) owned
          | inl written ↦
              rw (cached, prepared, written)
                (insert-IsOwned P (key_of sha256 a identity) u entries p owned)
        ]
      ]

  after-IsOwned :
      (P : String → ProviderUsage Fl → Type 0) (env : Env) (a : Adapter Fl)
      (old : Option (ProviderUsage Fl)) (entries : Dict (ProviderUsage Fl))
      (report : UsageReport Fl)
      → ((identity : String)
          → env.prepared ≡ some identity
          → env.last_check ≡ some identity
          → All (P (key_of sha256 a identity)) report.providers)
      → IsOwned P entries
      → IsOwned P (after_fetch sha256 env a old report entries).0
  after-IsOwned P env a old entries report collected owned = elim (Bool-cases (is_same_login env)) [
    | inr other ↦ rw other owned
    | inl same ↦ elim (Option-cases env.prepared) [
      | inl unprepared ↦ absurd (ground arith)
      | inr (identity, prepared) ↦ rw same (
          retained-IsOwned P env a old entries report identity prepared report.providers
            (collected identity prepared (same_login env identity prepared same).1) owned)
    ]
  ]

  -- A report whose only usage is the snapshot, without its reset credits.
  abbrev IsStale :
      Bool
      → Env
      → Adapter Fl
      → Option (ProviderUsage Fl)
      → UsageReport Fl
      → List (ProviderUsage Fl)
      → Type 0
  IsStale login env a old report us =
      (usage : ProviderUsage Fl) × (old ≡ some usage)
      × (us ≡ stale a.task.account_ref usage ∷ [])
      × (report.providers ≡ [])
      × (login ≡ true)

  retained-serves :
      (env : Env) (a : Adapter Fl) (old : Option (ProviderUsage Fl)) (report : UsageReport Fl)
      (entries : Dict (ProviderUsage Fl)) (us : List (ProviderUsage Fl))
      → report.providers ≡ us
      → ((retain_entry sha256 env a old report entries us).1.providers ≡ report.providers)
        ⊎ IsStale true env a old report
            (retain_entry sha256 env a old report entries us).1.providers
  retained-serves env a none report entries [] nil = inl refl
  retained-serves env a (some usage) report entries [] nil = inr (usage, refl, refl, nil, refl)
  retained-serves env a old report entries (u ∷ us) more = elim (Bool-cases (a.cacheable u)) [
    | inl cached ↦ inl (rw cached refl)
    | inr never ↦ inl (rw never refl)
  ]

  after-serves :
      (env : Env) (a : Adapter Fl) (old : Option (ProviderUsage Fl)) (report : UsageReport Fl)
      (entries : Dict (ProviderUsage Fl))
      → ((after_fetch sha256 env a old report entries).1.providers ≡ report.providers)
        ⊎ IsStale
            (is_same_login env)
            env
            a
            old
            report
            (after_fetch sha256 env a old report entries).1.providers
  after-serves env a old report entries = elim (Bool-cases (is_same_login env)) [
    | inr other ↦ inl (rw other refl)
    | inl same ↦ rw same (retained-serves env a old report entries report.providers refl)
  ]

  module _ (ttl : ℕ) (definitions : List Definition) (E : WindowEq Fl)
      (text_of : ProviderError → String) where
    abbrev looked :
        Env → Adapter Fl → Bool → Dict (ProviderUsage Fl) → Dict (ProviderUsage Fl) × UsageReport Fl
    looked env a force entries = one sha256 ttl definitions E text_of env a force entries

    abbrev collected : Env → Adapter Fl → List (ProviderUsage Fl)
    collected env a = (fetched definitions E text_of env a).providers

    -- Let `P k u` say that the usage `u` may stand in the entry `k`. Where it holds of all
    -- entries, and of each usage that a lookup collects with the entry of an identity that the
    -- checks before and after the fetch give, it holds of all entries after the lookup.
    pub one-IsOwned :
        (P : String → ProviderUsage Fl → Type 0) (env : Env) (a : Adapter Fl) (force : Bool)
        (entries : Dict (ProviderUsage Fl))
        → ((identity : String)
            → env.prepared ≡ some identity
            → env.last_check ≡ some identity
            → All (P (key_of sha256 a identity)) (collected env a))
        → ((k : String) (u : ProviderUsage Fl) → lookup k entries ≡ some u → P k u)
        → (k : String) (u : ProviderUsage Fl)
        → lookup k (one sha256 ttl definitions E text_of env a force entries).0 ≡ some u
        → P k u
    unfolding one
    one-IsOwned P env a force entries own owned k u =
        elim (Option-cases (snapshot sha256 env a entries)) [
          | inl nothing ↦ rw nothing (after-IsOwned P env a none entries _ own owned k u)
          | inr (old, found) ↦ elim (Bool-cases (is_served ttl env force (some old))) [
            | inl served ↦ rw (found, served) (owned k u)
            | inr fetch ↦
                rw (found, fetch) (after-IsOwned P env a (some old) entries _ own owned k u)
          ]
        ]

    abbrev pub IsServed :
        Env → Adapter Fl → Bool → String → ProviderUsage Fl → List (ProviderUsage Fl) → Type 0
    IsServed env a force identity old us =
        ((us ≡ with_ref a.task.account_ref old ∷ [])
          × (force ≡ false)
          × (env.before_deadline ≡ true)
          × (fresh ttl old env.now ≡ true))
        ⊎ ((us ≡ stale a.task.account_ref old ∷ [])
            × (collected env a ≡ [])
            × (env.last_check ≡ some identity))

    -- The usages of a lookup are those that it collects, or the one usage of the entry whose
    -- name is made of the provider, the account and an identity that two checks of the login
    -- give; in the second case the usage passes the checks of a snapshot, and it is either
    -- served as it is, where the lookup is not forced, before its deadline and with a fresh
    -- usage, or it is served without its reset credits, where nothing is collected and a third
    -- check gives the same identity.
    pub one-serves :
        (env : Env) (a : Adapter Fl) (force : Bool) (entries : Dict (ProviderUsage Fl))
        → (let us = (one sha256 ttl definitions E text_of env a force entries).1.providers in
            (us ≡ collected env a)
            ⊎ ((identity : String) × (old : ProviderUsage Fl) × IsSnapshot env a entries identity
                  old
                × IsServed env a force identity old us))
    unfolding one
    one-serves env a force entries = elim (Option-cases (snapshot sha256 env a entries)) [
      | inl nothing ↦ elim (after-serves env a none (fetched definitions E text_of env a) entries) [
        | inl same ↦ inl (rw nothing same)
        | inr (usage, impossible, only, nil, login) ↦ absurd (ground arith)
      ]
      | inr (old, found) ↦
          let (identity, trusted) = snapshot-IsSnapshot env a entries old found in
          elim (Bool-cases (is_served ttl env force (some old))) [
            | inl served ↦ inr (
              identity,
              old,
              trusted,
              inl (rw (found, served) refl, ground arith, ground arith, ground arith),
            )
            | inr fetch ↦
                elim (after-serves env a (some old) (fetched definitions E text_of env a) entries) [
                  | inl same ↦ inl (rw (found, fetch) same)
                  | inr (usage, is_old, only, nil, login) ↦ inr (
                    identity,
                    old,
                    trusted,
                    inr (
                      rw (found, fetch)
                          (only
                            ∙ ap (λ u. stale a.task.account_ref u ∷ [])
                                (sym (some_injective old usage is_old))),
                      nil,
                      (same_login env identity trusted.0 login).1,
                    ),
                  )
                ]
          ]
    ]
