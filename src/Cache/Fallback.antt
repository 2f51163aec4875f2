-- ===== src/Cache/Fallback.antt =====
-- A fetch that fails, where the cache has an entry of the login.
use quotio_cli.Base.{
  ℕ, String, ◌≡◌, refl, Bool, true, false, List, [], ◌∷◌, Option, none, some, arith, err, string_eq,
  option_eq, ◌⊎◌, inl, inr, Option-cases, Bool-cases,
}
use quotio_cli.Base.Dict.{Dict, lookup}
use quotio_cli.Provider.{Definition}
use quotio_cli.Accounts.Credential.{ProviderError}
use quotio_cli.Usage.{
  Float, ProviderUsage, ProviderFailure, UsageReport, include_diagnostics, tell_usages,
}
use quotio_cli.Usage.Fetch.{
  Task, WindowEq, outcome, collect, classify, sort, insert_at, reconcile_accounts,
}
use quotio_cli.Cache.{
  Env, Adapter, key_of, snapshot, is_same_login, is_of, fetched, one, is_served, keep, fresh,
}
use quotio_cli.Cache.Lookup.{IsSnapshot, snapshot-IsSnapshot}

keep-found :
    {Fl : Float} (p : ProviderUsage Fl → Bool) (o : Option (ProviderUsage Fl))
    (u : ProviderUsage Fl)
    → o ≡ some u
    → p u ≡ true
    → keep p o ≡ some u
keep-found p none u h own = absurd (ground arith)
keep-found p (some v) u h own = ground arith

module _ {Fl : Float} (sha256 : List ℕ → List ℕ) where
  snapshot-found :
      (env : Env) (a : Adapter Fl) (entries : Dict (ProviderUsage Fl)) (identity : String)
      (old : ProviderUsage Fl)
      → IsSnapshot sha256 env a entries identity old
      → env.readable ≡ true
      → snapshot sha256 env a entries ≡ some old
  unfolding snapshot
  snapshot-found env a entries identity old (prepared, recheck, there, own) readable =
      rw (prepared, readable, recheck)
        (ground
          (arith, keep-found (is_of a) (lookup (key_of sha256 a identity) entries) old there own))

  snapshot-readable :
      (env : Env) (a : Adapter Fl) (entries : Dict (ProviderUsage Fl)) (old : ProviderUsage Fl)
      → snapshot sha256 env a entries ≡ some old
      → env.readable ≡ true
  unfolding snapshot
  snapshot-readable env a entries old h = elim (Option-cases env.prepared) [
    | inl missing ↦ absurd (ground (arith, rw missing at h))
    | inr (identity, there) ↦ elim (Bool-cases env.readable) [
      | inl fine ↦ fine
      | inr bad ↦ absurd (ground (arith, rw (there, bad) at h))
    ]
  ]

  module _ (ttl : ℕ) (definitions : List Definition) (E : WindowEq Fl)
      (text_of : ProviderError → String) where
    abbrev pub failure : Task Fl → ProviderError → ProviderFailure
    failure t e = record {
      account_ref = t.account_ref;
      provider = t.id;
      code = e;
      message = text_of e;
    }

    fetched-failed :
        (env : Env) (a : Adapter Fl) (e : ProviderError)
        → outcome a.task ≡ err e
        → fetched definitions E text_of env a ≡ record {
          schema_version = 1;
          generated_at = env.collected_at;
          providers = [];
          failures = failure a.task e ∷ [];
        }
    unfolding fetched collect classify sort insert_at reconcile_accounts include_diagnostics
        tell_usages
    fetched-failed env a e h = rw h refl

    abbrev pub IsKnown : Env → Adapter Fl → Dict (ProviderUsage Fl) → ProviderUsage Fl → Type 0
    IsKnown env a entries old =
        (identity : String) × IsSnapshot sha256 env a entries identity old
        × (env.readable ≡ true)
        × (env.last_check ≡ some identity)

    abbrev pub IsServedNow :
        Env → Adapter Fl → Bool → Dict (ProviderUsage Fl) → UsageReport Fl → Type 0
    IsServedNow env a force entries report =
        (identity : String) × (old : ProviderUsage Fl) × IsSnapshot sha256 env a entries identity
          old
        × (force ≡ false)
        × (env.before_deadline ≡ true)
        × (fresh ttl old env.now ≡ true)
        × (report.providers ≡ record old { account_ref = a.task.account_ref } ∷ [])
        × (report.failures ≡ [])

    -- The report of a fetch that failed: with the cached usage, or without usages.
    abbrev pub IsFailed :
        Env → Adapter Fl → Dict (ProviderUsage Fl) → ProviderError → UsageReport Fl → Type 0
    IsFailed env a entries e report =
        (report.failures ≡ failure a.task e ∷ [])
        × (((old : ProviderUsage Fl) × IsKnown env a entries old
              × (report.providers
                  ≡ record old { account_ref = a.task.account_ref; reset_credits = none } ∷ []))
            ⊎ (((old : ProviderUsage Fl) → ¬ IsKnown env a entries old) × (report.providers ≡ [])))

    known_same :
        (env : Env) (a : Adapter Fl) (entries : Dict (ProviderUsage Fl)) (old : ProviderUsage Fl)
        → IsKnown env a entries old
        → is_same_login env ≡ true
    known_same env a entries old (identity, (prepared, recheck, there, own), readable, last) =
        ground arith

    known_found :
        (env : Env) (a : Adapter Fl) (entries : Dict (ProviderUsage Fl)) (old : ProviderUsage Fl)
        → IsKnown env a entries old
        → snapshot sha256 env a entries ≡ some old
    known_found env a entries old (identity, trusted, readable, last) =
        snapshot-found env a entries identity old trusted readable

    snapshot-IsKnown :
        (env : Env) (a : Adapter Fl) (entries : Dict (ProviderUsage Fl)) (old : ProviderUsage Fl)
        → snapshot sha256 env a entries ≡ some old
        → is_same_login env ≡ true
        → IsKnown env a entries old
    snapshot-IsKnown env a entries old there same =
        let (identity, trusted) = snapshot-IsSnapshot sha256 env a entries old there in
        (identity, trusted, snapshot-readable env a entries old there, ground (arith, trusted.0))

    -- Where the fetch of a lookup fails, the entries stay as they are. Then either the report is
    -- a cached usage of the login that is fresh, before the deadline and without force, and no
    -- failure; or it has just the failure, and as usages the cached usage of the login, for this
    -- account and without reset credits, all else kept, if there is one and all three checks
    -- find its identity, and else none.
    pub one-falls_back :
        (env : Env) (a : Adapter Fl) (force : Bool) (entries : Dict (ProviderUsage Fl))
        (e : ProviderError)
        → outcome a.task ≡ err e
        → (let (kept, report) = one sha256 ttl definitions E text_of env a force entries in
            (kept ≡ entries)
            × (IsServedNow env a force entries report ⊎ IsFailed env a entries e report))
    unfolding one
    one-falls_back env a force entries e failed =
        elim (Option-cases (snapshot sha256 env a entries)) [
          | inl missing ↦ elim (Bool-cases (is_same_login env)) [
            | inl same ↦
                rw (missing, fetched-failed env a e failed, same)
                  (refl, inr (refl, inr (λ old k. none_known env a entries old missing k, refl)))
            | inr other ↦
                rw (missing, fetched-failed env a e failed, other)
                  (refl, inr (refl, inr (λ old k. none_known env a entries old missing k, refl)))
          ]
          | inr (old, there) ↦ elim (Bool-cases (is_served ttl env force (some old))) [
            | inl served ↦
                let (identity, trusted) = snapshot-IsSnapshot sha256 env a entries old there in
                rw (there, served)
                  (
                    refl,
                    inl (
                      identity,
                      old,
                      trusted,
                      ground arith,
                      ground arith,
                      ground arith,
                      refl,
                      refl,
                    ),
                  )
            | inr unserved ↦ elim (Bool-cases (is_same_login env)) [
              | inl same ↦
                  rw (there, unserved, fetched-failed env a e failed, same)
                    (
                      refl,
                      inr (refl, inl (old, snapshot-IsKnown env a entries old there same, refl)),
                    )
              | inr other ↦
                  rw (there, unserved, fetched-failed env a e failed, other)
                    (refl, inr (refl, inr (λ x k. apart env a entries x other k, refl)))
            ]
          ]
        ]
      where
        none_known :
            (env : Env) (a : Adapter Fl) (entries : Dict (ProviderUsage Fl))
            (old : ProviderUsage Fl)
            → snapshot sha256 env a entries ≡ none
            → ¬ IsKnown env a entries old
        none_known env a entries old missing k =
            absurd (ground (arith, known_found env a entries old k))

        apart :
            (env : Env) (a : Adapter Fl) (entries : Dict (ProviderUsage Fl))
            (old : ProviderUsage Fl)
            → is_same_login env ≡ false
            → ¬ IsKnown env a entries old
        apart env a entries old other k = absurd (ground (arith, known_same env a entries old k))
