-- ===== src/Cache/Report.antt =====
-- src/cache.rs: the report of all lookups together. The lookups end in any order, and a lookup that
-- panics leaves a failure.
use quotio_cli.Base.{
  ℕ, zero, suc, String, ◌≡◌, ◌⊎◌, inl, inr, Bool, true, false, not, List, [], ◌∷◌, ◌++◌, map,
  Option, none, some, All, arith, if◌then◌else◌, leb, retain-All, Bool-cases, Option-cases,
}
use quotio_cli.Provider.{Definition}
use quotio_cli.Accounts.Credential.{ProviderError, internal}
use quotio_cli.Usage.{
  Float, AccountRef, ProviderUsage, ProviderFailure, UsageReport, ResetCredits, valid_at,
  include_diagnostics,
}
use quotio_cli.Usage.Fetch.{WindowEq, reconcile_accounts, is_removed}

-- How a lookup ends: with its index, and its report if it does not panic.
abbrev pub Ended : Float → Type 0
Ended Fl = ℕ × Option (UsageReport Fl)

abbrev is_expired : ℕ → Option ResetCredits → Bool
is_expired now none = false
is_expired now (some c) = not (valid_at c now)

abbrev nth : List (String × Option AccountRef) → ℕ → Option (String × Option AccountRef)
nth [] n = none
nth (r ∷ rs) zero = some r
nth (r ∷ rs) (suc n) = nth rs n

abbrev panicked :
    (ProviderError → String) → Option (String × Option AccountRef) → List ProviderFailure
panicked text_of none = []
panicked text_of (some (provider, account_ref)) =
    record {
      account_ref = account_ref;
      provider = provider;
      code = internal;
      message = text_of internal;
    }
    ∷ []

module _ {Fl : Float} where
  -- `results.sort_by_key(|(index, _)| *index)`, which is stable.
  abbrev insert_result : Ended Fl → List (Ended Fl) → List (Ended Fl)
  insert_result (i, r) [] = (i, r) ∷ []
  insert_result (i, r) ((j, q) ∷ xs) =
      if leb i j then (i, r) ∷ (j, q) ∷ xs else (j, q) ∷ insert_result (i, r) xs

  unfoldable pub sort_results : List (Ended Fl) → List (Ended Fl)
  sort_results [] = []
  sort_results (x ∷ xs) = insert_result x (sort_results xs)

  abbrev drop_expired : ℕ → ProviderUsage Fl → ProviderUsage Fl
  drop_expired now usage =
      if is_expired now usage.reset_credits then record usage { reset_credits = none } else usage

  -- No reset credits that have expired, or that come from the future.
  abbrev pub HasNoExpired : ℕ → ProviderUsage Fl → Type 0
  HasNoExpired now usage =
      (usage.reset_credits ≡ none)
      ⊎ ((c : ResetCredits) × (usage.reset_credits ≡ some c) × (valid_at c now ≡ true))

  drop-HasNoExpired : (now : ℕ) (u : ProviderUsage Fl) → HasNoExpired now (drop_expired now u)
  drop-HasNoExpired now u = elim (Option-cases u.reset_credits) [
    | inl nothing ↦ inl (ground arith)
    | inr (c, credits) ↦ elim (Bool-cases (valid_at c now)) [
      | inl good ↦ inr (c, ground arith, good)
      | inr bad ↦ inl (ground arith)
    ]
  ]

  drop_each :
      (now : ℕ) (us : List (ProviderUsage Fl)) → All (HasNoExpired now) (map (drop_expired now) us)
  drop_each now [] = tt
  drop_each now (u ∷ us) = (drop-HasNoExpired now u, drop_each now us)

  module _ (text_of : ProviderError → String) where
    -- The usages and the failures of the reports, in the order of the adapters.
    unfoldable pub gathered :
        List (String × Option AccountRef)
        → List (Ended Fl)
        → List (ProviderUsage Fl) × List ProviderFailure
    gathered refs [] = ([], [])
    gathered refs ((i, none) ∷ results) =
        let (us, fs) = gathered refs results in (us, panicked text_of (nth refs i) ++ fs)
    gathered refs ((i, some report) ∷ results) =
        let (us, fs) = gathered refs results in (report.providers ++ us, report.failures ++ fs)

    module _ (definitions : List Definition) (E : WindowEq Fl) where
      abbrev finished : ℕ → List (ProviderUsage Fl) × List ProviderFailure → UsageReport Fl
      finished now (us, fs) = include_diagnostics text_of (record {
        schema_version = 1;
        generated_at = now;
        providers = reconcile_accounts definitions E (map (drop_expired now) us);
        failures = fs;
      })

      -- `UsageCache::collect`, from the results of the lookups in the order in which they ended.
      unfoldable pub collect_cached :
          ℕ → List (String × Option AccountRef) → List (Ended Fl) → UsageReport Fl
      collect_cached now refs results = finished now (gathered refs (sort_results results))

      -- In the report of all lookups no usage has reset credits that are not valid at the time
      -- of the report.
      pub collect-HasNoExpired :
          (now : ℕ) (refs : List (String × Option AccountRef)) (results : List (Ended Fl))
          → All (HasNoExpired now) (collect_cached now refs results).providers
      unfolding collect_cached reconcile_accounts include_diagnostics
      collect-HasNoExpired now refs results =
          let us = (gathered refs (sort_results results)).0 in
          retain-All (λ u. not (is_removed definitions E (map (drop_expired now) us) u))
            (HasNoExpired now) (map (drop_expired now) us) (drop_each now us)
