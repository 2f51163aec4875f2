-- ===== src/Settings/Bounds.antt =====
-- The bounds of the settings that a client sees.
use quotio_cli.Base.{
  ℕ, ◌≤◌, String, ◌≡◌, subst, true, List, Option, none, some, arith, ok, string_eq, nat_eq,
  Result-cases, inl, inr,
}
use quotio_cli.Provider.{Provider}
use quotio_cli.Config.{Config, Toml}
use quotio_cli.Settings.Patch.{read_text-ok, read-ok}
use quotio_cli.Settings.{
  Overrides, SettingsView, Env, validate, read, effective, load, in_range, or_old,
}

or_old-range :
    (o : Option ℕ) (old most : ℕ)
    → in_range most (or_old o 1) ≡ true
    → in_range most old ≡ true
    → in_range most (or_old o old) ≡ true
or_old-range none old most p q = q
or_old-range (some n) old most p q = p

abbrev pub IsBounded : {F : Type 0} → SettingsView F → Type 0
IsBounded view =
    (1 ≤ view.values.refresh_interval)
    × (view.values.refresh_interval ≤ 86400)
    × (1 ≤ view.values.provider_timeout)
    × (view.values.provider_timeout ≤ 3600)

module _ (sha256 : List ℕ → List ℕ) (from_str : String → Option Provider) {F : Type 0}
    (T : Toml F) where
  effective-IsBounded :
      (overrides : Overrides) (config : Config F) (revision : String)
      → in_range 86400 (or_old overrides.refresh_interval 1) ≡ true
      → in_range 3600 (or_old overrides.provider_timeout 1) ≡ true
      → validate from_str config ≡ true
      → IsBounded (effective overrides config revision)
  unfolding effective validate
  effective-IsBounded overrides config revision p q valid =
      let r =
        or_old-range overrides.refresh_interval config.refresh_interval 86400 p (ground arith) in
      let t =
        or_old-range overrides.provider_timeout config.provider_timeout 3600 q (ground arith) in
      (ground arith, ground arith, ground arith, ground arith)

  view_of_load :
      (overrides : Overrides) (env : Env) (stored : Option String) (view : SettingsView F)
      → load sha256 from_str T overrides env stored ≡ ok view
      → (config : Config F) × (revision : String) × (read sha256 from_str T env stored
          ≡ ok (config, revision))
        × (effective overrides config revision ≡ view)
  unfolding load
  view_of_load overrides env stored view h =
      elim (Result-cases (read sha256 from_str T env stored)) [
        | inr (e, failed) ↦ absurd (ground arith)
        | inl ((config, revision), found) ↦ (config, revision, found, ground arith)
      ]

  -- A view that `load` gives has a refresh interval from 1 to 86400 and a provider timeout from
  -- 1 to 3600, where the overrides, if there are any, are in these bounds.
  pub load-IsBounded :
      (overrides : Overrides) (env : Env) (stored : Option String) (view : SettingsView F)
      → in_range 86400 (or_old overrides.refresh_interval 1) ≡ true
      → in_range 3600 (or_old overrides.provider_timeout 1) ≡ true
      → load sha256 from_str T overrides env stored ≡ ok view
      → IsBounded view
  load-IsBounded overrides env stored view p q h =
      let (config, revision, found, same) = view_of_load overrides env stored view h in
      let (small, revised, parsed, valid) =
        read_text-ok sha256 from_str T _ config revision
          (read-ok sha256 from_str T env stored config revision found) in
      subst IsBounded same (effective-IsBounded overrides config revision p q valid)
