-- ===== src/Server/Refresh/History.antt =====
-- Histories of the server: changes of accounts and settings, and refreshes, whose end may come after
-- other changes.
use quotio_cli.Base.{
  ℕ, String, ◌≡◌, ◌⊎◌, refl, Bool, List, [], ◌∷◌, Option, none, some, arith, Result, ok, err, ◌==◌,
  string_eq, nat_eq, Bool-cases, Result-cases, inl, inr,
}
use quotio_cli.Provider.{Provider}
use quotio_cli.Accounts.Credential.{AccountError, ProviderError}
use quotio_cli.Config.{ConfigError, providers}
use quotio_cli.Settings.{SettingsView, SettingsError}
use quotio_cli.Usage.{Float, UsageReport}
use quotio_cli.Server.Refresh.{
  with_settings, settings_response, patch_settings, enabled_in, State, Ticket, RefreshRequest,
  invalidate, login_committed, woken, refresh_begin, refresh_end, usage_response,
}

-- What happens to the state: a route changes accounts, an OAuth login adds an account or may have added
-- one, a route of the logins wakes the refreshes, a client reads or changes the settings, a refresh takes
-- the lock, the refresh that holds the lock ends, or a client asks for usages.
pub data Event (Fl : Float) : Type 0 where
  invalidated logged_in notified : Event Fl
  settings_read : Bool → Result SettingsError (SettingsView (Fl.F)) → Event Fl
  settings_patched : Bool → Result SettingsError (SettingsView (Fl.F)) → Event Fl
  begun : Option RefreshRequest → Event Fl
  ended : ℕ → Bool → Result AccountError (UsageReport Fl) → Event Fl
  asked : Bool → ℕ → Option String → Option String → Event Fl

module _ {Fl : Float} (from_str : String → Option Provider) (text_of : ProviderError → String) where
  abbrev pub begin_next : Option RefreshRequest → State Fl → Option Ticket → State Fl
  begin_next request s none = (refresh_begin from_str request s).0
  begin_next request s (some t) = s

  abbrev pub end_running :
      ℕ → Bool → Result AccountError (UsageReport Fl) → State Fl → Option Ticket → State Fl
  end_running now guard collected s none = s
  end_running now guard collected s (some t) = (refresh_end text_of now guard collected t s).0

  unfoldable pub step : Event Fl → State Fl → State Fl
  step invalidated s = invalidate s
  step logged_in s = login_committed s
  step notified s = woken s
  step (settings_read guard loaded) s = (settings_response guard loaded s).0
  step (settings_patched guard patched) s = (patch_settings guard patched s).0
  step (begun request) s = begin_next request s s.running
  step (ended now guard collected) s = end_running now guard collected s s.running
  step (asked guard now provider account) s = (usage_response guard now provider account s).0

  unfoldable pub run : List (Event Fl) → State Fl → State Fl
  run [] s = s
  run (e ∷ es) s = run es (step e s)

  enabled-snapshot :
      (request : Option RefreshRequest) (s : State Fl) (r : Result ConfigError (List Provider))
      → (enabled_in s request r).0.snapshot ≡ s.snapshot
  enabled-snapshot request s (err e) = refl
  enabled-snapshot request s (ok enabled) = ground arith

  pub begin-snapshot :
      (request : Option RefreshRequest) (s : State Fl) (running : Option Ticket)
      → (begin_next request s running).snapshot ≡ s.snapshot
  unfolding refresh_begin
  begin-snapshot request s (some t) = refl
  begin-snapshot request s none = enabled-snapshot request s (providers from_str s.settings.values)

  pub asked-snapshot :
      (guard : Bool) (now : ℕ) (provider account : Option String) (s : State Fl)
      → (usage_response guard now provider account s).0.snapshot ≡ s.snapshot
  unfolding usage_response
  asked-snapshot guard now provider account s = ground arith

-- A handler of the settings leaves the state as it is, or takes over a view and invalidates.
abbrev pub IsResettled : {Fl : Float} → State Fl → State Fl → Type 0
IsResettled {Fl} s new = (new ≡ s) ⊎ ((view : SettingsView (Fl.F)) × (new ≡ with_settings view s))

module _ {Fl : Float} (guard : Bool) (r : Result SettingsError (SettingsView (Fl.F)))
    (s : State Fl) where
  pub settings_response-IsResettled : IsResettled s (settings_response guard r s).0
  unfolding settings_response
  settings_response-IsResettled = elim (Bool-cases guard) [
    | inr late ↦ inl (rw late refl)
    | inl free ↦ elim (Result-cases r) [
      | inr (e, failed) ↦ inl (rw (free, failed) refl)
      | inl (view, loaded) ↦ elim (Bool-cases (s.settings.revision == view.revision)) [
        | inl same ↦ inl (rw (free, loaded, same) refl)
        | inr new ↦ inr (view, rw (free, loaded, new) refl)
      ]
    ]
  ]

  pub patch_settings-IsResettled : IsResettled s (patch_settings guard r s).0
  unfolding patch_settings
  patch_settings-IsResettled = elim (Bool-cases guard) [
    | inr late ↦ inl (rw late refl)
    | inl free ↦ elim (Result-cases r) [
      | inr (e, failed) ↦ inl (rw (free, failed) refl)
      | inl (view, patched) ↦ inr (view, rw (free, patched) refl)
    ]
  ]
