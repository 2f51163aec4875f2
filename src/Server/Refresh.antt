-- ===== src/Server/Refresh.antt =====
-- src/server.rs: the snapshot of usages that the server serves, the refreshes that replace it, and the
-- generation that each change of accounts or settings raises. A refresh is two steps, before and after
-- what it collects, and other steps come between them; the refresh lock lets one run at a time. A
-- `Notify` is whether it holds a permit.
pub mod Merge
pub mod History
pub mod Served
pub mod Late
pub mod Ready
pub mod Tests
use quotio_cli.Base.{
  ℕ, ◌+◌, ◌%◌, String, Bool, true, false, not, ◌&&◌, List, [], ◌∷◌, ◌++◌, map, Option, none, some,
  any, all, length, retain, if◌then◌else◌, Result, ok, err, ◌==◌, nat_eq, string_eq, option_eq,
}
use quotio_cli.Provider.{Provider, provider_eq, id}
use quotio_cli.Config.{ConfigError, Config, providers}
use quotio_cli.Settings.{SettingsView, SettingsError, busy}
use quotio_cli.Accounts.Credential.{AccountError, ProviderError, credential_storage}
use quotio_cli.Usage.{
  Float, AccountRef, ProviderUsage, ProviderFailure, UsageReport, ResetCredits, valid_at, ref_id,
}
use quotio_cli.Server.Answers.{ApiError, api_error, account_code, settings_error}

pub record RefreshRequest : Type 0 where
  pub providers : List Provider
  pub account_id : Option String
  pub force : Bool

-- What a refresh keeps while it collects.
pub record Ticket : Type 0 where
  pub generation : ℕ
  pub selected : List Provider
  pub enabled : List Provider
  pub account : Option String
  pub force : Bool

-- The fields of `ApiState` that refreshes read and write. `running` is the holder of `refresh_lock`.
pub record State (Fl : Float) : Type 0 where
  pub settings : SettingsView (Fl.F)
  pub snapshot : Option (ℕ × UsageReport Fl)
  pub generation : ℕ
  pub wake : Bool
  pub refreshing : Bool
  pub last_completed_at : Option ℕ
  pub running : Option Ticket

abbrev pub ticket_of : ℕ → List Provider → List Provider → Option String → Bool → Ticket
ticket_of generation selected enabled account force = record {
  generation = generation;
  selected = selected;
  enabled = enabled;
  account = account;
  force = force;
}

abbrev pub is_in : List Provider → Provider → Bool
is_in ps p = any (λ q. q == p) ps

abbrev is_account : Option String → Option AccountRef → Bool
is_account none r = true
is_account (some a) r = ref_id r == some a

-- The closure `matches` of `merge_refresh_report`.
unfoldable pub matches : List Provider → Option String → String → Option AccountRef → Bool
matches selected account provider reference =
    any (λ p. id p == provider) selected && is_account account reference

abbrev pub is_full : List Provider → List Provider → Option String → Bool
is_full selected enabled account =
    account == none && length selected == length enabled && all (is_in enabled) selected

abbrev pub failure_in_scope : List Provider → Option String → ProviderFailure → Bool
failure_in_scope selected account f = matches selected account f.provider f.account_ref

abbrev pub requested : List Provider → Option RefreshRequest → List Provider × Option String × Bool
requested enabled none = (enabled, none, false)
requested enabled (some r) = (r.providers, r.account_id, r.force)

abbrev pub is_expired : ℕ → Option ResetCredits → Bool
is_expired now none = false
is_expired now (some c) = not (valid_at c now)

abbrev is_provider : Option String → String → Bool
is_provider none p = true
is_provider (some q) p = p == q

abbrev pub is_asked : Option String → Option String → String → Option AccountRef → Bool
is_asked provider account p r = is_provider provider p && is_account account r

abbrev no_storage : (ProviderError → String) → Provider → ProviderFailure
no_storage text_of p = record {
  account_ref = none;
  provider = id p;
  code = credential_storage;
  message = text_of credential_storage;
}

module _ {Fl : Float} where
  abbrev pub in_scope : List Provider → Option String → ProviderUsage Fl → Bool
  in_scope selected account u = matches selected account u.provider u.account_ref

  abbrev pub merged :
      List Provider → Option String → UsageReport Fl → UsageReport Fl → UsageReport Fl
  merged selected account previous report = record previous {
    generated_at = report.generated_at;
    providers =
        retain (λ u. not (in_scope selected account u)) previous.providers ++ report.providers;
    failures =
        retain (λ f. not (failure_in_scope selected account f)) previous.failures
        ++ report.failures;
  }

  abbrev pub merge_scope :
      ℕ
      → List Provider
      → Option String
      → UsageReport Fl
      → Option (ℕ × UsageReport Fl)
      → Option (ℕ × UsageReport Fl) × Bool
  merge_scope generation selected account report none = (none, false)
  merge_scope generation selected account report (some (old, previous)) =
      if not (old == generation)
      then (some (old, previous), false)
      else (some (old, merged selected account previous report), true)

  unfoldable pub merge_refresh_report :
      Option (ℕ × UsageReport Fl)
      → ℕ
      → List Provider
      → List Provider
      → Option String
      → UsageReport Fl
      → Option (ℕ × UsageReport Fl) × Bool
  merge_refresh_report snapshot generation selected enabled account report =
      if any (λ p. not (is_in enabled p)) selected
      then (snapshot, false)
      else if is_full selected enabled account
      then (some (generation, report), true)
      else merge_scope generation selected account report snapshot

  -- `ApiState::invalidate`. `fetch_add` wraps around.
  unfoldable pub invalidate : State Fl → State Fl
  invalidate s = record s {
    generation = (s.generation + 1) % 18446744073709551616;
    snapshot = none;
    wake = true;
  }

  -- The generation that the sessions of OAuth share with the server: `finish` raises it where a login
  -- has added an account or its commit is uncertain, and leaves the snapshot.
  unfoldable pub login_committed : State Fl → State Fl
  login_committed s = record s { generation = (s.generation + 1) % 18446744073709551616 }

  -- `wake.notify_one()` of the handlers `callback` and `session`.
  unfoldable pub woken : State Fl → State Fl
  woken s = record s { wake = true }

  abbrev pub admitted :
      State Fl
      → List Provider
      → List Provider × Option String × Bool
      → State Fl × Result String Ticket
  admitted s enabled (selected, account, force) =
      let ticket = ticket_of s.generation selected enabled account force in
      if account == none && any (λ p. not (is_in enabled p)) selected
      then (s, err "refresh_scope_changed")
      else (record s { refreshing = true; running = some ticket }, ok ticket)

  abbrev pub enabled_in :
      State Fl
      → Option RefreshRequest
      → Result ConfigError (List Provider)
      → State Fl × Result String Ticket
  enabled_in s request (err e) = (s, err "invalid_settings")
  enabled_in s request (ok enabled) = admitted s enabled (requested enabled request)

  -- `refresh`, from the lock to the choice of the adapters.
  unfoldable pub refresh_begin :
      (String → Option Provider)
      → Option RefreshRequest
      → State Fl
      → State Fl × Result String Ticket
  refresh_begin from_str request s = enabled_in s request (providers from_str s.settings.values)

  abbrev pub stopped : State Fl → State Fl
  stopped s = record s { refreshing = false; running = none }

  module _ (text_of : ProviderError → String) where
    -- The report, where the adapters were found or no account was asked for.
    abbrev pub report_of :
        ℕ → Ticket → Result AccountError (UsageReport Fl) → Result String (UsageReport Fl)
    report_of now t (ok report) = ok report
    report_of now t (err e) = elim t.account [
      | some a ↦ err (account_code e)
      | none ↦ ok (record {
        schema_version = 1;
        generated_at = now;
        providers = [];
        failures = map (no_storage text_of) t.selected;
      })
    ]

    abbrev pub published :
        State Fl → Ticket → UsageReport Fl → State Fl × Result String (UsageReport Fl)
    published s t report =
        let done = record (stopped s) { last_completed_at = some report.generated_at } in
        if not (t.generation == s.generation)
        then (record done { wake = true }, err "state_changed")
        else (
          record done {
            snapshot =
                (merge_refresh_report s.snapshot t.generation t.selected t.enabled t.account
                  report).0;
          },
          ok report,
        )

    abbrev pub concluded :
        Bool
        → Ticket
        → State Fl
        → Result String (UsageReport Fl)
        → State Fl × Result String (UsageReport Fl)
    concluded guard t s (err e) = (stopped s, err e)
    concluded guard t s (ok report) =
        if guard then published s t report else (stopped s, err "account_busy")

    -- `refresh`, from what the adapters give to the end. `guard` tells whether the lock of the accounts
    -- is free in time. The answer is the report.
    unfoldable pub refresh_end :
        ℕ
        → Bool
        → Result AccountError (UsageReport Fl)
        → Ticket
        → State Fl
        → State Fl × Result String (UsageReport Fl)
    refresh_end now guard collected t s = concluded guard t s (report_of now t collected)

  abbrev pub shown : ℕ → ProviderUsage Fl → ProviderUsage Fl
  shown now u = if is_expired now u.reset_credits then record u { reset_credits = none } else u

  abbrev pub response : ℕ → Option String → Option String → UsageReport Fl → UsageReport Fl
  response now provider account report = record report {
    providers =
        retain (λ u. is_asked provider account u.provider u.account_ref)
          (map (shown now) report.providers);
    failures = retain (λ f. is_asked provider account f.provider f.account_ref) report.failures;
  }

  abbrev pub answered :
      State Fl
      → ℕ
      → Option String
      → Option String
      → Option (ℕ × UsageReport Fl)
      → State Fl × Result ApiError (UsageReport Fl)
  answered s now provider account none = (s, err (api_error 503 "not_ready"))
  answered s now provider account (some (generation, report)) =
      if not (generation == s.generation)
      then (record s { wake = true }, err (api_error 503 "not_ready"))
      else (s, ok (response now provider account report))

  -- `usage_response`
  unfoldable pub usage_response :
      Bool
      → ℕ
      → Option String
      → Option String
      → State Fl
      → State Fl × Result ApiError (UsageReport Fl)
  usage_response guard now provider account s =
      if guard
      then answered s now provider account s.snapshot
      else (s, err (api_error 503 "account_busy"))

  -- `provider_usage`
  unfoldable pub provider_usage :
      Bool → ℕ → String → State Fl → State Fl × Result ApiError (UsageReport Fl)
  unfolding usage_response
  provider_usage guard now i s =
      if any (λ j. j == i) s.settings.values.enabled_providers
      then usage_response guard now (some i) none s
      else (s, err (api_error 404 "provider_not_enabled"))

  -- The `ready` of `health` and `status`.
  unfoldable pub is_ready : State Fl → Bool
  is_ready s = elim s.snapshot [
    | none ↦ false
    | some (generation, report) ↦ generation == s.generation
  ]

  abbrev pub with_settings : SettingsView (Fl.F) → State Fl → State Fl
  with_settings view s = invalidate (record s { settings = view })

  abbrev pub reloaded :
      Result SettingsError (SettingsView (Fl.F))
      → State Fl
      → State Fl × Result ApiError (SettingsView (Fl.F))
  reloaded (err e) s = (s, err (settings_error e))
  reloaded (ok view) s =
      (if s.settings.revision == view.revision then s else with_settings view s, ok view)

  -- The handler `settings`, from what `store.load` gives.
  unfoldable pub settings_response :
      Bool
      → Result SettingsError (SettingsView (Fl.F))
      → State Fl
      → State Fl × Result ApiError (SettingsView (Fl.F))
  settings_response guard loaded s =
      if guard then reloaded loaded s else (s, err (settings_error busy))

  abbrev pub replaced :
      Result SettingsError (SettingsView (Fl.F))
      → State Fl
      → State Fl × Result ApiError (SettingsView (Fl.F))
  replaced (err e) s = (s, err (settings_error e))
  replaced (ok view) s = (with_settings view s, ok view)

  -- The handler `patch_settings`, from what `store.patch` gives.
  unfoldable pub patch_settings :
      Bool
      → Result SettingsError (SettingsView (Fl.F))
      → State Fl
      → State Fl × Result ApiError (SettingsView (Fl.F))
  patch_settings guard patched s =
      if guard then replaced patched s else (s, err (settings_error busy))
