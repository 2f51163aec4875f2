-- ===== src/Server/Refresh/Tests.antt =====
-- A server with one enabled provider.
use quotio_cli.Base.{
  ℕ, ◌+◌, String, ◌≡◌, ◌⊎◌, refl, ap, true, false, List, [], ◌∷◌, map, All, Option, none, some,
  arith, Result, ok, err, ◌==◌, string_eq, if◌then◌else◌, String-discrete,
}
use quotio_cli.Provider.{Provider, amp, codex}
use quotio_cli.Accounts.Credential.{ProviderError}
use quotio_cli.Config.{Config, providers}
use quotio_cli.Usage.{ProviderUsage, UsageReport}
use quotio_cli.Usage.Samples.{whole, usage, report, clean_report}
use quotio_cli.Server.Refresh.{
  State, Ticket, ticket_of, usage_response, merge_refresh_report, in_scope, failure_in_scope,
  is_full, shown,
}
use quotio_cli.Server.Refresh.History.{Event, logged_in, notified, begun, ended, asked, run}
use quotio_cli.Server.Refresh.Merge.{merge-IsReplaced, IsReplaced}
use quotio_cli.Server.Refresh.Served.{served-IsShown, IsShown, IsCollected}
use quotio_cli.Server.Refresh.Late.{late_refresh, IsNotReady}
use quotio_cli.Server.Refresh.Ready.{refreshed-Served}

abbrev from_str : String → Option Provider
from_str s = if s == "codex" then some codex else if s == "amp" then some amp else none

abbrev text_of : ProviderError → String
text_of e = "provider failure"

abbrev state : State whole
state = record {
  settings = record {
    revision = "r";
    values = record {
      notifications = none;
      enabled_providers = "codex" ∷ [];
      disabled_providers = [];
      cache_ttl_seconds = 300;
      refresh_interval = 60;
      provider_timeout = 10;
    };
    overridden = [];
  };
  snapshot = none;
  generation = 3;
  wake = false;
  refreshing = false;
  last_completed_at = none;
  running = none;
}

known : providers from_str state.settings.values ≡ ok (codex ∷ [])
unfolding quotio_cli.Config.parse_providers String-discrete
known = refl

refreshed-Served_example :
    (let after = run from_str text_of (begun none ∷ ended 5 true (ok clean_report) ∷ []) state in
      (seen : UsageReport whole) × (usage_response true 6 none none after ≡ (after, ok seen))
      × (seen.providers ≡ map (shown 6) clean_report.providers)
      × (seen.failures ≡ clean_report.failures)
      × (after.refreshing ≡ false)
      × (after.running ≡ none))
refreshed-Served_example =
    refreshed-Served from_str text_of state (codex ∷ []) clean_report 5 6 refl known

abbrev ticket : Ticket
ticket = ticket_of 3 (codex ∷ []) (codex ∷ []) none false

abbrev collecting : State whole
collecting = record state { running = some ticket; refreshing = true }

abbrev later : List (Event whole)
later = asked true 4 none none ∷ ended 5 true (ok clean_report) ∷ notified ∷ []

abbrev shown_before : State whole
shown_before = record collecting { snapshot = some (2, report) }

late_refresh_example :
    (let after = run from_str text_of (logged_in ∷ later) shown_before in
      IsNotReady after (usage_response true 6 none none after))
late_refresh_example =
    late_refresh from_str text_of shown_before ticket 1 logged_in later true 6 none none refl refl
      (omega arith) (1, omega arith, omega arith, omega arith) refl (omega arith) refl

abbrev IsAt : ℕ → ProviderUsage whole → Type 0
IsAt generation u = generation ≡ 3

abbrev history : List (Event whole)
history = begun none ∷ ended 5 true (ok clean_report) ∷ []

collected_at : IsCollected from_str text_of IsAt history state
unfolding quotio_cli.Server.Refresh.History.step quotio_cli.Server.Refresh.refresh_begin
    quotio_cli.Config.parse_providers String-discrete quotio_cli.Provider.Provider-discrete
    quotio_cli.Base.Option-discrete
collected_at = (tt, ((refl, tt), tt))

abbrev seen : UsageReport whole
seen = (refreshed-Served from_str text_of state (codex ∷ []) clean_report 5 6 refl known).0

served-IsShown_example :
    All
      (IsShown from_str text_of IsAt (run from_str text_of history state).generation)
      seen.providers
served-IsShown_example =
    served-IsShown from_str text_of IsAt state history true 6 none none seen refl collected_at (
      ap (λ r. r.1)
        (refreshed-Served from_str text_of state (codex ∷ []) clean_report 5 6 refl known).1)

abbrev codex_only : List Provider
codex_only = codex ∷ []

abbrev both : List Provider
both = codex ∷ amp ∷ []

abbrev merged_report : UsageReport whole
merged_report = record {
  schema_version = 1;
  generated_at = 0;
  providers = usage "amp" "2" [] ∷ usage "codex" "1" [] ∷ [];
  failures = [];
}

merged :
    merge_refresh_report (some (3, report)) 3 codex_only both none clean_report
    ≡ (some (3, merged_report), true)
unfolding merge_refresh_report quotio_cli.Server.Refresh.matches String-discrete
    quotio_cli.Provider.Provider-discrete quotio_cli.Base.Option-discrete
    native.Mathlib.Decide.ℕ_discrete quotio_cli.Provider.id
merged = refl

merge-IsReplaced_example :
    (state.generation ≡ state.generation)
    × (state.generation ≡ state.generation)
    × IsReplaced
        (in_scope codex_only none)
        report.providers
        clean_report.providers
        merged_report.providers
    × IsReplaced
        (failure_in_scope codex_only none)
        report.failures
        clean_report.failures
        merged_report.failures
unfolding quotio_cli.Base.Option-discrete native.Mathlib.Decide.ℕ_discrete
    quotio_cli.Server.Refresh.matches String-discrete quotio_cli.Provider.id
merge-IsReplaced_example =
    merge-IsReplaced 3 3 3 report clean_report merged_report codex_only both none merged refl
      (refl, tt) tt
