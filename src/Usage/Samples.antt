-- ===== src/Usage/Samples.antt =====
-- Usages and answers for tests, with numbers in place of floats.
use quotio_cli.Base.{ℕ, ◌+◌, ◌-◌, String, true, List, [], ◌∷◌, none, some, leb, ltb, ◌==◌, nat_eq}
use quotio_cli.Accounts.Credential.{rate_limited}
use quotio_cli.Usage.{
  Float, AccountRef, ProviderUsage, UsageReport, UsageDiagnostic, disabled, QuotaWindow, exact,
}
use quotio_cli.Usage.Fetch.{WindowEq}

abbrev pub whole : Float
whole = record {
  F = ℕ;
  is_finite = λ a. true;
  zero = 0;
  hundred = 100;
  tiny = 1;
  add = λ a b. a + b;
  sub = λ a b. a - b;
  abs = λ a. a;
  lt = ltb;
  le = leb;
  eq = λ a b. a == b;
}

abbrev pub window_eq : WindowEq whole
window_eq = record {
  quota = λ a b. true;
  amounts = λ a b. true;
  consumption = λ a b. true;
  resets_at = λ a b. true;
}

abbrev pub ref : String → AccountRef
ref id = record { origin = none; id = id; label = id }

abbrev pub window : QuotaWindow whole
window = record {
  note = none;
  metric_id = none;
  consumption = none;
  label = "weekly";
  quota = disabled;
  amounts = none;
  resets_at = none;
  reset_description = none;
  provenance = record { source = "api"; confidence = exact };
  fetched_at = 0;
}

abbrev pub usage : String → String → List UsageDiagnostic → ProviderUsage whole
usage provider id ds = record {
  reset_credits = none;
  antigravity_subscription = none;
  codex_profile = none;
  codex_reset_credits = none;
  diagnostics = ds;
  account_ref = some (ref id);
  provider = provider;
  account = record { subscription_status = none; plan = some "plus"; id = "me"; label = "me@here" };
  windows = window ∷ [];
}

abbrev pub warning : UsageDiagnostic
warning = record { source = "profile"; code = rate_limited }

abbrev pub report : UsageReport whole
report = record {
  schema_version = 1;
  generated_at = 0;
  providers = usage "codex" "1" (warning ∷ warning ∷ []) ∷ usage "amp" "2" [] ∷ [];
  failures = [];
}

abbrev pub clean_report : UsageReport whole
clean_report = record {
  schema_version = 1;
  generated_at = 0;
  providers = usage "codex" "1" [] ∷ [];
  failures = [];
}
