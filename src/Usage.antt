-- ===== src/Usage.antt =====
-- src/domain.rs: the normalized usage of a provider, and the report. An `f64` is of the type of the
-- argument `Float`, with the operations that the source applies; a time is a number of nanoseconds, and the
-- message of an error is any text.
pub mod Report
pub mod Fetch
pub mod Samples
use quotio_cli.Base.{
  ℕ, String, Bool, true, false, not, ◌&&◌, ◌||◌, List, [], ◌∷◌, ◌++◌, Option, none, some, any, ltb,
  leb, if◌then◌else◌, ◌==◌, string_eq, option_eq, Eq, is_empty, is_control, trim, chars, byte_len,
}
use quotio_cli.Accounts.Credential.{ProviderError, AccountOrigin}

-- `f64`. The order is false on a NaN.
pub record Float : Type 1 where
  pub F : Type 0
  pub is_finite : F → Bool
  pub zero : F
  pub hundred : F
  pub tiny : F
  pub add : F → F → F
  pub sub : F → F → F
  pub abs : F → F
  pub lt : F → F → Bool
  pub le : F → F → Bool
  pub eq : F → F → Bool

pub record AccountIdentity : Type 0 where
  pub subscription_status : Option String
  pub plan : Option String
  pub id : String
  pub label : String

pub record AccountRef : Type 0 where
  pub origin : Option AccountOrigin
  pub id : String
  pub label : String

pub data Confidence : Type 0 where
  exact estimated unknown_confidence : Confidence

pub record Provenance : Type 0 where
  pub source : String
  pub confidence : Confidence

pub record UsageDiagnostic : Type 0 where
  pub source : String
  pub code : ProviderError

pub record ResetCredits : Type 0 where
  pub available_count : ℕ
  pub earliest_expires_at : Option ℕ
  pub fetched_at : ℕ
  pub source : String

abbrev is_later : ℕ → Option ℕ → Bool
is_later now none = true
is_later now (some t) = ltb now t

-- `ResetCredits::valid_at`
unfoldable pub valid_at : ResetCredits → ℕ → Bool
valid_at c now = leb c.fetched_at now && is_later now c.earliest_expires_at

pub record CodexDailyUsage : Type 0 where
  pub date : String
  pub tokens : ℕ

pub record CodexProfileAnalytics : Type 0 where
  pub daily_usage : List CodexDailyUsage
  pub latest_30_buckets_tokens : ℕ
  pub lifetime_tokens : Option ℕ
  pub peak_daily_tokens : Option ℕ
  pub longest_running_turn_seconds : Option ℕ
  pub current_streak_days : Option ℕ
  pub longest_streak_days : Option ℕ
  pub fetched_at : ℕ

pub record CodexResetCredit : Type 0 where
  pub id : String
  pub expires_at : Option ℕ

pub record CodexResetCreditInventory : Type 0 where
  pub available_count : ℕ
  pub credits : List CodexResetCredit
  pub fetched_at : ℕ

pub record AntigravityPrivacyNotice : Type 0 where
  pub show_notice : Option Bool
  pub notice_text : Option String

pub record AntigravitySubscriptionTier : Type 0 where
  pub id : Option String
  pub name : Option String
  pub description : Option String
  pub privacy_notice : Option AntigravityPrivacyNotice
  pub is_default : Option Bool
  pub upgrade_subscription_uri : Option String
  pub upgrade_subscription_text : Option String
  pub upgrade_subscription_type : Option String
  pub user_defined_cloudaicompanion_project : Option Bool

pub record AntigravitySubscriptionInfo : Type 0 where
  pub current_tier : Option AntigravitySubscriptionTier
  pub paid_tier : Option AntigravitySubscriptionTier
  pub allowed_tiers : Option (List AntigravitySubscriptionTier)
  pub cloudaicompanion_project : Option String
  pub gcp_managed : Option Bool
  pub upgrade_subscription_uri : Option String

pub record ProviderFailure : Type 0 where
  pub account_ref : Option AccountRef
  pub provider : String
  pub code : ProviderError
  pub message : String

unfoldable pub ProviderError-discrete : Discrete ProviderError
ProviderError-discrete = hlevel

instance abbrev pub error_eq : Eq ProviderError
error_eq = record { dec = ProviderError-discrete }

-- `account_ref.as_ref().map(|a| &a.id)`
abbrev pub ref_id : Option AccountRef → Option String
ref_id none = none
ref_id (some a) = some a.id

module _ (Fl : Float) where
  open Fl use {F}

  pub data Quota : Type 0 where
    disabled : Quota
    limit : (amount : F) (unit : String) → Quota
    unlimited unknown : Quota
    available exhausted : (used_percent remaining_percent : F) → Quota

  -- `clamp(0.0, 100.0)`
  abbrev clamped : F → F
  clamped v = if Fl.lt v Fl.zero then Fl.zero else if Fl.lt Fl.hundred v then Fl.hundred else v

  abbrev of_finite : F → Quota
  of_finite used =
      if Fl.eq used Fl.hundred
      then exhausted used Fl.zero
      else available used (Fl.sub Fl.hundred used)

  unfoldable pub from_used : Option F → Quota
  from_used none = unknown
  from_used (some v) = if Fl.is_finite v then of_finite (clamped v) else unknown

  unfoldable pub from_remaining : Option F → Quota
  unfolding from_used
  from_remaining none = from_used none
  from_remaining (some v) = from_used (some (Fl.sub Fl.hundred v))

  unfoldable pub is_valid : Quota → Bool
  is_valid unknown = true
  is_valid unlimited = true
  is_valid disabled = true
  is_valid (limit amount unit) =
      Fl.is_finite amount
      && Fl.lt Fl.zero amount
      && not (is_empty (trim unit))
      && leb (byte_len unit) 32
      && not (any is_control (chars unit))
  is_valid (available used remaining) =
      Fl.is_finite used
      && Fl.is_finite remaining
      && (Fl.le Fl.zero used && Fl.lt used Fl.hundred)
      && Fl.lt Fl.zero remaining
      && Fl.le remaining Fl.hundred
      && Fl.lt (Fl.abs (Fl.sub (Fl.add used remaining) Fl.hundred)) Fl.tiny
  is_valid (exhausted used remaining) = Fl.eq used Fl.hundred && Fl.eq remaining Fl.zero

  pub record QuotaAmounts : Type 0 where
    pub remaining : F
    pub limit_amount : Option F
    pub unit : String

  pub record Consumption : Type 0 where
    pub used : F
    pub unit : String

  pub record QuotaWindow : Type 0 where
    pub note : Option String
    pub metric_id : Option String
    pub consumption : Option Consumption
    pub label : String
    pub quota : Quota
    pub amounts : Option QuotaAmounts
    pub resets_at : Option ℕ
    pub reset_description : Option String
    pub provenance : Provenance
    pub fetched_at : ℕ

  pub record ProviderUsage : Type 0 where
    pub reset_credits : Option ResetCredits
    pub antigravity_subscription : Option AntigravitySubscriptionInfo
    pub codex_profile : Option CodexProfileAnalytics
    pub codex_reset_credits : Option CodexResetCreditInventory
    pub diagnostics : List UsageDiagnostic
    pub account_ref : Option AccountRef
    pub provider : String
    pub account : AccountIdentity
    pub windows : List QuotaWindow

  pub record UsageReport : Type 0 where
    pub schema_version : ℕ
    pub generated_at : ℕ
    pub providers : List ProviderUsage
    pub failures : List ProviderFailure

module _ {Fl : Float} (text_of : ProviderError → String) where
  -- The test of `include_diagnostics`: the failure says what the diagnostic says.
  abbrev pub tells : ProviderUsage Fl → UsageDiagnostic → ProviderFailure → Bool
  tells usage d failure =
      failure.provider == usage.provider
      && ref_id failure.account_ref == ref_id usage.account_ref
      && failure.code == d.code

  abbrev pub failure_of : ProviderUsage Fl → UsageDiagnostic → ProviderFailure
  failure_of usage d = record {
    account_ref = usage.account_ref;
    provider = usage.provider;
    code = d.code;
    message = text_of d.code;
  }

  abbrev pub tell : ProviderUsage Fl → UsageDiagnostic → List ProviderFailure → List ProviderFailure
  tell usage d failures =
      if any (tells usage d) failures then failures else failures ++ failure_of usage d ∷ []

  unfoldable pub tell_all :
      ProviderUsage Fl → List UsageDiagnostic → List ProviderFailure → List ProviderFailure
  tell_all usage [] failures = failures
  tell_all usage (d ∷ ds) failures = tell_all usage ds (tell usage d failures)

  unfoldable pub tell_usages : List (ProviderUsage Fl) → List ProviderFailure → List ProviderFailure
  tell_usages [] failures = failures
  tell_usages (u ∷ us) failures = tell_usages us (tell_all u u.diagnostics failures)

  unfoldable pub include_diagnostics : UsageReport Fl → UsageReport Fl
  include_diagnostics r = record r { failures = tell_usages r.providers r.failures }

abbrev is_nil {ℓ} : {A : Type ℓ} → List A → Bool
is_nil [] = true
is_nil (x ∷ xs) = false

unfoldable pub exit_code : {Fl : Float} → UsageReport Fl → ℕ
exit_code r = if is_nil r.providers then 3 else if is_nil r.failures then 0 else 1
