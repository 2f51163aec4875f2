-- ===== src/Cache.antt =====
-- src/cache.rs: the usage cache. The entries of the directory are a map from digests to usages; a lookup
-- holds the lock of its entry from the read to the write. The identity of the login, asked three times,
-- and what the operating system, the clocks and the adapter answer, are arguments.
pub mod Identity
pub mod Lookup
pub mod Fallback
pub mod Report
pub mod Tests
use quotio_cli.Base.{
  ℕ, ◌-◌, String, Bool, true, false, not, ◌&&◌, ◌||◌, List, [], ◌∷◌, ◌++◌, map, Option, none, some,
  all, any, ltb, leb, if◌then◌else◌, ◌==◌, string_eq, option_eq, is_empty, trim,
}
use quotio_cli.Base.Dict.{Dict, lookup, insert}
use quotio_cli.Fingerprint.{fingerprint}
use quotio_cli.Provider.{Definition}
use quotio_cli.Accounts.Credential.{ProviderError, internal}
use quotio_cli.Usage.{
  Float, AccountRef, ProviderUsage, ProviderFailure, UsageReport, QuotaWindow, QuotaAmounts,
  Consumption, ResetCredits, valid_at, is_valid, ref_id, include_diagnostics,
}
use quotio_cli.Usage.Fetch.{Task, Answer, WindowEq, outcome, collect, reconcile_accounts}

-- `is_none_or(p)`
abbrev pub none_or {ℓ} : {A : Type ℓ} → (A → Bool) → Option A → Bool
none_or p none = true
none_or p (some a) = p a

-- `now - at`, where it is not negative, is less than `ttl`.
abbrev pub is_young : ℕ → ℕ → ℕ → Bool
is_young ttl now at = leb at now && ltb (now - at) ttl

abbrev is_nil {ℓ} : {A : Type ℓ} → List A → Bool
is_nil [] = true
is_nil (x ∷ xs) = false

module _ {Fl : Float} where
  abbrev is_valid_consumption : Consumption Fl → Bool
  is_valid_consumption c =
      Fl.is_finite c.used && Fl.le Fl.zero c.used && not (is_empty (trim c.unit))

  abbrev is_valid_amounts : QuotaAmounts Fl → Bool
  is_valid_amounts a = Fl.is_finite a.remaining && none_or Fl.is_finite a.limit_amount

  abbrev is_valid_window : QuotaWindow Fl → Bool
  is_valid_window w =
      is_valid Fl w.quota
      && none_or is_valid_consumption w.consumption
      && none_or is_valid_amounts w.amounts

  unfoldable pub valid : ProviderUsage Fl → Bool
  valid usage = not (is_nil usage.windows) && all is_valid_window usage.windows

  -- The age of reset credits is not negative where they are valid.
  unfoldable pub fresh : ℕ → ProviderUsage Fl → ℕ → Bool
  fresh ttl usage now =
      not (is_nil usage.windows)
      && none_or (λ c. valid_at c now && is_young ttl now c.fetched_at) usage.reset_credits
      && all (λ w. is_young ttl now w.fetched_at) usage.windows

-- What a lookup reads of an adapter: its task, for the collector, and the check of `cacheable`.
pub record Adapter (Fl : Float) : Type 0 where
  pub task : Task Fl
  pub cacheable : ProviderUsage Fl → Bool

-- The answers to one lookup. The identity is asked before the entry is locked, and `prepared` is none
-- where one or the other fails; it is asked again after the read, and after the fetch.
pub record Env : Type 0 where
  pub prepared : Option String
  pub readable : Bool
  pub recheck : Option String
  pub before_deadline : Bool
  pub now : ℕ
  pub served_at : ℕ
  pub collected_at : ℕ
  pub last_check : Option String
  pub written : Bool

abbrev pub or_empty : Option String → String
or_empty none = ""
or_empty (some s) = s

-- The name of an entry, in `one`.
unfoldable pub entry_key : (List ℕ → List ℕ) → String → Option AccountRef → String → String
entry_key sha256 provider account_ref identity =
    fingerprint sha256 ("usage-v1" ∷ provider ∷ or_empty (ref_id account_ref) ∷ identity ∷ [])

abbrev is_same : Option String → Option String → Bool
is_same none other = false
is_same (some identity) other = other == some identity

abbrev pub is_same_login : Env → Bool
is_same_login env = is_same env.prepared env.recheck && is_same env.prepared env.last_check

module _ {Fl : Float} where
  abbrev pub keep :
      (ProviderUsage Fl → Bool) → Option (ProviderUsage Fl) → Option (ProviderUsage Fl)
  keep p none = none
  keep p (some u) = if p u then some u else none

  abbrev pub with_ref : Option AccountRef → ProviderUsage Fl → ProviderUsage Fl
  with_ref r usage = record usage { account_ref = r }

  abbrev pub stale : Option AccountRef → ProviderUsage Fl → ProviderUsage Fl
  stale r usage = record usage { account_ref = r; reset_credits = none }

  abbrev pub is_of : Adapter Fl → ProviderUsage Fl → Bool
  is_of a usage =
      usage.provider == a.task.id
      && ref_id usage.account_ref == ref_id a.task.account_ref
      && valid usage
      && a.cacheable usage

  abbrev pub is_served : ℕ → Env → Bool → Option (ProviderUsage Fl) → Bool
  is_served ttl env force none = false
  is_served ttl env force (some usage) = not force && env.before_deadline && fresh ttl usage env.now

  abbrev pub served_report : Env → Adapter Fl → ProviderUsage Fl → UsageReport Fl
  served_report env a usage = record {
    schema_version = 1;
    generated_at = env.served_at;
    providers = with_ref a.task.account_ref usage ∷ [];
    failures = [];
  }

  -- The collector, on this adapter alone.
  unfoldable pub fetched :
      List Definition → WindowEq Fl → (ProviderError → String) → Env → Adapter Fl → UsageReport Fl
  fetched definitions E text_of env a =
      collect definitions E text_of env.collected_at (a.task ∷ []) ((0, outcome a.task) ∷ [])

  module _ (sha256 : List ℕ → List ℕ) where
    abbrev pub key_of : Adapter Fl → String → String
    key_of a = entry_key sha256 a.task.id a.task.account_ref

    -- The snapshot that the lookup may use: that of the entry of the identity, if that is still the
    -- identity after the read.
    abbrev pub read_entry :
        Env → Adapter Fl → Dict (ProviderUsage Fl) → Option String → Option (ProviderUsage Fl)
    read_entry env a entries none = none
    read_entry env a entries (some identity) =
        if env.readable && env.recheck == some identity
        then keep (is_of a) (lookup (key_of a identity) entries)
        else none

    unfoldable pub snapshot : Env → Adapter Fl → Dict (ProviderUsage Fl) → Option (ProviderUsage Fl)
    snapshot env a entries = read_entry env a entries env.prepared

    abbrev pub put :
        Env
        → Adapter Fl
        → ProviderUsage Fl
        → Option String
        → Dict (ProviderUsage Fl)
        → Dict (ProviderUsage Fl)
    put env a usage none entries = entries
    put env a usage (some identity) entries =
        if env.written then insert (key_of a identity) usage entries else entries

    abbrev pub fall_back : Adapter Fl → Option (ProviderUsage Fl) → UsageReport Fl → UsageReport Fl
    fall_back a none report = report
    fall_back a (some usage) report = record report {
      providers = stale a.task.account_ref usage ∷ [];
    }

    abbrev pub retain_entry :
        Env
        → Adapter Fl
        → Option (ProviderUsage Fl)
        → UsageReport Fl
        → Dict (ProviderUsage Fl)
        → List (ProviderUsage Fl)
        → Dict (ProviderUsage Fl) × UsageReport Fl
    retain_entry env a old report entries (usage ∷ more) =
        if a.cacheable usage
        then (put env a usage env.prepared entries, report)
        else (entries, report)
    retain_entry env a old report entries [] = (entries, fall_back a old report)

    abbrev pub after_fetch :
        Env
        → Adapter Fl
        → Option (ProviderUsage Fl)
        → UsageReport Fl
        → Dict (ProviderUsage Fl)
        → Dict (ProviderUsage Fl) × UsageReport Fl
    after_fetch env a old report entries =
        if is_same_login env
        then retain_entry env a old report entries report.providers
        else (entries, report)

    module _ (ttl : ℕ) (definitions : List Definition) (E : WindowEq Fl)
        (text_of : ProviderError → String) where
      abbrev pub looked_up :
          Env
          → Adapter Fl
          → Bool
          → Dict (ProviderUsage Fl)
          → Option (ProviderUsage Fl)
          → Dict (ProviderUsage Fl) × UsageReport Fl
      looked_up env a force entries none =
          after_fetch env a none (fetched definitions E text_of env a) entries
      looked_up env a force entries (some usage) =
          if is_served ttl env force (some usage)
          then (entries, served_report env a usage)
          else after_fetch env a (some usage) (fetched definitions E text_of env a) entries

      -- `UsageCache::one`
      unfoldable pub one :
          Env
          → Adapter Fl
          → Bool
          → Dict (ProviderUsage Fl)
          → Dict (ProviderUsage Fl) × UsageReport Fl
      one env a force entries = looked_up env a force entries (snapshot env a entries)
