-- ===== src/Usage/Fetch.antt =====
-- src/fetch.rs: the collector. What an adapter answers to each attempt, and how its task ends, are
-- arguments; the tasks end in any order.
pub mod Retry
pub mod Collected
pub mod Tests
use quotio_cli.Base.{
  ℕ, suc, zero, ◌+◌, ◌<◌, String, Bool, true, false, not, ◌&&◌, ◌||◌, List, [], ◌∷◌, ◌++◌, Option,
  none, some, any, retain, length, find, ltb, leb, if◌then◌else◌, Result, ok, err, ◌==◌, string_eq,
  option_eq, Eq, is_empty, trim, eq_ignore_ascii_case, same_code, chars,
}
use quotio_cli.Provider.{Definition, is_api_key}
use quotio_cli.Accounts.Credential
use quotio_cli.Accounts.Credential.{ProviderError, transient}
use quotio_cli.Usage.{
  Float, AccountRef, ProviderUsage, ProviderFailure, UsageReport, Quota, QuotaWindow, Consumption,
  QuotaAmounts, is_valid, ref_id, include_diagnostics,
}

-- How the task of an adapter ends: the loop finishes, the user cancels first, the deadline comes first,
-- or the task panics.
pub data Ending : Type 0 where
  finished cancelled timed_out panicked : Ending

module _ (Fl : Float) where
  abbrev pub Answer : Type 0
  Answer = Result ProviderError (ProviderUsage Fl)

  -- What the collector reads of a `dyn ProviderAdapter`, and what happens to its task.
  pub record Task : Type 0 where
    pub id : String
    pub account_ref : Option AccountRef
    pub idempotent : Bool
    pub fetch : ℕ → Answer
    pub ending : Ending

module _ {Fl : Float} where
  abbrev is_transient : Answer Fl → Bool
  is_transient (err transient) = true
  is_transient _ = false

  -- `Err(Transient) if adapter.idempotent() && attempt < 2`
  abbrev pub is_retried : Bool → ℕ → Answer Fl → Bool
  is_retried idempotent attempt r = is_transient r && idempotent && ltb attempt 2

  -- The loop from `attempt`, with `left` more attempts than this one. The second part is the number of
  -- fetches.
  unfoldable pub attempts : Bool → (ℕ → Answer Fl) → ℕ → ℕ → Answer Fl × ℕ
  attempts idempotent fetch zero attempt = (fetch attempt, 1)
  attempts idempotent fetch (suc left) attempt =
      let (r, n) = attempts idempotent fetch left (attempt + 1) in
      if is_retried idempotent attempt (fetch attempt) then (r, n + 1) else (fetch attempt, 1)

  -- `for attempt in 0..3`
  unfoldable pub work : Bool → (ℕ → Answer Fl) → Answer Fl × ℕ
  work idempotent fetch = attempts idempotent fetch 2 0

  abbrev ended : Ending → Answer Fl → Answer Fl
  ended finished r = r
  ended cancelled r = err Credential.ProviderError.cancelled
  ended timed_out r = err Credential.ProviderError.timeout
  ended panicked r = err Credential.ProviderError.internal

  unfoldable pub outcome : Task Fl → Answer Fl
  outcome t = ended t.ending (work t.idempotent t.fetch).0

  -- `results.sort_by_key(|(index, _)| *index)`, which is stable.
  unfoldable pub insert_at : ℕ × Answer Fl → List (ℕ × Answer Fl) → List (ℕ × Answer Fl)
  insert_at (i, r) [] = (i, r) ∷ []
  insert_at (i, r) ((j, q) ∷ xs) =
      if leb i j then (i, r) ∷ (j, q) ∷ xs else (j, q) ∷ insert_at (i, r) xs

  unfoldable pub sort : List (ℕ × Answer Fl) → List (ℕ × Answer Fl)
  unfolding insert_at
  sort [] = []
  sort (x ∷ xs) = insert_at x (sort xs)

  abbrev is_bad_consumption : Option (Consumption Fl) → Bool
  is_bad_consumption none = false
  is_bad_consumption (some c) =
      not (Fl.is_finite c.used) || Fl.lt c.used Fl.zero || is_empty (trim c.unit)

  abbrev pub is_bad_window : QuotaWindow Fl → Bool
  is_bad_window w = not (is_valid Fl w.quota) || is_bad_consumption w.consumption

  abbrev has_no_windows : List (QuotaWindow Fl) → Bool
  has_no_windows [] = true
  has_no_windows (w ∷ ws) = false

  -- The check of what an adapter returns.
  abbrev pub checked : String → Answer Fl → Answer Fl
  checked id (err e) = err e
  checked id (ok usage) =
      if not (usage.provider == id)
        || has_no_windows usage.windows
        || any is_bad_window usage.windows
      then err Credential.ProviderError.invalid_data
      else ok usage

  abbrev with_ref : Option AccountRef → ProviderUsage Fl → ProviderUsage Fl
  with_ref r usage = record usage { account_ref = r }

  abbrev nth : List (Task Fl) → ℕ → Option (Task Fl)
  nth [] n = none
  nth (t ∷ ts) zero = some t
  nth (t ∷ ts) (suc n) = nth ts n

  module _ (text_of : ProviderError → String) where
    abbrev pub report_one :
        Option (Task Fl)
        → Answer Fl
        → List (ProviderUsage Fl) × List ProviderFailure
        → List (ProviderUsage Fl) × List ProviderFailure
    report_one none r (us, fs) = (us, fs)
    report_one (some t) r (us, fs) = elim (checked t.id r) [
      | ok usage ↦ (with_ref t.account_ref usage ∷ us, fs)
      | err code ↦ (
        us,
        record { account_ref = t.account_ref; provider = t.id; code = code; message = text_of code }
            ∷ fs,
      )
    ]

    -- The loop over the sorted results: the usages and the failures, each in the order of the results.
    unfoldable pub classify :
        List (Task Fl) → List (ℕ × Answer Fl) → List (ProviderUsage Fl) × List ProviderFailure
    classify tasks [] = ([], [])
    classify tasks ((i, r) ∷ results) = report_one (nth tasks i) r (classify tasks results)

abbrev is_personal_plan : Option String → Bool
is_personal_plan plan =
    plan == some "free" || plan == some "plus" || plan == some "pro" || plan == some "go"

abbrev pub is_local : Option AccountRef → Bool
is_local none = false
is_local (some a) = a.id == "local"

abbrev is_managed : Option AccountRef → Bool
is_managed none = false
is_managed (some a) = not (a.id == "local")

abbrev has_at : List ℕ → Bool
has_at cs = any (λ c. same_code c b'@') cs

abbrev only_personal {ℓ} : {A : Type ℓ} → (A → Bool) → List A → Bool
only_personal p (x ∷ []) = p x
only_personal p _ = false

-- `==` of the parts of a window that `derive(PartialEq)` compares.
pub record WindowEq (Fl : Float) : Type 0 where
  pub quota : Quota Fl → Quota Fl → Bool
  pub amounts : Option (QuotaAmounts Fl) → Option (QuotaAmounts Fl) → Bool
  pub consumption : Option (Consumption Fl) → Option (Consumption Fl) → Bool
  pub resets_at : Option ℕ → Option ℕ → Bool

module _ {Fl : Float} (definitions : List Definition) (E : WindowEq Fl) where
  abbrev is_key_entry : Option Definition → Bool
  is_key_entry none = false
  is_key_entry (some d) = is_api_key d.auth

  abbrev is_reconciled : String → Bool
  is_reconciled provider =
      provider == "codex"
      || provider == "amp"
      || provider == "synthetic"
      || provider == "openrouter"
      || provider == "zai"
      || provider == "minimax"
      || is_key_entry (find (λ d. d.id == provider) definitions)

  abbrev same_window : QuotaWindow Fl → QuotaWindow Fl → Bool
  same_window a b =
      a.label == b.label
      && E.quota a.quota b.quota
      && E.amounts a.amounts b.amounts
      && E.consumption a.consumption b.consumption
      && E.resets_at a.resets_at b.resets_at
      && a.reset_description == b.reset_description

  -- Equal lengths, and `zip(..).all(..)`.
  abbrev same_windows : List (QuotaWindow Fl) → List (QuotaWindow Fl) → Bool
  same_windows [] [] = true
  same_windows (a ∷ ws) (b ∷ vs) = same_window a b && same_windows ws vs
  same_windows _ _ = false

  abbrev is_personal : ProviderUsage Fl → Bool
  is_personal u = is_personal_plan u.account.plan

  abbrev same_id : ProviderUsage Fl → ProviderUsage Fl → Bool
  same_id u v = not (is_empty u.account.id) && v.account.id == u.account.id

  abbrev same_amp : ProviderUsage Fl → ProviderUsage Fl → Bool
  same_amp u v =
      not (is_empty u.account.id)
      && eq_ignore_ascii_case u.account.id v.account.id
      && same_windows u.windows v.windows

  abbrev same_email : ProviderUsage Fl → ProviderUsage Fl → Bool
  same_email u v = eq_ignore_ascii_case v.account.label u.account.label

  abbrev is_codex_double : ProviderUsage Fl → List (ProviderUsage Fl) → Bool
  is_codex_double u managed =
      any (same_id u) managed
      || (is_personal u
          && has_at (chars u.account.label)
          && only_personal is_personal (retain (same_email u) managed))

  abbrev is_double : ProviderUsage Fl → List (ProviderUsage Fl) → Bool
  is_double u managed =
      if not (u.provider == "codex" || u.provider == "amp")
      then any (same_id u) managed
      else if u.provider == "amp"
      then any (same_amp u) managed
      else is_codex_double u managed

  abbrev managed_of : ProviderUsage Fl → List (ProviderUsage Fl) → List (ProviderUsage Fl)
  managed_of u us = retain (λ v. v.provider == u.provider && is_managed v.account_ref) us

  -- `remove` gets the index of this usage.
  unfoldable pub is_removed : List (ProviderUsage Fl) → ProviderUsage Fl → Bool
  is_removed us u =
      is_reconciled u.provider && is_local u.account_ref && is_double u (managed_of u us)

  -- The usages whose index is not in `remove`.
  unfoldable pub reconcile_accounts : List (ProviderUsage Fl) → List (ProviderUsage Fl)
  reconcile_accounts us = retain (λ u. not (is_removed us u)) us

  module _ (text_of : ProviderError → String) where
    abbrev reported : ℕ → List (ProviderUsage Fl) × List ProviderFailure → UsageReport Fl
    reported now (us, fs) = include_diagnostics text_of (record {
      schema_version = 1;
      generated_at = now;
      providers = reconcile_accounts us;
      failures = fs;
    })

    -- `Collector::collect`, from the results in the order in which the tasks ended.
    unfoldable pub collect : ℕ → List (Task Fl) → List (ℕ × Answer Fl) → UsageReport Fl
    collect now tasks results = reported now (classify text_of tasks (sort results))
