-- ===== src/Usage/Fetch/Tests.antt =====
-- Runs of the collector.
use quotio_cli.Base.{
  ℕ, zero, suc, ◌+◌, ◌≤◌, ◌<◌, String, ◌≡◌, ◌≢◌, ◌⊎◌, true, false, List, [], ◌∷◌, some, arith, ok,
  err, All,
}
use quotio_cli.Accounts.Credential.{ProviderError, transient}
use quotio_cli.Usage.{include_diagnostics, ProviderUsage}
use quotio_cli.Usage.Report.{IsTold, include_diagnostics-IsTold}
use quotio_cli.Usage.Fetch.{Task, Answer, finished, cancelled, work, collect}
use quotio_cli.Usage.Fetch.Retry.{work-stops}
use quotio_cli.Usage.Fetch.Collected.{swap, collect-Reordered}
use quotio_cli.Usage.Samples.{whole, window_eq, usage, ref, report}

abbrev text_of : ProviderError → String
text_of e = "provider failure"

abbrev flaky : ℕ → Answer whole
flaky zero = err transient
flaky (suc n) = ok (usage "codex" "1" [])

work-stops_example :
    let (r, n) = work true flaky in
    (1 ≤ n)
    × (n ≤ 3)
    × ((k : ℕ) → k + 1 ≡ n → r ≡ flaky k)
    × ((k : ℕ) → k + 1 < n → (true ≡ true) × (flaky k ≡ err transient))
    × (n < 3 → (true ≡ false) ⊎ (r ≢ err transient))
work-stops_example = work-stops true flaky

abbrev tasks : List (Task whole)
tasks =
    record {
      id = "codex";
      account_ref = some (ref "1");
      idempotent = true;
      fetch = flaky;
      ending = finished;
    }
    ∷ record {
      id = "codex";
      account_ref = some (ref "local");
      idempotent = true;
      fetch = flaky;
      ending = cancelled;
    }
    ∷ []

abbrev first : ℕ × Answer whole
first = (0, flaky 1)

abbrev second : ℕ × Answer whole
second = (1, flaky 1)

zero-ne-one : ◌≢◌ {A = ℕ} 1 0
zero-ne-one = omega arith

collect-Reordered_example :
    collect [] window_eq text_of 7 tasks (second ∷ first ∷ [])
    ≡ collect [] window_eq text_of 7 tasks (first ∷ second ∷ [])
collect-Reordered_example =
    collect-Reordered [] window_eq text_of 7 tasks (second ∷ first ∷ []) (first ∷ second ∷ [])
      (swap 1 0 (flaky 1) (flaky 1) [] zero-ne-one)

abbrev both : List (ProviderUsage whole)
both = usage "codex" "1" [] ∷ usage "codex" "local" [] ∷ []

include_diagnostics-IsTold_example :
    All
      (IsTold text_of (include_diagnostics text_of report).failures)
      (include_diagnostics text_of report).providers
include_diagnostics-IsTold_example = include_diagnostics-IsTold text_of report
