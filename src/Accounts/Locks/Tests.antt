-- ===== src/Accounts/Locks/Tests.antt =====
-- Two tasks at one lock file, and a third at another.
use quotio_cli.Base.{◌≤◌, ◌≡◌, List, [], ◌∷◌}
use quotio_cli.Accounts.Locks.{locked, taken}
use quotio_cli.Accounts.Locks.Sound.{holders}
use quotio_cli.Accounts.Locks.Exclusive.{
  Step, acquires, releases, run, run_paths, fresh, run-paths, run-Exclusive,
}

abbrev steps : List Step
steps =
    acquires locked "a"
    ∷ acquires locked "a"
    ∷ acquires taken "b"
    ∷ releases "a"
    ∷ acquires locked "a"
    ∷ []

run-paths_example :
    ((run steps fresh).1 ≡ (run_paths steps []).1)
    × ((run steps fresh).0.guards ≡ (run_paths steps []).0)
run-paths_example = run-paths steps

run-Exclusive_example : holders "a" (run steps fresh).0.guards ≤ 1
run-Exclusive_example = run-Exclusive steps "a"
