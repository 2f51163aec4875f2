-- ===== src/Server/Operations/Tests.antt =====
-- Runs of the table of operations.
use quotio_cli.Base.{List, [], ◌∷◌, none, some, err}
use quotio_cli.Server.Operations.Bounds.{
  Step, starts, finishes, gets, run, IsBounded, operations-IsBounded,
}

abbrev steps : List (Step (Unit {0}))
steps =
    starts 0 (some "1") "refresh" (some "k") "f"
    ∷ starts 1 (some "2") "refresh" none "f"
    ∷ starts 2 (some "3") "refresh" (some "k") "g"
    ∷ finishes 3 "2" (err "busy")
    ∷ gets 4 "2"
    ∷ []

operations-IsBounded_example : IsBounded (run steps [])
operations-IsBounded_example = operations-IsBounded steps
