-- ===== src/Server/Jobs/History.antt =====
-- What happens between two requests for a refresh: other requests, jobs that end, and whatever else
-- changes the operations and the jobs.
use quotio_cli.Base.{
  ℕ, String, ◌≡◌, ◌≢◌, refl, ap, ◌∙◌, Bool, List, [], ◌∷◌, Option, none, some, arith, All, Result,
  ok, err, string_eq,
}
use quotio_cli.Base.Dict.{Dict, lookup, insert, lookup-insert}
use quotio_cli.Provider.{Provider}
use quotio_cli.Server.Answers.{ApiError}
use quotio_cli.Server.Operations.{Operation, Operations, get}
use quotio_cli.Server.Refresh.{RefreshRequest}
use quotio_cli.Server.Jobs.{
  Job, State, spawn, refresh_scope, manual_refresh, finish_refresh, remove_key, spawned, started,
  shared, queued, encoded, requested,
}

abbrev pub Check : Type 0
Check = Provider → String → Result ApiError (Unit {0})

pub data Step (Value : Type 0) : Type 0 where
  asked : List Provider → Check → ℕ → Option String → RefreshRequest → Step Value
  ended : ℕ → String → String → Result String Value → Step Value
  worked : Operations Value → List Job → Step Value

module _ (encode : RefreshRequest → Option String) where
  abbrev key_in : Result ApiError RefreshRequest → Option String
  key_in (ok scope) = encode scope
  key_in (err e) = none

  -- The step is no request for the scope of the key, and not the end of its job.
  abbrev pub IsApart : {Value : Type 0} → String → Step Value → Type 0
  IsApart key (asked enabled validate now random r) =
      key_in (refresh_scope enabled validate r) ≢ some key
  IsApart key (ended now id other result) = other ≢ key
  IsApart key (worked operations jobs) = Unit

  module _ {Value : Type 0} where
    unfoldable pub step : Step Value → State Value → State Value
    step (asked enabled validate now random r) s =
        (manual_refresh encode enabled validate now random r s).0
    step (ended now id key result) s = finish_refresh now id key result s
    step (worked operations jobs) s = record s { operations = operations; jobs = jobs }

    unfoldable pub run : List (Step Value) → State Value → State Value
    run [] s = s
    run (e ∷ es) s = run es (step e s)

lookup-remove_key :
    (j k : String) (d : Dict String) → k ≢ j → lookup j (remove_key k d) ≡ lookup j d
unfolding lookup
lookup-remove_key j k [] h = refl
lookup-remove_key j k ((i, v) ∷ d) h = ground (arith, lookup-remove_key j k d h)

lookup-insert_other :
    (j k v : String) (d : Dict String) → k ≢ j → lookup j (insert k v d) ≡ lookup j d
lookup-insert_other j k v d h = ground (arith, lookup-insert j k v d)

module _ {Value : Type 0} (key : String) where
  -- The pending operation of the key is the same.
  abbrev Same : State Value → State Value → Type 0
  Same s new = lookup key new.pending ≡ lookup key s.pending

  spawned-Same :
      (now : ℕ) (k : String) (op : Operation Value) (s : State Value)
      (y : List Job × Result ApiError (Unit {0}))
      → k ≢ key
      → Same s (spawned now k op s y).0
  spawned-Same now k op s (jobs, ok u) h = refl
  spawned-Same now k op s (jobs, err e) h = lookup-remove_key key k s.pending h

  started-Same :
      (now : ℕ) (k : String) (s : State Value)
      (x : Operations Value × Result String (Operation Value × Bool))
      → k ≢ key
      → Same s (started now k s x).0
  started-Same now k s (operations, err code) h = refl
  started-Same now k s (operations, ok (op, new)) h =
      spawned-Same now k op
        (record s { operations = operations; pending = insert k op.id s.pending }) (spawn s.jobs) h
      ∙ lookup-insert_other key k op.id s.pending h

  shared-Same :
      (now : ℕ) (random : Option String) (k : String) (s : State Value)
      (x : Operations Value × Option (Operation Value))
      → k ≢ key
      → Same s (shared now random k s x).0
  shared-Same now random k s (operations, some op) h = refl
  shared-Same now random k s (operations, none) h =
      started-Same now k (record s { operations = operations }) _ h

  queued-Same :
      (now : ℕ) (random : Option String) (k : String) (s : State Value) (o : Option String)
      → k ≢ key
      → Same s (queued now random k s o).0
  queued-Same now random k s none h = started-Same now k s _ h
  queued-Same now random k s (some id) h = shared-Same now random k s (get now id s.operations) h

  module _ (encode : RefreshRequest → Option String) where
    encoded-Same :
        (now : ℕ) (random : Option String) (s : State Value) (o : Option String)
        → o ≢ some key
        → Same s (encoded now random s o).0
    encoded-Same now random s none h = refl
    encoded-Same now random s (some k) h =
        queued-Same now random k s (lookup k s.pending) (λ same. h (ap some same))

    requested-Same :
        (now : ℕ) (random : Option String) (s : State Value) (r : Result ApiError RefreshRequest)
        → key_in encode r ≢ some key
        → Same s (requested encode now random s r).0
    requested-Same now random s (err e) h = refl
    requested-Same now random s (ok r) h = encoded-Same now random s (encode r) h

    step-Same : (e : Step Value) (s : State Value) → IsApart encode key e → Same s (step encode e s)
    unfolding step manual_refresh finish_refresh
    step-Same (asked enabled validate now random r) s h =
        requested-Same now random s (refresh_scope enabled validate r) h
    step-Same (ended now id other result) s h = lookup-remove_key key other s.pending h
    step-Same (worked operations jobs) s h = refl

    pub run-Same :
        (es : List (Step Value)) (s : State Value)
        → All (IsApart encode key) es
        → Same s (run encode es s)
    unfolding run
    run-Same [] s h = refl
    run-Same (e ∷ es) s (h, hs) = run-Same es (step encode e s) hs ∙ step-Same e s h
