-- ===== src/Server/Jobs/Shared.antt =====
-- Equal refreshes that are requested while the first is known.
use quotio_cli.Base.{
  ℕ, String, ◌≡◌, sym, ap, ◌∙◌, subst, Bool, List, Option, none, some, arith, All, Result, ok, err,
}
use quotio_cli.Base.Dict.{lookup, insert, lookup-insert_self}
use quotio_cli.Provider.{Provider}
use quotio_cli.Server.Answers.{ApiError}
use quotio_cli.Server.Operations.{Operation, Operations, start, get}
use quotio_cli.Server.Refresh.{RefreshRequest}
use quotio_cli.Server.Jobs.History.{Check, Step, IsApart, run, run-Same}
use quotio_cli.Server.Jobs.{
  Job, State, spawn, refresh_scope, manual_refresh, spawned, started, shared, queued, encoded,
  requested,
}

ok_same : {A : Type 0} (a b : A) → ◌≡◌ {A = Result ApiError A} (ok a) (ok b) → a ≡ b
ok_same a b h = ground arith

module _ {Value : Type 0} where
  spawned-pending :
      (now : ℕ) (key : String) (o op : Operation Value) (s : State Value)
      (y : List Job × Result ApiError (Unit {0}))
      → lookup key s.pending ≡ some o.id
      → (spawned now key o s y).1 ≡ ok op
      → lookup key (spawned now key o s y).0.pending ≡ some op.id
  spawned-pending now key o op s (jobs, ok u) there h = there ∙ ap (λ x. some x.id) (ok_same o op h)
  spawned-pending now key o op s (jobs, err e) there h = absurd (ground arith)

  started-pending :
      (now : ℕ) (key : String) (op : Operation Value) (s : State Value)
      (x : Operations Value × Result String (Operation Value × Bool))
      → (started now key s x).1 ≡ ok op
      → lookup key (started now key s x).0.pending ≡ some op.id
  started-pending now key op s (operations, err code) h = absurd (ground arith)
  started-pending now key op s (operations, ok (o, new)) h =
      spawned-pending now key o op
        (record s { operations = operations; pending = insert key o.id s.pending }) (spawn s.jobs)
        (lookup-insert_self key o.id s.pending) h

  queued-again :
      (now : ℕ) (random : Option String) (key : String) (s : State Value) (id : String)
      (op : Operation Value)
      → lookup key s.pending ≡ some id
      → (get now id s.operations).1 ≡ some op
      → queued now random key s (lookup key s.pending)
        ≡ (record s { operations = (get now id s.operations).0 }, ok op)
  queued-again now random key s id op there known = rw there (found (get now id s.operations) known)
    where
      found :
          (x : Operations Value × Option (Operation Value))
          → x.1 ≡ some op
          → shared now random key s x ≡ (record s { operations = x.0 }, ok op)
      found (operations, some o) h = ground arith
      found (operations, none) h = absurd (ground arith)

  module _ (encode : RefreshRequest → Option String) (enabled : List Provider)
      (validate : Provider → String → Result ApiError (Unit {0})) where
    asks :
        (now : ℕ) (random : Option String) (r scope : RefreshRequest) (key : String)
        (s : State Value)
        → refresh_scope enabled validate r ≡ ok scope
        → encode scope ≡ some key
        → manual_refresh encode enabled validate now random r s
          ≡ queued now random key s (lookup key s.pending)
    unfolding manual_refresh
    asks now random r scope key s scoped encoded_key =
        ap (requested encode now random s) scoped ∙ ap (encoded now random s) encoded_key

  -- Where a manual refresh is answered with an operation, and no operation is pending for its
  -- scope before, then after any steps but requests for the same scope and the end of its job, a
  -- request for that scope, as long as the operation is still known, starts nothing: it gets
  -- that operation and changes no more than what the look-up prunes from the operations.
  pub manual_refresh-shared :
      (encode : RefreshRequest → Option String) (enabled allowed : List Provider)
      (validate check : Check) (now later : ℕ) (random other : Option String)
      (r again scope : RefreshRequest) (key : String) (s : State Value) (steps : List (Step Value))
      (op seen : Operation Value)
      → refresh_scope enabled validate r ≡ ok scope
      → refresh_scope allowed check again ≡ ok scope
      → encode scope ≡ some key
      → lookup key s.pending ≡ none
      → (manual_refresh encode enabled validate now random r s).1 ≡ ok op
      → All (IsApart encode key) steps
      → (let after = run encode steps (manual_refresh encode enabled validate now random r s).0 in
          (get later op.id after.operations).1 ≡ some seen)
      → (let after = run encode steps (manual_refresh encode enabled validate now random r s).0 in
          manual_refresh encode allowed check later other again after
          ≡ (record after { operations = (get later op.id after.operations).0 }, ok seen))
  manual_refresh-shared encode enabled allowed validate check now later random other r again scope
        key s steps op seen scoped same encoded_key new answer apart known =
      let begun = (manual_refresh encode enabled validate now random r s).0 in
      let after = run encode steps begun in
      let first =
        asks encode enabled validate now random r scope key s scoped encoded_key
        ∙ ap (queued now random key s) new in
      let there : lookup key begun.pending ≡ some op.id =
        subst (λ x. lookup key x.0.pending ≡ some op.id) (sym first)
          (started-pending now key op s (start now random "refresh" none key s.operations)
            (sym (ap (λ x. x.1) first) ∙ answer)) in
      asks encode allowed check later other again scope key after same encoded_key
      ∙ queued-again later other key after op.id seen
          (run-Same key encode steps begun apart ∙ there) known
