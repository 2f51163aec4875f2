-- ===== src/Server/Jobs.antt =====
-- src/server.rs and src/server/usage_queries.rs: the background jobs of the server, and the requests that
-- start one: a manual refresh and a usage query. A job is whether it has finished; JSON, the fresh id of
-- an operation and the check of an account are arguments.
pub mod History
pub mod Shared
pub mod Tests
use quotio_cli.Base.{
  ℕ, String, Bool, true, false, not, ◌&&◌, ◌||◌, List, [], ◌∷◌, ◌++◌, Option, none, some, any,
  length, ltb, leb, retain, if◌then◌else◌, Result, ok, err, ◌==◌, string_eq, nat_eq, is_empty,
  is_control, trim, chars, byte_len,
}
use quotio_cli.Base.Dict.{Dict, lookup, insert}
use quotio_cli.Provider.{Provider, provider_eq, open_router, id}
use quotio_cli.Provider.Named.{sort_by_id}
use quotio_cli.Server.Answers.{ApiError, api_error, operation_error}
use quotio_cli.Server.Operations.{Operation, Operations, start, finish, get}
use quotio_cli.Server.Refresh.{RefreshRequest, is_in}

-- A tracked job: whether it has finished.
abbrev pub Job : Type 0
Job = Bool

-- `ApiState::spawn`, of a new job.
unfoldable pub spawn : List Job → List Job × Result ApiError (Unit {0})
spawn jobs =
    let kept = retain not jobs in
    if leb 128 (length kept)
    then (kept, err (api_error 503 "server_busy"))
    else (kept ++ false ∷ [], ok tt)

module _ (Value : Type 0) where
  -- The fields of `ApiState` that these requests read and write.
  pub record State : Type 0 where
    pub pending : Dict String
    pub operations : Operations Value
    pub jobs : List Job

abbrev is_some {ℓ} : {A : Type ℓ} → Option A → Bool
is_some none = false
is_some (some a) = true

-- `dedup`: of equal neighbours the first stays. `dedup_after` goes on behind `last`.
abbrev pub dedup_after : Provider → List Provider → List Provider
dedup_after last [] = []
dedup_after last (p ∷ ps) = if p == last then dedup_after last ps else p ∷ dedup_after p ps

unfoldable pub dedup : List Provider → List Provider
dedup [] = []
dedup (p ∷ ps) = p ∷ dedup_after p ps

abbrev pub remove_key : String → Dict String → Dict String
remove_key k [] = []
remove_key k ((j, v) ∷ d) = if k == j then d else (j, v) ∷ remove_key k d

-- The scope that a request asks for, where its account is not checked yet.
abbrev pub scoped : List Provider → RefreshRequest → RefreshRequest
scoped enabled r = record r {
  providers = dedup (
      sort_by_id
        (if length r.providers == 0 && not (is_some r.account_id) then enabled else r.providers));
}

abbrev pub in_scope :
    List Provider
    → (Provider → String → Result ApiError (Unit {0}))
    → RefreshRequest
    → Option String
    → List Provider
    → Result ApiError RefreshRequest
in_scope enabled validate r (some account) (p ∷ ps) = elim (validate p account) [
  | ok u ↦ ok r
  | err e ↦ err e
]
in_scope enabled validate r account ps =
    if any (λ p. not (is_in enabled p)) ps
    then err (api_error 400 "invalid_refresh_scope")
    else ok r

-- The checks of `manual_refresh`. `validate` is `validate_refresh_account`.
unfoldable pub refresh_scope :
    List Provider
    → (Provider → String → Result ApiError (Unit {0}))
    → RefreshRequest
    → Result ApiError RefreshRequest
unfolding dedup
refresh_scope enabled validate r =
    if is_some r.account_id && not (length r.providers == 1)
    then err (api_error 400 "invalid_refresh_scope")
    else let s = scoped enabled r in in_scope enabled validate s s.account_id s.providers

module _ {Value : Type 0} where
  abbrev pub spawned :
      ℕ
      → String
      → Operation Value
      → State Value
      → List Job × Result ApiError (Unit {0})
      → State Value × Result ApiError (Operation Value)
  spawned now key op s (jobs, ok u) = (record s { jobs = jobs }, ok op)
  spawned now key op s (jobs, err e) = (
    record s {
      jobs = jobs;
      pending = remove_key key s.pending;
      operations = finish now op.id (err "server_busy") s.operations;
    },
    err e,
  )

  abbrev pub started :
      ℕ
      → String
      → State Value
      → Operations Value × Result String (Operation Value × Bool)
      → State Value × Result ApiError (Operation Value)
  started now key s (operations, err code) =
      (record s { operations = operations }, err (operation_error code))
  started now key s (operations, ok (op, new)) =
      spawned now key op
        (record s { operations = operations; pending = insert key op.id s.pending }) (spawn s.jobs)

  abbrev pub shared :
      ℕ
      → Option String
      → String
      → State Value
      → Operations Value × Option (Operation Value)
      → State Value × Result ApiError (Operation Value)
  shared now random key s (operations, some op) = (record s { operations = operations }, ok op)
  shared now random key s (operations, none) =
      started now key (record s { operations = operations })
        (start now random "refresh" none key operations)

  abbrev pub queued :
      ℕ
      → Option String
      → String
      → State Value
      → Option String
      → State Value × Result ApiError (Operation Value)
  queued now random key s none =
      started now key s (start now random "refresh" none key s.operations)
  queued now random key s (some id) = shared now random key s (get now id s.operations)

  abbrev pub encoded :
      ℕ
      → Option String
      → State Value
      → Option String
      → State Value × Result ApiError (Operation Value)
  encoded now random s none = (s, err (api_error 400 "invalid_request"))
  encoded now random s (some key) = queued now random key s (lookup key s.pending)

  abbrev pub requested :
      (RefreshRequest → Option String)
      → ℕ
      → Option String
      → State Value
      → Result ApiError RefreshRequest
      → State Value × Result ApiError (Operation Value)
  requested encode now random s (err e) = (s, err e)
  requested encode now random s (ok r) = encoded now random s (encode r)

  -- `manual_refresh`. `encode` is the JSON of a request.
  unfoldable pub manual_refresh :
      (RefreshRequest → Option String)
      → List Provider
      → (Provider → String → Result ApiError (Unit {0}))
      → ℕ
      → Option String
      → RefreshRequest
      → State Value
      → State Value × Result ApiError (Operation Value)
  unfolding spawn refresh_scope
  manual_refresh encode enabled validate now random r s =
      requested encode now random s (refresh_scope enabled validate r)

  -- The end of the job of a manual refresh.
  unfoldable pub finish_refresh :
      ℕ → String → String → Result String Value → State Value → State Value
  finish_refresh now id key result s = record s {
    operations = finish now id result s.operations;
    pending = remove_key key s.pending;
  }

-- `usage_queries::Query`
pub record Query : Type 0 where
  pub provider : Provider
  pub client_account_id : String
  pub label : String
  pub access_token : String
  pub force : Bool

abbrev is_bad_text : ℕ → String → Bool
is_bad_text most t = is_empty t || ltb most (byte_len t) || any is_control (chars t)

-- `usage_queries::validate`
unfoldable pub validate : Query → Result ApiError (Unit {0})
validate q =
    if not (q.provider == open_router)
    then err (api_error 400 "unsupported_usage_query")
    else if is_bad_text 256 q.client_account_id
        || is_bad_text 512 q.label
        || is_empty (trim q.access_token)
        || ltb 16384 (byte_len q.access_token)
        || any is_control (chars q.access_token)
    then err (api_error 400 "invalid_usage_query")
    else ok tt

module _ {Value : Type 0} where
  abbrev query_spawned :
      ℕ
      → Operation Value
      → State Value
      → List Job × Result ApiError (Unit {0})
      → State Value × Result ApiError (Operation Value)
  query_spawned now op s (jobs, ok u) = (record s { jobs = jobs }, ok op)
  query_spawned now op s (jobs, err e) = (
    record s { jobs = jobs; operations = finish now op.id (err "server_busy") s.operations },
    err e,
  )

  abbrev query_started :
      ℕ
      → State Value
      → Operations Value × Result String (Operation Value × Bool)
      → State Value × Result ApiError (Operation Value)
  query_started now s (operations, err code) =
      (record s { operations = operations }, err (operation_error code))
  query_started now s (operations, ok (op, new)) =
      query_spawned now op (record s { operations = operations }) (spawn s.jobs)

  abbrev query_checked :
      ℕ
      → Option String
      → State Value
      → Result ApiError (Unit {0})
      → State Value × Result ApiError (Operation Value)
  query_checked now random s (err e) = (s, err e)
  query_checked now random s (ok u) =
      query_started now s (start now random "usage_query" none "" s.operations)

  -- `usage_queries::start` and `enqueue`, up to the job, which collects and ends with `finish`.
  unfoldable pub start_query :
      ℕ → Option String → Query → State Value → State Value × Result ApiError (Operation Value)
  unfolding validate spawn
  start_query now random q s = query_checked now random s (validate q)
