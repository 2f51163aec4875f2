-- ===== src/Server/Mutations.antt =====
-- src/server/management.rs: the routes that change accounts. `mutate` answers a request and starts a
-- job under the retry key of the request; the job ends with `finish_mutation`, and other requests,
-- jobs and processes come between the two. What a source or a provider answers to the preparation of an
-- account, and the JSON of a body, are arguments, and so is whether a lock is had in time.
pub mod Retried
pub mod Tests
use quotio_cli.Base.{
  ℕ, String, Bool, true, false, List, [], ◌∷◌, Option, none, some, if◌then◌else◌, Result, ok, err,
  any, ◌==◌, string_eq, done, ◌>>=◌, ◌>>◌,
}
use quotio_cli.Fingerprint.{fingerprint}
use quotio_cli.Provider
use quotio_cli.Provider.{Provider}
use quotio_cli.Usage.{Float}
use quotio_cli.Accounts.Credential.{AccountError, busy, Account, Credential}
use quotio_cli.Accounts.Document.{Change, add, patch, remove}
use quotio_cli.Accounts.Vault.{Codec}
use quotio_cli.Accounts.Service.{
  Env, Stored, MutationIntent, new_intent, commit_once, mutation_receipt,
}
use quotio_cli.Server.Answers.{ApiError, api_error, account_code, account_error, operation_error}
use quotio_cli.Server.Operations.{Operation, Operations, start, finish}
use quotio_cli.Server.Refresh
use quotio_cli.Server.Refresh.{invalidate}
use quotio_cli.Server.Jobs.{Job, spawn}

-- `api::PreparedAccount`
pub record PreparedAccount : Type 0 where
  pub provider : Provider
  pub label : String
  pub credential : Credential
  pub identity : String

-- `Mutation`, an input of `Create` and of `Reference` with what its preparation answers.
pub data Mutation : Type 0 where
  create reference : (prepared : Result AccountError PreparedAccount) → Mutation
  update : (id : String) (label : Option String) (active enabled : Option Bool) → Mutation
  remove_one : (id : String) → Mutation

-- A route as a request names it.
pub record Request : Type 0 where
  pub kind : String
  pub target : String
  -- The values of the headers `idempotency-key`, where they are text.
  pub keys : List (Option String)
  -- The JSON of the body.
  pub body : Option String

-- The handlers `create`, `reference`, `patch` and `remove`.
unfoldable pub request_of : List (Option String) → Option String → Mutation → Request
request_of keys body (create prepared) = record {
  kind = "account_create";
  target = "";
  keys = keys;
  body = body;
}
request_of keys body (reference prepared) = record {
  kind = "account_source_register";
  target = "";
  keys = keys;
  body = body;
}
request_of keys body (update id label active enabled) = record {
  kind = "account_update";
  target = id;
  keys = keys;
  body = body;
}
request_of keys body (remove_one id) = record {
  kind = "account_remove";
  target = id;
  keys = keys;
  body = some "{}";
}

-- The fields of `ApiState` that the routes of accounts read and write.
pub record State (Fl : Float) (Value : Type 0) (C : Codec) : Type 0 where
  pub refresh : Refresh.State Fl
  pub operations : Operations Value
  pub jobs : List Job
  pub vault : Stored C

-- What a job keeps of its request.
pub record Work : Type 0 where
  pub id : String
  pub receipt : Option String
  pub intent : MutationIntent

-- The one `idempotency-key` of a request.
unfoldable pub key_of : List (Option String) → Result ApiError String
key_of (some key ∷ []) = ok key
key_of (some key ∷ more ∷ keys) = err (api_error 400 "invalid_idempotency_key")
key_of keys = err (api_error 400 "idempotency_key_required")

abbrev pub intended :
    String → Result AccountError MutationIntent → Result ApiError (String × MutationIntent)
intended key (ok intent) = ok (key, intent)
intended key (err e) = err (api_error 400 "invalid_idempotency_key")

-- The answer of a read of the vault, where it has not waited for ten seconds.
unfoldable pub waited : {A : Type 0} → Option (Result AccountError A) → Result ApiError A
waited none = err (api_error 503 "account_busy")
waited (some (ok a)) = ok a
waited (some (err e)) = err (account_error e)

abbrev pub enabled_account : List String → Result ApiError Account → Result ApiError Account
enabled_account enabled (err e) = err e
enabled_account enabled (ok a) =
    if any (λ p. p == Provider.id a.provider) enabled
    then ok a
    else err (api_error 404 "provider_not_enabled")

-- The account of the handler `usage`, and of no account the answer that it ends with.
unfoldable pub usage_account :
    List String → Option (Result AccountError Account) → Result ApiError Account
unfolding waited
usage_account enabled answer = enabled_account enabled (waited answer)

module _ (sha256 : List ℕ → List ℕ) where
  abbrev pub intent_of_parts :
      Request → Result ApiError String → Option String → Result ApiError (String × MutationIntent)
  intent_of_parts r (err e) body = err e
  intent_of_parts r (ok key) none = err (api_error 400 "invalid_request")
  intent_of_parts r (ok key) (some text) =
      intended key (new_intent sha256 key (fingerprint sha256 (r.kind ∷ r.target ∷ text ∷ [])))

  -- The checks of `mutate`: the key of the request and the intent.
  unfoldable pub intent_of : Request → Result ApiError (String × MutationIntent)
  unfolding key_of
  intent_of r = intent_of_parts r (key_of r.keys) r.body

  -- The change of the document by `save_once`, `update_once` and `remove_once`.
  unfoldable pub added : Result AccountError String → PreparedAccount → Change String
  added random p = add sha256 random p.provider p.label p.identity p.credential

  unfoldable pub updated : String → Option String → Option Bool → Option Bool → Change String
  updated id label active enabled = do patch id label active enabled; done id

  -- The source answers with the id that it was asked to remove; a receipt of the request, whose
  -- fingerprint has this id as target, holds the same id.
  unfoldable pub removed : String → Change String
  removed id = do remove sha256 id; done id

  module _ (C : Codec) where
    abbrev coded : Stored C × Result AccountError String → Stored C × Result String String
    coded (stored, ok id) = (stored, ok id)
    coded (stored, err e) = (stored, err (account_code e))

    -- A change under `mutation_guard`, which is had in time or not.
    abbrev pub guarded :
        Env → Bool → MutationIntent → Change String → Stored C → Stored C × Result String String
    guarded env true intent change stored = coded (commit_once C env intent change stored)
    guarded env false intent change stored = (stored, err (account_code busy))

    abbrev pub saved :
        Env
        → Bool
        → Result AccountError String
        → MutationIntent
        → Result AccountError PreparedAccount
        → Stored C
        → Stored C × Result String String
    saved env guard random intent (err e) stored = (stored, err (account_code e))
    saved env guard random intent (ok p) stored = guarded env guard intent (added random p) stored

    -- The job up to its result. `random` is the id of a new account.
    unfoldable pub perform :
        Env
        → Bool
        → Result AccountError String
        → MutationIntent
        → Mutation
        → Stored C
        → Stored C × Result String String
    unfolding account_code added updated removed
    perform env guard random intent (create prepared) = saved env guard random intent prepared
    perform env guard random intent (reference prepared) = saved env guard random intent prepared
    perform env guard random intent (update id label active enabled) =
        guarded env guard intent (updated id label active enabled)
    perform env guard random intent (remove_one id) = guarded env guard intent (removed id)

abbrev pub Answer : Type 0 → Type 0
Answer Value = Result ApiError (Operation Value × Option Work)

-- The accounts of the state have changed, or it is not known whether they have.
abbrev pub is_changed : Result String String → Bool
is_changed (ok id) = true
is_changed (err code) = code == "credential_commit_uncertain"

abbrev pub json_of :
    {Value : Type 0} → (String → Value) → Result String String → Result String Value
json_of account_json (ok id) = ok (account_json id)
json_of account_json (err code) = err code

module _ {Fl : Float} {Value : Type 0} {C : Codec} where
  abbrev pub spawned :
      ℕ
      → Operation Value
      → Work
      → State Fl Value C
      → List Job × Result ApiError (Unit {0})
      → State Fl Value C × Answer Value
  spawned now op work s (jobs, ok u) = (record s { jobs = jobs }, ok (op, some work))
  spawned now op work s (jobs, err e) = (
    record s { jobs = jobs; operations = finish now op.id (err "server_busy") s.operations },
    err e,
  )

  abbrev pub started :
      ℕ
      → Option String
      → MutationIntent
      → State Fl Value C
      → Operations Value × Result String (Operation Value × Bool)
      → State Fl Value C × Answer Value
  started now receipt intent s (operations, err code) =
      (record s { operations = operations }, err (operation_error code))
  started now receipt intent s (operations, ok (op, false)) =
      (record s { operations = operations }, ok (op, none))
  started now receipt intent s (operations, ok (op, true)) =
      spawned now op (record { id = op.id; receipt = receipt; intent = intent })
        (record s { operations = operations }) (spawn s.jobs)

  abbrev pub looked_up :
      ℕ
      → Option String
      → Request
      → String
      → MutationIntent
      → State Fl Value C
      → Result AccountError (Option String)
      → State Fl Value C × Answer Value
  looked_up now random r key intent s (err e) = (s, err (account_error e))
  looked_up now random r key intent s (ok receipt) =
      started now receipt intent s
        (start now random r.kind (some key) intent.fingerprint s.operations)

  abbrev pub checked :
      Env
      → ℕ
      → Option String
      → Request
      → State Fl Value C
      → Result ApiError (String × MutationIntent)
      → State Fl Value C × Answer Value
  checked env now random r s (err e) = (s, err e)
  checked env now random r s (ok (key, intent)) =
      looked_up now random r key intent s (mutation_receipt C env intent s.vault)

  -- `mutate` up to its answer, where account storage is enabled or not; with the answer, the work of
  -- the job that it starts, if any. `random` is the id of a new operation.
  unfoldable pub mutate :
      (List ℕ → List ℕ)
      → Bool
      → Env
      → ℕ
      → Option String
      → Request
      → State Fl Value C
      → State Fl Value C × Answer Value
  unfolding intent_of spawn
  mutate sha256 false env now random r s = (s, err (api_error 503 "account_storage_disabled"))
  mutate sha256 true env now random r s = checked env now random r s (intent_of sha256 r)

  abbrev pub ended :
      (String → Value)
      → ℕ
      → Work
      → State Fl Value C
      → Bool
      → Stored C × Result String String
      → State Fl Value C
  ended account_json now work s changed (vault, result) = record s {
    vault = vault;
    refresh = if changed then invalidate s.refresh else s.refresh;
    operations = finish now work.id (json_of account_json result) s.operations;
  }

  -- The job of a mutation. `account_json` is the object with an `account_id`.
  unfoldable pub finish_mutation :
      (List ℕ → List ℕ)
      → (String → Value)
      → Env
      → Bool
      → Result AccountError String
      → ℕ
      → Work
      → Mutation
      → State Fl Value C
      → State Fl Value C
  unfolding perform
  finish_mutation sha256 account_json env guard random now work m s = elim work.receipt [
    | some id ↦ ended account_json now work s false (s.vault, ok id)
    | none ↦
        let result = perform sha256 C env guard random work.intent m s.vault in
        ended account_json now work s (is_changed result.1) result
  ]
