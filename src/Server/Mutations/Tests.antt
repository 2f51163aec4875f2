-- ===== src/Server/Mutations/Tests.antt =====
-- An account that is added twice under one retry key.
use quotio_cli.Base.{
  ℕ, String, ◌≡◌, refl, sym, true, false, List, [], ◌∷◌, Option, none, some, Result, ok, err,
  String-discrete,
}
use quotio_cli.Provider.{amp}
use quotio_cli.Usage.Samples.{whole}
use quotio_cli.Accounts.Credential.{busy, api_key}
use quotio_cli.Accounts.Document.{Document}
use quotio_cli.Accounts.Vault.{Codec, replaced}
use quotio_cli.Accounts.Service.{Env, Stored, MutationIntent}
use quotio_cli.Accounts.Service.History.{removes, Call, plain, run}
use quotio_cli.Accounts.Service.Promises.{free}
use quotio_cli.Server.Operations.{Operation, running, finish}
use quotio_cli.Server.Mutations.{
  Mutation, create, Request, request_of, State, Work, intent_of, perform, mutate, finish_mutation,
}
use quotio_cli.Server.Mutations.Retried.{mutate-retried}

-- Documents stored as they are, and a digest that is the message.
abbrev plain_codec : Codec
plain_codec = record { Bytes = Document; size = λ d. 0; encode = some; decode = some }

abbrev digest : List ℕ → List ℕ
digest m = m

abbrev calm : Env
calm = record { attempts = free ∷ []; written = replaced }

abbrev change : Mutation
change = create (
    ok (record {
      provider = amp;
      label = "main";
      credential = api_key "token" none none;
      identity = "me";
    }))

abbrev request : Request
request = request_of (some "k" ∷ []) (some "{}") change

abbrev no_intent : MutationIntent
no_intent = record { key = ""; fingerprint = "" }

abbrev intent_in :
    Result quotio_cli.Server.Answers.ApiError (String × MutationIntent) → MutationIntent
intent_in (ok (key, intent)) = intent
intent_in (err e) = no_intent

abbrev intent : MutationIntent
intent = intent_in (intent_of digest request)

asked : intent_of digest request ≡ ok ("k", intent)
unfolding request_of intent_of quotio_cli.Accounts.Service.new_intent quotio_cli.Base.byte_len
    quotio_cli.Base.is_ascii_graphic
asked = refl

abbrev first : Stored plain_codec × Result String String
first = perform digest plain_codec calm true (ok "1") intent change none

first_ok : first ≡ (first.0, ok "1")
unfolding request_of perform quotio_cli.Accounts.Service.commit_once
    quotio_cli.Accounts.Service.begin quotio_cli.Accounts.Vault.begin_once
    quotio_cli.Accounts.Service.receipt quotio_cli.Base.Dict.lookup quotio_cli.Accounts.Document.add
    quotio_cli.Accounts.Document.validate_label quotio_cli.Accounts.Document.reserve_factory_refresh
    quotio_cli.Accounts.Vault.commit
first_ok = refl

abbrev calls : List (Env × Call)
calls = (calm, plain (removes "1")) ∷ []

-- A server that has started again.
abbrev restarted : State whole String plain_codec
restarted = record {
  refresh = record {
    settings = record {
      revision = "r";
      values = record {
        notifications = none;
        enabled_providers = "amp" ∷ [];
        disabled_providers = [];
        cache_ttl_seconds = 300;
        refresh_interval = 60;
        provider_timeout = 10;
      };
      overridden = [];
    };
    snapshot = none;
    generation = 0;
    wake = false;
    refreshing = false;
    last_completed_at = none;
    running = none;
  };
  operations = [];
  jobs = [];
  vault = run digest plain_codec calls first.0;
}

abbrev again_work : Work
again_work = record { id = "o"; receipt = some "1"; intent = intent }

answered :
    (mutate digest true calm 5 (some "o") request restarted).1
    ≡ ok (running "o" "account_create", some again_work)
unfolding request_of mutate intent_of perform run String-discrete native.Mathlib.Decide.ℕ_discrete
    quotio_cli.Accounts.Service.new_intent quotio_cli.Base.byte_len quotio_cli.Base.is_ascii_graphic
    quotio_cli.Accounts.Service.mutation_receipt quotio_cli.Accounts.Service.begin
    quotio_cli.Accounts.Vault.begin_once quotio_cli.Accounts.Service.History.serve
    quotio_cli.Accounts.Service.History.apply quotio_cli.Accounts.Service.transact
    quotio_cli.Accounts.Service.commit_once quotio_cli.Accounts.Service.receipt
    quotio_cli.Base.Dict.lookup quotio_cli.Accounts.Document.add
    quotio_cli.Accounts.Document.validate_label quotio_cli.Accounts.Document.reserve_factory_refresh
    quotio_cli.Accounts.Document.remove quotio_cli.Accounts.Vault.commit
    quotio_cli.Accounts.Vault.is_rejected quotio_cli.Accounts.Vault.upgraded
    quotio_cli.Base.Dict.insert quotio_cli.Server.Operations.start
    quotio_cli.Server.Operations.admit quotio_cli.Server.Operations.prune
    quotio_cli.Server.Operations.completed quotio_cli.Server.Operations.remove_first_ones
    quotio_cli.Server.Jobs.spawn quotio_cli.Accounts.Credential.origin_of
    quotio_cli.Fingerprint.fingerprint
answered = refl

abbrev busy_state : State whole String plain_codec
busy_state = (mutate digest true calm 5 (some "o") request restarted).0

mutate-retried_example :
    (intent.fingerprint ≡ intent.fingerprint)
    × (finish_mutation digest (λ id. id) calm false (err busy) 6 again_work change busy_state
        ≡ record busy_state { operations = finish 6 "o" (ok "1") busy_state.operations })
mutate-retried_example =
    mutate-retried digest plain_codec (λ d b h. sym h) (λ id. id) calm calm true false (ok "1")
      (err busy) request request "k" intent intent change change none first.0 "1" calls [] replaced
      5 6 (some "o") restarted busy_state (running "o" "account_create") again_work tt asked
      first_ok (tt, tt) refl asked answered
