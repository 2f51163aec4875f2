-- ===== src/Accounts/Service/Tests.antt =====
-- Runs of the transactions on small vaults.
use quotio_cli.Base.{
  ℕ, String, ◌≡◌, ◌≢◌, refl, sym, false, List, [], ◌∷◌, none, some, arith, Result, ok, err,
  string_eq, String-discrete, ne_of_==,
}
use quotio_cli.Base.Dict.{lookup}
use quotio_cli.Provider.{amp, factory}
use quotio_cli.Accounts.Credential.{
  AccountError, busy, duplicate, not_found, idempotency_conflict, Credential, api_key,
  factory_oauth,
}
use quotio_cli.Base.{pos}
use quotio_cli.Accounts.Document.{
  Document, Family, ledger, token_key, add, reserve_factory_refresh, empty,
}
use quotio_cli.Accounts.Document
use quotio_cli.Accounts.Vault.{Codec, Written, replaced, uncertain, Attempt, is_rejected, upgraded}
use quotio_cli.Accounts.Service.{
  Env, Stored, MutationIntent, begin, commit_once, transact, list, new_intent,
}
use quotio_cli.Accounts.Service.History.{Mutation, adds, removes, Call, plain, once, apply, run}
use quotio_cli.Accounts.Service.Promises.{free, readable, owner_stays}
use quotio_cli.Accounts.Service.Receipts.{replays}
use quotio_cli.Accounts.Service.Durable.{Holds}

-- Documents stored as they are, and a digest that is the message.
abbrev plain_codec : Codec
plain_codec = record { Bytes = Document; size = λ d. 0; encode = some; decode = some }

abbrev digest : List ℕ → List ℕ
digest m = m

abbrev calm : Env
calm = record { attempts = free ∷ []; written = replaced }

abbrev contended : Env
contended = record {
  attempts = record { lock = some busy; failed_read = none } ∷ [];
  written = replaced;
}

abbrev lost : Env
lost = record { attempts = free ∷ []; written = uncertain }

abbrev intent : MutationIntent
intent = record { key = "k"; fingerprint = "f" }

abbrev first : Mutation
first = adds (ok "1") amp " main " "me" (api_key "token" none none)

abbrev droid : Credential
droid = factory_oauth "a" "spent" none (pos 0) false

abbrev second : Mutation
second = adds (ok "2") factory "droid" "you" droid

abbrev calls : List (Env × Call)
calls = (contended, plain (removes "1")) ∷ (lost, plain second) ∷ (calm, plain (removes "1")) ∷ []

-- A vault in which account 2 owns the token "spent".
abbrev owned : Document
owned = record {
  version = 5;
  accounts = [];
  mutation_receipts = [];
  factory_refresh_owners = (token_key digest Document.factory "spent", "2") ∷ [];
  claude_refresh_owners = [];
  kiro_refresh_owners = [];
  antigravity_refresh_owners = [];
}

abbrev later : Document
later = upgraded (apply digest first owned).0

readable_example :
    (d : Document) × (begin plain_codec (free ∷ []) (run digest plain_codec calls none) ≡ ok d)
    × (is_rejected d ≡ false)
readable_example = readable digest plain_codec (λ d b h. sym h) calls [] (tt, (tt, (tt, tt)))

owned-Holds :
    Holds plain_codec
      (λ d.
        lookup (token_key digest Document.factory "spent") (ledger Document.factory d) ≡ some "2")
      (some owned)
unfolding is_rejected lookup
owned-Holds = (owned, refl, refl, ground arith, ground arith)

begin-later :
    begin plain_codec (free ∷ []) (run digest plain_codec ((calm, plain first) ∷ []) (some owned))
    ≡ ok later
unfolding begin quotio_cli.Accounts.Vault.begin_once run quotio_cli.Accounts.Service.History.serve
    transact is_rejected native.Mathlib.Decide.ℕ_discrete apply add Document.validate_label
    reserve_factory_refresh quotio_cli.Accounts.Vault.commit upgraded
    quotio_cli.Accounts.Credential.origin_of
begin-later = refl

two-ne-three : ◌≢◌ {A = String} "2" "3"
unfolding String-discrete
two-ne-three = ne_of_== "2" "3" refl

owner_stays_example : reserve_factory_refresh digest "3" droid later ≡ (later, err duplicate)
owner_stays_example =
    owner_stays digest plain_codec (λ d b h. sym h) Document.factory "2" "3" "spent" droid
      (some owned) ((calm, plain first) ∷ []) (free ∷ []) later owned-Holds (tt, tt) begin-later
      refl two-ne-three

abbrev answered : Stored plain_codec × Result AccountError String
answered = commit_once plain_codec calm intent (apply digest first) none

answered_first : answered ≡ (answered.0, ok "1")
unfolding begin quotio_cli.Accounts.Vault.begin_once run quotio_cli.Accounts.Service.History.serve
    transact is_rejected native.Mathlib.Decide.ℕ_discrete apply add Document.validate_label
    reserve_factory_refresh quotio_cli.Accounts.Vault.commit upgraded
    quotio_cli.Accounts.Credential.origin_of commit_once quotio_cli.Accounts.Service.receipt lookup
answered_first = refl

replays_example :
    commit_once plain_codec calm
      (record { key = "k"; fingerprint = "g" })
      (apply digest second)
      (run digest plain_codec calls answered.0)
    ≡ (run digest plain_codec calls answered.0, err idempotency_conflict)
unfolding String-discrete
replays_example =
    replays digest plain_codec (λ d b h. sym h) calm intent first none answered.0 "1" calls []
      replaced "g" (apply digest second) tt tt answered_first (tt, (tt, (tt, tt)))
