-- ===== src/Accounts/Oauth.antt =====
-- src/accounts/oauth.rs: the sessions of logins that the server runs (`OAuthSessionManager`). Each
-- function here is what happens while the lock of the sessions is held; Accounts.Oauth.History has the
-- interleavings of them. An instant and a lifetime are numbers of nanoseconds. Random texts, the
-- answers of a provider and of the vault, and the clock are arguments. `cancel` is the permit that
-- `notify_one` leaves.
pub mod Manager
pub mod Begin
pub mod Tally
pub mod Falls
pub mod Decided
pub mod Stable
pub mod Working
pub mod Lasting
pub mod Completed
pub mod Keys
pub mod Calm
pub mod Tests
pub mod History
pub mod Codes
pub mod Tokens
pub mod Polling
use quotio_cli.Base.{
  ℕ, ◌+◌, ◌-◌, ◌*◌, ◌^◌, String, Bool, true, false, not, ◌&&◌, ◌||◌, List, [], ◌∷◌, Option, none,
  some, retain, length, ltb, leb, if◌then◌else◌, Result, ok, err, ◌==◌, string_eq, option_eq, Eq, ℤ,
  pos, checked_add,
}
use quotio_cli.Base.Dict.{Dict, lookup, insert, remove, update}
use quotio_cli.Provider.{Provider, provider_eq, codex, catalog}
use quotio_cli.Accounts.Credential
use quotio_cli.Accounts.Credential.{
  AccountError, not_found, busy, idempotency_conflict, commit_uncertain,
}
use quotio_cli.Accounts.Document.{validate_label}

pub data OauthMode : Type 0 where
  relay loopback : OauthMode

pub OauthMode-discrete : Discrete OauthMode
OauthMode-discrete = hlevel

instance abbrev pub mode_eq : Eq OauthMode
mode_eq = record { dec = OauthMode-discrete }

pub data SessionStatus : Type 0 where
  waiting processing completed failed cancelled expired : SessionStatus

pub data Workflow : Type 0 where
  browser_callback manual_code device_code : Workflow

pub record Authorization : Type 0 where
  pub state : String
  pub verifier : String
  pub nonce : String
  pub url : String

pub record SessionDto : Type 0 where
  pub provider : Provider
  pub workflow : Workflow
  pub user_code : Option String
  pub id : String
  pub url : String
  pub expires_at : ℤ
  pub status : SessionStatus
  pub account_id : Option String
  pub error_code : Option String

pub record PendingSession : Type 0 where
  pub provider : Provider
  pub workflow : Workflow
  pub user_code : Option String
  pub lifetime : ℕ
  pub authorization : Option Authorization
  pub url : String
  pub label : Option String
  pub expires_at : ℤ
  pub created : ℕ
  pub status : SessionStatus
  pub account_id : Option String
  pub error_code : Option String
  pub cancel : Bool

pub record BeginClaim : Type 0 where
  pub provider : Provider
  pub label : Option String
  pub mode : OauthMode
  pub session_id : Option String

pub record Sessions : Type 0 where
  pub sessions : Dict PendingSession
  pub begins : Dict BeginClaim

abbrev pub seconds : ℕ → ℕ
seconds n = n * 10 ^ 9

abbrev pub is_waiting : SessionStatus → Bool
is_waiting waiting = true
is_waiting _ = false

abbrev pub is_processing : SessionStatus → Bool
is_processing processing = true
is_processing _ = false

abbrev pub is_some {ℓ} : {A : Type ℓ} → Option A → Bool
is_some none = false
is_some (some a) = true

unfoldable pub dto : String → PendingSession → SessionDto
dto id s = record {
  provider = s.provider;
  workflow = s.workflow;
  user_code = s.user_code;
  id = id;
  url = s.url;
  expires_at = s.expires_at;
  status = s.status;
  account_id = s.account_id;
  error_code = s.error_code;
}

-- Whether the lifetime is over.
abbrev pub is_over : ℕ → PendingSession → Bool
is_over now s = leb s.lifetime (now - s.created)

abbrev pub expire : ℕ → PendingSession → PendingSession
expire now s =
    if is_waiting s.status && is_over now s
    then record s { status = expired; authorization = none; cancel = true }
    else s

abbrev pub expire_all : ℕ → Dict PendingSession → Dict PendingSession
expire_all now [] = []
expire_all now ((id, s) ∷ d) = (id, expire now s) ∷ expire_all now d

abbrev pub is_kept : ℕ → String × PendingSession → Bool
is_kept now (id, s) = is_processing s.status || leb (now - s.created) (s.lifetime + seconds 720)

-- `sort_by_key(|(_, created)| *created)`, which is stable.
abbrev insert_by_time : String × ℕ → List (String × ℕ) → List (String × ℕ)
insert_by_time (id, t) [] = (id, t) ∷ []
insert_by_time (id, t) ((j, u) ∷ xs) =
    if leb t u then (id, t) ∷ (j, u) ∷ xs else (j, u) ∷ insert_by_time (id, t) xs

-- The sessions that are neither waiting nor processing, the oldest first.
abbrev ended : Dict PendingSession → List (String × ℕ)
ended [] = []
ended ((id, s) ∷ d) =
    if is_waiting s.status || is_processing s.status
    then ended d
    else insert_by_time (id, s.created) (ended d)

-- `ids.into_iter().take(excess)`, each removed.
unfoldable pub remove_first_ones : ℕ → List (String × ℕ) → Dict PendingSession → Dict PendingSession
remove_first_ones excess [] d = d
remove_first_ones excess ((id, t) ∷ xs) d =
    if ltb 0 excess then remove_first_ones (excess - 1) xs (remove id d) else d

unfoldable pub prune_sessions : ℕ → Dict PendingSession → Dict PendingSession
unfolding remove_first_ones
prune_sessions now d =
    let kept = retain (is_kept now) (expire_all now d) in
    if ltb 128 (length kept) then remove_first_ones (length kept - 128) (ended kept) kept else kept

abbrev pub is_retained : Dict PendingSession → String × BeginClaim → Bool
is_retained d (key, claim) = elim claim.session_id [ none ↦ true | some id ↦ is_some (lookup id d) ]

-- `OAuthSessionManager::prune`
unfoldable pub prune : ℕ → Sessions → Sessions
unfolding prune_sessions
prune now s =
    let kept = prune_sessions now s.sessions in
    record { sessions = kept; begins = retain (is_retained kept) s.begins }
