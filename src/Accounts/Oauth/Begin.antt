-- ===== src/Accounts/Oauth/Begin.antt =====
-- src/accounts/oauth.rs: how a login begins (`begin_keyed`, `begin_for`, `begin_device`), each lock of
-- the sessions as one function.
use quotio_cli.Base.{
  ℕ, ◌+◌, ◌-◌, ◌/◌, ◌%◌, ◌^◌, String, Bool, false, ◌&&◌, ◌||◌, Option, none, some, length, ltb, leb,
  if◌then◌else◌, Result, ok, err, ◌==◌, string_eq, option_eq, nat_eq, ℤ, pos, checked_add,
}
use quotio_cli.Base.Dict.{Dict, lookup, insert, remove, update}
use quotio_cli.Provider.{Provider, provider_eq, codex, catalog}
use quotio_cli.Accounts.Credential
use quotio_cli.Accounts.Credential.{
  AccountError, not_found, busy, idempotency_conflict, unsupported,
}
use quotio_cli.Accounts.Document.{validate_label}
use quotio_cli.Accounts.Oauth.{
  OauthMode, relay, loopback, mode_eq, waiting, Workflow, browser_callback, manual_code,
  device_code, Authorization, SessionDto, PendingSession, BeginClaim, Sessions, seconds, dto, prune,
}

-- How a login begins: with a code for a device, or with a workflow of this machine.
pub data Plan : Type 0 where
  device : Plan
  on_machine : Workflow → Plan
  no_plan : Plan

-- The choice in `begin_keyed` and at the start of `begin_for`.
unfoldable pub plan : Provider → OauthMode → Plan
plan codex mode = on_machine browser_callback
plan (catalog i) loopback = no_plan
plan (catalog i) relay =
    if i == "copilot" then device else if i == "claude" then on_machine manual_code else no_plan
plan _ mode = no_plan

abbrev pub check_label : Option String → Result AccountError (Unit {0})
check_label none = ok tt
check_label (some text) = elim (validate_label text) [ ok t ↦ ok tt | err e ↦ err e ]

abbrev pub enter : String → PendingSession → Sessions → Sessions × Result AccountError SessionDto
enter id x s =
    if leb 128 (length s.sessions)
    then (s, err busy)
    else (record s { sessions = insert id x s.sessions }, ok (dto id x))

abbrev pub new_session :
    Provider → Workflow → Option String → Authorization → ℤ → ℕ → PendingSession
new_session provider workflow label authorization expires_at created = record {
  provider = provider;
  workflow = workflow;
  user_code = none;
  lifetime = seconds 180;
  authorization = some authorization;
  url = authorization.url;
  label = label;
  expires_at = expires_at;
  created = created;
  status = waiting;
  account_id = none;
  error_code = none;
  cancel = false;
}

-- What a begin needs, in the order in which it fails: the label, the port, the authorization, a random
-- id and the time at which the session ends.
abbrev pub ready :
    {A : Type 0}
    → Result AccountError (Unit {0})
    → Result AccountError (Unit {0})
    → Result AccountError A
    → Result AccountError String
    → Option ℤ
    → Result AccountError (A × String × ℤ)
ready (err e) bound answer random end = err e
ready (ok u) (err e) answer random end = err e
ready (ok u) (ok v) (err e) random end = err e
ready (ok u) (ok v) (ok a) (err e) end = err e
ready (ok u) (ok v) (ok a) (ok id) none = err Credential.oauth
ready (ok u) (ok v) (ok a) (ok id) (some at) = ok (a, id, at)

-- `begin_for` with a workflow of this machine. `bound` is the result of binding the port, and
-- `authorization` that of `claude::begin` or `begin_authorization`.
unfoldable pub begin_for :
    ℕ
    → ℕ
    → ℤ
    → Result AccountError (Unit {0})
    → Result AccountError Authorization
    → Result AccountError String
    → Provider
    → Workflow
    → Option String
    → Sessions
    → Sessions × Result AccountError SessionDto
begin_for now created clock bound authorization random provider workflow label s =
    elim (ready (check_label label) bound authorization random (checked_add clock (pos 180))) [
      | err e ↦ (s, err e)
      | ok (a, id, at) ↦ enter id (new_session provider workflow label a at created) (prune now s)
    ]

-- `begin_device` up to its request.
unfoldable pub admit_device :
    ℕ → Option String → Sessions → Sessions × Result AccountError (Unit {0})
admit_device now label s = elim (check_label label) [
  | err e ↦ (s, err e)
  | ok u ↦ let p = prune now s in if leb 128 (length p.sessions) then (p, err busy) else (p, ok tt)
]

-- `copilot::Device`, with `expires_in` and `interval` in seconds.
pub record Device : Type 0 where
  pub device_code : String
  pub user_code : String
  pub verification_uri : String
  pub expires_in : ℕ
  pub interval : ℕ

-- The lifetime that is left, if any.
abbrev pub remaining : ℕ → ℕ → Device → Option ℕ
remaining began now d =
    if ltb (now - began) (seconds d.expires_in)
    then some (seconds d.expires_in - (now - began))
    else none

-- `as_secs()`, rounded up.
abbrev pub whole_seconds : ℕ → ℕ
whole_seconds d = d / 10 ^ 9 + (if d % 10 ^ 9 == 0 then 0 else 1)

abbrev pub device_session : Option String → Device → ℤ → ℕ → PendingSession
device_session label d expires_at began = record {
  provider = catalog "copilot";
  workflow = device_code;
  user_code = some d.user_code;
  lifetime = seconds d.expires_in;
  authorization = none;
  url = d.verification_uri;
  label = label;
  expires_at = expires_at;
  created = began;
  status = waiting;
  account_id = none;
  error_code = none;
  cancel = false;
}

-- The device with what is left of its lifetime.
abbrev pub in_time : ℕ → ℕ → Result AccountError Device → Result AccountError (Device × ℕ)
in_time began elapsed (err e) = err e
in_time began elapsed (ok d) = elim (remaining began elapsed d) [
  | none ↦ err Credential.AccountError.cancelled
  | some left ↦ ok (d, left)
]

abbrev pub end_of : ℤ → Result AccountError (Device × ℕ) → Option ℤ
end_of clock (err e) = none
end_of clock (ok (d, left)) = checked_add clock (pos (whole_seconds left))

-- The rest of `begin_device`: the request began at `began`, and `elapsed` is read after it.
unfoldable pub begin_device :
    ℕ
    → ℕ
    → ℕ
    → ℤ
    → Result AccountError Device
    → Result AccountError String
    → Option String
    → Sessions
    → Sessions × Result AccountError SessionDto
begin_device now began elapsed clock answer random label s =
    let device = in_time began elapsed answer in
    elim (ready (ok tt) (ok tt) device random (end_of clock device)) [
      | err e ↦ (s, err e)
      | ok ((d, left), id, at) ↦ enter id (device_session label d at began) (prune now s)
    ]

-- What `begin_keyed` does under the first lock: it answers, or spawns the task of the key; a missing
-- session behind a claim would be a panic.
pub data Begun : Type 0 where
  answered : Result AccountError SessionDto → Begun
  spawned : Begun
  panicked : Begun

abbrev pub is_claim_of : Provider → Option String → OauthMode → BeginClaim → Bool
is_claim_of provider label mode c = c.provider == provider && c.label == label && c.mode == mode

abbrev pub recover : Dict PendingSession → Option String → Begun
recover d none = answered (err busy)
recover d (some id) = elim (lookup id d) [ none ↦ panicked | some x ↦ answered (ok (dto id x)) ]

abbrev pub repeated :
    Provider → Option String → OauthMode → Dict PendingSession → BeginClaim → Begun
repeated provider label mode d c =
    if is_claim_of provider label mode c
    then recover d c.session_id
    else answered (err idempotency_conflict)

abbrev pub opened : Provider → Option String → OauthMode → BeginClaim
opened provider label mode = record {
  provider = provider;
  label = label;
  mode = mode;
  session_id = none;
}

-- After `prune`, with the claim of the key.
abbrev pub admit_key :
    Provider → Option String → OauthMode → String → Sessions → Option BeginClaim → Sessions × Begun
admit_key provider label mode key p (some c) = (p, repeated provider label mode p.sessions c)
admit_key provider label mode key p none =
    if leb 128 (length p.begins) || leb 128 (length p.sessions)
    then (p, answered (err busy))
    else (record p { begins = insert key (opened provider label mode) p.begins }, spawned)

abbrev pub keyed :
    Provider
    → Option String
    → OauthMode
    → String
    → Sessions
    → Sessions
    → Result AccountError (Unit {0})
    → Sessions × Begun
keyed provider label mode key s p (err e) = (s, answered (err e))
keyed provider label mode key s p (ok u) = admit_key provider label mode key p (lookup key p.begins)

unfoldable pub begin_keyed :
    ℕ → Provider → Option String → OauthMode → String → Sessions → Sessions × Begun
begin_keyed now provider label mode key s =
    keyed provider label mode key s (prune now s) (check_label label)

abbrev pub recorded : String → BeginClaim → BeginClaim
recorded id c = record c { session_id = some id }

-- The end of the task of a key. A missing claim would be a panic.
unfoldable pub begin_end : String → Result AccountError SessionDto → Sessions → Option Sessions
begin_end key (ok d) s = elim (lookup key s.begins) [
  | none ↦ none
  | some c ↦ some (record s { begins = update key (recorded d.id) s.begins })
]
begin_end key (err e) s = some (record s { begins = remove key s.begins })
