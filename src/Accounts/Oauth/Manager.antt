-- ===== src/Accounts/Oauth/Manager.antt =====
-- src/accounts/oauth.rs: the methods of `OAuthSessionManager`, each lock of the sessions as one
-- function. A method that takes the lock twice is two functions, with other steps between them.
use quotio_cli.Base.{
  ℕ, ◌+◌, ◌%◌, ◌^◌, String, true, ◌&&◌, Option, none, some, if◌then◌else◌, Result, ok, err,
  string_eq, option_eq,
}
use quotio_cli.Base.Dict.{lookup, update}
use quotio_cli.Provider.{provider_eq}
use quotio_cli.Accounts.Credential
use quotio_cli.Accounts.Credential.{
  AccountError, Credential, not_found, busy, idempotency_conflict, unsupported, commit_uncertain,
  storage,
}
use quotio_cli.Accounts.Input.{default_label}
use quotio_cli.Accounts.Oauth.{
  mode_eq, SessionStatus, processing, completed, failed, cancelled, expired, Authorization,
  SessionDto, PendingSession, Sessions, is_waiting, is_over, dto, prune,
}

-- `get`, which reads the clock again after `prune`.
abbrev pub looked_at : ℕ → PendingSession → PendingSession
looked_at later x =
    if is_waiting x.status && is_over later x then record x { status = expired } else x

unfoldable pub get : ℕ → ℕ → String → Sessions → Sessions × Result AccountError SessionDto
get now later id s =
    let p = prune now s in
    elim (lookup id p.sessions) [
      | none ↦ (p, err not_found)
      | some x ↦ (
        record p { sessions = update id (looked_at later) p.sessions },
        ok (dto id (looked_at later x)),
      )
    ]

abbrev pub call_off : PendingSession → PendingSession
call_off x = record x { status = cancelled; authorization = none; cancel = true }

unfoldable pub cancel : ℕ → String → Sessions → Sessions × Result AccountError SessionDto
cancel now id s =
    let p = prune now s in
    elim (lookup id p.sessions) [
      | none ↦ (p, err not_found)
      | some x ↦
          if is_waiting x.status
          then (record p { sessions = update id call_off p.sessions }, ok (dto id (call_off x)))
          else (p, err busy)
    ]

abbrev pub taken : PendingSession → PendingSession
taken x = record x { status = processing; cancel = true; authorization = none }

abbrev pub ok_or_busy :
    Option Authorization → Option String → Result AccountError (Authorization × Option String)
ok_or_busy none label = err busy
ok_or_busy (some a) label = ok (a, label)

-- `claim`. The status is changed before the authorization is looked at.
unfoldable pub claim :
    ℕ → String → Sessions → Sessions × Result AccountError (Authorization × Option String)
claim now id s =
    let p = prune now s in
    elim (lookup id p.sessions) [
      | none ↦ (p, err not_found)
      | some x ↦
          if is_waiting x.status
          then (
            record p { sessions = update id taken p.sessions },
            ok_or_busy x.authorization x.label,
          )
          else (p, err busy)
    ]

abbrev pub started : PendingSession → PendingSession
started x = record x { status = processing }

-- The claim of `poll_device`, once it has a credential: whether it goes on, with the label.
unfoldable pub claim_device : ℕ → String → Sessions → Sessions × Option (Option String)
claim_device now id s =
    let p = prune now s in
    elim (lookup id p.sessions) [
      | none ↦ (p, none)
      | some x ↦
          if is_waiting x.status
          then (record p { sessions = update id started p.sessions }, some x.label)
          else (p, none)
    ]

abbrev pub end_waiting : (PendingSession → PendingSession) → PendingSession → PendingSession
end_waiting f x = if is_waiting x.status then f x else x

-- `end_device`
unfoldable pub end_device : String → SessionStatus → Option String → Sessions → Sessions
end_device id status code s = record s {
  sessions =
      update id (end_waiting (λ x. record x { status = status; error_code = code })) s.sessions;
}

-- The end of `wait_loopback` without a code.
unfoldable pub end_loopback : String → Sessions → Sessions
end_loopback id s = record s {
  sessions =
      update id (end_waiting (λ x. record x { status = expired; authorization = none })) s.sessions;
}

unfoldable pub failure_code : AccountError → String
failure_code storage = "credential_storage_unavailable"
failure_code commit_uncertain = "credential_commit_uncertain"
failure_code busy = "account_busy"
failure_code Credential.AccountError.cancelled = "cancelled"
failure_code (Credential.provider e) = "validation_failed"
failure_code e = "oauth_failed"

abbrev and_then :
    {A B : Type 0} → Result AccountError A → (A → Result AccountError B) → Result AccountError B
and_then (ok a) f = f a
and_then (err e) f = err e

-- The identity of a credential; `validated` is the account that `service::validate` gives, in time.
abbrev identity_of : Credential → Result AccountError String → Result AccountError String
identity_of (Credential.copilot_oauth token account_id login) validated = ok account_id
identity_of (Credential.claude_oauth token refresh account_id email e p) validated = ok account_id
identity_of c validated = validated

-- The block of `finish` that adds the account. `add` is `service::add`: label, credential, identity.
unfoldable pub registered :
    (String → Credential → String → Result AccountError String)
    → Result AccountError String
    → Result AccountError (Unit {0})
    → Option String
    → Result AccountError Credential
    → Result AccountError String
unfolding default_label
registered add validated guard label credential = and_then credential (λ c.
    and_then (identity_of c validated) (λ identity.
      and_then (default_label label c) (λ text. and_then guard (λ u. add text c identity))))

abbrev pub settle : Result AccountError String → PendingSession → PendingSession
settle (ok account_id) x = record x { status = completed; account_id = some account_id }
settle (err e) x = record x { status = failed; error_code = some (failure_code e) }

abbrev pub settled_answer :
    String → Result AccountError String → PendingSession → Result AccountError SessionDto
settled_answer id (ok account_id) x = ok (dto id (settle (ok account_id) x))
settled_answer id (err e) x = err e

-- The end of `finish`, with the result of the block.
unfoldable pub finish_end :
    String → Result AccountError String → Sessions → Sessions × Result AccountError SessionDto
finish_end id result s = elim (lookup id s.sessions) [
  | none ↦ (s, err not_found)
  | some x ↦
      (record s { sessions = update id (settle result) s.sessions }, settled_answer id result x)
]

-- The generation of the server after `finish`, from the session that its end finds, if any.
unfoldable pub raised : Option PendingSession → Result AccountError String → ℕ → ℕ
raised x (ok account_id) generation = (generation + 1) % 2 ^ 64
raised (some x) (err commit_uncertain) generation = (generation + 1) % 2 ^ 64
raised x (err e) generation = generation
