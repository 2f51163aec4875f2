-- ===== src/Accounts/Oauth/Working.antt =====
-- What each method does to the number of sessions with an id that are being processed.
use quotio_cli.Base.{
  ℕ, ◌+◌, ◌≤◌, String, ◌≡◌, refl, true, false, not, ◌&&◌, Option, some, length, leb, arith,
  if◌then◌else◌, Result, ok, err, string_eq, ◌==◌, ℤ, Option-cases, Bool-cases, Result-cases, inl,
  inr, checked_add, pos, ◌∙◌,
}
use quotio_cli.Base.Dict.{lookup, update}
use quotio_cli.Provider.{Provider}
use quotio_cli.Accounts.Credential.{AccountError}
use quotio_cli.Accounts.Oauth.{
  OauthMode, completed, Workflow, Authorization, SessionDto, PendingSession, Sessions, is_waiting,
  prune, is_some, dto,
}
use quotio_cli.Accounts.Oauth.Manager.{
  get, looked_at, cancel, call_off, claim, taken, claim_device, started, end_device, end_loopback,
  finish_end, settle,
}
use quotio_cli.Accounts.Oauth.Begin.{
  Device, begin_for, begin_device, admit_device, begin_keyed, enter, ready, in_time, end_of,
  check_label, new_session, device_session,
}
use quotio_cli.Accounts.Oauth.History.{DeviceEnd, over, denied, broken, end_status, end_code}
use quotio_cli.Accounts.Oauth.Tally.{
  Keeps, tally, tally-update, tally-update-eq, tally-insert-le, tally-insert-ge, tally-prune,
  tally-lookup, tally-missing, tally-only, is_any, in_processing,
}
use quotio_cli.Accounts.Oauth.Stable.{
  on_device, off_device, is_device_code, off_device-IsStable, unsigned, on_device-IsStable,
  unsigned-IsStable, is_any-IsStable, prune-Lessens,
}
use quotio_cli.Accounts.Oauth.Falls.{one_if, is_ok}

module _ (id : String) where
  abbrev pub works : Sessions → ℕ
  works s = tally in_processing id s.sessions

  update-works :
      (j : String) (f : PendingSession → PendingSession) (s : Sessions)
      → Keeps in_processing f
      → works (record s { sessions = update j f s.sessions }) ≡ works s
  update-works j f s keeps = tally-update-eq in_processing id j f keeps s.sessions

  pub get-works :
      (now later : ℕ) (j : String) (s : Sessions)
      → length s.sessions ≤ 128
      → works (get now later j s).0 ≡ works s
  unfolding get
  get-works now later j s few = elim (Option-cases (lookup j (prune now s).sessions)) [
    | inl missing ↦ ground (arith, tally-prune now s id few)
    | inr (x, there) ↦ ground (
      arith,
      update-works j (looked_at later) (prune now s) (λ y. ground arith) ∙ tally-prune now s id few,
    )
  ]

  -- `get` finds a session that is being processed.
  pub get-is_ok :
      (now later : ℕ) (s : Sessions)
      → length s.sessions ≤ 128
      → 1 ≤ works s
      → is_ok (get now later id s).1 ≡ true
  unfolding get
  get-is_ok now later s few busy = elim (Option-cases (lookup id (prune now s).sessions)) [
    | inl missing ↦ absurd (
        omega (
          arith,
          tally-prune now s id few,
          tally-missing in_processing id (prune now s).sessions missing,
        ))
    | inr (x, there) ↦ ground arith
  ]

  pub cancel-works :
      (now : ℕ) (j : String) (s : Sessions)
      → length s.sessions ≤ 128
      → works (cancel now j s).0 ≡ works s
  unfolding cancel
  cancel-works now j s few = elim (Option-cases (lookup j (prune now s).sessions)) [
    | inl missing ↦ ground (arith, tally-prune now s id few)
    | inr (x, there) ↦ elim (Bool-cases (is_waiting x.status)) [
      | inr late ↦ ground (arith, tally-prune now s id few)
      | inl free ↦ ground (
        arith,
        tally-prune now s id few,
        tally-update in_processing id j call_off (prune now s).sessions x there,
      )
    ]
  ]

  pub claim_device-works :
      (now : ℕ) (j : String) (s : Sessions)
      → length s.sessions ≤ 128
      → works (claim_device now j s).0
        ≡ works s + one_if (is_some (claim_device now j s).1 && id == j)
  unfolding claim_device
  claim_device-works now j s few = elim (Option-cases (lookup j (prune now s).sessions)) [
    | inl missing ↦ ground (arith, tally-prune now s id few)
    | inr (x, there) ↦ elim (Bool-cases (is_waiting x.status)) [
      | inr late ↦ ground (arith, tally-prune now s id few)
      | inl free ↦ ground (
        arith,
        tally-prune now s id few,
        tally-update in_processing id j started (prune now s).sessions x there,
      )
    ]
  ]

  -- A claim that is refused for want of an authorization is one of a device, or of a session without.
  abbrev pub unclaimable : Sessions → ℕ
  unclaimable s = tally on_device id s.sessions + tally unsigned id s.sessions

  pub claim-works :
      (now : ℕ) (j : String) (s : Sessions)
      → length s.sessions ≤ 128
      → (works s + one_if (is_ok (claim now j s).1 && id == j) ≤ works (claim now j s).0)
        × (works (claim now j s).0
            ≤ works s
              + one_if (is_ok (claim now j s).1 && id == j)
              + (if id == j then unclaimable s else 0))
  unfolding claim
  claim-works now j s few = elim (Option-cases (lookup j (prune now s).sessions)) [
    | inl missing ↦ ground (arith, tally-prune now s id few)
    | inr (x, there) ↦ elim (Bool-cases (is_waiting x.status)) [
      | inr late ↦ ground (arith, tally-prune now s id few)
      | inl free ↦ elim (Option-cases x.authorization) [
        | inr (a, signed) ↦ ground (
          arith,
          tally-prune now s id few,
          tally-update in_processing id j taken (prune now s).sessions x there,
        )
        | inl bare ↦ ground (
          arith,
          tally-prune now s id few,
          tally-update in_processing id j taken (prune now s).sessions x there,
          tally-lookup on_device id (prune now s).sessions x,
          tally-lookup unsigned id (prune now s).sessions x,
          prune-Lessens on_device on_device-IsStable id now s few,
          prune-Lessens unsigned unsigned-IsStable id now s few,
        )
      ]
    ]
  ]

  pub end_device-works :
      (j : String) (e : DeviceEnd) (s : Sessions)
      → works (end_device j (end_status e) (end_code e) s) ≡ works s
  unfolding end_device
  end_device-works j over s = update-works j _ s (λ y. ground arith)
  end_device-works j denied s = update-works j _ s (λ y. ground arith)
  end_device-works j (broken code) s = update-works j _ s (λ y. ground arith)

  pub end_loopback-works : (j : String) (s : Sessions) → works (end_loopback j s) ≡ works s
  unfolding end_loopback
  end_loopback-works j s = update-works j _ s (λ y. ground arith)

  pub admit_device-works :
      (now : ℕ) (label : Option String) (s : Sessions)
      → length s.sessions ≤ 128
      → works (admit_device now label s).0 ≡ works s
  unfolding admit_device
  admit_device-works now label s few = ground (arith, tally-prune now s id few)

  pub begin_keyed-works :
      (now : ℕ) (provider : Provider) (label : Option String) (mode : OauthMode) (key : String)
      (s : Sessions)
      → length s.sessions ≤ 128
      → works (begin_keyed now provider label mode key s).0 ≡ works s
  unfolding begin_keyed
  begin_keyed-works now provider label mode key s few = ground (arith, tally-prune now s id few)

  -- A begin leaves the sessions that are being processed, but one that it overwrites.
  abbrev pub Spares : Sessions → Sessions × Result AccountError SessionDto → Type 0
  Spares s (t, ok d) =
      (works t ≤ works s)
      × (works s ≤ works t + (if id == d.id then tally is_any id s.sessions else 0))
  Spares s (t, err e) = works t ≡ works s

  enter-Spares :
      (now : ℕ) (j : String) (x : PendingSession) (s : Sessions)
      → length s.sessions ≤ 128
      → in_processing x ≡ false
      → Spares s (enter j x (prune now s))
  unfolding dto
  enter-Spares now j x s few fresh = elim (Bool-cases (leb 128 (length (prune now s).sessions))) [
    | inl full ↦ ground (arith, tally-prune now s id few)
    | inr room ↦ ground (
      arith,
      tally-prune now s id few,
      tally-insert-le in_processing id j x (prune now s).sessions,
      tally-insert-ge in_processing id j x (prune now s).sessions,
      prune-Lessens is_any is_any-IsStable id now s few,
    )
  ]

  pub begin_for-Spares :
      (now created : ℕ) (clock : ℤ) (bound : Result AccountError (Unit {0}))
      (auth : Result AccountError Authorization) (random : Result AccountError String)
      (provider : Provider) (workflow : Workflow) (label : Option String) (s : Sessions)
      → length s.sessions ≤ 128
      → Spares s (begin_for now created clock bound auth random provider workflow label s)
  unfolding begin_for
  begin_for-Spares now created clock bound auth random provider workflow label s few =
      elim (Result-cases
        (ready (check_label label) bound auth random (checked_add clock (pos 180)))) [
          | inr (e, bad) ↦ ground arith
          | inl ((a, j, at), good) ↦ ground (
            arith,
            enter-Spares now j (new_session provider workflow label a at created) s few refl,
          )
        ]

  pub begin_device-Spares :
      (now began elapsed : ℕ) (clock : ℤ) (answer : Result AccountError Device)
      (random : Result AccountError String) (label : Option String) (s : Sessions)
      → length s.sessions ≤ 128
      → Spares s (begin_device now began elapsed clock answer random label s)
  unfolding begin_device
  begin_device-Spares now began elapsed clock answer random label s few =
      let device = in_time began elapsed answer in
      elim (Result-cases (ready (ok tt) (ok tt) device random (end_of clock device))) [
        | inr (e, bad) ↦ ground arith
        | inl (((d, left), j, at), good) ↦
            ground (arith, enter-Spares now j (device_session label d at began) s few refl)
      ]

  pub finish-others :
      (j : String) (result : Result AccountError String) (s : Sessions)
      → (id == j) ≡ false
      → works (finish_end j result s).0 ≡ works s
  unfolding finish_end
  finish-others j result s other = elim (Option-cases (lookup j s.sessions)) [
    | inl missing ↦ ground arith
    | inr (x, there) ↦
        ground (arith, tally-update in_processing id j (settle result) s.sessions x there)
  ]

settle-ends :
    (r : Result AccountError String) (x : PendingSession) → in_processing (settle r x) ≡ false
settle-ends (ok a) x = refl
settle-ends (err e) x = refl

-- The only session with an id, where it is being processed, is ended by `finish`, which tells its end.
module _ (id : String) (s : Sessions) (busy : 1 ≤ works id s)
    (one : tally is_any id s.sessions ≤ 1) where
  pub finish-works :
      (result : Result AccountError String) → works id (finish_end id result s).0 + 1 ≡ works id s
  unfolding finish_end
  finish-works result = elim (Option-cases (lookup id s.sessions)) [
    | inl missing ↦ absurd (omega (arith, tally-missing in_processing id s.sessions missing))
    | inr (x, there) ↦ ground (
      arith,
      tally-update in_processing id id (settle result) s.sessions x there,
      tally-only in_processing id s.sessions x there,
      settle-ends result x,
    )
  ]

  pub finish-answer :
      (account : String)
      → (d : SessionDto) × ((finish_end id (ok account) s).1 ≡ ok d)
        × (d.id ≡ id)
        × (d.status ≡ completed)
        × (d.account_id ≡ some account)
  unfolding finish_end dto
  finish-answer account = elim (Option-cases (lookup id s.sessions)) [
    | inl missing ↦ absurd (omega (arith, tally-missing in_processing id s.sessions missing))
    | inr (x, there) ↦ (dto id (settle (ok account) x), ground arith, refl, refl, refl)
  ]

-- A session that `get` finds to be of this machine is in the table.
abbrev pub Finds : String → Sessions → Result AccountError SessionDto → Type 0
Finds id s (ok d) = one_if (not (is_device_code d.workflow)) ≤ tally off_device id s.sessions
Finds id s (err e) = Unit {0}

pub get-Finds :
    (now later : ℕ) (id : String) (s : Sessions)
    → length s.sessions ≤ 128
    → Finds id s (get now later id s).1
unfolding get dto
get-Finds now later id s few = elim (Option-cases (lookup id (prune now s).sessions)) [
  | inl missing ↦ ground arith
  | inr (x, there) ↦ ground (
    arith,
    tally-lookup off_device id (prune now s).sessions x there,
    prune-Lessens off_device off_device-IsStable id now s few,
  )
]
