-- ===== src/Accounts/Oauth/Falls.antt =====
-- What each method does to the number of sessions, and to those with an id that wait for a decision.
use quotio_cli.Base.{
  ℕ, ◌+◌, ◌≤◌, String, ◌≡◌, inl, inr, refl, Bool, true, false, ◌&&◌, Option, none, some, length,
  leb, arith, if◌then◌else◌, Result, ok, err, string_eq, ◌==◌, ℤ, Option-cases, Bool-cases,
  Result-cases, checked_add, pos,
}
use quotio_cli.Base.Dict.{lookup, update, length-insert-le}
use quotio_cli.Provider.{Provider}
use quotio_cli.Accounts.Credential.{AccountError}
use quotio_cli.Accounts.Oauth.{
  OauthMode, Workflow, Authorization, SessionDto, PendingSession, Sessions, is_waiting, expire,
  prune, expired, is_some, dto,
}
use quotio_cli.Accounts.Oauth.Manager.{
  get, looked_at, cancel, call_off, claim, taken, claim_device, started, end_device, end_loopback,
  end_waiting, finish_end, settle,
}
use quotio_cli.Accounts.Oauth.Begin.{
  Device, begin_for, begin_device, admit_device, begin_keyed, begin_end, enter, new_session,
  device_session, check_label, ready, in_time, end_of,
}
use quotio_cli.Accounts.Oauth.History.{DeviceEnd, end_status, end_code}
use quotio_cli.Accounts.Oauth.Tally.{
  Shrinks, tally, tally-update, tally-update-le, tally-insert-le, tally-prune-le, length-prune,
  length-update,
}

abbrev pub in_waiting : PendingSession → Bool
in_waiting x = is_waiting x.status

expire-Shrinks : (now : ℕ) → Shrinks in_waiting (expire now)
expire-Shrinks now x h = ground arith

settle-Shrinks : (r : Result AccountError String) → Shrinks in_waiting (settle r)
settle-Shrinks (ok a) y h = absurd (ground arith)
settle-Shrinks (err e) y h = absurd (ground arith)

abbrev pub is_ok {ℓ κ} : {E : Type ℓ} {A : Type κ} → Result E A → Bool
is_ok (ok a) = true
is_ok (err e) = false

-- The table stays within its bound, and `n` of the waiting sessions with the id are gone.
abbrev pub Falls : String → ℕ → Sessions → Sessions → Type 0
Falls id n s t =
    (length t.sessions ≤ 128)
    × (tally in_waiting id t.sessions + n ≤ tally in_waiting id s.sessions)

abbrev pub one_if : Bool → ℕ
one_if b = if b then 1 else 0

module _ (id : String) where
  pub prune-Falls : (now : ℕ) (s : Sessions) → length s.sessions ≤ 128 → Falls id 0 s (prune now s)
  prune-Falls now s few = (
    length-prune now s few,
    omega (arith, tally-prune-le now s few in_waiting id (expire-Shrinks now)),
  )

  update-Falls :
      (j : String) (f : PendingSession → PendingSession) (s : Sessions)
      → Shrinks in_waiting f
      → length s.sessions ≤ 128
      → Falls id 0 s (record s { sessions = update j f s.sessions })
  update-Falls j f s shrinks few = (
    omega (arith, length-update j f s.sessions),
    omega (arith, tally-update-le in_waiting id j f shrinks s.sessions),
  )

  -- The session `j` was waiting, and is not any more.
  decide-Falls :
      (j : String) (f : PendingSession → PendingSession) (s : Sessions) (x : PendingSession)
      → length s.sessions ≤ 128
      → lookup j s.sessions ≡ some x
      → in_waiting x ≡ true
      → in_waiting (f x) ≡ false
      → Falls id (one_if (id == j)) s (record s { sessions = update j f s.sessions })
  decide-Falls j f s x few there before after = (
    omega (arith, length-update j f s.sessions),
    ground (arith, tally-update in_waiting id j f s.sessions x there),
  )

  pub get-Falls :
      (now later : ℕ) (j : String) (s : Sessions)
      → length s.sessions ≤ 128
      → Falls id 0 s (get now later j s).0
  unfolding get
  get-Falls now later j s few = elim (Option-cases (lookup j (prune now s).sessions)) [
    | inl missing ↦ ground (arith, prune-Falls now s few)
    | inr (x, there) ↦ ground (
      arith,
      prune-Falls now s few,
      update-Falls j (looked_at later) (prune now s) (λ y h. ground arith) (length-prune now s few),
    )
  ]

  pub cancel-Falls :
      (now : ℕ) (j : String) (s : Sessions)
      → length s.sessions ≤ 128
      → Falls id (one_if (is_ok (cancel now j s).1 && id == j)) s (cancel now j s).0
  unfolding cancel
  cancel-Falls now j s few = elim (Option-cases (lookup j (prune now s).sessions)) [
    | inl missing ↦ ground (arith, prune-Falls now s few)
    | inr (x, there) ↦ elim (Bool-cases (is_waiting x.status)) [
      | inr late ↦ ground (arith, prune-Falls now s few)
      | inl free ↦ ground (
        arith,
        prune-Falls now s few,
        decide-Falls j call_off (prune now s) x (length-prune now s few) there free refl,
      )
    ]
  ]

  pub claim-Falls :
      (now : ℕ) (j : String) (s : Sessions)
      → length s.sessions ≤ 128
      → Falls id (one_if (is_ok (claim now j s).1 && id == j)) s (claim now j s).0
  unfolding claim
  claim-Falls now j s few = elim (Option-cases (lookup j (prune now s).sessions)) [
    | inl missing ↦ ground (arith, prune-Falls now s few)
    | inr (x, there) ↦ elim (Bool-cases (is_waiting x.status)) [
      | inr late ↦ ground (arith, prune-Falls now s few)
      | inl free ↦ ground (
        arith,
        prune-Falls now s few,
        decide-Falls j taken (prune now s) x (length-prune now s few) there free refl,
      )
    ]
  ]

  pub claim_device-Falls :
      (now : ℕ) (j : String) (s : Sessions)
      → length s.sessions ≤ 128
      → Falls id (one_if (is_some (claim_device now j s).1 && id == j)) s (claim_device now j s).0
  unfolding claim_device
  claim_device-Falls now j s few = elim (Option-cases (lookup j (prune now s).sessions)) [
    | inl missing ↦ ground (arith, prune-Falls now s few)
    | inr (x, there) ↦ elim (Bool-cases (is_waiting x.status)) [
      | inr late ↦ ground (arith, prune-Falls now s few)
      | inl free ↦ ground (
        arith,
        prune-Falls now s few,
        decide-Falls j started (prune now s) x (length-prune now s few) there free refl,
      )
    ]
  ]

  pub finish-Falls :
      (j : String) (result : Result AccountError String) (s : Sessions)
      → length s.sessions ≤ 128
      → Falls id 0 s (finish_end j result s).0
  unfolding finish_end
  finish-Falls j result s few = elim (Option-cases (lookup j s.sessions)) [
    | inl missing ↦ ground (arith, few)
    | inr (x, there) ↦ ground (arith, update-Falls j (settle result) s (settle-Shrinks result) few)
  ]

  pub end_device-Falls :
      (j : String) (e : DeviceEnd) (s : Sessions)
      → length s.sessions ≤ 128
      → Falls id 0 s (end_device j (end_status e) (end_code e) s)
  unfolding end_device
  end_device-Falls j e s few =
      update-Falls j
        (end_waiting (λ x. record x { status = end_status e; error_code = end_code e })) s
        (λ y h. ground arith) few

  pub end_loopback-Falls :
      (j : String) (s : Sessions) → length s.sessions ≤ 128 → Falls id 0 s (end_loopback j s)
  unfolding end_loopback
  end_loopback-Falls j s few =
      update-Falls j (end_waiting (λ x. record x { status = expired; authorization = none })) s
        (λ y h. ground arith) few

  -- What a begin leaves: its session may be waiting.
  abbrev pub Enters : Sessions → Sessions × Result AccountError SessionDto → Type 0
  Enters s (t, ok d) =
      (length t.sessions ≤ 128)
      × (tally in_waiting id t.sessions ≤ tally in_waiting id s.sessions + one_if (id == d.id))
  Enters s (t, err e) = Falls id 0 s t

  enter-Enters :
      (j : String) (x : PendingSession) (s t : Sessions) → Falls id 0 s t → Enters s (enter j x t)
  unfolding dto
  enter-Enters j x s t (few, le) = elim (Bool-cases (leb 128 (length t.sessions))) [
    | inl full ↦ ground (arith, few, le)
    | inr room ↦
        ground
          (arith, le, length-insert-le j x t.sessions, tally-insert-le in_waiting id j x t.sessions)
  ]

  same-Falls : (s : Sessions) → length s.sessions ≤ 128 → Falls id 0 s s
  same-Falls s few = (few, omega arith)

  pub begin_for-Enters :
      (now created : ℕ) (clock : ℤ) (bound : Result AccountError (Unit {0}))
      (auth : Result AccountError Authorization) (random : Result AccountError String)
      (provider : Provider) (workflow : Workflow) (label : Option String) (s : Sessions)
      → length s.sessions ≤ 128
      → Enters s (begin_for now created clock bound auth random provider workflow label s)
  unfolding begin_for
  begin_for-Enters now created clock bound auth random provider workflow label s few =
      elim (Result-cases
        (ready (check_label label) bound auth random (checked_add clock (pos 180)))) [
          | inr (e, bad) ↦ ground (arith, same-Falls s few)
          | inl ((a, j, at), good) ↦ ground (
            arith,
            enter-Enters j (new_session provider workflow label a at created) s (prune now s)
                (prune-Falls now s few),
          )
        ]

  pub begin_device-Enters :
      (now began elapsed : ℕ) (clock : ℤ) (answer : Result AccountError Device)
      (random : Result AccountError String) (label : Option String) (s : Sessions)
      → length s.sessions ≤ 128
      → Enters s (begin_device now began elapsed clock answer random label s)
  unfolding begin_device
  begin_device-Enters now began elapsed clock answer random label s few =
      let device = in_time began elapsed answer in
      elim (Result-cases (ready (ok tt) (ok tt) device random (end_of clock device))) [
        | inr (e, bad) ↦ ground (arith, same-Falls s few)
        | inl (((d, left), j, at), good) ↦ ground (
          arith,
          enter-Enters j (device_session label d at began) s (prune now s) (prune-Falls now s few),
        )
      ]

  pub admit_device-Falls :
      (now : ℕ) (label : Option String) (s : Sessions)
      → length s.sessions ≤ 128
      → Falls id 0 s (admit_device now label s).0
  unfolding admit_device
  admit_device-Falls now label s few = ground (arith, prune-Falls now s few)

  pub begin_keyed-Falls :
      (now : ℕ) (provider : Provider) (label : Option String) (mode : OauthMode) (key : String)
      (s : Sessions)
      → length s.sessions ≤ 128
      → Falls id 0 s (begin_keyed now provider label mode key s).0
  unfolding begin_keyed
  begin_keyed-Falls now provider label mode key s few = ground (arith, prune-Falls now s few)

  -- The end of a key leaves the sessions as they are.
  abbrev pub Leaves : Sessions → Option Sessions → Type 0
  Leaves s none = Unit {0}
  Leaves s (some t) = t.sessions ≡ s.sessions

  pub begin_end-Leaves :
      (key : String) (result : Result AccountError SessionDto) (s : Sessions)
      → Leaves s (begin_end key result s)
  unfolding begin_end
  begin_end-Leaves key (err e) s = refl
  begin_end-Leaves key (ok d) s = elim (Option-cases (lookup key s.begins)) [
    | inl missing ↦ ground arith
    | inr (c, there) ↦ ground arith
  ]
