-- ===== src/Accounts/Oauth/Stable.antt =====
-- Tests of sessions that no method but a begin makes true of more sessions.
use quotio_cli.Base.{
  ℕ, ◌+◌, ◌≤◌, String, ◌≡◌, refl, Bool, true, false, not, ◌&&◌, Option, none, length, leb, arith,
  if◌then◌else◌, Result, ok, err, string_eq, ◌==◌, ℤ, Option-cases, Bool-cases, Result-cases, inl,
  inr, checked_add, pos,
}
use quotio_cli.Base.Dict.{lookup}
use quotio_cli.Provider.{Provider}
use quotio_cli.Accounts.Credential.{AccountError}
use quotio_cli.Accounts.Oauth.{
  OauthMode, expired, Workflow, device_code, Authorization, SessionDto, PendingSession, Sessions,
  is_waiting, expire, prune, is_some, dto,
}
use quotio_cli.Accounts.Oauth.Manager.{
  get, looked_at, cancel, call_off, claim, taken, claim_device, started, end_device, end_loopback,
  end_waiting, finish_end, settle,
}
use quotio_cli.Accounts.Oauth.Begin.{
  Device, begin_for, begin_device, admit_device, begin_keyed, enter, ready, in_time, end_of,
  check_label, new_session, device_session,
}
use quotio_cli.Accounts.Oauth.History.{DeviceEnd, over, denied, broken, end_status, end_code}
use quotio_cli.Accounts.Oauth.Tally.{
  Test, Shrinks, tally, tally-update-le, tally-insert-le, tally-prune-le, is_any,
}

-- The changes of one session.
pub data Change : Type 0 where
  pruned : ℕ → Change
  seen : ℕ → Change
  off : Change
  took : Change
  start : Change
  device_end : DeviceEnd → Change
  loopback_end : Change
  settled : Result AccountError String → Change

abbrev pub change : Change → PendingSession → PendingSession
change (pruned now) = expire now
change (seen later) = looked_at later
change off = call_off
change took = taken
change start = started
change (device_end e) =
    end_waiting (λ x. record x { status = end_status e; error_code = end_code e })
change loopback_end = end_waiting (λ x. record x { status = expired; authorization = none })
change (settled r) = settle r

abbrev pub IsStable : Test → Type 0
IsStable p = (c : Change) → Shrinks p (change c)

abbrev pub Lessens : Test → String → Sessions → Sessions → Type 0
Lessens p id s t = tally p id t.sessions ≤ tally p id s.sessions

module _ (p : Test) (stable : IsStable p) (id : String) where
  pub prune-Lessens :
      (now : ℕ) (s : Sessions) → length s.sessions ≤ 128 → Lessens p id s (prune now s)
  prune-Lessens now s few = tally-prune-le now s few p id (stable (pruned now))

  pub get-Lessens :
      (now later : ℕ) (j : String) (s : Sessions)
      → length s.sessions ≤ 128
      → Lessens p id s (get now later j s).0
  unfolding get
  get-Lessens now later j s few = elim (Option-cases (lookup j (prune now s).sessions)) [
    | inl missing ↦ ground (arith, prune-Lessens now s few)
    | inr (x, there) ↦ ground (
      arith,
      prune-Lessens now s few,
      tally-update-le p id j (looked_at later) (stable (seen later)) (prune now s).sessions,
    )
  ]

  pub cancel-Lessens :
      (now : ℕ) (j : String) (s : Sessions)
      → length s.sessions ≤ 128
      → Lessens p id s (cancel now j s).0
  unfolding cancel
  cancel-Lessens now j s few = elim (Option-cases (lookup j (prune now s).sessions)) [
    | inl missing ↦ ground (arith, prune-Lessens now s few)
    | inr (x, there) ↦ ground (
      arith,
      prune-Lessens now s few,
      tally-update-le p id j call_off (stable off) (prune now s).sessions,
    )
  ]

  pub claim-Lessens :
      (now : ℕ) (j : String) (s : Sessions)
      → length s.sessions ≤ 128
      → Lessens p id s (claim now j s).0
  unfolding claim
  claim-Lessens now j s few = elim (Option-cases (lookup j (prune now s).sessions)) [
    | inl missing ↦ ground (arith, prune-Lessens now s few)
    | inr (x, there) ↦ ground (
      arith,
      prune-Lessens now s few,
      tally-update-le p id j taken (stable took) (prune now s).sessions,
    )
  ]

  pub claim_device-Lessens :
      (now : ℕ) (j : String) (s : Sessions)
      → length s.sessions ≤ 128
      → Lessens p id s (claim_device now j s).0
  unfolding claim_device
  claim_device-Lessens now j s few = elim (Option-cases (lookup j (prune now s).sessions)) [
    | inl missing ↦ ground (arith, prune-Lessens now s few)
    | inr (x, there) ↦ ground (
      arith,
      prune-Lessens now s few,
      tally-update-le p id j started (stable start) (prune now s).sessions,
    )
  ]

  pub end_device-Lessens :
      (j : String) (e : DeviceEnd) (s : Sessions)
      → Lessens p id s (end_device j (end_status e) (end_code e) s)
  unfolding end_device
  end_device-Lessens j e s =
      tally-update-le p id j (change (device_end e)) (stable (device_end e)) s.sessions

  pub end_loopback-Lessens : (j : String) (s : Sessions) → Lessens p id s (end_loopback j s)
  unfolding end_loopback
  end_loopback-Lessens j s =
      tally-update-le p id j (change loopback_end) (stable loopback_end) s.sessions

  pub finish-Lessens :
      (j : String) (result : Result AccountError String) (s : Sessions)
      → Lessens p id s (finish_end j result s).0
  unfolding finish_end
  finish-Lessens j result s = elim (Option-cases (lookup j s.sessions)) [
    | inl missing ↦ ground arith
    | inr (x, there) ↦
        ground (arith, tally-update-le p id j (settle result) (stable (settled result)) s.sessions)
  ]

  pub admit_device-Lessens :
      (now : ℕ) (label : Option String) (s : Sessions)
      → length s.sessions ≤ 128
      → Lessens p id s (admit_device now label s).0
  unfolding admit_device
  admit_device-Lessens now label s few = ground (arith, prune-Lessens now s few)

  pub begin_keyed-Lessens :
      (now : ℕ) (provider : Provider) (label : Option String) (mode : OauthMode) (key : String)
      (s : Sessions)
      → length s.sessions ≤ 128
      → Lessens p id s (begin_keyed now provider label mode key s).0
  unfolding begin_keyed
  begin_keyed-Lessens now provider label mode key s few = ground (arith, prune-Lessens now s few)

abbrev pub is_device_code : Workflow → Bool
is_device_code device_code = true
is_device_code _ = false

abbrev pub on_device : Test
on_device x = is_device_code x.workflow

abbrev pub off_device : Test
off_device x = not (is_device_code x.workflow)

-- A session of this machine that waits without an authorization.
abbrev pub unsigned : Test
unsigned x = is_waiting x.status && not (is_device_code x.workflow) && not (is_some x.authorization)

-- The changes leave the workflow as it is.
change-workflow : (c : Change) (x : PendingSession) → (change c x).workflow ≡ x.workflow
change-workflow (pruned now) x = ground arith
change-workflow (seen later) x = ground arith
change-workflow off x = refl
change-workflow took x = refl
change-workflow start x = refl
change-workflow (device_end e) x = ground arith
change-workflow loopback_end x = ground arith
change-workflow (settled (ok a)) x = refl
change-workflow (settled (err e)) x = refl

pub on_device-IsStable : IsStable on_device
on_device-IsStable c x h = rw (change-workflow c x) at h

pub off_device-IsStable : IsStable off_device
off_device-IsStable c x h = rw (change-workflow c x) at h

pub unsigned-IsStable : IsStable unsigned
unsigned-IsStable (pruned now) x h = ground arith
unsigned-IsStable (seen later) x h = ground arith
unsigned-IsStable off x h = ground arith
unsigned-IsStable took x h = ground arith
unsigned-IsStable start x h = ground arith
unsigned-IsStable (device_end over) x h = ground arith
unsigned-IsStable (device_end denied) x h = ground arith
unsigned-IsStable (device_end (broken code)) x h = ground arith
unsigned-IsStable loopback_end x h = ground arith
unsigned-IsStable (settled (ok a)) x h = ground arith
unsigned-IsStable (settled (err e)) x h = ground arith

-- A begin adds one session, of which the test is `bit`.
abbrev pub Grows :
    Test → Bool → String → Sessions → Sessions × Result AccountError SessionDto → Type 0
Grows p bit id s (t, ok d) =
    tally p id t.sessions ≤ tally p id s.sessions + (if id == d.id && bit then 1 else 0)
Grows p bit id s (t, err e) = tally p id t.sessions ≤ tally p id s.sessions

module _ (p : Test) (stable : IsStable p) (bit : Bool) (id : String) where
  enter-Grows :
      (j : String) (x : PendingSession) (s t : Sessions)
      → p x ≡ bit
      → Lessens p id s t
      → Grows p bit id s (enter j x t)
  unfolding dto
  enter-Grows j x s t same le = elim (Bool-cases (leb 128 (length t.sessions))) [
    | inl full ↦ ground arith
    | inr room ↦ ground (arith, tally-insert-le p id j x t.sessions)
  ]

  pub begin_for-Grows :
      (now created : ℕ) (clock : ℤ) (bound : Result AccountError (Unit {0}))
      (auth : Result AccountError Authorization) (random : Result AccountError String)
      (provider : Provider) (workflow : Workflow) (label : Option String) (s : Sessions)
      → ((a : Authorization) (at : ℤ) → p (new_session provider workflow label a at created) ≡ bit)
      → length s.sessions ≤ 128
      → Grows p bit id s (begin_for now created clock bound auth random provider workflow label s)
  unfolding begin_for
  begin_for-Grows now created clock bound auth random provider workflow label s same few =
      elim (Result-cases
        (ready (check_label label) bound auth random (checked_add clock (pos 180)))) [
          | inr (e, bad) ↦ ground arith
          | inl ((a, j, at), good) ↦ ground (
            arith,
            enter-Grows j (new_session provider workflow label a at created) s (prune now s)
                (same a at) (prune-Lessens p stable id now s few),
          )
        ]

  pub begin_device-Grows :
      (now began elapsed : ℕ) (clock : ℤ) (answer : Result AccountError Device)
      (random : Result AccountError String) (label : Option String) (s : Sessions)
      → ((d : Device) (at : ℤ) → p (device_session label d at began) ≡ bit)
      → length s.sessions ≤ 128
      → Grows p bit id s (begin_device now began elapsed clock answer random label s)
  unfolding begin_device
  begin_device-Grows now began elapsed clock answer random label s same few =
      let device = in_time began elapsed answer in
      elim (Result-cases (ready (ok tt) (ok tt) device random (end_of clock device))) [
        | inr (e, bad) ↦ ground arith
        | inl (((d, left), j, at), good) ↦ ground (
          arith,
          enter-Grows j (device_session label d at began) s (prune now s) (same d at)
              (prune-Lessens p stable id now s few),
        )
      ]

pub is_any-IsStable : IsStable is_any
is_any-IsStable c x h = refl
