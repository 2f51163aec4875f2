-- ===== src/Accounts/Oauth/Polling.antt =====
-- src/accounts/oauth.rs: the loop of `poll_device`. A reply of the token endpoint comes with the time
-- that it took, in nanoseconds; the fuel is the number of rounds.
use quotio_cli.Base.{
  ℕ, zero, suc, ◌+◌, ◌-◌, ◌*◌, ◌^◌, ◌≤◌, ◌<◌, String, ◌≡◌, refl, Option, none, some, arith, leb,
  if◌then◌else◌, Bool-cases, inl, inr,
}
use quotio_cli.Accounts.Credential.{AccountError}
use quotio_cli.Accounts.Oauth.{seconds}
use quotio_cli.Accounts.Oauth.Codes.{Poll, pending, slow_down, over, denied, token}

-- `min` and the additions and products of `u64`, which stop at its greatest value.
abbrev min : ℕ → ℕ → ℕ
min a b = if leb a b then a else b

abbrev u64_max : ℕ
u64_max = 2 ^ 64 - 1

abbrev saturating_add : ℕ → ℕ → ℕ
saturating_add a b = min (a + b) u64_max

abbrev saturating_mul : ℕ → ℕ → ℕ
saturating_mul a b = min (a * b) u64_max

-- A reply, or that the request timed out or failed in transit.
pub data Reply : Type 0 where
  answered : Poll → Reply
  unreachable : Reply
  refused : AccountError → Reply

pub data Outcome : Type 0 where
  expired cancelled : Outcome
  failed : AccountError → Outcome
  authorized : String → Outcome

-- What the loop does with a reply: it ends, or goes on with an interval.
pub data Verdict : Type 0 where
  stop : Outcome → Verdict
  go_on : ℕ → Verdict

unfoldable pub verdict : ℕ → Reply → Verdict
verdict interval unreachable = go_on (min (saturating_mul interval 2) 3600)
verdict interval (refused e) = stop (failed e)
verdict interval (answered pending) = go_on interval
verdict interval (answered slow_down) = go_on (saturating_add interval 5)
verdict interval (answered over) = stop expired
verdict interval (answered denied) = stop cancelled
verdict interval (answered (token t)) = stop (authorized t)

abbrev pub Net : Type 0
Net = ℕ → Reply × ℕ

-- What is left of a round after the reply. The deadline ends a request too.
abbrev pub judged : (ℕ → Option Outcome) → ℕ → ℕ → Verdict → Option Outcome
judged again deadline now (stop o) = if leb deadline now then some expired else some o
judged again deadline now (go_on next) = if leb deadline now then some expired else again next

-- The loop: it sleeps, looks at the deadline, and asks. `none` is that the fuel is used up.
unfoldable pub poll_loop : ℕ → Net → ℕ → ℕ → ℕ → Option Outcome
unfolding verdict
poll_loop zero net interval deadline now = none
poll_loop (suc fuel) net interval deadline now =
    let asked = now + seconds interval in
    let (reply, took) = net asked in
    let again = λ (next : ℕ). poll_loop fuel net next deadline (asked + took) in
    if leb deadline asked
    then some expired
    else judged again deadline (asked + took) (verdict interval reply)

-- A loop that goes on does so with an interval of at least five seconds.
verdict-le :
    (interval next : ℕ) (r : Reply) → 5 ≤ interval → verdict interval r ≡ go_on next → 5 ≤ next
unfolding verdict
verdict-le interval next r h e = ground arith

judged-ends :
    (again : ℕ → Option Outcome) (deadline now interval : ℕ) (r : Reply)
    → 5 ≤ interval
    → (now < deadline → (next : ℕ) → 5 ≤ next → (o : Outcome) × (again next ≡ some o))
    → (o : Outcome) × (judged again deadline now (verdict interval r) ≡ some o)
judged-ends again deadline now interval r slow more = by_verdict (verdict interval r) refl
  where
    by_verdict :
        (v : Verdict)
        → verdict interval r ≡ v
        → (o : Outcome) × (judged again deadline now v ≡ some o)
    by_verdict (stop o) e = elim (Bool-cases (leb deadline now)) [
      | inl late ↦ (expired, rw late refl)
      | inr soon ↦ (o, rw soon refl)
    ]
    by_verdict (go_on next) e = elim (Bool-cases (leb deadline now)) [
      | inl late ↦ (expired, rw late refl)
      | inr soon ↦ rw soon (more (ground arith) next (verdict-le interval next r slow e))
    ]

-- Whatever the token endpoint answers and however long it takes, the polling of a device login
-- that begins before its deadline, with an interval of at least five seconds, ends within a
-- number of rounds of which five seconds each reach past the deadline.
pub poll_loop-ends :
    (fuel : ℕ) (net : Net) (interval deadline now : ℕ)
    → 5 ≤ interval
    → now ≤ deadline
    → deadline < now + seconds 5 * fuel
    → (o : Outcome) × (poll_loop fuel net interval deadline now ≡ some o)
unfolding poll_loop
poll_loop-ends zero net interval deadline now slow early enough = absurd (omega arith)
poll_loop-ends (suc fuel) net interval deadline now slow early enough =
    elim (Bool-cases (leb deadline (now + seconds interval))) [
      | inl late ↦ (expired, rw late refl)
      | inr soon ↦ rw soon (
          judged-ends _ deadline (now + seconds interval + (net (now + seconds interval)).1)
            interval (net (now + seconds interval)).0 slow
            (λ before next still.
              poll_loop-ends fuel net next deadline
                (now + seconds interval + (net (now + seconds interval)).1) still (omega arith)
                (omega arith)))
    ]
