-- ===== src/Accounts/Oauth/Tally.antt =====
-- How many sessions of the table have an id and pass a test, and what the operations on the table do to
-- that number.
use quotio_cli.Base.{
  ℕ, ◌+◌, ◌≤◌, String, ◌≡◌, refl, Bool, true, not, ◌&&◌, [], ◌∷◌, none, some, retain, length, arith,
  if◌then◌else◌, string_eq, ◌==◌,
}
use quotio_cli.Base.Dict.{Dict, lookup, insert, update}
use quotio_cli.Accounts.Oauth.{
  PendingSession, Sessions, expire, expire_all, is_kept, is_processing, prune, prune_sessions,
}

abbrev pub Test : Type 0
Test = PendingSession → Bool

abbrev pub tally : Test → String → Dict PendingSession → ℕ
tally p id [] = 0
tally p id ((j, x) ∷ d) = (if id == j && p x then 1 else 0) + tally p id d

-- The test holds of no more sessions, or of just the same, after a change.
abbrev pub Shrinks : Test → (PendingSession → PendingSession) → Type 0
Shrinks p f = (x : PendingSession) → p (f x) ≡ true → p x ≡ true

abbrev pub Keeps : Test → (PendingSession → PendingSession) → Type 0
Keeps p f = (x : PendingSession) → p (f x) ≡ p x

module _ (p : Test) (id : String) where
  pub tally-lookup :
      (d : Dict PendingSession) (x : PendingSession)
      → lookup id d ≡ some x
      → (if p x then 1 else 0) ≤ tally p id d
  unfolding lookup
  tally-lookup [] x h = absurd (ground arith)
  tally-lookup ((j, y) ∷ d) x h = ground (arith, tally-lookup d x)

  pub tally-update :
      (j : String) (f : PendingSession → PendingSession) (d : Dict PendingSession)
      (x : PendingSession)
      → lookup j d ≡ some x
      → tally p id (update j f d) + (if id == j && p x then 1 else 0)
        ≡ tally p id d + (if id == j && p (f x) then 1 else 0)
  unfolding lookup update
  tally-update j f [] x h = absurd (ground arith)
  tally-update j f ((k, y) ∷ d) x h = ground (arith, tally-update j f d x)

  pub tally-update-le :
      (j : String) (f : PendingSession → PendingSession)
      → Shrinks p f
      → (d : Dict PendingSession) → tally p id (update j f d) ≤ tally p id d
  unfolding update
  tally-update-le j f shrinks [] = omega arith
  tally-update-le j f shrinks ((k, y) ∷ d) =
      ground (arith, tally-update-le j f shrinks d, shrinks y)

  pub tally-update-eq :
      (j : String) (f : PendingSession → PendingSession)
      → Keeps p f
      → (d : Dict PendingSession) → tally p id (update j f d) ≡ tally p id d
  unfolding update
  tally-update-eq j f keeps [] = refl
  tally-update-eq j f keeps ((k, y) ∷ d) = ground (arith, tally-update-eq j f keeps d, keeps y)

  pub tally-insert-le :
      (j : String) (x : PendingSession) (d : Dict PendingSession)
      → tally p id (insert j x d) ≤ tally p id d + (if id == j && p x then 1 else 0)
  unfolding insert
  tally-insert-le j x [] = ground arith
  tally-insert-le j x ((k, y) ∷ d) = ground (arith, tally-insert-le j x d)

  tally-retain-le :
      (k : String × PendingSession → Bool) (d : Dict PendingSession)
      → tally p id (retain k d) ≤ tally p id d
  tally-retain-le k [] = omega arith
  tally-retain-le k (x ∷ d) = ground (arith, tally-retain-le k d)

  tally-expire-le :
      (now : ℕ)
      → Shrinks p (expire now)
      → (d : Dict PendingSession) → tally p id (expire_all now d) ≤ tally p id d
  tally-expire-le now shrinks [] = omega arith
  tally-expire-le now shrinks ((j, x) ∷ d) =
      ground (arith, tally-expire-le now shrinks d, shrinks x)

abbrev pub is_any : Test
is_any x = true

pub length-update :
    (j : String) (f : PendingSession → PendingSession) (d : Dict PendingSession)
    → length (update j f d) ≡ length d
unfolding update
length-update j f [] = refl
length-update j f ((k, y) ∷ d) = ground (arith, length-update j f d)

length-retain-le :
    (k : String × PendingSession → Bool) (d : Dict PendingSession) → length (retain k d) ≤ length d
length-retain-le k [] = omega arith
length-retain-le k (x ∷ d) = ground (arith, length-retain-le k d)

length-expire : (now : ℕ) (d : Dict PendingSession) → length (expire_all now d) ≡ length d
length-expire now [] = refl
length-expire now ((j, x) ∷ d) = omega (arith, length-expire now d)

-- Within the bound `prune` removes no session for its number.
pub prune_sessions-small :
    (now : ℕ) (d : Dict PendingSession)
    → length d ≤ 128
    → prune_sessions now d ≡ retain (is_kept now) (expire_all now d)
unfolding prune_sessions
prune_sessions-small now d few =
    ground (arith, length-retain-le (is_kept now) (expire_all now d), length-expire now d)

module _ (now : ℕ) (s : Sessions) (few : length s.sessions ≤ 128) where
  pub length-prune : length (prune now s).sessions ≤ 128
  unfolding prune
  length-prune = rw (prune_sessions-small now s.sessions few) (
      omega (
        arith,
        length-retain-le (is_kept now) (expire_all now s.sessions),
        length-expire now s.sessions,
      ))

  pub tally-prune-le :
      (p : Test) (id : String)
      → Shrinks p (expire now)
      → tally p id (prune now s).sessions ≤ tally p id s.sessions
  unfolding prune
  tally-prune-le p id shrinks = rw (prune_sessions-small now s.sessions few) (
      omega (
        arith,
        tally-retain-le p id (is_kept now) (expire_all now s.sessions),
        tally-expire-le p id now shrinks s.sessions,
      ))

abbrev pub in_processing : Test
in_processing x = is_processing x.status

tally-kept :
    (now : ℕ) (id : String) (d : Dict PendingSession)
    → tally in_processing id (retain (is_kept now) (expire_all now d)) ≡ tally in_processing id d
tally-kept now id [] = refl
tally-kept now id ((j, x) ∷ d) = ground (arith, tally-kept now id d)

pub tally-prune :
    (now : ℕ) (s : Sessions) (id : String)
    → length s.sessions ≤ 128
    → tally in_processing id (prune now s).sessions ≡ tally in_processing id s.sessions
unfolding prune
tally-prune now s id few =
    rw (prune_sessions-small now s.sessions few) (tally-kept now id s.sessions)

pub tally-missing :
    (p : Test) (id : String) (d : Dict PendingSession) → lookup id d ≡ none → tally p id d ≡ 0
unfolding lookup
tally-missing p id [] h = refl
tally-missing p id ((j, y) ∷ d) h = ground (arith, tally-missing p id d)

tally-le-any : (p : Test) (id : String) (d : Dict PendingSession) → tally p id d ≤ tally is_any id d
tally-le-any p id [] = omega arith
tally-le-any p id ((j, y) ∷ d) = ground (arith, tally-le-any p id d)

-- What an insert may overwrite.
pub tally-insert-ge :
    (p : Test) (id j : String) (x : PendingSession) (d : Dict PendingSession)
    → tally p id d ≤ tally p id (insert j x d) + (if id == j then tally is_any id d else 0)
unfolding insert
tally-insert-ge p id j x [] = omega arith
tally-insert-ge p id j x ((k, y) ∷ d) = ground (arith, tally-insert-ge p id j x d)

-- Where only one session has the id, it is the one that is found.
pub tally-only :
    (p : Test) (id : String) (d : Dict PendingSession) (x : PendingSession)
    → lookup id d ≡ some x
    → tally is_any id d ≤ 1
    → tally p id d ≡ (if p x then 1 else 0)
unfolding lookup
tally-only p id [] x h one = absurd (ground arith)
tally-only p id ((j, y) ∷ d) x h one = ground (arith, tally-only p id d x, tally-le-any p id d)

pub tally-split :
    (p : Test) (id : String) (d : Dict PendingSession)
    → tally is_any id d ≡ tally p id d + tally (λ x. not (p x)) id d
tally-split p id [] = refl
tally-split p id ((j, y) ∷ d) = ground (arith, tally-split p id d)
