-- ===== src/Accounts/Oauth/Keys.antt =====
-- Under a retry key one request runs at a time, and no claim is missing where the code expects one.
use quotio_cli.Base.{
  ℕ, ◌+◌, ◌≤◌, String, ◌≡◌, refl, Bool, false, not, ◌&&◌, [], ◌∷◌, Option, none, length, retain,
  arith, if◌then◌else◌, Result, string_eq, ◌==◌, Option-cases, inl, inr, ℤ,
}
use quotio_cli.Base.Dict.{Dict, lookup, insert, remove, update}
use quotio_cli.Provider.{Provider}
use quotio_cli.Accounts.Credential.{AccountError}
use quotio_cli.Accounts.Oauth.{
  Workflow, Authorization, PendingSession, BeginClaim, Sessions, prune, prune_sessions, is_retained,
  is_some,
}
use quotio_cli.Accounts.Oauth.Manager.{get, cancel, claim, claim_device, finish_end}
use quotio_cli.Accounts.Oauth.Begin.{begin_for, admit_device, Device, begin_device, recorded}

abbrev pub is_open : BeginClaim → Bool
is_open c = not (is_some c.session_id)

-- The claims of a key, and those of them whose task runs.
abbrev pub total : String → Dict BeginClaim → ℕ
total key [] = 0
total key ((j, c) ∷ d) = (if key == j then 1 else 0) + total key d

abbrev pub running : String → Dict BeginClaim → ℕ
running key [] = 0
running key ((j, c) ∷ d) = (if key == j && is_open c then 1 else 0) + running key d

-- Of the claims of a key, only ended ones may be gone.
abbrev pub Loses : String → Dict BeginClaim → Dict BeginClaim → Type 0
Loses key d e =
    (running key e ≡ running key d) × (total key e ≤ total key d) × (length e ≤ length d)

module _ (key : String) where
  pub retain-Loses :
      (sessions : Dict PendingSession) (d : Dict BeginClaim)
      → Loses key d (retain (is_retained sessions) d)
  retain-Loses sessions [] = (refl, omega arith, omega arith)
  retain-Loses sessions ((j, c) ∷ d) = elim (Option-cases c.session_id) [
    | inl still ↦ ground (arith, retain-Loses sessions d)
    | inr (id, done) ↦ ground (arith, retain-Loses sessions d)
  ]

  pub prune-Loses : (now : ℕ) (s : Sessions) → Loses key s.begins (prune now s).begins
  unfolding prune
  prune-Loses now s = retain-Loses (prune_sessions now s.sessions) s.begins

  pub get-Loses :
      (now later : ℕ) (j : String) (s : Sessions) → Loses key s.begins (get now later j s).0.begins
  unfolding get
  get-Loses now later j s = ground (arith, prune-Loses now s)

  pub cancel-Loses :
      (now : ℕ) (j : String) (s : Sessions) → Loses key s.begins (cancel now j s).0.begins
  unfolding cancel
  cancel-Loses now j s = ground (arith, prune-Loses now s)

  pub claim-Loses :
      (now : ℕ) (j : String) (s : Sessions) → Loses key s.begins (claim now j s).0.begins
  unfolding claim
  claim-Loses now j s = ground (arith, prune-Loses now s)

  pub claim_device-Loses :
      (now : ℕ) (j : String) (s : Sessions) → Loses key s.begins (claim_device now j s).0.begins
  unfolding claim_device
  claim_device-Loses now j s = ground (arith, prune-Loses now s)

  pub finish-Loses :
      (j : String) (result : Result AccountError String) (s : Sessions)
      → Loses key s.begins (finish_end j result s).0.begins
  unfolding finish_end
  finish-Loses j result s = ground arith

  pub admit_device-Loses :
      (now : ℕ) (label : Option String) (s : Sessions)
      → Loses key s.begins (admit_device now label s).0.begins
  unfolding admit_device
  admit_device-Loses now label s = ground (arith, prune-Loses now s)

  pub begin_for-Loses :
      (now created : ℕ) (clock : ℤ) (bound : Result AccountError (Unit {0}))
      (auth : Result AccountError Authorization) (random : Result AccountError String)
      (provider : Provider) (workflow : Workflow) (label : Option String) (s : Sessions)
      → Loses key s.begins
          (begin_for now created clock bound auth random provider workflow label s).0.begins
  unfolding begin_for
  begin_for-Loses now created clock bound auth random provider workflow label s =
      ground (arith, prune-Loses now s)

  pub begin_device-Loses :
      (now began elapsed : ℕ) (clock : ℤ) (answer : Result AccountError Device)
      (random : Result AccountError String) (label : Option String) (s : Sessions)
      → Loses key s.begins (begin_device now began elapsed clock answer random label s).0.begins
  unfolding begin_device
  begin_device-Loses now began elapsed clock answer random label s =
      ground (arith, prune-Loses now s)

  pub total-insert :
      (j : String) (c : BeginClaim) (d : Dict BeginClaim)
      → lookup j d ≡ none
      → (total key (insert j c d) ≡ total key d + (if key == j then 1 else 0))
        × (running key (insert j c d) ≡ running key d + (if key == j && is_open c then 1 else 0))
        × (length (insert j c d) ≡ length d + 1)
  unfolding insert lookup
  total-insert j c [] h = ground arith
  total-insert j c ((k, x) ∷ d) h = ground (arith, total-insert j c d)

  pub total-missing : (d : Dict BeginClaim) → lookup key d ≡ none → total key d ≡ 0
  unfolding lookup
  total-missing [] h = refl
  total-missing ((k, x) ∷ d) h = ground (arith, total-missing d)

  pub running-le-total : (d : Dict BeginClaim) → running key d ≤ total key d
  running-le-total [] = omega arith
  running-le-total ((k, x) ∷ d) = ground (arith, running-le-total d)

  -- The claim of another key is not touched, and that of the key is ended or removed.
  pub ended-Loses :
      (j id : String) (d : Dict BeginClaim)
      → (key == j) ≡ false
      → Loses key d (update j (recorded id) d) × Loses key d (remove j d)
  unfolding update remove
  ended-Loses j id [] other = ground arith
  ended-Loses j id ((k, x) ∷ d) other = ground (arith, ended-Loses j id d other)

  pub own_ended :
      (id : String) (d : Dict BeginClaim)
      → total key d ≤ 1
      → running key d ≡ 1
      → (running key (update key (recorded id) d) ≡ 0)
        × (total key (update key (recorded id) d) ≤ 1)
        × (length (update key (recorded id) d) ≡ length d)
        × (running key (remove key d) ≡ 0)
        × (total key (remove key d) ≤ 1)
        × (length (remove key d) ≤ length d)
  unfolding update remove
  own_ended id [] one open_one = absurd (omega arith)
  own_ended id ((k, x) ∷ d) one open_one = ground (arith, own_ended id d, running-le-total d)
