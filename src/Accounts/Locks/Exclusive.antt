-- ===== src/Accounts/Locks/Exclusive.antt =====
-- The table of locks does what a set of held paths does.
use quotio_cli.Base.{
  ℕ, ◌≤◌, String, ◌≡◌, refl, ap, subst, ◌∙◌, false, List, [], ◌∷◌, Option, none, some, remove_first,
  arith, Result, ok, err, ◌==◌, string_eq, nat_eq, Bool-cases, inl, inr, ==_refl,
}
use mathlib.Core.Path.{ap₂}
use quotio_cli.Accounts.Credential.{AccountError, busy}
use quotio_cli.Accounts.Locks.{
  Lock, Process, is_held, acquire_process_lock, release, acquire, flocked, Flock, locked,
  not_opened, taken,
}
use quotio_cli.Accounts.Locks.Sound.{
  holders, Agrees, IsSound, Paths, claim, take_path, acquire_busy, acquire_free, release-IsSound,
}

-- The process holds just these paths.
abbrev Holds : Process → Paths → Type 0
Holds p held = (p.guards ≡ held) × IsSound p

absent :
    (path : String) (guards : List String)
    → is_held path guards ≡ false
    → guards ≡ remove_first (λ g. g == path) guards
absent path [] unused = refl
absent path (g ∷ guards) unused = ground (arith, absent path guards)

release-guards :
    (path : String) (p : Process) → (release path p).guards ≡ remove_first (λ g. g == path) p.guards
unfolding release
release-guards path p = elim (Bool-cases (is_held path p.guards)) [
  | inl used ↦ rw used refl
  | inr unused ↦ rw unused (absent path p.guards unused)
]

release-Holds :
    (path : String) (p : Process) (held : Paths)
    → Holds p held
    → Holds (release path p) (remove_first (λ g. g == path) held)
release-Holds path p held (same, sound) =
    (release-guards path p ∙ ap (remove_first (λ g. g == path)) same, release-IsSound path p sound)

flocked_err :
    (f : Flock) (path : String) (x : Process × Result AccountError (Unit {0})) (e : AccountError)
    → x.1 ≡ err e
    → flocked f path x ≡ (x.0, err e)
flocked_err f path (p, err e') e h = ap (λ r. (p, r)) h
flocked_err f path (p, ok u) e h = absurd (ground arith)

-- What one task does.
pub data Step : Type 0 where
  acquires : Flock → String → Step
  releases : String → Step

unfoldable pub run : List Step → Process → Process × List (Result AccountError (Unit {0}))
unfolding acquire
run [] p = (p, [])
run (acquires f path ∷ steps) p =
    let (q, answer) = acquire f path p in let (r, answers) = run steps q in (r, answer ∷ answers)
run (releases path ∷ steps) p = run steps (release path p)

-- The same steps on the set of held paths.
unfoldable pub run_paths : List Step → Paths → Paths × List (Result AccountError (Unit {0}))
run_paths [] held = (held, [])
run_paths (acquires f path ∷ steps) held =
    let (next, answer) = take_path f path held in
    let (last, answers) = run_paths steps next in (last, answer ∷ answers)
run_paths (releases path ∷ steps) held = run_paths steps (remove_first (λ g. g == path) held)

first_gone : (path : String) (held : Paths) → remove_first (λ g. g == path) (path ∷ held) ≡ held
first_gone path held = rw (==_refl path) refl

flocked_ok :
    (f : Flock) (path : String) (x : Process × Result AccountError (Unit {0})) (held : Paths)
    → x.1 ≡ ok tt
    → Holds x.0 (path ∷ held)
    → Holds (flocked f path x).0 (claim f path held).0
      × ((flocked f path x).1 ≡ (claim f path held).1)
flocked_ok f path (p, err e) held h holds = absurd (ground arith)
flocked_ok locked path (p, ok u) held h holds = (holds, h)
flocked_ok not_opened path (p, ok u) held h holds = (
  subst (Holds (release path p)) (first_gone path held) (release-Holds path p (path ∷ held) holds),
  refl,
)
flocked_ok taken path (p, ok u) held h holds = (
  subst (Holds (release path p)) (first_gone path held) (release-Holds path p (path ∷ held) holds),
  refl,
)

-- What the set of paths answers, the process answers too, and goes on to hold the same paths.
abbrev IsClaimed :
    Process × Result AccountError (Unit {0}) → Paths × Result AccountError (Unit {0}) → Type 0
IsClaimed x y = Holds x.0 y.0 × (x.1 ≡ y.1)

acquire_own :
    (f : Flock) (path : String) (p : Process)
    → IsSound p
    → IsClaimed (acquire f path p) (take_path f path p.guards)
unfolding acquire
acquire_own f path p sound = elim (Bool-cases (is_held path p.guards)) [
  | inl used ↦
      let (kept, answer, still) = acquire_busy path p sound used in
      rw (used, flocked_err f path (acquire_process_lock path p) busy answer) ((kept, still), refl)
  | inr free ↦
      let (more, answer, still) = acquire_free path p sound free in
      rw free (flocked_ok f path (acquire_process_lock path p) p.guards answer (more, still))
]

acquire-Holds :
    (f : Flock) (path : String) (p : Process) (held : Paths)
    → Holds p held
    → IsClaimed (acquire f path p) (take_path f path held)
acquire-Holds f path p held (same, sound) =
    subst (λ h. IsClaimed (acquire f path p) (take_path f path h)) same (acquire_own f path p sound)

run-Holds :
    (steps : List Step) (p : Process) (held : Paths)
    → Holds p held
    → Holds (run steps p).0 (run_paths steps held).0 × ((run steps p).1 ≡ (run_paths steps held).1)
unfolding run run_paths
run-Holds [] p held h = (h, refl)
run-Holds (acquires f path ∷ steps) p held h =
    let (now, answer) = acquire-Holds f path p held h in
    let (last, answers) = run-Holds steps (acquire f path p).0 (take_path f path held).0 now in
    (last, ap₂ (λ a as_all. a ∷ as_all) answer answers)
run-Holds (releases path ∷ steps) p held h =
    run-Holds steps (release path p) (remove_first (λ g. g == path) held)
      (release-Holds path p held h)

abbrev pub fresh : Process
fresh = record { table = λ path. none; guards = [] }

fresh-IsSound : IsSound fresh
fresh-IsSound path = refl

-- Any sequence of acquisitions and releases, with any answers of `flock`, gets from the table of
-- weak references to atomic flags the same answers as from a set of held paths, to which an
-- acquisition adds its path, where it is not there and `flock` succeeds, and from which a
-- release takes it, and holds the same paths at its end.
pub run-paths :
    (steps : List Step)
    → ((run steps fresh).1 ≡ (run_paths steps []).1)
      × ((run steps fresh).0.guards ≡ (run_paths steps []).0)
run-paths steps =
    let (holds, answers) = run-Holds steps fresh [] (refl, fresh-IsSound) in (answers, holds.0)

few_holders : (o : Option Lock) (n : ℕ) → Agrees o n → n ≤ 1
few_holders none n h = omega arith
few_holders (some lock) n (strong, held, few) = few

-- After any sequence of acquisitions and releases, with any answers of `flock`, at most one
-- guard of a path is alive in the process.
pub run-Exclusive :
    (steps : List Step) (path : String) → holders path (run steps fresh).0.guards ≤ 1
run-Exclusive steps path =
    few_holders _ _ ((run-Holds steps fresh [] (refl, fresh-IsSound)).0.1 path)
