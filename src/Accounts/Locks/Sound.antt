-- ===== src/Accounts/Locks/Sound.antt =====
-- The table of locks says of each path how many guards it has.
use quotio_cli.Base.{
  ℕ, ◌+◌, ◌-◌, ◌≤◌, String, ◌≡◌, refl, sym, subst, ◌∙◌, true, false, List, [], ◌∷◌, Option, none,
  some, count, remove_first, arith, if◌then◌else◌, Result, ok, err, ◌==◌, string_eq, nat_eq, ltb,
  Bool-cases, inl, inr, ==_iff,
}
use quotio_cli.Accounts.Credential.{AccountError, busy, storage}
use quotio_cli.Accounts.Locks.{
  Lock, Table, alive, retain_alive, put, freed, Process, is_held, acquire_process_lock, release,
  Flock, locked, not_opened, taken,
}

abbrev pub holders : String → List String → ℕ
holders path = count (λ g. g == path)

-- The flag and the references of a path say how many guards it has, which is at most one.
abbrev pub Agrees : Option Lock → ℕ → Type 0
Agrees none n = n ≡ 0
Agrees (some lock) n = (lock.strong ≡ n) × (lock.held ≡ ltb 0 n) × (n ≤ 1)

abbrev pub IsSound : Process → Type 0
IsSound p = (path : String) → Agrees (p.table path) (holders path p.guards)

-- The set of the paths that are held, and what a task asks of it.
abbrev pub Paths : Type 0
Paths = List String

abbrev pub claim : Flock → String → Paths → Paths × Result AccountError (Unit {0})
claim locked path held = (path ∷ held, ok tt)
claim not_opened path held = (held, err storage)
claim taken path held = (held, err busy)

abbrev pub take_path : Flock → String → Paths → Paths × Result AccountError (Unit {0})
take_path f path held = if is_held path held then (held, err busy) else claim f path held

pub held_holders :
    (path : String) (guards : List String) → is_held path guards ≡ ltb 0 (holders path guards)
held_holders path [] = refl
held_holders path (g ∷ guards) = ground (arith, held_holders path guards)

alive-Agrees : (o : Option Lock) (n : ℕ) → Agrees o n → Agrees (alive o) n
alive-Agrees none n h = h
alive-Agrees (some lock) n (strong, held, few) = elim (Bool-cases (ltb 0 lock.strong)) [
  | inl in_use ↦ rw in_use (strong, held, few)
  | inr unused ↦ rw unused (ground arith)
]

-- A path without a guard has no lock left, and a path with one has a lock that is held.
alive-free : (o : Option Lock) (n : ℕ) → Agrees o n → ltb 0 n ≡ false → alive o ≡ none
alive-free none n h free = refl
alive-free (some lock) n (strong, held, few) free = ground arith

alive-taken :
    (o : Option Lock) (n : ℕ)
    → Agrees o n
    → ltb 0 n ≡ true
    → (lock : Lock) × (alive o ≡ some lock) × (lock.held ≡ true)
alive-taken none n h used = absurd (ground arith)
alive-taken (some lock) n (strong, held, few) used = (lock, ground arith, ground arith)

put-Agrees :
    (path q : String) (lock : Lock) (table : Table) (n : ℕ)
    → (path ≡ q → Agrees (some lock) n)
    → Agrees (table q) n
    → Agrees (put path lock table q) n
put-Agrees path q lock table n here elsewhere = elim (Bool-cases (path == q)) [
  | inl same ↦ rw same (here ((==_iff path q).0 same))
  | inr other ↦ rw other elsewhere
]

no_more : (o : Option Lock) (n : ℕ) → Agrees o n → Agrees o (0 + n)
no_more o n h = subst (Agrees o) (omega arith) h

sole : (n : ℕ) → ltb 0 n ≡ false → Agrees (some (record { held = true; strong = 1 })) (1 + n)
sole n none_here = (ground arith, ground arith, ground arith)

freed-Agrees : (o : Option Lock) (n : ℕ) → Agrees o n → Agrees (freed o) (n - 1)
freed-Agrees none n h = omega arith
freed-Agrees (some lock) n (strong, held, few) = (omega arith, ground arith, omega arith)

removed-same :
    (path q : String) (guards : List String)
    → (path == q) ≡ true
    → holders q (remove_first (λ g. g == path) guards) ≡ holders q guards - 1
removed-same path q [] same = omega arith
removed-same path q (g ∷ guards) same = ground (arith, removed-same path q guards same)

removed-other :
    (path q : String) (guards : List String)
    → (path == q) ≡ false
    → holders q (remove_first (λ g. g == path) guards) ≡ holders q guards
removed-other path q [] other = refl
removed-other path q (g ∷ guards) other = ground (arith, removed-other path q guards other)

pub acquire_busy :
    (path : String) (p : Process)
    → IsSound p
    → is_held path p.guards ≡ true
    → ((acquire_process_lock path p).0.guards ≡ p.guards)
      × ((acquire_process_lock path p).1 ≡ err busy)
      × IsSound (acquire_process_lock path p).0
unfolding acquire_process_lock
acquire_busy path p sound used =
    let n = holders path p.guards in
    let (lock, there, flag) =
      alive-taken (p.table path) n (sound path) (sym (held_holders path p.guards) ∙ used) in
    let known = subst (λ o. Agrees o n) there (alive-Agrees (p.table path) n (sound path)) in
    rw (there, flag)
      (
        refl,
        refl,
        λ q.
            put-Agrees path q lock (retain_alive p.table) (holders q p.guards)
              (λ same. subst (λ r. Agrees (some lock) (holders r p.guards)) same known)
              (alive-Agrees (p.table q) (holders q p.guards) (sound q)),
      )

pub acquire_free :
    (path : String) (p : Process)
    → IsSound p
    → is_held path p.guards ≡ false
    → ((acquire_process_lock path p).0.guards ≡ path ∷ p.guards)
      × ((acquire_process_lock path p).1 ≡ ok tt)
      × IsSound (acquire_process_lock path p).0
unfolding acquire_process_lock
acquire_free path p sound free =
    let unused = sym (held_holders path p.guards) ∙ free in
    let there = alive-free (p.table path) (holders path p.guards) (sound path) unused in
    rw there (
      refl,
      refl,
      λ q. elim (Bool-cases (path == q)) [
        | inl same ↦ rw same (
            sole (holders q p.guards)
              (subst (λ r. ltb 0 (holders r p.guards) ≡ false) ((==_iff path q).0 same) unused))
        | inr other ↦ rw other (
            no_more (alive (p.table q)) (holders q p.guards)
              (alive-Agrees (p.table q) (holders q p.guards) (sound q)))
      ],
    )

pub release-IsSound : (path : String) (p : Process) → IsSound p → IsSound (release path p)
unfolding release
release-IsSound path p sound = elim (Bool-cases (is_held path p.guards)) [
  | inr no_guard ↦ rw no_guard sound
  | inl used ↦ rw used (λ q. elim (Bool-cases (path == q)) [
    | inl same ↦
        rw (same, removed-same path q p.guards same)
          (freed-Agrees (p.table q) (holders q p.guards) (sound q))
    | inr other ↦ rw (other, removed-other path q p.guards other) (sound q)
  ])
]
