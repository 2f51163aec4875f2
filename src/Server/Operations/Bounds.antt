-- ===== src/Server/Operations/Bounds.antt =====
-- The table of operations stays within its bounds.
use quotio_cli.Base.{
  ℕ, ◌+◌, ◌-◌, ◌≤◌, String, ◌≡◌, Bool, List, [], ◌∷◌, Option, none, some, arith, retain, count,
  if◌then◌else◌, Result, string_eq, Option-cases, inl, inr,
}
use quotio_cli.Base.Dict.{insert}
use quotio_cli.Server.Operations.{
  Entry, Operations, has_key, is_running, remove, remove_first_ones, prune, admit, new_entry, start,
  finish, get, answered,
}

pub record IsBounded {Value : Type 0} (d : Operations Value) : Type 0 where
  pub running : count is_running d ≤ 128
  pub keyed : count has_key d ≤ 4096

module _ {Value : Type 0} where
  count-retain-le :
      (p q : String × Entry Value → Bool) (d : Operations Value) → count p (retain q d) ≤ count p d
  count-retain-le p q [] = omega arith
  count-retain-le p q (x ∷ d) = ground (arith, count-retain-le p q d)

  count-remove-le :
      (p : String × Entry Value → Bool) (id : String) (d : Operations Value)
      → count p (remove id d) ≤ count p d
  unfolding remove
  count-remove-le p id [] = omega arith
  count-remove-le p id (x ∷ d) = ground (arith, count-remove-le p id d)

  count-removed-le :
      (p : String × Entry Value → Bool) (n : ℕ) (xs : List (String × ℕ)) (d : Operations Value)
      → count p (remove_first_ones n xs d) ≤ count p d
  unfolding remove_first_ones
  count-removed-le p n [] d = omega arith
  count-removed-le p n ((id, t) ∷ xs) d =
      ground (arith, count-removed-le p (n - 1) xs (remove id d), count-remove-le p id d)

  count-prune-le :
      (p : String × Entry Value → Bool) (now : ℕ) (d : Operations Value)
      → count p (prune now d) ≤ count p d
  unfolding prune
  count-prune-le p now d = omega (arith, count-removed-le p _ _ (retain _ d), count-retain-le p _ d)

  count-insert-le :
      (p : String × Entry Value → Bool) (id : String) (e : Entry Value) (d : Operations Value)
      → count p (insert id e d) ≤ (if p (id, e) then 1 else 0) + count p d
  unfolding insert
  count-insert-le p id e [] = omega arith
  count-insert-le p id e ((j, x) ∷ d) = ground (arith, count-insert-le p id e d)

  prune-IsBounded : (now : ℕ) (d : Operations Value) → IsBounded d → IsBounded (prune now d)
  prune-IsBounded now d h = record {
    running = omega (arith, h.running, count-prune-le is_running now d);
    keyed = omega (arith, h.keyed, count-prune-le has_key now d);
  }

  count-finish-le :
      (now : ℕ) (id : String) (result : Result String Value) (d : Operations Value)
      → (count is_running (finish now id result d) ≤ count is_running d)
        × (count has_key (finish now id result d) ≡ count has_key d)
  unfolding finish
  count-finish-le now id result [] = ground arith
  count-finish-le now id result ((j, e) ∷ d) = ground (arith, count-finish-le now id result d)

  finish-IsBounded :
      (now : ℕ) (id : String) (result : Result String Value) (d : Operations Value)
      → IsBounded d
      → IsBounded (finish now id result d)
  finish-IsBounded now id result d h =
      let (running, keyed) = count-finish-le now id result d in
      record { running = omega (arith, running, h.running); keyed = omega (arith, keyed, h.keyed) }

  admit-IsBounded :
      (random : Option String) (kind : String) (key : Option String) (fingerprint : String)
      (d : Operations Value)
      → IsBounded d
      → IsBounded (admit random kind key fingerprint d).0
  unfolding admit
  admit-IsBounded none kind key fingerprint d h = record {
    running = ground (arith, h.running);
    keyed = ground (arith, h.keyed);
  }
  admit-IsBounded (some id) kind key fingerprint d h = record {
    running =
        ground
          (arith, h.running, count-insert-le is_running id (new_entry id kind key fingerprint) d);
    keyed =
        ground (arith, h.keyed, count-insert-le has_key id (new_entry id kind key fingerprint) d);
  }

  start-IsBounded :
      (now : ℕ) (random : Option String) (kind : String) (key : Option String)
      (fingerprint : String) (d : Operations Value)
      → IsBounded d
      → IsBounded (start now random kind key fingerprint d).0
  unfolding start
  start-IsBounded now random kind key fingerprint d h =
      let kept = prune-IsBounded now d h in
      elim (Option-cases (answered kind key fingerprint (prune now d))) [
        | inr (a, e) ↦ rw (e, start) kept
        | inl e ↦ rw (e, start) (admit-IsBounded random kind key fingerprint (prune now d) kept)
      ]

-- A call of a method of the table, with the clock and what it is given.
pub data Step (Value : Type 0) : Type 0 where
  starts :
      (now : ℕ) (random : Option String) (kind : String) (key : Option String)
      (fingerprint : String)
      → Step Value
  finishes : (now : ℕ) (id : String) (result : Result String Value) → Step Value
  gets : (now : ℕ) (id : String) → Step Value

module _ {Value : Type 0} where
  abbrev pub after : Step Value → Operations Value → Operations Value
  after (starts now random kind key fingerprint) d = (start now random kind key fingerprint d).0
  after (finishes now id result) d = finish now id result d
  after (gets now id) d = (get now id d).0

  abbrev pub run : List (Step Value) → Operations Value → Operations Value
  run [] d = d
  run (s ∷ steps) d = run steps (after s d)

  after-IsBounded : (s : Step Value) (d : Operations Value) → IsBounded d → IsBounded (after s d)
  unfolding get
  after-IsBounded (starts now random kind key fingerprint) d h =
      start-IsBounded now random kind key fingerprint d h
  after-IsBounded (finishes now id result) d h = finish-IsBounded now id result d h
  after-IsBounded (gets now id) d h = prune-IsBounded now d h

  run_from-IsBounded :
      (steps : List (Step Value)) (d : Operations Value) → IsBounded d → IsBounded (run steps d)
  run_from-IsBounded [] d h = h
  run_from-IsBounded (s ∷ steps) d h = run_from-IsBounded steps (after s d) (after-IsBounded s d h)

  -- After any sequence of calls of `start`, `finish` and `get` on an empty table, at most 128
  -- operations run and at most 4096 entries have a retry key.
  pub operations-IsBounded : (steps : List (Step Value)) → IsBounded (run steps [])
  operations-IsBounded steps =
      run_from-IsBounded steps [] (record { running = omega arith; keyed = omega arith })
