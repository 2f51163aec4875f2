-- ===== src/Base/Lists.antt =====
-- Sequences: the iterator methods that the source uses, and their laws.
use Prim.Native.Nat.{ℕ, suc, ◌+◌}
use mathlib.Core.Path.{◌≡◌, refl}
use mathlib.Core.Bool.{Bool, true, false, not, ◌&&◌, ◌||◌}
use mathlib.Core.Logic.{inl, inr}
use mathlib.Core.Option.{Option, none, some}
use mathlib.Core.List.{List, [], ◌∷◌, ◌++◌, Memᴰ}
use mathlib.Core.List.Memᴰ.{head, tail}
use native.Mathlib.Omega.{arith}
use quotio_cli.Base.Tests.{if◌then◌else◌, Bool-cases}

module _ {ℓ} {A : Type ℓ} where
  abbrev pub length : List A → ℕ
  length [] = 0
  length (x ∷ xs) = suc (length xs)

  abbrev pub any : (A → Bool) → List A → Bool
  any p [] = false
  any p (x ∷ xs) = p x || any p xs

  abbrev pub all : (A → Bool) → List A → Bool
  all p [] = true
  all p (x ∷ xs) = p x && all p xs

  -- `iter().find(p)`
  abbrev pub find : (A → Bool) → List A → Option A
  find p [] = none
  find p (x ∷ xs) = if p x then some x else find p xs

  -- `retain(p)`, and `filter(p)` of an iterator.
  abbrev pub retain : (A → Bool) → List A → List A
  retain p [] = []
  retain p (x ∷ xs) = if p x then x ∷ retain p xs else retain p xs

  -- `filter(p).count()`
  abbrev pub count : (A → Bool) → List A → ℕ
  count p [] = 0
  count p (x ∷ xs) = (if p x then 1 else 0) + count p xs

  -- `iter_mut().find(p)` and a write through the reference.
  abbrev pub update_first : (A → Bool) → (A → A) → List A → List A
  update_first p f [] = []
  update_first p f (x ∷ xs) = if p x then f x ∷ xs else x ∷ update_first p f xs

  -- `position(p)` and `remove` at that index.
  abbrev pub remove_first : (A → Bool) → List A → List A
  remove_first p [] = []
  remove_first p (x ∷ xs) = if p x then xs else x ∷ remove_first p xs

  pub length-append : (xs ys : List A) → length (xs ++ ys) ≡ length xs + length ys
  length-append [] ys = omega arith
  length-append (x ∷ xs) ys = omega (arith, length-append xs ys)

  pub count-append : (p : A → Bool) (xs ys : List A) → count p (xs ++ ys) ≡ count p xs + count p ys
  count-append p [] ys = omega arith
  count-append p (x ∷ xs) ys = omega (arith, count-append p xs ys)

  pub any-append : (p : A → Bool) (xs ys : List A) → any p (xs ++ ys) ≡ (any p xs || any p ys)
  any-append p [] ys = refl
  any-append p (x ∷ xs) ys = ground (arith, any-append p xs ys)

module _ {ℓ κ} {A : Type ℓ} where
  abbrev pub All : (A → Type κ) → List A → Type κ
  All P [] = Unit
  All P (x ∷ xs) = P x × All P xs

  -- For the elements that are there, and for those that come after them.
  pub All-append :
      (P : A → Type κ) (front back : List A) → All P front → All P back → All P (front ++ back)
  All-append P [] back tt later = later
  All-append P (first ∷ front) back (known, rest) later =
      (known, All-append P front back rest later)

module _ {ℓ} {A : Type ℓ} (p : A → Bool) where
  pub retain-append : (xs ys : List A) → retain p (xs ++ ys) ≡ retain p xs ++ retain p ys
  retain-append [] ys = refl
  retain-append (x ∷ xs) ys = ground (arith, retain-append xs ys)

  pub retain_every : (xs : List A) → All (λ x. p x ≡ true) xs → retain p xs ≡ xs
  retain_every [] none_left = refl
  retain_every (x ∷ xs) (h, hs) = ground (arith, retain_every xs hs)

  pub retain-not : (xs : List A) → All (λ x. p x ≡ true) xs → retain (λ x. not (p x)) xs ≡ []
  retain-not [] none_left = refl
  retain-not (x ∷ xs) (h, hs) = ground (arith, retain-not xs hs)

  pub retain-retain : (xs : List A) → retain p (retain p xs) ≡ retain p xs
  retain-retain [] = refl
  retain-retain (x ∷ xs) = ground (arith, retain-retain xs)

  pub retain-rest : (xs : List A) → retain p (retain (λ x. not (p x)) xs) ≡ []
  retain-rest [] = refl
  retain-rest (x ∷ xs) = ground (arith, retain-rest xs)

module _ {ℓ κ} {A : Type ℓ} (p : A → Bool) where
  pub retain-All : (P : A → Type κ) (xs : List A) → All P xs → All P (retain p xs)
  retain-All P [] none_left = tt
  retain-All P (x ∷ xs) (h, hs) = elim (Bool-cases (p x)) [
    | inl kept ↦ rw kept (h, retain-All P xs hs)
    | inr dropped ↦ rw dropped (retain-All P xs hs)
  ]

-- What `any` finds.
pub any_found :
    {A : Type 0} (p : A → Bool) (xs : List A) → any p xs ≡ true → (x : A) × Memᴰ x xs × (p x ≡ true)
any_found p [] h = absurd (ground arith)
any_found p (x ∷ xs) h = elim (Bool-cases (p x)) [
  | inl this ↦ (x, head refl, this)
  | inr other ↦ let (y, there, found) = any_found p xs (ground arith) in (y, tail there, found)
]

pub any_of_mem :
    {A : Type 0} (p : A → Bool) (xs : List A) (x : A) → Memᴰ x xs → p x ≡ true → any p xs ≡ true
any_of_mem p [] x m h = elim m [ ]
any_of_mem p (y ∷ ys) x (head e) h = ground arith
any_of_mem p (y ∷ ys) x (tail m) h = ground (arith, any_of_mem p ys x m h)
