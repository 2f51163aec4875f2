-- ===== src/Usage/Fetch/Collected.antt =====
-- What the report of the collector does not depend on, and what it keeps.
use quotio_cli.Base.{
  ℕ, String, ◌≡◌, ◌≢◌, ◌⊎◌, refl, sym, ap, ◌∙◌, Bool, true, false, not, List, [], ◌∷◌, arith,
  retain, leb, Bool-cases, inl, inr,
}
use quotio_cli.Provider.{Definition}
use quotio_cli.Accounts.Credential.{ProviderError}
use quotio_cli.Usage.{Float, ProviderUsage}
use quotio_cli.Usage.Fetch.{
  Answer, Task, WindowEq, insert_at, sort, collect, is_local, is_removed, reconcile_accounts,
}

-- The same results, each with its index, in another order.
pub data Reordered {Fl : Float} : List (ℕ × Answer Fl) → List (ℕ × Answer Fl) → Type 0 where
  same : (xs : List (ℕ × Answer Fl)) → Reordered xs xs
  swap :
      (i j : ℕ) (r q : Answer Fl) (xs : List (ℕ × Answer Fl))
      → i ≢ j
      → Reordered ((i, r) ∷ (j, q) ∷ xs) ((j, q) ∷ (i, r) ∷ xs)
  later :
      (x : ℕ × Answer Fl) (xs ys : List (ℕ × Answer Fl))
      → Reordered xs ys
      → Reordered (x ∷ xs) (x ∷ ys)
  andthen : (xs ys zs : List (ℕ × Answer Fl)) → Reordered xs ys → Reordered ys zs → Reordered xs zs

apart :
    (i j : ℕ)
    → i ≢ j
    → ((leb i j ≡ true) × (leb j i ≡ false)) ⊎ ((leb i j ≡ false) × (leb j i ≡ true))
apart i j h = ground arith

between : (i j l : ℕ) → leb i j ≡ true → leb i l ≡ false → leb j l ≡ true → ⊥
between i j l a b c = ground arith

module _ {Fl : Float} where
  here :
      (i l : ℕ) (r p : Answer Fl) (xs : List (ℕ × Answer Fl))
      → leb i l ≡ true
      → insert_at (i, r) ((l, p) ∷ xs) ≡ (i, r) ∷ (l, p) ∷ xs
  unfolding insert_at
  here i l r p xs h = rw h refl

  past :
      (i l : ℕ) (r p : Answer Fl) (xs : List (ℕ × Answer Fl))
      → leb i l ≡ false
      → insert_at (i, r) ((l, p) ∷ xs) ≡ (l, p) ∷ insert_at (i, r) xs
  unfolding insert_at
  past i l r p xs h = rw h refl

  alone : (i : ℕ) (r : Answer Fl) → insert_at (i, r) [] ≡ (i, r) ∷ []
  unfolding insert_at
  alone i r = refl

  -- With `i` before `j`.
  insert_at_before :
      (i j : ℕ) (r q : Answer Fl) (xs : List (ℕ × Answer Fl))
      → leb i j ≡ true
      → leb j i ≡ false
      → insert_at (i, r) (insert_at (j, q) xs) ≡ insert_at (j, q) (insert_at (i, r) xs)
  insert_at_before i j r q [] h k =
      rw (alone i r, alone j q)
        (here i j r q [] h ∙ ap (◌∷◌ (i, r)) (sym (alone j q)) ∙ sym (past j i q r [] k))
  insert_at_before i j r q ((l, p) ∷ xs) h k = elim (Bool-cases (leb i l)) [
    | inl a ↦ elim (Bool-cases (leb j l)) [
      | inl b ↦ cc (
        here i l r p xs a,
        here j l q p xs b,
        here i j r q ((l, p) ∷ xs) h,
        past j i q r ((l, p) ∷ xs) k,
      )
      | inr b ↦ cc (
        here i l r p xs a,
        past j l q p xs b,
        past j i q r ((l, p) ∷ xs) k,
        here i l r p (insert_at (j, q) xs) a,
      )
    ]
    | inr a ↦ elim (Bool-cases (leb j l)) [
      | inl b ↦ absurd (between i j l h a b)
      | inr b ↦ cc (
        past i l r p xs a,
        past j l q p xs b,
        past i l r p (insert_at (j, q) xs) a,
        past j l q p (insert_at (i, r) xs) b,
        insert_at_before i j r q xs h k,
      )
    ]
  ]

  insert_at_comm :
      (i j : ℕ) (r q : Answer Fl) (xs : List (ℕ × Answer Fl))
      → i ≢ j
      → insert_at (i, r) (insert_at (j, q) xs) ≡ insert_at (j, q) (insert_at (i, r) xs)
  insert_at_comm i j r q xs h = elim (apart i j h) [
    | inl (a, b) ↦ insert_at_before i j r q xs a b
    | inr (a, b) ↦ sym (insert_at_before j i q r xs b a)
  ]

  sort-Reordered : (xs ys : List (ℕ × Answer Fl)) → Reordered xs ys → sort xs ≡ sort ys
  unfolding sort
  sort-Reordered _ _ (same xs) = refl
  sort-Reordered _ _ (swap i j r q xs h) = insert_at_comm i j r q (sort xs) h
  sort-Reordered _ _ (later x xs ys h) = ap (insert_at x) (sort-Reordered xs ys h)
  sort-Reordered _ _ (andthen xs ys zs h k) = sort-Reordered xs ys h ∙ sort-Reordered ys zs k

  retain-retain :
      (p q : ProviderUsage Fl → Bool) (us : List (ProviderUsage Fl))
      → ((u : ProviderUsage Fl) → p u ≡ true → q u ≡ true)
      → retain p (retain q us) ≡ retain p us
  retain-retain p q [] h = refl
  retain-retain p q (u ∷ us) h = ground (arith, retain-retain p q us h, h u)

module _ {Fl : Float} (definitions : List Definition) (E : WindowEq Fl) where
  -- `reconcile_accounts` removes only usages of the local account: the others stay, in their
  -- order.
  pub reconcile-saved :
      (us : List (ProviderUsage Fl))
      → retain (λ u. not (is_local u.account_ref)) (reconcile_accounts definitions E us)
        ≡ retain (λ u. not (is_local u.account_ref)) us
  unfolding reconcile_accounts is_removed
  reconcile-saved us = retain-retain _ _ us λ u h. ground arith

  module _ (text_of : ProviderError → String) where
    -- The report of the collector does not depend on the order in which the tasks of the
    -- providers end: results that are swapped, any number of times, with their different indices
    -- give the same report.
    pub collect-Reordered :
        (now : ℕ) (tasks : List (Task Fl)) (xs ys : List (ℕ × Answer Fl))
        → Reordered xs ys
        → collect definitions E text_of now tasks xs ≡ collect definitions E text_of now tasks ys
    unfolding collect
    collect-Reordered now tasks xs ys h = rw (sort-Reordered xs ys h) refl
