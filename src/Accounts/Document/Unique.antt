-- ===== src/Accounts/Document/Unique.antt =====
-- No two accounts share an id, and no two of a provider share a label or an identity.
use quotio_cli.Base.{
  String, ◌≡◌, refl, ◌∙◌, Bool, true, false, List, [], ◌∷◌, ◌++◌, map, some, arith, any, ◌==◌,
  string_eq, find, any-append, update_first, remove_first,
}
use quotio_cli.Provider.{provider_eq}
use quotio_cli.Accounts.Credential.{Account}
use quotio_cli.Accounts.Document.{has_id, clashes, same_label, relabel}

-- No later entry conflicts with an earlier one.
abbrev pub Apart {ℓ} : {A : Type ℓ} → (A → A → Bool) → List A → Type 0
Apart c [] = Unit {0}
Apart c (x ∷ xs) = (any (c x) xs ≡ false) × Apart c xs

abbrev pub same_id : Account → Account → Bool
same_id a b = a.id == b.id

abbrev pub UniqueIds : List Account → Type 0
UniqueIds = Apart same_id

-- The test of `add`, between two accounts.
abbrev pub conflicts : Account → Account → Bool
conflicts a b = clashes b.provider b.label b.identity a

abbrev pub UniqueLabels : List Account → Type 0
UniqueLabels = Apart conflicts

module _ {ℓ} {A : Type ℓ} (c : A → A → Bool) where
  pub Apart-concat :
      (xs : List A) (y : A) → any (λ x. c x y) xs ≡ false → Apart c xs → Apart c (xs ++ y ∷ [])
  Apart-concat [] y h p = (refl, tt)
  Apart-concat (x ∷ xs) y h p = ground (arith, Apart-concat xs y, any-append (c x) xs (y ∷ []))

  any-remove_first :
      (q r : A → Bool) (xs : List A) → any q xs ≡ false → any q (remove_first r xs) ≡ false
  any-remove_first q r [] h = refl
  any-remove_first q r (x ∷ xs) h = ground (arith, any-remove_first q r xs)

  pub Apart-remove_first : (r : A → Bool) (xs : List A) → Apart c xs → Apart c (remove_first r xs)
  Apart-remove_first r [] p = tt
  Apart-remove_first r (x ∷ xs) p =
      ground (arith, Apart-remove_first r xs p.1, any-remove_first (c x) r xs)

-- A change of entries that `c` does not see.
module _ {ℓ} {A : Type ℓ} (c : A → A → Bool) (f : A → A) (left : (a b : A) → c (f a) b ≡ c a b)
    (right : (a b : A) → c a (f b) ≡ c a b) where
  any-update_first :
      (a : A) (r : A → Bool) (xs : List A) → any (c a) (update_first r f xs) ≡ any (c a) xs
  any-update_first a r [] = refl
  any-update_first a r (x ∷ xs) = ground (arith, any-update_first a r xs, right a x)

  any-left : (a : A) (xs : List A) → any (c (f a)) xs ≡ any (c a) xs
  any-left a [] = refl
  any-left a (x ∷ xs) = ground (arith, any-left a xs, left a x)

  pub Apart-update_first : (r : A → Bool) (xs : List A) → Apart c xs → Apart c (update_first r f xs)
  Apart-update_first r [] p = tt
  Apart-update_first r (x ∷ xs) p =
      ground (arith, Apart-update_first r xs p.1, any-update_first x r xs, any-left x xs)

  any-map : (a : A) (xs : List A) → any (c a) (map f xs) ≡ any (c a) xs
  any-map a [] = refl
  any-map a (x ∷ xs) = ground (arith, any-map a xs, right a x)

  pub Apart-map : (xs : List A) → Apart c xs → Apart c (map f xs)
  Apart-map [] p = tt
  Apart-map (x ∷ xs) p = (any-map (f x) xs ∙ any-left x xs ∙ p.0, Apart-map xs p.1)

-- `rename`: the new label is no other account's of the provider.
any-relabel :
    (a : Account) (id text : String) (xs : List Account) (found : Account)
    → find (has_id id) xs ≡ some found
    → same_label found.provider id text a ≡ false
    → (a.id == id) ≡ false
    → any (conflicts a) xs ≡ false
    → any (conflicts a) (update_first (has_id id) (relabel text) xs) ≡ false
any-relabel a id text [] found e s n h = refl
any-relabel a id text (x ∷ xs) found e s n h = ground (arith, any-relabel a id text xs found)

any-relabel_left :
    (a : Account) (id text : String) (xs : List Account)
    → (a.id == id) ≡ true
    → any (same_id a) xs ≡ false
    → any (same_label a.provider id text) xs ≡ false
    → any (conflicts a) xs ≡ false
    → any (conflicts (relabel text a)) xs ≡ false
any-relabel_left a id text [] e u s h = refl
any-relabel_left a id text (x ∷ xs) e u s h = ground (arith, any-relabel_left a id text xs)

pub relabel-UniqueLabels :
    (id text : String) (xs : List Account) (found : Account)
    → find (has_id id) xs ≡ some found
    → any (same_label found.provider id text) xs ≡ false
    → UniqueIds xs
    → UniqueLabels xs
    → UniqueLabels (update_first (has_id id) (relabel text) xs)
relabel-UniqueLabels id text [] found e s u p = tt
relabel-UniqueLabels id text (x ∷ xs) found e s u p = ground (
  arith,
  relabel-UniqueLabels id text xs found,
  any-relabel x id text xs found,
  any-relabel_left x id text xs,
)
