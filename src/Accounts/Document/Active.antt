-- ===== src/Accounts/Document/Active.antt =====
-- The active account of a provider: there is exactly one if the provider has an account at all.
use quotio_cli.Base.{
  ℕ, ◌+◌, String, ◌≡◌, refl, ◌≢◌, Bool, true, false, ◌||◌, List, [], ◌∷◌, map, some, arith, any,
  count, ◌==◌, string_eq, if◌then◌else◌, find, count-append, any-append, update_first, remove_first,
}
use quotio_cli.Provider.{Provider, provider_eq}
use quotio_cli.Accounts.Credential.{Credential, Account}
use quotio_cli.Accounts.Document.Unique.{UniqueIds}
use quotio_cli.Accounts.Document.{Document, push, is_active_of, has_id, set_active, without}

abbrev pub is_of : Provider → Account → Bool
is_of p a = a.provider == p

abbrev pub one_if : Bool → ℕ
one_if b = if b then 1 else 0

abbrev pub OneActive : List Account → Type 0
OneActive xs = (p : Provider) → count (is_active_of p) xs ≡ one_if (any (is_of p) xs)

count-any :
    (p : Provider) (xs : List Account)
    → any (is_active_of p) xs ≡ false
    → count (is_active_of p) xs ≡ 0
count-any p [] h = refl
count-any p (a ∷ xs) h = ground (arith, count-any p xs)

any-count :
    (p : Provider) (xs : List Account) → any (is_active_of p) xs ≡ true → any (is_of p) xs ≡ true
any-count p [] h = cc
any-count p (a ∷ xs) h = ground (arith, any-count p xs)

pub push-OneActive :
    (q : Provider) (text identity : String) (c : Credential) (id : String) (d : Document)
    → OneActive d.accounts
    → OneActive (push q text identity c id d).accounts
push-OneActive q text identity c id d h p =
    rw (count-append, any-append)
      (ground (arith, h p, count-any p d.accounts, any-count p d.accounts))

-- `remove`: the counts before, from those of the removed account and of the rest.
count-remove_first :
    (q r : Account → Bool) (xs : List Account) (a : Account)
    → find r xs ≡ some a
    → count q xs ≡ one_if (q a) + count q (remove_first r xs)
count-remove_first q r [] a h = cc
count-remove_first q r (x ∷ xs) a h = ground (arith, count-remove_first q r xs a)

any-remove_first :
    (q r : Account → Bool) (xs : List Account) (a : Account)
    → find r xs ≡ some a
    → any q xs ≡ (q a || any q (remove_first r xs))
any-remove_first q r [] a h = cc
any-remove_first q r (x ∷ xs) a h = ground (arith, any-remove_first q r xs a)

abbrev pub activate : Account → Account
activate a = record a { active = true }

abbrev promote : Provider → List Account → List Account
promote p = update_first (λ a. a.provider == p) activate

any-promote : (q p : Provider) (xs : List Account) → any (is_of q) (promote p xs) ≡ any (is_of q) xs
any-promote q p [] = refl
any-promote q p (x ∷ xs) = ground (arith, any-promote q p xs)

count-promote_ne :
    (q p : Provider) (xs : List Account)
    → q ≢ p
    → count (is_active_of q) (promote p xs) ≡ count (is_active_of q) xs
count-promote_ne q p [] h = refl
count-promote_ne q p (x ∷ xs) h = ground (arith, count-promote_ne q p xs h)

count-promote_self :
    (p : Provider) (xs : List Account)
    → count (is_active_of p) xs ≡ 0
    → count (is_active_of p) (promote p xs) ≡ one_if (any (is_of p) xs)
count-promote_self p [] h = refl
count-promote_self p (x ∷ xs) h = ground (arith, count-promote_self p xs)

count-le-any :
    (p : Provider) (xs : List Account) → any (is_of p) xs ≡ false → count (is_active_of p) xs ≡ 0
count-le-any p [] h = refl
count-le-any p (a ∷ xs) h = ground (arith, count-le-any p xs)

pub without-OneActive :
    (r : Account → Bool) (a : Account) (xs : List Account)
    → find r xs ≡ some a
    → OneActive xs
    → OneActive (without a (remove_first r xs))
without-OneActive r a xs e h p =
    let rest = remove_first r xs in
    ground (
      arith,
      h p,
      count-remove_first (is_active_of p) r xs a e,
      any-remove_first (is_of p) r xs a e,
      any-promote p a.provider rest,
      count-promote_ne p a.provider rest,
      count-promote_self a.provider rest,
      count-le-any p rest,
    )

-- `select`
any-set_active :
    (p q : Provider) (id : String) (xs : List Account)
    → any (is_of p) (map (set_active q id) xs) ≡ any (is_of p) xs
any-set_active p q id [] = refl
any-set_active p q id (x ∷ xs) = ground (arith, any-set_active p q id xs)

count-set_active_ne :
    (p q : Provider) (id : String) (xs : List Account)
    → p ≢ q
    → count (is_active_of p) (map (set_active q id) xs) ≡ count (is_active_of p) xs
count-set_active_ne p q id [] h = refl
count-set_active_ne p q id (x ∷ xs) h = ground (arith, count-set_active_ne p q id xs h)

count-set_active_absent :
    (q : Provider) (id : String) (xs : List Account)
    → any (has_id id) xs ≡ false
    → count (is_active_of q) (map (set_active q id) xs) ≡ 0
count-set_active_absent q id [] h = refl
count-set_active_absent q id (x ∷ xs) h = ground (arith, count-set_active_absent q id xs)

count-set_active_self :
    (id : String) (xs : List Account) (a : Account)
    → UniqueIds xs
    → find (has_id id) xs ≡ some a
    → count (is_active_of a.provider) (map (set_active a.provider id) xs) ≡ 1
count-set_active_self id [] a u h = cc
count-set_active_self id (x ∷ xs) a u h =
    ground (arith, count-set_active_self id xs a u.1, count-set_active_absent a.provider id xs)

any-found :
    (id : String) (xs : List Account) (a : Account)
    → find (has_id id) xs ≡ some a
    → any (is_of a.provider) xs ≡ true
any-found id [] a h = cc
any-found id (x ∷ xs) a h = ground (arith, any-found id xs a)

pub select-OneActive :
    (id : String) (xs : List Account) (a : Account)
    → find (has_id id) xs ≡ some a
    → UniqueIds xs
    → OneActive xs
    → OneActive (map (set_active a.provider id) xs)
select-OneActive id xs a e u h p = ground (
  arith,
  h p,
  any-set_active p a.provider id xs,
  count-set_active_ne p a.provider id xs,
  count-set_active_self id xs a u e,
  any-found id xs a e,
)

-- A change that keeps provider and activity keeps the counts.
module _ (f : Account → Account) (same_provider : (a : Account) → (f a).provider ≡ a.provider)
    (same_active : (a : Account) → (f a).active ≡ a.active) (r : Account → Bool)
    (p : Provider) where
  count-update :
      (xs : List Account) → count (is_active_of p) (update_first r f xs) ≡ count (is_active_of p) xs
  count-update [] = refl
  count-update (x ∷ xs) = ground (arith, count-update xs, same_provider x, same_active x)

  any-update : (xs : List Account) → any (is_of p) (update_first r f xs) ≡ any (is_of p) xs
  any-update [] = refl
  any-update (x ∷ xs) = ground (arith, any-update xs, same_provider x)

pub update-OneActive :
    (f : Account → Account) (r : Account → Bool) (xs : List Account)
    → ((a : Account) → (f a).provider ≡ a.provider)
    → ((a : Account) → (f a).active ≡ a.active)
    → OneActive xs
    → OneActive (update_first r f xs)
update-OneActive f r xs sp sa h p =
    rw (count-update f sp sa r p xs, any-update f sp sa r p xs) (h p)
