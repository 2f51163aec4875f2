-- ===== src/Base/Outcome.antt =====
-- `Result<A, E>`, and a method that changes `&mut self` and may fail: what it has changed before it
-- fails stays changed.
use mathlib.Core.Path.{◌≡◌, refl}
use mathlib.Core.Bool.{Bool, true, false}
use mathlib.Core.Option.{Option, none, some}
use mathlib.Core.Logic.{◌⊎◌, inl, inr}

pub data Result {ℓ κ} (E : Type ℓ) (A : Type κ) : Type (ℓ ⊔ κ) where
  ok : A → Result E A
  err : E → Result E A

abbrev pub Method {ℓ} : Type ℓ → Type 0 → Type 0 → Type ℓ
Method S E A = S → S × Result E A

module _ {E A B : Type 0} where
  abbrev pub and_then {ℓ} : {S : Type ℓ} → S × Result E A → (A → Method S E B) → S × Result E B
  and_then (s, ok a) f = f a s
  and_then (s, err e) f = (s, err e)

  infixl 5 ◌>>=◌
  abbrev pub ◌>>=◌ {ℓ} : {S : Type ℓ} → Method S E A → (A → Method S E B) → Method S E B
  ◌>>=◌ m f s = and_then (m s) f

infixl 5 ◌>>◌
abbrev pub ◌>>◌ {ℓ} :
    {S : Type ℓ} {E A : Type 0} → Method S E (Unit {0}) → Method S E A → Method S E A
m >> k = m >>= λ _. k

abbrev pub done {ℓ} : {S : Type ℓ} {E A : Type 0} → A → Method S E A
done a s = (s, ok a)

abbrev pub fail {ℓ} : {S : Type ℓ} {E A : Type 0} → E → Method S E A
fail e s = (s, err e)

-- `Err(e)?` under a test, and `ok_or(e)?`.
abbrev pub refuse_if {ℓ} : {S : Type ℓ} {E : Type 0} → Bool → E → Method S E (Unit {0})
refuse_if true e s = (s, err e)
refuse_if false e s = (s, ok tt)

abbrev pub ok_or {ℓ} : {S : Type ℓ} {E A : Type 0} → Option A → E → Method S E A
ok_or none e s = (s, err e)
ok_or (some a) e s = (s, ok a)

abbrev pub lift {ℓ} : {S : Type ℓ} {E A : Type 0} → Result E A → Method S E A
lift r s = (s, r)

abbrev pub modify {ℓ} : {S : Type ℓ} {E : Type 0} → (S → S) → Method S E (Unit {0})
modify f s = (f s, ok tt)

-- `self`, read.
abbrev pub with_self {ℓ} : {S : Type ℓ} {E A : Type 0} → (S → Method S E A) → Method S E A
with_self f s = f s s

pub Result-cases :
    {E A : Type 0} (r : Result E A) → ((a : A) × (r ≡ ok a)) ⊎ ((e : E) × (r ≡ err e))
Result-cases (ok a) = inl (a, refl)
Result-cases (err e) = inr (e, refl)

-- A property of the state that holds at the start and that each part keeps, on failure too, holds at
-- the end.
pub and_then_rule {ℓ κ} :
    {S : Type ℓ} {E A B : Type 0} (P : S → Type κ) (r : S × Result E A) (f : A → Method S E B)
    → P r.0
    → ((a : A) (s : S) → P s → P (f a s).0)
    → P (and_then r f).0
and_then_rule P (s, ok a) f p keep = keep a s p
and_then_rule P (s, err e) f p keep = p
