-- ===== src/Accounts/Input/Settings.antt =====
-- The settings of a new account: those that the user gives, and those of the environment.
use quotio_cli.Base.{
  String, ◌≡◌, ◌⊎◌, refl, sym, ◌∙◌, subst, true, false, not, ◌||◌, List, [], ◌∷◌, Option, none,
  some, any, All, arith, ok, ◌==◌, string_eq, ==_refl, Bool-cases, Option-cases, Result-cases, inl,
  inr,
}
use quotio_cli.Base.Dict.{Dict, lookup, insert, lookup-insert, lookup-insert_self}
use quotio_cli.Provider.{Provider, Setting, Definition, definition}
use quotio_cli.Accounts.Input.{
  is_some, is_bad_value, is_declared, is_refused, fill, fill_all, provider_settings,
}

module _ (get : String → Option String) where
  -- What one turn of the loop does: it keeps the values, or puts in one of the environment.
  fill-cases :
      (s : Setting) (values out : Dict String)
      → fill get s values ≡ ok out
      → ((out ≡ values) × ((not s.required || is_some (lookup s.name values)) ≡ true))
        ⊎ ((value : String) × (out ≡ insert s.name value values)
            × (is_bad_value value ≡ false)
            × (lookup s.name values ≡ none))
  fill-cases s values out h = elim (Option-cases (lookup s.name values)) [
    | inr (v, given) ↦ inl (ground arith, ground arith)
    | inl missing ↦ elim (Option-cases (get s.env)) [
      | inl unset ↦ elim (Bool-cases s.required) [
        | inl required ↦ absurd (ground arith)
        | inr optional ↦ inl (ground arith, ground arith)
      ]
      | inr (value, set_there) ↦ elim (Bool-cases (is_bad_value value)) [
        | inl bad ↦ absurd (ground arith)
        | inr good ↦ inr (value, ground arith, good, missing)
      ]
    ]
  ]

  fill-keeps :
      (s : Setting) (values out : Dict String) (name v : String)
      → fill get s values ≡ ok out
      → lookup name values ≡ some v
      → lookup name out ≡ some v
  fill-keeps s values out name v h given = elim (fill-cases s values out h) [
    | inl (same, present) ↦ rw same given
    | inr (value, same, good, missing) ↦
        rw (same, lookup-insert name s.name value values) (ground arith)
  ]

  fill-present :
      (s : Setting) (values out : Dict String)
      → fill get s values ≡ ok out
      → (s.required ≡ false) ⊎ ((v : String) × (lookup s.name out ≡ some v))
  fill-present s values out h = elim (fill-cases s values out h) [
    | inl (same, present) ↦ elim (Option-cases (lookup s.name values)) [
      | inl missing ↦ inl (ground arith)
      | inr (v, given) ↦ inr (v, rw same given)
    ]
    | inr (value, same, good, missing) ↦
        inr (value, rw same (lookup-insert_self s.name value values))
  ]

insert-clean :
    (d : Definition) (name v : String) (values : Dict String)
    → is_refused d (name, v) ≡ false
    → any (is_refused d) values ≡ false
    → any (is_refused d) (insert name v values) ≡ false
unfolding insert
insert-clean d name v [] new old = ground arith
insert-clean d name v ((n, w) ∷ values) new old = ground (arith, insert-clean d name v values)

abbrev IsDeclaredIn : List Setting → Setting → Type 0
IsDeclaredIn ss s = any (λ t. t.name == s.name) ss ≡ true

more_declared :
    (t : Setting) (ss us : List Setting) → All (IsDeclaredIn ss) us → All (IsDeclaredIn (t ∷ ss)) us
more_declared t ss [] h = tt
more_declared t ss (u ∷ us) (h, hs) = (ground arith, more_declared t ss us hs)

each_declared : (ss : List Setting) → All (IsDeclaredIn ss) ss
each_declared [] = tt
each_declared (s ∷ ss) = (rw (==_refl s.name) refl, more_declared s ss ss (each_declared ss))

-- A setting that is not required, or has a value.
abbrev pub IsPresent : Dict String → Setting → Type 0
IsPresent values s = (s.required ≡ false) ⊎ ((v : String) × (lookup s.name values ≡ some v))

module _ (get : String → Option String) where
  fill-clean :
      (d : Definition) (s : Setting) (values out : Dict String)
      → fill get s values ≡ ok out
      → is_declared d s.name ≡ true
      → any (is_refused d) values ≡ false
      → any (is_refused d) out ≡ false
  fill-clean d s values out h declared clean = elim (fill-cases get s values out h) [
    | inl (same, present) ↦ rw same clean
    | inr (value, same, good, missing) ↦
        rw same (insert-clean d s.name value values (rw (declared, good) refl) clean)
  ]

  -- What the loop starts from, and what it has done at its end.
  abbrev IsFilled : Definition → List Setting → Dict String → Dict String → Type 0
  IsFilled d ss values out =
      (any (is_refused d) out ≡ false)
      × All (IsPresent out) ss
      × ((name v : String) → lookup name values ≡ some v → lookup name out ≡ some v)

  IsPresent-keeps :
      (s : Setting) (values out : Dict String)
      → ((name v : String) → lookup name values ≡ some v → lookup name out ≡ some v)
      → IsPresent values s
      → IsPresent out s
  IsPresent-keeps s values out keeps (inl optional) = inl optional
  IsPresent-keeps s values out keeps (inr (v, there)) = inr (v, keeps s.name v there)

  fill_all-IsFilled :
      (d : Definition) (ss : List Setting) (values out : Dict String)
      → fill_all get ss values ≡ ok out
      → All (IsDeclaredIn d.settings) ss
      → any (is_refused d) values ≡ false
      → IsFilled d ss values out
  unfolding fill_all
  fill_all-IsFilled d [] values out h declared clean =
      let same : values ≡ out = ground arith in
      subst (IsFilled d [] values) same (clean, tt, λ name v there. there)
  fill_all-IsFilled d (s ∷ ss) values out h (known, declared) clean =
      elim (Result-cases (fill get s values)) [
        | inr (e, failed) ↦ absurd (ground arith)
        | inl (next, filled) ↦
            let (clean_out, present, keeps) =
              fill_all-IsFilled d ss next out (rw filled at h) declared
                (fill-clean d s values next filled known clean) in
            (
              clean_out,
              (IsPresent-keeps s next out keeps (fill-present get s values next filled), present),
              λ name v there. keeps name v (fill-keeps get s values next name v filled there),
            )
      ]

  -- Where `provider_settings` accepts the values of a provider in the catalog, the result has
  -- only settings that the entry declares, with values that are not empty, have at most 2048
  -- bytes and no control character, it has each required setting, and a name that was given has
  -- the value that was given.
  pub settings-IsPresent :
      (definitions : List Definition) (p : Provider) (d : Definition) (values out : Dict String)
      (name : String)
      → definition definitions p ≡ some d
      → provider_settings get definitions p values ≡ ok out
      → (any (is_refused d) out ≡ false)
        × All (IsPresent out) d.settings
        × ((lookup name values ≡ none) ⊎ (lookup name out ≡ lookup name values))
  unfolding provider_settings
  settings-IsPresent definitions p d values out name known h =
      elim (Bool-cases (any (is_refused d) values)) [
        | inl refused ↦ absurd (ground arith)
        | inr clean ↦
            let (clean_out, present, keeps) =
              fill_all-IsFilled d d.settings values out (rw (known, clean) at h)
                (each_declared d.settings) clean in
            (
              clean_out,
              present,
              elim (Option-cases (lookup name values)) [
                | inl missing ↦ inl missing
                | inr (v, given) ↦ inr (keeps name v given ∙ sym given)
              ],
            )
      ]
