-- ===== src/Config/Providers.antt =====
-- The list of providers that a configuration names.
use quotio_cli.Base.{
  String, ◌≡◌, ◌⊎◌, refl, Bool, true, false, not, ◌&&◌, List, [], ◌∷◌, ◌++◌, Option, none, some,
  arith, any, all, ok, err, Option-cases, inl, inr, any-append, string_eq, ==_iff, Result, ◌||◌,
  ◌==◌, option_eq, All, ==_refl, Bool-cases,
}
use quotio_cli.Provider.{Provider, provider_eq}
use quotio_cli.Config.{parse_from, parse_providers, unsupported}

abbrev pub distinct : List Provider → Bool
distinct [] = true
distinct (p ∷ ps) = not (any (λ q. q == p) ps) && distinct ps

abbrev in_list : List Provider → Provider → Bool
in_list ps p = any (λ q. q == p) ps

same_turn : (p q : Provider) → (p == q) ≡ (q == p)
same_turn p q = ground arith

in_list-snoc :
    (ps : List Provider) (p q : Provider) → in_list (ps ++ p ∷ []) q ≡ (in_list ps q || p == q)
in_list-snoc [] p q = ground arith
in_list-snoc (r ∷ ps) p q = ground (arith, in_list-snoc ps p q)

distinct-snoc :
    (ps : List Provider) (p : Provider)
    → distinct ps ≡ true
    → in_list ps p ≡ false
    → distinct (ps ++ p ∷ []) ≡ true
distinct-snoc [] p h new = refl
distinct-snoc (r ∷ ps) p h new =
    ground (arith, distinct-snoc ps p, in_list-snoc ps p r, same_turn p r)

module _ (from_str : String → Option Provider) where
  abbrev pub names : List String → Provider → Bool
  names ids p = any (λ id. from_str id == some p) ids

  named_some :
      (id : String) (p q : Provider) → from_str id ≡ some p → (from_str id == some q) ≡ (p == q)
  named_some id p q h = rw h (ground arith)

  parse_from-set :
      (ids : List String) (ps qs : List Provider)
      → distinct ps ≡ true
      → parse_from from_str ids ps ≡ ok qs
      → (distinct qs ≡ true) × ((p : Provider) → in_list qs p ≡ (in_list ps p || names ids p))
  unfolding parse_from
  parse_from-set [] ps qs d h = ground arith
  parse_from-set (id ∷ ids) ps qs d h = elim (Option-cases (from_str id)) [
    | inl bad ↦ absurd (ground (arith, rw (bad, parse_from) at h))
    | inr (p, named) ↦ elim (Bool-cases (in_list ps p)) [
      | inl old ↦
          let (apart, all_in) = parse_from-set ids ps qs d (rw (named, old, parse_from) at h) in
          (apart, λ q. ground (arith, all_in q, named_some id p q named, ==_iff p q))
      | inr new ↦
          let (apart, all_in) =
            parse_from-set ids (ps ++ p ∷ []) qs (distinct-snoc ps p d new)
              (rw (named, new, parse_from) at h) in
          (apart, λ q. ground (arith, all_in q, in_list-snoc ps p q, named_some id p q named))
    ]
  ]

  abbrev pub is_unknown : String → Bool
  is_unknown id = from_str id == none

  parse_from-cases :
      (ids : List String) (ps : List Provider)
      → ((qs : List Provider) × (parse_from from_str ids ps ≡ ok qs) × (any is_unknown ids ≡ false))
        ⊎ ((parse_from from_str ids ps ≡ err unsupported) × (any is_unknown ids ≡ true))
  unfolding parse_from quotio_cli.Base.Option-discrete
  parse_from-cases [] ps = inl (ps, refl, refl)
  parse_from-cases (id ∷ ids) ps = elim (Option-cases (from_str id)) [
    | inl bad ↦ inr (rw (bad, parse_from) refl, rw bad (ground arith))
    | inr (p, named) ↦ elim (Bool-cases (in_list ps p)) [
      | inl old ↦ rw (named, old, parse_from) (parse_from-cases ids ps)
      | inr new ↦ rw (named, new, parse_from) (parse_from-cases ids (ps ++ p ∷ []))
    ]
  ]

  -- `parse_providers` fails with `unsupported` where one of the names is unknown, and else gives
  -- a list without doubles that contains a provider just where one of the names stands for it.
  pub parse_providers-cases :
      (ids : List String) (p : Provider)
      → ((qs : List Provider) × (parse_providers from_str ids ≡ ok qs)
          × (any is_unknown ids ≡ false)
          × (distinct qs ≡ true)
          × (any (λ q. q == p) qs ≡ names ids p))
        ⊎ ((parse_providers from_str ids ≡ err unsupported) × (any is_unknown ids ≡ true))
  unfolding parse_providers
  parse_providers-cases ids p = elim (parse_from-cases ids []) [
    | inl (qs, found, known) ↦
        let (apart, all_in) = parse_from-set ids [] qs refl found in
        inl (qs, found, known, apart, all_in p)
    | inr failed ↦ inr failed
  ]
