-- ===== src/Provider/Named.antt =====
-- src/cli.rs: the names of the providers (`to_possible_value`), in the order of `value_variants`.
-- `ValueEnum::from_str` is a function of `clap`, and is an argument: it gives the first variant one of
-- whose names is the text.
use quotio_cli.Base.{
  ℕ, String, ◌≡◌, ◌⊎◌, refl, subst, sym, ◌∙◌, Bool, true, false, ◌&&◌, ◌||◌, List, [], ◌∷◌, ◌++◌,
  map, Option, some, arith, any, find, ltb, if◌then◌else◌, ◌==◌, string_eq, nat_eq, ==_iff, bytes,
  All, Bool-cases, inl, inr, String-discrete,
}
use quotio_cli.Provider.{
  Provider, mock, codex, amp, antigravity, synthetic, open_router, zai, mini_max, factory, catalog,
  provider_eq, id, Definition,
}

-- The name and the aliases.
unfoldable pub names : Provider → List String
unfolding id
names zai = id zai ∷ "glm" ∷ []
names factory = id factory ∷ "droid" ∷ "factory-droid" ∷ []
names p = id p ∷ []

-- `Ord for str`: bytes, from the first to the last.
abbrev less_or_same : List ℕ → List ℕ → Bool
less_or_same [] cs = true
less_or_same (b ∷ bs) [] = false
less_or_same (b ∷ bs) (c ∷ cs) = ltb b c || (b == c && less_or_same bs cs)

unfoldable pub insert_by_id : Provider → List Provider → List Provider
insert_by_id p [] = p ∷ []
insert_by_id p (q ∷ qs) =
    if less_or_same (bytes (id p)) (bytes (id q)) then p ∷ q ∷ qs else q ∷ insert_by_id p qs

-- `sort_by_key(|p| p.id())`, which is stable.
unfoldable pub sort_by_id : List Provider → List Provider
unfolding insert_by_id
sort_by_id [] = []
sort_by_id (p ∷ ps) = insert_by_id p (sort_by_id ps)

abbrev builtin : List Provider
builtin = mock ∷ codex ∷ amp ∷ antigravity ∷ synthetic ∷ open_router ∷ zai ∷ mini_max ∷ factory ∷ []

unfoldable pub value_variants : List Definition → List Provider
unfolding sort_by_id
value_variants definitions = builtin ++ sort_by_id (map (λ d. catalog d.id) definitions)

abbrev pub has_name : String → Provider → Bool
has_name s p = any (λ n. n == s) (names p)

-- Names that the catalog may not use.
abbrev pub is_reserved : String → Bool
is_reserved s = any (has_name s) builtin

abbrev is_catalog : Provider → Bool
is_catalog (catalog i) = true
is_catalog _ = false

find-append :
    {A : Type 0} (p : A → Bool) (xs ys : List A) → any p xs ≡ false → find p (xs ++ ys) ≡ find p ys
find-append p [] ys h = refl
find-append p (x ∷ xs) ys h = ground (arith, find-append p xs ys)

insert-catalog :
    (p : Provider) (ps : List Provider)
    → is_catalog p ≡ true
    → All (λ q. is_catalog q ≡ true) ps
    → All (λ q. is_catalog q ≡ true) (insert_by_id p ps)
unfolding insert_by_id
insert-catalog p [] h hs = (h, tt)
insert-catalog p (q ∷ qs) h (k, ks) =
    elim (Bool-cases (less_or_same (bytes (id p)) (bytes (id q)))) [
      | inl before ↦ rw before (h, (k, ks))
      | inr after ↦ rw after (k, insert-catalog p qs h ks)
    ]

sort-catalog :
    (definitions : List Definition)
    → All (λ q. is_catalog q ≡ true) (sort_by_id (map (λ d. catalog d.id) definitions))
unfolding sort_by_id
sort-catalog [] = tt
sort-catalog (d ∷ ds) = insert-catalog (catalog d.id) _ refl (sort-catalog ds)

find-catalog :
    (i s : String) (ps : List Provider)
    → s ≡ i
    → All (λ q. is_catalog q ≡ true) ps
    → any (λ q. q == catalog i) ps ≡ true
    → find (has_name s) ps ≡ some (catalog i)
unfolding names id
find-catalog i s [] same h there = ground arith
find-catalog i s (catalog j ∷ ps) same (h, hs) there = ground (arith, find-catalog i s ps same hs)
find-catalog i s (q ∷ ps) same (h, hs) there = absurd (ground arith)

only : (n s : String) → (n == s || false) ≡ true → n ≡ s
only n s h = ground arith

either : (n m s : String) → (n == s || (m == s || false)) ≡ true → (n ≡ s) ⊎ (m ≡ s)
either n m s h = ground arith

module _ (rest : List Provider) where
  abbrev IsFound : Provider → String → Type 0
  IsFound p s = find (has_name s) (builtin ++ rest) ≡ some p

  moved : (p : Provider) (n s : String) → n ≡ s → IsFound p n → IsFound p s
  moved p n s same found = subst (IsFound p) same found

find-builtin :
    (p : Provider) (s : String) (rest : List Provider)
    → is_catalog p ≡ false
    → has_name s p ≡ true
    → find (has_name s) (builtin ++ rest) ≡ some p
unfolding names id String-discrete
find-builtin mock s rest h named = moved rest mock _ s (only "mock" s named) refl
find-builtin codex s rest h named = moved rest codex _ s (only "codex" s named) refl
find-builtin amp s rest h named = moved rest amp _ s (only "amp" s named) refl
find-builtin antigravity s rest h named =
    moved rest antigravity _ s (only "antigravity" s named) refl
find-builtin synthetic s rest h named = moved rest synthetic _ s (only "synthetic" s named) refl
find-builtin open_router s rest h named =
    moved rest open_router _ s (only "openrouter" s named) refl
find-builtin mini_max s rest h named = moved rest mini_max _ s (only "minimax" s named) refl
find-builtin zai s rest h named = elim (either "zai" "glm" s named) [
  | inl zai_id ↦ moved rest zai _ s zai_id refl
  | inr alias ↦ moved rest zai _ s alias refl
]
find-builtin factory s rest h named = elim (Bool-cases ("factory" == s)) [
  | inl same ↦ moved rest factory _ s ((==_iff "factory" s).0 same) refl
  | inr other ↦ elim (either "droid" "factory-droid" s (rw other at named)) [
    | inl droid ↦ moved rest factory _ s droid refl
    | inr alias ↦ moved rest factory _ s alias refl
  ]
]
find-builtin (catalog i) s rest h named = absurd (ground arith)

in_insert :
    (p q : Provider) (ps : List Provider)
    → any (λ r. r == q) (insert_by_id p ps) ≡ (p == q || any (λ r. r == q) ps)
unfolding insert_by_id
in_insert p q [] = refl
in_insert p q (r ∷ ps) = ground (arith, in_insert p q ps)

in_sort :
    (ps : List Provider) (q : Provider) → any (λ r. r == q) (sort_by_id ps) ≡ any (λ r. r == q) ps
unfolding sort_by_id
in_sort [] q = refl
in_sort (p ∷ ps) q = ground (arith, in_insert p q (sort_by_id ps), in_sort ps q)

free :
    (i : String) (definitions : List Definition)
    → All (λ d. is_reserved d.id ≡ false) definitions
    → any (λ q. q == catalog i) (map (λ d. catalog d.id) definitions) ≡ true
    → is_reserved i ≡ false
free i [] hs there = absurd (ground arith)
free i (d ∷ ds) (h, hs) there = elim (Bool-cases (catalog d.id == catalog i)) [
  | inl same ↦ subst (λ j. is_reserved j ≡ false) (ground arith) h
  | inr other ↦ free i ds hs (rw other at there)
]

named_catalog : (i s : String) → has_name s (catalog i) ≡ true → i ≡ s
unfolding names id
named_catalog i s h = only i s h

in_catalog :
    (i : String) (definitions : List Definition)
    → any (λ q. q == catalog i) (value_variants definitions) ≡ true
    → any (λ q. q == catalog i) (map (λ d. catalog d.id) definitions) ≡ true
unfolding value_variants
in_catalog i definitions h =
    ground (arith, in_sort (map (λ d. catalog d.id) definitions) (catalog i))

module _ (definitions : List Definition) (from_str : String → Option Provider)
    (looks_up : (s : String) → from_str s ≡ find (has_name s) (value_variants definitions))
    (apart : All (λ d. is_reserved d.id ≡ false) definitions) where
  -- Where `from_str` looks a text up among the names of the variants in their order, and no
  -- entry of the catalog has the name or an alias of a built-in provider, `from_str` gives each
  -- variant back from its name and from each of its aliases.
  pub from_str-names :
      (p : Provider) (s : String)
      → any (λ q. q == p) (value_variants definitions) ≡ true
      → has_name s p ≡ true
      → from_str s ≡ some p
  unfolding value_variants
  from_str-names (catalog i) s there named =
      let same = named_catalog i s named in
      let there_too = in_catalog i definitions there in
      let unreserved =
        subst (λ t. is_reserved t ≡ false) same (free i definitions apart there_too) in
      looks_up s
      ∙ find-append (has_name s) builtin _ unreserved
      ∙ find-catalog i s _ (sym same) (sort-catalog definitions)
          (in_sort (map (λ d. catalog d.id) definitions) (catalog i) ∙ there_too)
  from_str-names p s there named = rw (looks_up s) (find-builtin p s _ refl named)
