-- ===== src/Server/Scope/Checked.antt =====
-- What a manual refresh that is accepted is for.
use quotio_cli.Base.{
  String, ◌≡◌, ◌≢◌, refl, sym, ap, ◌∙◌, subst, ◌⊎◌, inl, inr, Bool, false, not, ◌&&◌, ◌||◌, List,
  [], ◌∷◌, Option, none, some, arith, any, length, if◌then◌else◌, Result, ok, err, ◌==◌, string_eq,
  nat_eq, Bool-cases, Option-cases,
}
use quotio_cli.Provider.{Provider, Definition, provider_eq, supports_accounts}
use quotio_cli.Provider.Named.{sort_by_id, insert_by_id}
use quotio_cli.Accounts.Credential.{AccountError, Account}
use quotio_cli.Accounts.Choice.{Machine}
use quotio_cli.Server.Answers.{ApiError}
use quotio_cli.Server.Mutations.{waited}
use quotio_cli.Server.Refresh.{RefreshRequest, is_in}
use quotio_cli.Server.Jobs.{refresh_scope, scoped, in_scope, dedup, dedup_after}
use quotio_cli.Server.Scope.{
  Answers, is_replacing, local_checked, of_this_provider, validate_refresh_account,
}

is_in-insert :
    (p q : Provider) (ps : List Provider) → is_in (insert_by_id p ps) q ≡ ((p == q) || is_in ps q)
unfolding insert_by_id
is_in-insert p q [] = ground arith
is_in-insert p q (o ∷ ps) = ground (arith, is_in-insert p q ps)

is_in-sort : (ps : List Provider) (q : Provider) → is_in (sort_by_id ps) q ≡ is_in ps q
unfolding sort_by_id
is_in-sort [] q = refl
is_in-sort (p ∷ ps) q = is_in-insert p q (sort_by_id ps) ∙ ap (λ b. (p == q) || b) (is_in-sort ps q)

is_in-dedup_after :
    (last q : Provider) (ps : List Provider)
    → is_in (last ∷ dedup_after last ps) q ≡ is_in (last ∷ ps) q
is_in-dedup_after last q [] = refl
is_in-dedup_after last q (p ∷ ps) =
    ground (arith, is_in-dedup_after last q ps, is_in-dedup_after p q ps)

is_in-dedup : (ps : List Provider) (q : Provider) → is_in (dedup ps) q ≡ is_in ps q
unfolding dedup
is_in-dedup [] q = refl
is_in-dedup (p ∷ ps) q = is_in-dedup_after p q ps

module _ (machine : Machine) (definitions : List Definition) (vault : Option Answers)
    (no_saved_accounts : Bool) where
  -- No saved account of the provider is a reference to its login on this machine.
  abbrev pub IsFree : Provider → Type 0
  IsFree p =
      (not no_saved_accounts && supports_accounts definitions p ≡ false)
      ⊎ ((answers : Answers) × (accounts : List Account) × (vault ≡ some answers)
          × (answers.listed ≡ ok accounts)
          × (any (is_replacing machine p) accounts ≡ false))

  -- The vault has an account of the provider with the id.
  abbrev pub IsSaved : Provider → String → Type 0
  IsSaved p id =
      (answers : Answers) × (a : Account) × (vault ≡ some answers)
      × (answers.got id ≡ some (ok a))
      × (a.provider ≡ p)

  abbrev pub IsFor : Provider → String → Type 0
  IsFor p id = ((id ≡ "local") × IsFree p) ⊎ ((id ≢ "local") × IsSaved p id)

  abbrev check : Provider → String → Result ApiError (Unit {0})
  check = validate_refresh_account machine definitions vault no_saved_accounts

  local-IsFree :
      (p : Provider) (answers : Answers) (r : Result AccountError (List Account))
      → answers.listed ≡ r
      → vault ≡ some answers
      → local_checked machine p r ≡ ok tt
      → IsFree p
  local-IsFree p answers (err e) same there h = absurd (ground arith)
  local-IsFree p answers (ok accounts) same there h =
      inr (answers, accounts, there, same, ground arith)

  got-IsSaved :
      (p : Provider) (id : String) (answers : Answers) (r : Option (Result AccountError Account))
      → answers.got id ≡ r
      → vault ≡ some answers
      → of_this_provider machine p (waited r) ≡ ok tt
      → IsSaved p id
  unfolding waited
  got-IsSaved p id answers none same there h = absurd (ground arith)
  got-IsSaved p id answers (some (err e)) same there h = absurd (ground arith)
  got-IsSaved p id answers (some (ok a)) same there h = (answers, a, there, same, ground arith)

  check-IsFor : (p : Provider) (id : String) → check p id ≡ ok tt → IsFor p id
  unfolding validate_refresh_account
  check-IsFor p id h = elim (Bool-cases (id == "local")) [
    | inl is_local ↦ inl (
      ground arith,
      elim (Option-cases vault) [
        | inl missing ↦ inl (ground (arith, rw (is_local, missing) at h))
        | inr (answers, there) ↦
            elim (Bool-cases (not no_saved_accounts && supports_accounts definitions p)) [
              | inr off ↦ inl off
              | inl on ↦
                  local-IsFree p answers answers.listed refl there (rw (is_local, on, there) at h)
            ]
      ],
    )
    | inr other ↦ inr (
      ground arith,
      elim (Option-cases vault) [
        | inl missing ↦ absurd (ground (arith, rw (other, missing) at h))
        | inr (answers, there) ↦
            got-IsSaved p id answers (answers.got id) refl there (rw (other, there) at h)
      ],
    )
  ]

  asked-IsFor :
      (enabled : List Provider) (r scope : RefreshRequest) (p : Provider) (id : String)
      (x : Result ApiError (Unit {0}))
      → check p id ≡ x
      → (elim x [ ok u ↦ ok r | err e ↦ err e ]) ≡ ok scope
      → (scope ≡ r) × IsFor p id
  asked-IsFor enabled r scope p id (ok u) same h = (ground arith, check-IsFor p id same)
  asked-IsFor enabled r scope p id (err e) same h = absurd (ground arith)

  abbrev pub IsNarrow : List Provider → RefreshRequest → RefreshRequest → Type 0
  IsNarrow enabled r scope =
      ((r.account_id ≡ none)
        × (scope.account_id ≡ none)
        × ((q : Provider)
            → is_in scope.providers q
              ≡ is_in (if length r.providers == 0 then enabled else r.providers) q)
        × (any (λ p. not (is_in enabled p)) scope.providers ≡ false))
      ⊎ ((p : Provider) × (id : String) × (r.providers ≡ p ∷ [])
          × (r.account_id ≡ some id)
          × (scope ≡ r)
          × IsFor p id)

  wide-IsNarrow :
      (enabled : List Provider) (s scope : RefreshRequest)
      → in_scope enabled check s none s.providers ≡ ok scope
      → (scope ≡ s) × (any (λ p. not (is_in enabled p)) s.providers ≡ false)
  wide-IsNarrow enabled s scope h = (ground arith, ground arith)

  wide_members :
      (enabled ps : List Provider) (q : Provider)
      → is_in
          (scoped enabled (record { providers = ps; account_id = none; force = false })).providers
          q
        ≡ is_in (if length ps == 0 then enabled else ps) q
  wide_members enabled ps q = is_in-dedup (sort_by_id _) q ∙ is_in-sort _ q ∙ ground arith

  parts-IsNarrow :
      (enabled ps : List Provider) (account : Option String) (force : Bool) (scope : RefreshRequest)
      → refresh_scope enabled check (record { providers = ps; account_id = account; force = force })
        ≡ ok scope
      → IsNarrow enabled (record { providers = ps; account_id = account; force = force }) scope
  unfolding refresh_scope dedup sort_by_id insert_by_id native.Mathlib.Decide.ℕ_discrete
  parts-IsNarrow enabled ps none force scope h =
      let (same, allowed) = wide-IsNarrow enabled _ scope h in
      inl (
        refl,
        ap (λ s. s.account_id) same,
        λ q. ap (λ s. is_in s.providers q) same ∙ wide_members enabled ps q,
        subst (λ s. any (λ p. not (is_in enabled p)) s.providers ≡ false) (sym same) allowed,
      )
  parts-IsNarrow enabled [] (some id) force scope h = absurd (ground arith)
  parts-IsNarrow enabled (p ∷ []) (some id) force scope h =
      let (same, for) = asked-IsFor enabled _ scope p id (check p id) refl h in
      inr (p, id, refl, refl, same, for)
  parts-IsNarrow enabled (p ∷ q ∷ ps) (some id) force scope h = absurd (ground arith)

  -- A request for a manual refresh that passes the checks asks for no account, and then the
  -- scope has the providers of the request, or if it names none the enabled ones, and they are
  -- all enabled; or it names one provider and an account, and then the scope is the request as
  -- it is, and the account is `local`, while the saved accounts do not count or no saved account
  -- of the provider stands for its login on the machine, or else it is the id of an account of
  -- that provider that the vault has.
  pub refresh_scope-IsNarrow :
      (enabled : List Provider) (r scope : RefreshRequest)
      → refresh_scope enabled
          (validate_refresh_account machine definitions vault no_saved_accounts)
          r
        ≡ ok scope
      → IsNarrow enabled r scope
  refresh_scope-IsNarrow enabled r scope h =
      parts-IsNarrow enabled r.providers r.account_id r.force scope h
