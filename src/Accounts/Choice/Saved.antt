-- ===== src/Accounts/Choice/Saved.antt =====
-- Which saved accounts are asked, and when the login on the machine is asked beside them.
use quotio_cli.Base.{
  ◌≡◌, refl, ap, ◌∙◌, subst, sym, Bool, true, false, not, ◌&&◌, ◌||◌, List, [], ◌∷◌, ◌++◌, map,
  none, all, any, Result, arith, if◌then◌else◌, ok, Bool-cases, inl, inr,
}
use mathlib.Core.Path.{ap₂}
use quotio_cli.Provider.{Provider, provider_eq, Definition, supports_accounts}
use quotio_cli.Accounts.Credential.{Account}
use quotio_cli.Accounts.Choice.{
  Machine, Chosen, local_login, managed, failed_provider, accounts_of, asks_local, choose,
  choose_all, choose_one, adapters_with_vault, local_sources, native_reference_replaces_local,
}

ok_same : {A E : Type 0} (a b : A) → ◌≡◌ {A = Result E A} (ok a) (ok b) → a ≡ b
ok_same a b h = ground arith

abbrev pub managed_of : List Chosen → List Account
managed_of [] = []
managed_of (managed a ∷ cs) = a ∷ managed_of cs
managed_of (c ∷ cs) = managed_of cs

managed_of-append : (cs ds : List Chosen) → managed_of (cs ++ ds) ≡ managed_of cs ++ managed_of ds
managed_of-append [] ds = refl
managed_of-append (managed a ∷ cs) ds = ap (λ as_all. a ∷ as_all) (managed_of-append cs ds)
managed_of-append (local_login p ∷ cs) ds = managed_of-append cs ds
managed_of-append (failed_provider p ∷ cs) ds = managed_of-append cs ds

managed_of-map : (accounts : List Account) → managed_of (map managed accounts) ≡ accounts
managed_of-map [] = refl
managed_of-map (a ∷ accounts) = ap (λ as_all. a ∷ as_all) (managed_of-map accounts)

all-append : (p : Chosen → Bool) (cs ds : List Chosen) → all p (cs ++ ds) ≡ (all p cs && all p ds)
all-append p [] ds = refl
all-append p (c ∷ cs) ds = ground (arith, all-append p cs ds)

module _ (machine : Machine) (definitions : List Definition) (accounts : List Account)
    (local : List Provider) where
  -- The saved accounts of the providers, provider by provider.
  abbrev pub saved_for : List Provider → List Account
  saved_for [] = []
  saved_for (p ∷ ps) =
      (if supports_accounts definitions p then accounts_of machine definitions p accounts else [])
      ++ saved_for ps

  -- Not the login of a provider that a saved account of that provider refers to, nor a failure.
  abbrev pub is_allowed : Chosen → Bool
  is_allowed (local_login p) =
      not (supports_accounts definitions p)
      || not (
          any (λ a. native_reference_replaces_local machine p a.credential)
            (accounts_of machine definitions p accounts))
  is_allowed (managed a) = true
  is_allowed (failed_provider p) = false

  all_managed : (as_all : List Account) → all is_allowed (map managed as_all) ≡ true
  all_managed [] = refl
  all_managed (a ∷ as_all) = all_managed as_all

  choose_one-managed :
      (p : Provider)
      → managed_of (choose_one machine definitions local (ok accounts) p) ≡ (
          if supports_accounts definitions p
          then accounts_of machine definitions p accounts
          else [])
  choose_one-managed p = elim (Bool-cases (supports_accounts definitions p)) [
    | inr none_saved ↦ rw none_saved refl
    | inl some_saved ↦
        elim (Bool-cases
          (asks_local machine definitions p local (accounts_of machine definitions p accounts))) [
            | inl asked ↦
                rw (some_saved, asked) (managed_of-map (accounts_of machine definitions p accounts))
            | inr unasked ↦
                rw (some_saved, unasked)
                  (managed_of-map (accounts_of machine definitions p accounts))
          ]
  ]

  choose_one-allowed :
      (p : Provider) → all is_allowed (choose_one machine definitions local (ok accounts) p) ≡ true
  unfolding asks_local
  choose_one-allowed p = elim (Bool-cases (supports_accounts definitions p)) [
    | inr none_saved ↦ ground (arith)
    | inl some_saved ↦
        elim (Bool-cases
          (asks_local machine definitions p local (accounts_of machine definitions p accounts))) [
            | inl asked ↦ ground (arith, all_managed (accounts_of machine definitions p accounts))
            | inr unasked ↦ ground (arith, all_managed (accounts_of machine definitions p accounts))
          ]
  ]

  choose_all-managed :
      (ps : List Provider)
      → managed_of (choose_all machine definitions local (ok accounts) ps) ≡ saved_for ps
  choose_all-managed [] = refl
  choose_all-managed (p ∷ ps) =
      managed_of-append (choose_one machine definitions local (ok accounts) p) _
      ∙ ap₂ ◌++◌ (choose_one-managed p) (choose_all-managed ps)

  choose_all-allowed :
      (ps : List Provider)
      → all is_allowed (choose_all machine definitions local (ok accounts) ps) ≡ true
  choose_all-allowed [] = refl
  choose_all-allowed (p ∷ ps) =
      all-append is_allowed (choose_one machine definitions local (ok accounts) p) _
      ∙ ap₂ ◌&&◌ (choose_one-allowed p) (choose_all-allowed ps)

  choose-saved :
      (providers : List Provider) (chosen : List Chosen)
      → choose machine definitions providers none (ok accounts) local ≡ ok chosen
      → (managed_of chosen ≡ saved_for providers) × (all is_allowed chosen ≡ true)
  unfolding choose
  choose-saved providers chosen h =
      let same : choose_all machine definitions local (ok accounts) providers ≡ chosen =
        ground arith in
      subst (λ cs. (managed_of cs ≡ saved_for providers) × (all is_allowed cs ≡ true)) same
        (choose_all-managed providers, choose_all-allowed providers)

  unsupported-none :
      (ps : List Provider)
      → any (supports_accounts definitions) ps ≡ false
      → (saved_for ps ≡ []) × (all is_allowed (map local_login ps) ≡ true)
  unsupported-none [] h = (refl, refl)
  unsupported-none (p ∷ ps) h =
      let mine : supports_accounts definitions p ≡ false = ground arith in
      let (saved, allowed) = unsupported-none ps (ground arith) in (rw mine saved, rw mine allowed)

managed_of-locals : (ps : List Provider) → managed_of (map local_login ps) ≡ []
managed_of-locals [] = refl
managed_of-locals (p ∷ ps) = managed_of-locals ps

-- Where no account is asked for, the saved accounts are wanted and can be read, and the adapters
-- are chosen, then the saved accounts among them are those of each provider that supports
-- accounts, provider by provider in their order; none of the adapters always fails; and a login
-- on the machine is among them only where its provider supports no accounts, or no saved account
-- of it is a reference to that same login.
pub adapters_with_vault-saved :
    (machine : Machine) (definitions : List Definition) (accounts : List Account)
    (providers : List Provider) (chosen : List Chosen)
    → adapters_with_vault machine definitions providers true none (ok tt) (ok accounts) ≡ ok chosen
    → (let local = local_sources machine definitions providers in
        (managed_of chosen ≡ saved_for machine definitions accounts local providers)
        × (all (is_allowed machine definitions accounts local) chosen ≡ true))
unfolding adapters_with_vault quotio_cli.Base.Option-discrete
adapters_with_vault-saved machine definitions accounts providers chosen h =
    let local = local_sources machine definitions providers in
    elim (Bool-cases (any (supports_accounts definitions) providers)) [
      | inl some_saved ↦
          choose-saved machine definitions accounts local providers chosen (rw some_saved at h)
      | inr none_saved ↦
          let same : map local_login providers ≡ chosen = ok_same _ _ (rw none_saved at h) in
          let (saved, allowed) =
            unsupported-none machine definitions accounts local providers none_saved in
          subst
            (λ cs.
              (managed_of cs ≡ saved_for machine definitions accounts local providers)
              × (all (is_allowed machine definitions accounts local) cs ≡ true))
            same (managed_of-locals providers ∙ sym saved, allowed)
    ]
