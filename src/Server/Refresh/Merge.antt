-- ===== src/Server/Refresh/Merge.antt =====
-- What a scoped refresh changes in the snapshot.
use quotio_cli.Base.{
  ℕ, String, ◌≡◌, refl, ap, ◌∙◌, Bool, true, false, not, List, [], ◌∷◌, ◌++◌, Option, some, All,
  arith, retain, nat_eq, retain-append, retain_every, retain-not, retain-retain, retain-rest, subst,
}
use mathlib.Core.Path.{ap₂}
use quotio_cli.Provider.{Provider}
use quotio_cli.Usage.{Float, UsageReport}
use quotio_cli.Server.Refresh.{merge_refresh_report, merged, is_full, in_scope, failure_in_scope}

-- What is in the scope is replaced, and the rest stays.
abbrev pub IsReplaced {ℓ} : {A : Type ℓ} → (A → Bool) → List A → List A → List A → Type ℓ
IsReplaced p old new next =
    (retain p next ≡ new) × (retain (λ x. not (p x)) next ≡ retain (λ x. not (p x)) old)

append-nil : {A : Type 0} (xs : List A) → xs ++ [] ≡ xs
append-nil [] = refl
append-nil (x ∷ xs) = ap (λ ys. x ∷ ys) (append-nil xs)

replaced :
    {A : Type 0} (p : A → Bool) (old new : List A)
    → All (λ x. p x ≡ true) new
    → IsReplaced p old new (retain (λ x. not (p x)) old ++ new)
replaced p old new own = (
  retain-append p (retain (λ x. not (p x)) old) new
      ∙ ap₂ ◌++◌ (retain-rest p old) (retain_every p new own),
  retain-append (λ x. not (p x)) (retain (λ x. not (p x)) old) new
      ∙ (ap₂ ◌++◌ (retain-retain (λ x. not (p x)) old) (retain-not p new own)
          ∙ append-nil (retain (λ x. not (p x)) old)),
)

module _ {Fl : Float} where
  -- A scoped refresh that is merged, whose report has only usages and failures in its scope, was
  -- merged into a snapshot of its own generation, of which it replaces the usages and failures
  -- in the scope by those of the report and keeps all others in their order.
  pub merge-IsReplaced :
      (old generation g : ℕ) (previous report next : UsageReport Fl)
      (selected enabled : List Provider) (account : Option String)
      → merge_refresh_report (some (old, previous)) generation selected enabled account report
        ≡ (some (g, next), true)
      → is_full selected enabled account ≡ false
      → All (λ u. in_scope selected account u ≡ true) report.providers
      → All (λ f. failure_in_scope selected account f ≡ true) report.failures
      → (old ≡ generation)
        × (g ≡ generation)
        × IsReplaced (in_scope selected account) previous.providers report.providers next.providers
        × IsReplaced
            (failure_in_scope selected account)
            previous.failures
            report.failures
            next.failures
  unfolding merge_refresh_report
  merge-IsReplaced old generation g previous report next selected enabled account h partial own
        failed =
      let same : merged selected account previous report ≡ next = ground arith in
      (
        ground arith,
        ground arith,
        subst
            (λ r.
              IsReplaced (in_scope selected account) previous.providers report.providers
                r.providers)
            same (replaced (in_scope selected account) previous.providers report.providers own),
        subst
            (λ r.
              IsReplaced (failure_in_scope selected account) previous.failures report.failures
                r.failures)
            same
            (replaced (failure_in_scope selected account) previous.failures report.failures failed),
      )
