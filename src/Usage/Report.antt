-- ===== src/Usage/Report.antt =====
-- What `include_diagnostics` adds to the failures, and what the exit code says of them.
use quotio_cli.Base.{
  String, ◌≡◌, refl, Bool, true, List, [], ◌∷◌, arith, any, any-append, string_eq, option_eq,
  Bool-cases, inl, inr, All, any_found, Memᴰ,
}
use quotio_cli.Accounts.Credential.{ProviderError}
use quotio_cli.Usage.{
  Float, ProviderUsage, UsageReport, UsageDiagnostic, ProviderFailure, tells, tell, tell_all,
  tell_usages, include_diagnostics, exit_code, failure_of, error_eq, ref_id,
}

no_failures : {Fl : Float} (r : UsageReport Fl) → exit_code r ≡ 0 → r.failures ≡ []
unfolding exit_code
no_failures r h = ground arith

module _ {Fl : Float} (text_of : ProviderError → String) where
  tell-tells :
      (u : ProviderUsage Fl) (d : UsageDiagnostic) (fs : List ProviderFailure)
      → any (tells text_of u d) (tell text_of u d fs) ≡ true
  tell-tells u d fs = elim (Bool-cases (any (tells text_of u d) fs)) [
    | inl told ↦ rw told told
    | inr new ↦
        rw (new, any-append (tells text_of u d) fs (failure_of text_of u d ∷ [])) (ground arith)
  ]

  module _ (p : ProviderFailure → Bool) where
    any-tell :
        (u : ProviderUsage Fl) (d : UsageDiagnostic) (fs : List ProviderFailure)
        → any p fs ≡ true
        → any p (tell text_of u d fs) ≡ true
    any-tell u d fs h = ground (arith, any-append p fs (failure_of text_of u d ∷ []))

    any-tell_all :
        (u : ProviderUsage Fl) (ds : List UsageDiagnostic) (fs : List ProviderFailure)
        → any p fs ≡ true
        → any p (tell_all text_of u ds fs) ≡ true
    unfolding tell_all
    any-tell_all u [] fs h = h
    any-tell_all u (d ∷ ds) fs h = any-tell_all u ds (tell text_of u d fs) (any-tell u d fs h)

    any-tell_usages :
        (us : List (ProviderUsage Fl)) (fs : List ProviderFailure)
        → any p fs ≡ true
        → any p (tell_usages text_of us fs) ≡ true
    unfolding tell_usages
    any-tell_usages [] fs h = h
    any-tell_usages (u ∷ us) fs h =
        any-tell_usages us (tell_all text_of u u.diagnostics fs) (any-tell_all u u.diagnostics fs h)

  tell_all-tells :
      (u : ProviderUsage Fl) (ds : List UsageDiagnostic) (fs : List ProviderFailure)
      → All (λ d. any (tells text_of u d) (tell_all text_of u ds fs) ≡ true) ds
  unfolding tell_all
  tell_all-tells u [] fs = tt
  tell_all-tells u (d ∷ ds) fs = (
    any-tell_all (tells text_of u d) u ds (tell text_of u d fs) (tell-tells u d fs),
    tell_all-tells u ds (tell text_of u d fs),
  )

  -- Each diagnostic of a usage is told by one of the failures.
  abbrev IsToldBy : List ProviderFailure → ProviderUsage Fl → Type 0
  IsToldBy fs u = All (λ d. any (tells text_of u d) fs ≡ true) u.diagnostics

  told_later :
      (u : ProviderUsage Fl) (us : List (ProviderUsage Fl)) (fs : List ProviderFailure)
      (ds : List UsageDiagnostic)
      → All (λ d. any (tells text_of u d) fs ≡ true) ds
      → All (λ d. any (tells text_of u d) (tell_usages text_of us fs) ≡ true) ds
  told_later u us fs [] h = tt
  told_later u us fs (d ∷ ds) h =
      (any-tell_usages (tells text_of u d) us fs h.0, told_later u us fs ds h.1)

  tell_usages-IsToldBy :
      (us : List (ProviderUsage Fl)) (fs : List ProviderFailure)
      → All (IsToldBy (tell_usages text_of us fs)) us
  unfolding tell_usages
  tell_usages-IsToldBy [] fs = tt
  tell_usages-IsToldBy (u ∷ us) fs = (
    told_later u us (tell_all text_of u u.diagnostics fs) u.diagnostics
        (tell_all-tells u u.diagnostics fs),
    tell_usages-IsToldBy us (tell_all text_of u u.diagnostics fs),
  )

  -- A failure says of the account of a usage what a diagnostic says.
  abbrev pub IsSaidBy : ProviderUsage Fl → UsageDiagnostic → ProviderFailure → Type 0
  IsSaidBy u d f =
      (f.provider ≡ u.provider) × (ref_id f.account_ref ≡ ref_id u.account_ref) × (f.code ≡ d.code)

  -- Each diagnostic of a usage is told by one of the failures.
  abbrev pub IsTold : List ProviderFailure → ProviderUsage Fl → Type 0
  IsTold fs u = All (λ d. (f : ProviderFailure) × Memᴰ f fs × IsSaidBy u d f) u.diagnostics

  told_said :
      (u : ProviderUsage Fl) (d : UsageDiagnostic) (f : ProviderFailure)
      → tells text_of u d f ≡ true
      → IsSaidBy u d f
  told_said u d f h = (ground arith, ground arith, ground arith)

  each_told :
      (u : ProviderUsage Fl) (fs : List ProviderFailure) (ds : List UsageDiagnostic)
      → All (λ d. any (tells text_of u d) fs ≡ true) ds
      → All (λ d. (f : ProviderFailure) × Memᴰ f fs × IsSaidBy u d f) ds
  each_told u fs [] h = tt
  each_told u fs (d ∷ ds) (h, hs) =
      let (f, there, told) = any_found (tells text_of u d) fs h in
      ((f, there, told_said u d f told), each_told u fs ds hs)

  All-IsTold :
      (us : List (ProviderUsage Fl)) (fs : List ProviderFailure)
      → All (IsToldBy fs) us
      → All (IsTold fs) us
  All-IsTold [] fs h = tt
  All-IsTold (u ∷ us) fs (h, hs) = (each_told u fs u.diagnostics h, All-IsTold us fs hs)

  -- After `include_diagnostics`, each diagnostic of each usage has a failure with the same
  -- provider, the same account id and the same code.
  pub include_diagnostics-IsTold :
      (r : UsageReport Fl)
      → All
          (IsTold (include_diagnostics text_of r).failures)
          (include_diagnostics text_of r).providers
  unfolding include_diagnostics
  include_diagnostics-IsTold r =
      All-IsTold r.providers _ (tell_usages-IsToldBy r.providers r.failures)

  told_none :
      (ds : List UsageDiagnostic) (u : ProviderUsage Fl)
      → All (λ d. any (tells text_of u d) [] ≡ true) ds
      → ds ≡ []
  told_none [] u h = refl
  told_none (d ∷ ds) u h = ground arith

  told_nothing :
      (us : List (ProviderUsage Fl)) (fs : List ProviderFailure)
      → fs ≡ []
      → All (IsToldBy fs) us
      → All (λ u. u.diagnostics ≡ []) us
  told_nothing [] fs e h = tt
  told_nothing (u ∷ us) fs e h = (told_none u.diagnostics u (rw e at h.0), told_nothing us fs e h.1)

  -- Where the exit code is 0 after `include_diagnostics`, no usage of the report has a
  -- diagnostic.
  pub exit_code-clean :
      (r : UsageReport Fl)
      → exit_code (include_diagnostics text_of r) ≡ 0
      → All (λ u. u.diagnostics ≡ []) r.providers
  unfolding include_diagnostics
  exit_code-clean r h =
      told_nothing r.providers (include_diagnostics text_of r).failures
        (no_failures (include_diagnostics text_of r) h)
        (tell_usages-IsToldBy r.providers r.failures)
