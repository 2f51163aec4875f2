-- ===== src/Accounts/Document/Rule.antt =====
-- A rule for `patch`, by its parts.
use quotio_cli.Base.{
  String, Bool, true, false, Option, none, some, any, Bool-cases, inl, inr, and_then_rule, ◌>>◌,
}
use quotio_cli.Accounts.Document.{
  Document, Change, has_id, rename, select, patch_enabled, patch, refuse_deselect, patch_label,
  patch_active, patch_found, patch_rest,
}

-- A property of documents that the parts of `patch` keep, `patch` keeps.
module _ {ℓ} (P : Document → Type ℓ) (id : String) where
  abbrev Holds : Change (Unit {0}) → Type ℓ
  Holds m = (s : Document) → P s → P (m s).0

  found_rule : Holds (patch_found id)
  found_rule s p = elim (Bool-cases (any (has_id id) s.accounts)) [
    | inl e ↦ rw e p
    | inr e ↦ rw e p
  ]

  active_rule : Holds (select id) → (active : Option Bool) → Holds (patch_active id active)
  active_rule t (some true) s p = t s p
  active_rule t (some false) s p = p
  active_rule t none s p = p

  label_rule :
      ((to : String) → Holds (rename id to)) → (text : Option String) → Holds (patch_label id text)
  label_rule r none s p = p
  label_rule r (some to) s p = r to s p

  deselect_rule :
      (m : Change (Unit {0})) (active : Option Bool) → Holds m → Holds (refuse_deselect active >> m)
  deselect_rule m (some false) h s p = p
  deselect_rule m (some true) h s p = h s p
  deselect_rule m none h s p = h s p

  pub patch_rule :
      (text : Option String) (active enabled : Option Bool)
      → ((on : Option Bool) → Holds (patch_enabled id on))
      → ((to : String) → Holds (rename id to))
      → Holds (select id)
      → Holds (patch id text active enabled)
  unfolding patch
  patch_rule text active enabled q r t d p =
      and_then_rule P (patch_enabled id enabled d)
        (λ _. refuse_deselect active >> patch_rest id text active) (q enabled d p)
        λ _. deselect_rule (patch_rest id text active) active λ s₂ p₂.
          and_then_rule P (patch_label id text s₂) (λ _. patch_active id active >> patch_found id)
            (label_rule r text s₂ p₂)
            λ _ s₃ p₃.
              and_then_rule P (patch_active id active s₃) (λ _. patch_found id)
                (active_rule t active s₃ p₃) λ _ s₄ p₄. found_rule s₄ p₄
