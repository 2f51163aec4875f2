-- ===== src/Accounts/Service/Read/Fenced.antt =====
-- `read` asks for a refresh only after the vault says that the token is being spent.
use quotio_cli.Base.{
  ℕ, ◌≡◌, sym, ap, ◌∙◌, Bool, true, false, not, ◌||◌, List, [], arith, All, Result, ok, err,
  Bool-cases, Result-cases, and_then, and_then_rule, done, lift, refuse_if, if◌then◌else◌, inl, inr,
  ◌==◌, string_eq, ◌>>=◌, ◌>>◌,
}
use quotio_cli.Accounts.Credential.{
  AccountError, Credential, credential_eq, is_enabled, source_disabled, commit_uncertain, busy,
}
use quotio_cli.Accounts.Document.{Document, Change}
use quotio_cli.Accounts.Vault.{Codec, upgraded}
use quotio_cli.Accounts.Vault.Format.{IsFormatted}
use quotio_cli.Accounts.Service.{Stored, transact, set_pending, has_pending, fence, install}
use quotio_cli.Accounts.Service.Durable.{IsCodec, Holds, transact-Holds}
use quotio_cli.Accounts.Service.History.{fences, installs, is_refreshable, IsAllowedCall}
use quotio_cli.Accounts.Service.History.Kept.{apply-IsFormatted}
use quotio_cli.Accounts.Service.Replay.{IsKept, run-Holds}
use quotio_cli.Accounts.Service.Read.{
  World, Action, Reading, is_pending, in_store, wait, look_up, verify_current, fence_first, send,
  install_it, renew, read_again, refresh_and_read, first_answer, read_credential, read,
  needs_refresh, is_authentication,
}
use quotio_cli.Accounts.Service.Read.Marks.{
  Holds-map, transact_has, has_credential, has_credential-upgraded, fence-has, fence-kept,
  install-kept, set_pending-pending,
}

module _ (C : Codec) where
  abbrev pub started : Stored C → World C
  started stored = record { stored = stored; refreshed = [] }

  module _ {Usage : Type 0} (R : Reading Usage) where
    -- The credential of a request for a refresh is marked as being spent, if its kind can be, and the vault
    -- at that time has it so.
    abbrev pub IsFenced : Credential × Stored C → Type 0
    IsFenced (c, stored) =
        (is_pending c ≡ has_pending c)
        × Holds C (λ d. (not (has_pending c) || has_credential R.id c d) ≡ true) stored

module _ {ℓ} (sha256 : List ℕ → List ℕ) (C : Codec) (codec : IsCodec C) (P : Document → Type ℓ)
    (kept : IsKept sha256 P) {Usage : Type 0} (R : Reading Usage)
    (allowed : (n : ℕ) → All IsAllowedCall (R.others n))
    (answers : (c u : Credential) → R.refresh c ≡ ok u → is_refreshable u ≡ true) where
  abbrev Inv : World C → Type ℓ
  Inv w = Holds C P w.stored × All (IsFenced C R) w.refreshed

  wait-Inv : (n : ℕ) (w : World C) → Inv w → Inv (wait sha256 R n w).0
  wait-Inv n w h = (run-Holds sha256 C codec P kept (R.others n) w.stored (allowed n) h.0, h.1)

  refused_rule :
      {A : Type 0} (b : Bool) (e : AccountError) (m : Action C A) (w : World C)
      → Inv w
      → Inv (m w).0
      → Inv (and_then (refuse_if b e w) (λ _. m)).0
  refused_rule true e m w h k = h
  refused_rule false e m w h k = k

  verify_current-Inv :
      (n : ℕ) (c : Credential) (usage : Usage) (w : World C)
      → Inv w
      → Inv (verify_current sha256 R n c usage w).0
  unfolding verify_current
  verify_current-Inv n c usage w h =
      and_then_rule Inv (look_up sha256 R n w) _ (wait-Inv n w h)
        λ a s p. refused_rule _ busy (done usage) s p p

  transacted-Inv :
      {A : Type 0} (n : ℕ) (m : Change A) (w : World C)
      → ((d : Document) → IsFormatted d → P d → IsFormatted (m d).0 × P (m d).0)
      → Inv w
      → Inv (in_store sha256 (transact C (R.env n) m) w).0
  transacted-Inv n m w k h = (transact-Holds C P codec kept.raised (R.env n) m w.stored k h.0, h.1)

  fence-step :
      (c : Credential) (d : Document)
      → is_refreshable c ≡ true
      → IsFormatted d
      → P d
      → IsFormatted (fence sha256 R.id c d).0 × P (fence sha256 R.id c d).0
  fence-step c d w f p = (
    rw (← fence-kept sha256 R.id c d) (apply-IsFormatted sha256 (fences R.id c) d f w),
    rw (← fence-kept sha256 R.id c d) (kept.applied (fences R.id c) d w p),
  )

  install-step :
      (c u : Credential) (d : Document)
      → is_refreshable u ≡ true
      → IsFormatted d
      → P d
      → IsFormatted (install sha256 R.id R.provider c u d).0
        × P (install sha256 R.id R.provider c u d).0
  install-step c u d w f p =
      let same = install-kept sha256 R.id R.provider c u d in
      (
        rw (← same) (apply-IsFormatted sha256 (installs R.id R.provider c u) d f w),
        rw (← same) (kept.applied (installs R.id R.provider c u) d w p),
      )

  fence_first-Inv :
      (c : Credential) (w : World C)
      → is_refreshable c ≡ true
      → Inv w
      → Inv (fence_first sha256 R c w).0
  unfolding fence_first
  fence_first-Inv c w r h = elim (Bool-cases (has_pending c)) [
    | inr e ↦ rw e h
    | inl e ↦ rw e (
        transacted-Inv 2 (fence sha256 R.id c) (wait sha256 R 2 w).0 (λ d. fence-step c d r)
          (wait-Inv 2 w h))
  ]

  abbrev Says : Credential → Document → Type 0
  Says c d = (not (has_pending c) || has_credential R.id c d) ≡ true

  Says-upgraded : (c : Credential) (d : Document) → Says c d → Says c (upgraded d)
  Says-upgraded c d h = rw (has_credential-upgraded R.id c d) h

  Says-fenced :
      (c : Credential) (d : Document)
      → (fence sha256 R.id c d).1 ≡ ok tt
      → Says (set_pending c) (fence sha256 R.id c d).0
  Says-fenced c d h = ground (arith, fence-has sha256 R.id c d h)

  unmarked :
      (c : Credential) (w : World C)
      → has_pending c ≡ false
      → Inv w
      → IsFenced C R (set_pending c, w.stored)
  unmarked c w off h =
      let (a, b, r) = set_pending-pending c in
      (a ∙ sym b, Holds-map C P (Says (set_pending c)) w.stored (λ d p. ground arith) h.0)

  marked :
      (c : Credential) (w : World C)
      → is_refreshable c ≡ true
      → Inv w
      → (transact C (R.env 2) (fence sha256 R.id c) w.stored).1 ≡ ok tt
      → IsFenced C R (set_pending c, (transact C (R.env 2) (fence sha256 R.id c) w.stored).0)
  marked c w r h e =
      let (a, b, same) = set_pending-pending c in
      let t = transact C (R.env 2) (fence sha256 R.id c) w.stored in
      (
        a ∙ sym b,
        transact_has C (Says (set_pending c)) codec (Says-upgraded (set_pending c)) (R.env 2)
            (fence sha256 R.id c) w.stored t.0 tt
            (Holds-map C P (λ _. Unit {0}) w.stored (λ d p. tt) h.0)
            (λ d u f good. (
              rw (← fence-kept sha256 R.id c d) (apply-IsFormatted sha256 (fences R.id c) d f r),
              Says-fenced c d good,
            ))
            (ap (λ x. (t.0, x)) e),
      )

  install_it-Inv :
      (c u : Credential) (w : World C)
      → is_refreshable u ≡ true
      → Inv w
      → Inv (install_it sha256 R c u w).0
  install_it-Inv c u w r h =
      and_then_rule Inv
        (in_store sha256 (transact C (R.env 3) (install sha256 R.id R.provider c u))
          (wait sha256 R 3 w).0)
        lift
        (transacted-Inv 3 (install sha256 R.id R.provider c u) (wait sha256 R 3 w).0
          (λ d. install-step c u d r) (wait-Inv 3 w h))
        λ a s p. p

  answered-Inv :
      (c : Credential) (n : ℕ) (o : Result AccountError Usage) (w : World C)
      → Inv w
      → Inv (and_then (lift o w) (λ usage. verify_current sha256 R n c usage)).0
  answered-Inv c n (err e) w h = h
  answered-Inv c n (ok usage) w h = verify_current-Inv n c usage w h

  -- After the vault says that the token is being spent.
  sent-Inv :
      (c : Credential) (w : World C)
      → Inv w
      → IsFenced C R (set_pending c, w.stored)
      → Inv
          (and_then (send sha256 R (set_pending c) w) (λ updated. do
            install_it sha256 R (set_pending c) updated
            usage ← lift (R.quota_again updated)
            verify_current sha256 R 4 updated usage)).0
  sent-Inv c w h f = elim (Result-cases (R.refresh (set_pending c))) [
    | inr (e, bad) ↦ rw bad (h.0, (f, h.1))
    | inl (u, fine) ↦ rw fine (
        and_then_rule Inv (install_it sha256 R (set_pending c) u _) _
          (install_it-Inv (set_pending c) u _ (answers (set_pending c) u fine) (h.0, (f, h.1)))
          λ a s p. answered-Inv u 4 (R.quota_again u) s p)
  ]

  fence_first-IsFenced :
      (c : Credential) (w : World C)
      → is_refreshable c ≡ true
      → Inv w
      → (fence_first sha256 R c w).1 ≡ ok tt
      → IsFenced C R (set_pending c, (fence_first sha256 R c w).0.stored)
  unfolding fence_first
  fence_first-IsFenced c w r h e = elim (Bool-cases (has_pending c)) [
    | inr off ↦ rw off (unmarked c w off h)
    | inl on ↦ rw on (marked c (wait sha256 R 2 w).0 r (wait-Inv 2 w h) (rw on at e))
  ]

  renew-Inv :
      (c : Credential) (w : World C) → is_refreshable c ≡ true → Inv w → Inv (renew sha256 R c w).0
  unfolding renew
  renew-Inv c w r h = elim (Result-cases (fence_first sha256 R c w).1) [
    | inr (e, bad) ↦ rw (bad, renew) (fence_first-Inv c w r h)
    | inl (u, fine) ↦
        rw (fine, renew)
          (sent-Inv c (fence_first sha256 R c w).0 (fence_first-Inv c w r h)
            (fence_first-IsFenced c w r h fine))
  ]

  latest_rule :
      (b : Bool) (c latest : Credential) (w : World C)
      → is_refreshable c ≡ true
      → Inv w
      → Inv ((if not b then read_again sha256 R latest else renew sha256 R c) w).0
  latest_rule true c latest w r h = renew-Inv c w r h
  latest_rule false c latest w r h = answered-Inv latest 4 (R.quota_again latest) w h

  refresh_and_read-Inv :
      (c : Credential) (w : World C)
      → is_refreshable c ≡ true
      → Inv w
      → Inv (refresh_and_read sha256 R c w).0
  unfolding refresh_and_read
  refresh_and_read-Inv c w r h = and_then_rule Inv (lift R.refresh_lock w) _ h λ u s₀ p₀.
      and_then_rule Inv (look_up sha256 R 1 s₀) _ (wait-Inv 1 s₀ p₀) λ a s p.
        refused_rule (not (is_enabled a)) source_disabled
          (if not (c == a.credential) then read_again sha256 R a.credential else renew sha256 R c) s
          p (latest_rule (c == a.credential) c a.credential s r p)

  first_answer-Inv :
      (c : Credential) (o : Result AccountError Usage) (w : World C)
      → is_refreshable c ≡ true
      → Inv w
      → Inv (first_answer sha256 R c o w).0
  first_answer-Inv c (ok usage) w r h = verify_current-Inv 5 c usage w h
  first_answer-Inv c (err e) w r h = elim (Bool-cases (is_authentication e)) [
    | inl t ↦ rw t (refresh_and_read-Inv c w r h)
    | inr t ↦ rw t h
  ]

  read_credential-Inv :
      (c : Credential) (w : World C) → Inv w → Inv (read_credential sha256 R c w).0
  read_credential-Inv c w h = elim (Bool-cases (is_refreshable c)) [
    | inr plain ↦ rw plain (answered-Inv c 5 (R.quota c) w h)
    | inl r ↦ elim (Bool-cases (needs_refresh R.provider R.now c)) [
      | inl due ↦ rw (r, due) (refresh_and_read-Inv c w r h)
      | inr fresh ↦ rw (r, fresh) (first_answer-Inv c (R.quota c) w r h)
    ]
  ]

  -- Each credential that `read` sends to be refreshed is marked as pending, if its kind has the
  -- mark, and the vault at that time holds it with the mark under the id of the account. `read`
  -- also keeps every property of the stored document that the transactions keep. Other
  -- transactions may be committed before each transaction of `read`; they are allowed ones, a
  -- refresh gives a credential of a kind that can be refreshed, and `from_slice` reads what
  -- `to_vec` wrote.
  pub read-IsFenced :
      (stored : Stored C)
      → Holds C P stored
      → Holds C P (read sha256 {C = C} R (started C stored)).0.stored
        × All (IsFenced C R) (read sha256 {C = C} R (started C stored)).0.refreshed
  unfolding read
  read-IsFenced stored h =
      let w : World C = started C stored in
      and_then_rule Inv (look_up sha256 R 0 w) _ (wait-Inv 0 w (h, tt)) λ a s p.
        refused_rule (not (is_enabled a)) source_disabled
          (refuse_if (is_pending a.credential) commit_uncertain
            >> read_credential sha256 R a.credential)
          s p
          (refused_rule (is_pending a.credential) commit_uncertain
            (read_credential sha256 R a.credential) s p (read_credential-Inv a.credential s p))
