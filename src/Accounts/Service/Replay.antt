-- ===== src/Accounts/Service/Replay.antt =====
-- src/accounts/service.rs: a rule for what every history of transactions keeps.
use quotio_cli.Base.{
  ℕ, String, ◌≡◌, ap, ◌∙◌, false, List, [], ◌∷◌, none, arith, All, length, leb, ok, Bool-cases,
  Option-cases, Result-cases, inl, inr, string_eq, done, modify, ◌>>=◌, ◌>>◌,
}
use quotio_cli.Base.Dict.{lookup, length-insert-le}
use quotio_cli.Accounts.Document.{Document}
use quotio_cli.Accounts.Vault.{Codec, upgraded}
use quotio_cli.Accounts.Vault.Format.{IsFormatted, Fits-mono}
use quotio_cli.Accounts.Service.{
  Env, Stored, MutationIntent, commit_once, receipt, record_receipt, answer, conclude,
}
use quotio_cli.Accounts.Service.Durable.{
  IsCodec, Holds, conclude-Holds, begun-Holds, transact-Holds,
}
use quotio_cli.Accounts.Service.History.{
  Mutation, Call, plain, once, IsAllowed, IsAllowedCall, apply, serve, run,
}
use quotio_cli.Accounts.Service.History.Kept.{apply-receipts, apply-IsFormatted}

pub record_receipt-IsFormatted :
    (intent : MutationIntent) (id : String) (d : Document)
    → leb 4096 (length d.mutation_receipts) ≡ false
    → IsFormatted d
    → IsFormatted (record_receipt intent id d)
record_receipt-IsFormatted intent id d room h = record {
  low = omega (arith, h.low);
  high = omega (arith, h.high);
  fits = Fits-mono d.version _ d.accounts (omega arith) h.fits;
  receipts = λ e. omega arith;
  bounded = ground (
    arith,
    length-insert-le intent.key (record { fingerprint = intent.fingerprint; account_id = id })
        d.mutation_receipts,
  );
}

pub absent :
    (intent : MutationIntent) (d : Document)
    → receipt intent d ≡ ok none
    → lookup intent.key d.mutation_receipts ≡ none
unfolding receipt
absent intent d e = ground arith

-- A property of documents that every part of a transaction keeps.
pub record IsKept {ℓ} (sha256 : List ℕ → List ℕ) (P : Document → Type ℓ) : Type ℓ where
  pub raised : (d : Document) → P d → P (upgraded d)
  pub applied : (m : Mutation) (d : Document) → IsAllowed m → P d → P (apply sha256 m d).0
  pub recorded :
      (intent : MutationIntent) (id : String) (d : Document)
      → lookup intent.key d.mutation_receipts ≡ none
      → P d
      → P (record_receipt intent id d)

module _ {ℓ} (sha256 : List ℕ → List ℕ) (C : Codec) (codec : IsCodec C) (P : Document → Type ℓ)
    (kept : IsKept sha256 P) where
  pub noted-Holds :
      (env : Env) (intent : MutationIntent) (m : Mutation) (stored : Stored C) (d : Document)
      → IsAllowed m
      → IsFormatted d
      → P d
      → lookup intent.key d.mutation_receipts ≡ none
      → leb 4096 (length d.mutation_receipts) ≡ false
      → Holds C P stored
      → Holds C P
          (conclude C env.written stored
            ((do id ← apply sha256 m; modify (record_receipt intent id); done id) d)).0
  noted-Holds env intent m stored d w f p free room h = elim (Result-cases (apply sha256 m d).1) [
    | inr (e, bad) ↦ rw bad h
    | inl (id, fine) ↦
        let same = apply-receipts sha256 m d w in
        let s = (apply sha256 m d).0 in
        rw fine (
          conclude-Holds C P codec kept.raised env.written stored
            (record_receipt intent id s, ok id)
            (record_receipt-IsFormatted intent id s (rw same room)
              (apply-IsFormatted sha256 m d f w))
            (kept.recorded intent id s (rw same free) (kept.applied m d w p)) h)
  ]

  answer-Holds :
      (env : Env) (intent : MutationIntent) (m : Mutation) (stored : Stored C) (d : Document)
      → IsAllowed m
      → IsFormatted d
      → P d
      → Holds C P stored
      → Holds C P (answer C env intent (apply sha256 m) stored d (receipt intent d)).0
  answer-Holds env intent m stored d w f p h = elim (Result-cases (receipt intent d)) [
    | inr (e, bad) ↦ rw bad h
    | inl (o, fine) ↦ elim (Option-cases o) [
      | inr (id, hit) ↦ rw (fine, hit) h
      | inl miss ↦ elim (Bool-cases (leb 4096 (length d.mutation_receipts))) [
        | inl full ↦ rw (fine, miss, full) h
        | inr room ↦
            rw (fine, miss, room)
              (noted-Holds env intent m stored d w f p (absent intent d (fine ∙ ap ok miss)) room h)
      ]
    ]
  ]

  pub serve-Holds :
      (call : Env × Call) (stored : Stored C)
      → IsAllowedCall call
      → Holds C P stored
      → Holds C P (serve sha256 C call stored)
  unfolding serve commit_once
  serve-Holds (env, plain m) stored w h =
      transact-Holds C P codec kept.raised env (apply sha256 m) stored
        (λ d f p. (apply-IsFormatted sha256 m d f w, kept.applied m d w p)) h
  serve-Holds (env, once intent m) stored w h =
      begun-Holds C P codec kept.raised env.attempts stored
        (λ d. answer C env intent (apply sha256 m) stored d (receipt intent d))
        (λ d f p. answer-Holds env intent m stored d w f p h) h

  pub run-Holds :
      (calls : List (Env × Call)) (stored : Stored C)
      → All IsAllowedCall calls
      → Holds C P stored
      → Holds C P (run sha256 C calls stored)
  unfolding run
  run-Holds [] stored w h = h
  run-Holds (call ∷ calls) stored w h =
      run-Holds calls (serve sha256 C call stored) w.1 (serve-Holds call stored w.0 h)
