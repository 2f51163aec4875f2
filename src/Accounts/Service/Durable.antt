-- ===== src/Accounts/Service/Durable.antt =====
-- What is stored stays readable: a rule for what transactions keep.
use quotio_cli.Base.{
  ◌≡◌, subst, inl, inr, true, false, List, [], ◌∷◌, none, some, arith, Result, ok, err, Bool-cases,
  Option-cases, Result-cases, leb,
}
use quotio_cli.Accounts.Credential.{AccountError}
use quotio_cli.Accounts.Document.{Document, empty, Change}
use quotio_cli.Accounts.Vault.{
  Codec, Attempt, Written, replaced, uncertain, refused, begin_once, opened, write, commit,
  upgraded, is_rejected, max_bytes,
}
use quotio_cli.Accounts.Vault.Format.{IsFormatted, upgraded-accepted, accepted-IsFormatted}
use quotio_cli.Accounts.Service.{Env, Stored, begin, transact, conclude, committed, begun}

-- `from_slice` reads back what `to_vec` wrote.
abbrev pub IsCodec : Codec → Type 0
IsCodec C = (d : Document) (b : C.Bytes) → C.encode d ≡ some b → C.decode b ≡ some d

module _ (C : Codec) where
  open C use {Bytes, size, encode, decode}

  -- The bytes are a document that `begin` accepts, and it has the property.
  abbrev pub Holds {ℓ} : (Document → Type ℓ) → Stored C → Type ℓ
  Holds P none = P empty
  Holds P (some b) =
      (d : Document) × (leb (size b) max_bytes ≡ true)
      × (decode b ≡ some d)
      × (is_rejected d ≡ false)
      × P d

  module _ {ℓ} (P : Document → Type ℓ) where
    opened-Holds :
        (stored : Stored C) (d : Document)
        → Holds P stored
        → opened C stored ≡ ok d
        → (is_rejected d ≡ false) × P d
    unfolding is_rejected
    opened-Holds none d h e = (ground arith, subst P (ground arith) h)
    opened-Holds (some b) d (c, fits, readable, accepted, p) e =
        let same : c ≡ d = ground (arith, rw (fits, readable, accepted) at e) in
        (rw (← same) accepted, subst P same p)

    begin_once-Holds :
        (a : Attempt) (stored : Stored C) (d : Document)
        → Holds P stored
        → begin_once C a stored ≡ ok d
        → (is_rejected d ≡ false) × P d
    unfolding begin_once
    begin_once-Holds a stored d h e = opened-Holds stored d h (ground arith)

    -- What a transaction begins with.
    pub begin-Holds :
        (attempts : List Attempt) (stored : Stored C) (d : Document)
        → Holds P stored
        → begin C attempts stored ≡ ok d
        → (is_rejected d ≡ false) × P d
    unfolding begin
    begin-Holds [] stored d h e = cc
    begin-Holds (a ∷ attempts) stored d h e = elim (Result-cases (begin_once C a stored)) [
      | inl (c, fine) ↦ begin_once-Holds a stored d h (ground arith)
      | inr (x, bad) ↦ begin-Holds attempts stored d h (ground arith)
    ]

    module _ (codec : IsCodec C) (raised : (d : Document) → P d → P (upgraded d)) where
      write-Holds :
          (w : Written) (d : Document) (b : Bytes) (stored : Stored C)
          → encode (upgraded d) ≡ some b
          → leb (size b) max_bytes ≡ true
          → IsFormatted d
          → P d
          → Holds P stored
          → Holds P (write C w b stored).0
      write-Holds replaced d b stored e fits f p h =
          (upgraded d, fits, codec _ _ e, upgraded-accepted d f, raised d p)
      write-Holds uncertain d b stored e fits f p h =
          (upgraded d, fits, codec _ _ e, upgraded-accepted d f, raised d p)
      write-Holds (refused x) d b stored e fits f p h = h

      pub commit-Holds :
          (w : Written) (d : Document) (stored : Stored C)
          → IsFormatted d
          → P d
          → Holds P stored
          → Holds P (commit C w d stored).0
      unfolding commit
      commit-Holds w d stored f p h = elim (Option-cases (encode (upgraded d))) [
        | inl e ↦ rw (e, commit) h
        | inr (b, e) ↦ elim (Bool-cases (leb (size b) max_bytes)) [
          | inl fits ↦ rw (e, commit, fits) (write-Holds w d b stored e fits f p h)
          | inr big ↦ rw (e, commit, big) h
        ]
      ]

      committed-Holds :
          {A : Type 0} (a : A) (r : Stored C × Result AccountError (Unit {0}))
          → Holds P r.0
          → Holds P (committed C a r).0
      committed-Holds a (stored, ok u) h = h
      committed-Holds a (stored, err e) h = h

      pub conclude-Holds :
          {A : Type 0} (w : Written) (stored : Stored C) (r : Document × Result AccountError A)
          → IsFormatted r.0
          → P r.0
          → Holds P stored
          → Holds P (conclude C w stored r).0
      conclude-Holds w stored (d, ok a) f p h =
          committed-Holds a (commit C w d stored) (commit-Holds w d stored f p h)
      conclude-Holds w stored (d, err e) f p h = h

      pub begun-Holds :
          {A : Type 0} (attempts : List Attempt) (stored : Stored C)
          (f : Document → Stored C × Result AccountError A)
          → ((d : Document) → IsFormatted d → P d → Holds P (f d).0)
          → Holds P stored
          → Holds P (begun C stored (begin C attempts stored) f).0
      begun-Holds attempts stored f k h = elim (Result-cases (begin C attempts stored)) [
        | inl (d, fine) ↦
            let (accepted, p) = begin-Holds attempts stored d h fine in
            rw fine (k d (accepted-IsFormatted d accepted) p)
        | inr (e, bad) ↦ rw bad h
      ]

      -- A transaction keeps a property of documents that its method and the upgrade keep.
      pub transact-Holds :
          {A : Type 0} (env : Env) (m : Change A) (stored : Stored C)
          → ((d : Document) → IsFormatted d → P d → IsFormatted (m d).0 × P (m d).0)
          → Holds P stored
          → Holds P (transact C env m stored).0
      unfolding transact
      transact-Holds env m stored k h =
          begun-Holds env.attempts stored (λ d. conclude C env.written stored (m d))
            (λ d f p. let (f', p') = k d f p in conclude-Holds env.written stored (m d) f' p' h) h
