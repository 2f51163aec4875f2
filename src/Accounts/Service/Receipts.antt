-- ===== src/Accounts/Service/Receipts.antt =====
-- src/accounts/service.rs: a retry under the same key, at any later time, is answered with the id of
-- the first answer, and changes nothing.
use quotio_cli.Base.{
  ℕ, String, ◌≡◌, sym, subst, ap, ◌∙◌, true, false, List, [], ◌∷◌, Option, none, some, arith, All,
  length, leb, Result, ok, err, if◌then◌else◌, Bool-cases, Option-cases, Result-cases, inl, inr,
  ◌==◌, string_eq, done, modify, ◌>>=◌, ◌>>◌,
}
use quotio_cli.Base.Dict.{lookup, lookup-insert_self}
use quotio_cli.Accounts.Credential.{AccountError, idempotency_conflict}
use quotio_cli.Accounts.Document.{Document, MutationReceipt, Change}
use quotio_cli.Accounts.Vault.{
  Codec, Attempt, Written, replaced, uncertain, refused, upgraded, commit, write, opened,
  begin_once, max_bytes,
}
use quotio_cli.Accounts.Vault.Format.{IsFormatted, upgraded-accepted, accepted-IsFormatted}
use quotio_cli.Accounts.Service.{
  Env, Stored, MutationIntent, commit_once, receipt, record_receipt, answer, begin, conclude,
  committed,
}
use quotio_cli.Accounts.Service.Durable.{IsCodec, Holds, begin-Holds}
use quotio_cli.Accounts.Service.History.{Mutation, Call, IsAllowed, IsAllowedCall, apply, run}
use quotio_cli.Accounts.Service.History.Kept.{apply-receipts, apply-IsFormatted}
use quotio_cli.Accounts.Service.Replay.{run-Holds, record_receipt-IsFormatted}
use quotio_cli.Accounts.Service.Promises.{
  free, free-begin, IsReceived-kept, IsReceived-raised, IsReceived,
}

module _ (C : Codec) where
  open C use {Bytes, size, encode, decode}

  begin-opened :
      (attempts : List Attempt) (stored : Stored C) (d : Document)
      → begin C attempts stored ≡ ok d
      → opened C stored ≡ ok d
  unfolding begin begin_once
  begin-opened [] stored d h = cc
  begin-opened (a ∷ attempts) stored d h = ground (arith, begin-opened attempts stored d)

  -- What the document of a transaction has, the stored document has.
  opened_has {ℓ} :
      (P : Document → Type ℓ) (stored : Stored C) (d : Document)
      → Holds C (λ _. Unit {0}) stored
      → opened C stored ≡ ok d
      → P d
      → Holds C P stored
  opened_has P none d h e p = subst P (ground arith) p
  opened_has P (some b) d (c, fits, readable, accepted, u) e p =
      let same : c ≡ d = ground (arith, rw (fits, readable, accepted) at e) in
      (c, fits, readable, accepted, subst P (sym same) p)

  committed_ok :
      {A : Type 0} (b a : A) (r : Stored C × Result AccountError (Unit {0})) (s : Stored C)
      → committed C b r ≡ (s, ok a)
      → r ≡ (s, ok tt)
  committed_ok b a (stored, ok u) s e = ground arith
  committed_ok b a (stored, err x) s e = ground arith

  committed_id :
      {A : Type 0} (b a : A) (r : Stored C × Result AccountError (Unit {0})) (s : Stored C)
      → committed C b r ≡ (s, ok a)
      → b ≡ a
  committed_id b a (stored, ok u) s e = ground arith
  committed_id b a (stored, err x) s e = ground arith

  module _ {ℓ} (P : Document → Type ℓ) (codec : IsCodec C)
      (raised : (d : Document) → P d → P (upgraded d)) where
    written_has :
        (w : Written) (d : Document) (b : Bytes) (stored s : Stored C)
        → encode (upgraded d) ≡ some b
        → leb (size b) max_bytes ≡ true
        → IsFormatted d
        → P d
        → write C w b stored ≡ (s, ok tt)
        → Holds C P s
    written_has replaced d b stored s e fits f p h =
        let same : some b ≡ s = ap (λ r. r.0) h in
        subst (Holds C P) same (upgraded d, fits, codec _ _ e, upgraded-accepted d f, raised d p)
    written_has uncertain d b stored s e fits f p h = ground arith
    written_has (refused x) d b stored s e fits f p h = ground arith

    committed_has :
        (w : Written) (d : Document) (stored s : Stored C)
        → IsFormatted d
        → P d
        → commit C w d stored ≡ (s, ok tt)
        → Holds C P s
    unfolding commit
    committed_has w d stored s f p e = elim (Option-cases (encode (upgraded d))) [
      | inl none_ ↦ ground (arith, rw (none_, commit) at e)
      | inr (b, coded) ↦ elim (Bool-cases (leb (size b) max_bytes)) [
        | inl fits ↦ written_has w d b stored s coded fits f p (rw (coded, commit, fits) at e)
        | inr big ↦ ground (arith, rw (coded, commit, big) at e)
      ]
    ]

    pub concluded_has :
        {A : Type 0} (w : Written) (d : Document) (r : Result AccountError A) (stored s : Stored C)
        (a : A)
        → IsFormatted d
        → P d
        → conclude C w stored (d, r) ≡ (s, ok a)
        → Holds C P s
    concluded_has w d (err x) stored s a f p e = ground arith
    concluded_has w d (ok b) stored s a f p e =
        committed_has w d stored s f p (committed_ok b a (commit C w d stored) s e)

abbrev receipt_with : String → String → Option MutationReceipt
receipt_with f i = some (record { fingerprint = f; account_id = i })

found : (f g i j : String) → f ≡ g → i ≡ j → receipt_with f i ≡ receipt_with g j
found f g i j p q = ground arith

receipt_found :
    (intent : MutationIntent) (d : Document) (id : String)
    → receipt intent d ≡ ok (some id)
    → IsReceived intent.key (record { fingerprint = intent.fingerprint; account_id = id }) d
unfolding receipt
receipt_found intent d id e = elim (Option-cases (lookup intent.key d.mutation_receipts)) [
  | inl miss ↦ ground (arith, rw miss at e)
  | inr (r, hit) ↦ elim (Bool-cases (r.fingerprint == intent.fingerprint)) [
    | inl same ↦
        let print : r.fingerprint ≡ intent.fingerprint = ground arith in
        let account : r.account_id ≡ id = ground (arith, rw (hit, same) at e) in
        hit ∙ found r.fingerprint intent.fingerprint r.account_id id print account
    | inr other ↦ ground (arith, rw (hit, other) at e)
  ]
]

module _ (sha256 : List ℕ → List ℕ) (C : Codec) (codec : IsCodec C) where
  abbrev receipt_of : MutationIntent → String → MutationReceipt
  receipt_of intent id = record { fingerprint = intent.fingerprint; account_id = id }

  noted-IsReceived :
      (env : Env) (intent : MutationIntent) (m : Mutation) (stored s : Stored C) (d : Document)
      (id : String)
      → IsAllowed m
      → IsFormatted d
      → leb 4096 (length d.mutation_receipts) ≡ false
      → conclude C env.written stored
          ((do i ← apply sha256 m; modify (record_receipt intent i); done i) d)
        ≡ (s, ok id)
      → Holds C (IsReceived intent.key (receipt_of intent id)) s
  noted-IsReceived env intent m stored s d id w f room e =
      elim (Result-cases (apply sha256 m d).1) [
        | inr (x, bad) ↦ ground (arith, rw bad at e)
        | inl (i, fine) ↦
            let same = apply-receipts sha256 m d w in
            let c = (apply sha256 m d).0 in
            let P = IsReceived intent.key (receipt_of intent id) in
            let told : conclude C env.written stored (record_receipt intent i c, ok i)
                ≡ (s, ok id) =
              rw fine at e in
            let known : i ≡ id =
              committed_id C i id (commit C env.written (record_receipt intent i c) stored) s
                told in
            concluded_has C P codec (IsReceived-raised sha256 intent.key (receipt_of intent id))
              env.written (record_receipt intent i c) (ok i) stored s id
              (record_receipt-IsFormatted intent i c (rw same room)
                (apply-IsFormatted sha256 m d f w))
              (rw known (lookup-insert_self intent.key (receipt_of intent id) c.mutation_receipts))
              told
      ]

  answer-IsReceived :
      (env : Env) (intent : MutationIntent) (m : Mutation) (stored s : Stored C) (d : Document)
      (id : String)
      → IsAllowed m
      → IsFormatted d
      → Holds C (λ _. Unit {0}) stored
      → opened C stored ≡ ok d
      → answer C env intent (apply sha256 m) stored d (receipt intent d) ≡ (s, ok id)
      → Holds C (IsReceived intent.key (receipt_of intent id)) s
  answer-IsReceived env intent m stored s d id w f h o e = elim (Result-cases (receipt intent d)) [
    | inr (x, bad) ↦ ground (arith, rw bad at e)
    | inl (none, fine) ↦ elim (Bool-cases (leb 4096 (length d.mutation_receipts))) [
      | inl full ↦ ground (arith, rw (fine, full) at e)
      | inr room ↦ noted-IsReceived env intent m stored s d id w f room (rw (fine, room) at e)
    ]
    | inl (some i, fine) ↦
        let known : i ≡ id = ground (arith, rw fine at e) in
        let same : stored ≡ s = ground (arith, rw fine at e) in
        let P = IsReceived intent.key (receipt_of intent id) in
        subst (Holds C P) same (
          opened_has C P stored d h o
            (receipt_found intent d id (fine ∙ ap (λ x. ok (some x)) known)))
  ]

  received :
      (env : Env) (intent : MutationIntent) (m : Mutation) (stored s : Stored C) (id : String)
      → IsAllowed m
      → Holds C (λ _. Unit {0}) stored
      → commit_once C env intent (apply sha256 m) stored ≡ (s, ok id)
      → Holds C (IsReceived intent.key (receipt_of intent id)) s
  unfolding commit_once
  received env intent m stored s id w h e = elim (Result-cases (begin C env.attempts stored)) [
    | inr (x, bad) ↦ ground (arith, rw bad at e)
    | inl (d, fine) ↦
        answer-IsReceived env intent m stored s d id w
          (accepted-IsFormatted d (begin-Holds C (λ _. Unit {0}) env.attempts stored d h fine).0) h
          (begin-opened C env.attempts stored d fine) (rw fine at e)
  ]

  -- Where `commit_once` answered with the id of an account, then after any history of allowed
  -- transactions a transaction under the same key that gets the locks and reads leaves the store
  -- as it is, whatever its own change is: with the same fingerprint it answers with that id,
  -- with another it is refused as a conflict. The first transaction begins on no stored bytes or
  -- on bytes that `begin` accepts, and `from_slice` reads what `to_vec` wrote.
  pub replays :
      (env : Env) (intent : MutationIntent) (m : Mutation) (stored s : Stored C) (id : String)
      (calls : List (Env × Call)) (attempts : List Attempt) (w : Written) (print : String)
      (change : Change String)
      → IsAllowed m
      → Holds C (λ _. Unit {0}) stored
      → commit_once C env intent (apply sha256 m) stored ≡ (s, ok id)
      → All IsAllowedCall calls
      → commit_once C
          (record { attempts = free ∷ attempts; written = w })
          (record { key = intent.key; fingerprint = print })
          change
          (run sha256 C calls s)
        ≡ (
          run sha256 C calls s,
          if intent.fingerprint == print then ok id else err idempotency_conflict,
        )
  unfolding commit_once receipt
  replays env intent m stored s id calls attempts w print change allowed h e later =
      let P = IsReceived intent.key (receipt_of intent id) in
      let after =
        run-Holds sha256 C codec P (IsReceived-kept sha256 intent.key (receipt_of intent id)) calls
          s later (received env intent m stored s id allowed h e) in
      let (d, begins, accepted, p) = free-begin C P attempts (run sha256 C calls s) after in
      rw (begins, p) (ground arith)
