-- ===== src/Accounts/Service/Promises.antt =====
-- src/accounts/service.rs: what a history of transactions promises to a later one.
use quotio_cli.Base.{
  ℕ, String, ◌≡◌, ◌≢◌, refl, false, List, ◌∷◌, none, some, arith, All, ok, err, string_eq,
}
use quotio_cli.Base.Dict.{lookup, lookup-insert}
use quotio_cli.Accounts.Credential.{duplicate, Credential}
use quotio_cli.Accounts.Document.{
  Document, MutationReceipt, empty, Family, ledger, lineage, token_key, reserve_factory_refresh,
}
use quotio_cli.Accounts.Document.Ledger.{reserve_owned}
use quotio_cli.Accounts.Vault.{Codec, Attempt, upgraded, is_rejected, begin_once}
use quotio_cli.Accounts.Service.{Env, Stored, begin}
use quotio_cli.Accounts.Service.Durable.{IsCodec, Holds, begin-Holds}
use quotio_cli.Accounts.Service.History.{Call, IsAllowedCall, run}
use quotio_cli.Accounts.Service.History.Kept.{apply-Kept, apply-receipts}
use quotio_cli.Accounts.Service.Replay.{IsKept, run-Holds}

-- An attempt at which no lock is held and the read succeeds.
abbrev pub free : Attempt
free = record { lock = none; failed_read = none }

abbrev IsOwned : Family → String → String → Document → Type 0
IsOwned f k owner d = lookup k (ledger f d) ≡ some owner

abbrev pub IsReceived : String → MutationReceipt → Document → Type 0
IsReceived k r d = lookup k d.mutation_receipts ≡ some r

module _ (sha256 : List ℕ → List ℕ) where
  pub nothing_kept : IsKept sha256 (λ _. Unit {0})
  nothing_kept = record { raised = λ _ _. tt; applied = λ _ _ _ _. tt; recorded = λ _ _ _ _ _. tt }

  IsOwned-raised :
      (f : Family) (k j : String) (d : Document) → IsOwned f k j d → IsOwned f k j (upgraded d)
  unfolding upgraded
  IsOwned-raised f k j d h = ground arith

  IsOwned-kept : (f : Family) (k j : String) → IsKept sha256 (IsOwned f k j)
  IsOwned-kept f k j = record {
    raised = IsOwned-raised f k j;
    applied = λ m d w h. apply-Kept sha256 m d w f k j h;
    recorded = λ intent id d _ h. ground arith;
  }

  pub IsReceived-raised :
      (k : String) (r : MutationReceipt) (d : Document)
      → IsReceived k r d
      → IsReceived k r (upgraded d)
  unfolding upgraded
  IsReceived-raised k r d h = ground arith

  pub IsReceived-kept : (k : String) (r : MutationReceipt) → IsKept sha256 (IsReceived k r)
  IsReceived-kept k r = record {
    raised = IsReceived-raised k r;
    applied = λ m d w h. rw (apply-receipts sha256 m d w) h;
    recorded = λ intent id d miss h. ground (
      arith,
      lookup-insert k intent.key (record { fingerprint = intent.fingerprint; account_id = id })
          d.mutation_receipts,
    );
  }

module _ (C : Codec) where
  pub free-begin {ℓ} :
      (P : Document → Type ℓ) (attempts : List Attempt) (stored : Stored C)
      → Holds C P stored
      → (d : Document) × (begin C (free ∷ attempts) stored ≡ ok d) × (is_rejected d ≡ false) × P d
  unfolding begin begin_once is_rejected
  free-begin P attempts none h = (empty, refl, ground arith, h)
  free-begin P attempts (some b) (d, fits, readable, accepted, p) =
      (d, rw (fits, readable, accepted), accepted, p)

module _ (sha256 : List ℕ → List ℕ) (C : Codec) (codec : IsCodec C) where
  -- A vault that starts without stored bytes stays readable: after any history of allowed
  -- transactions, each with any answers from the locks, the reads and the writes, a transaction
  -- that gets the locks and reads begins, with a document that is not rejected. `from_slice`
  -- reads what `to_vec` wrote.
  pub readable :
      (calls : List (Env × Call)) (attempts : List Attempt)
      → All IsAllowedCall calls
      → (d : Document) × (begin C (free ∷ attempts) (run sha256 C calls none) ≡ ok d)
        × (is_rejected d ≡ false)
  readable calls attempts w =
      let after = run-Holds sha256 C codec (λ _. Unit {0}) (nothing_kept sha256) calls none w tt in
      let (d, begins, accepted, p) = free-begin C (λ _. Unit {0}) attempts _ after in
      (d, begins, accepted)

  -- Where the stored document gives a refresh token to `owner`, then after any history of
  -- allowed transactions, failed and uncertain writes included, every transaction that begins
  -- refuses a credential with that token to any other account and leaves the document as it is.
  -- `from_slice` reads what `to_vec` wrote.
  pub owner_stays :
      (f : Family) (owner id token : String) (c : Credential) (stored : Stored C)
      (calls : List (Env × Call)) (attempts : List Attempt) (d : Document)
      → Holds C (λ s. lookup (token_key sha256 f token) (ledger f s) ≡ some owner) stored
      → All IsAllowedCall calls
      → begin C attempts (run sha256 C calls stored) ≡ ok d
      → lineage c ≡ some (f, token)
      → owner ≢ id
      → reserve_factory_refresh sha256 id c d ≡ (d, err duplicate)
  owner_stays f owner id token c stored calls attempts d h w e l n =
      let kept = IsOwned-kept sha256 f (token_key sha256 f token) owner in
      let after =
        run-Holds sha256 C codec (IsOwned f (token_key sha256 f token) owner) kept calls stored w
          h in
      reserve_owned sha256 id token f c d l
        (begin-Holds C (IsOwned f (token_key sha256 f token) owner) attempts
          (run sha256 C calls stored) d after e).1
        n
