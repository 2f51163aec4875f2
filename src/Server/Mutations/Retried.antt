-- ===== src/Server/Mutations/Retried.antt =====
-- A mutation of accounts that is asked for again, on the same server or on one that has started again.
use quotio_cli.Base.{
  ℕ, String, ◌≡◌, refl, sym, ap, ◌∙◌, subst, Bool, true, false, List, [], ◌∷◌, Option, none, some,
  arith, All, Result, ok, err, Result-cases, Bool-cases, Option-cases, ◌⊎◌, inl, inr, if◌then◌else◌,
  ◌==◌, string_eq, fail, leb, length,
}
use quotio_cli.Fingerprint.{fingerprint}
use quotio_cli.Usage.{Float}
use quotio_cli.Accounts.Credential.{AccountError, busy, idempotency_conflict, idempotency_full}
use quotio_cli.Accounts.Vault.{Codec, Attempt, Written}
use quotio_cli.Accounts.Service.{
  Env, Stored, MutationIntent, new_intent, commit_once, mutation_receipt, receipt, answer, begin,
}
use quotio_cli.Accounts.Service.Durable.{IsCodec, Holds}
use quotio_cli.Accounts.Service.History
use quotio_cli.Accounts.Service.History.{
  adds, patches, removes, Call, IsAllowed, IsAllowedCall, apply, run,
}
use quotio_cli.Accounts.Service.Promises.{free}
use quotio_cli.Accounts.Service.Receipts.{replays}
use quotio_cli.Server.Answers.{ApiError}
use quotio_cli.Server.Operations.{Operation, Operations, finish}
use quotio_cli.Server.Jobs.{Job, spawn}
use quotio_cli.Server.Mutations.{
  Mutation, create, reference, update, remove_one, Request, State, Work, key_of, intended,
  intent_of, intent_of_parts, added, updated, removed, coded, perform, spawned, started, looked_up,
  checked, mutate, finish_mutation,
}

found_one :
    (a b id : String) (found : Option String) (r : Result AccountError String)
    → ((i : String) × (found ≡ some i) × (r ≡ ok i)) ⊎ ((r ≡ err idempotency_full) ⊎ (r ≡ err busy))
    → r ≡ (if a == b then ok id else err idempotency_conflict)
    → (b ≡ a) × (found ≡ some id)
found_one a b id found r (inl (i, hit, fine)) h = elim (Bool-cases (a == b)) [
  | inl same ↦ (ground arith, ground arith)
  | inr apart ↦ absurd (ground arith)
]
found_one a b id found r (inr (inl full)) h = absurd (ground arith)
found_one a b id found r (inr (inr bad)) h = absurd (ground arith)

module _ (sha256 : List ℕ → List ℕ) where
  new_intent-key :
      (key print : String) (intent : MutationIntent)
      → new_intent sha256 key print ≡ ok intent
      → intent.key ≡ fingerprint sha256 (key ∷ [])
  unfolding new_intent
  new_intent-key key print intent h = ground arith

  intended-key :
      (key k : String) (r : Result AccountError MutationIntent) (intent : MutationIntent)
      → intended k r ≡ ok (key, intent)
      → (k ≡ key) × (r ≡ ok intent)
  intended-key key k (ok i) intent h = (ground arith, ground arith)
  intended-key key k (err e) intent h = absurd (ground arith)

  parts-key :
      (r : Request) (k : Result ApiError String) (body : Option String) (key : String)
      (intent : MutationIntent)
      → intent_of_parts sha256 r k body ≡ ok (key, intent)
      → intent.key ≡ fingerprint sha256 (key ∷ [])
  parts-key r (err e) body key intent h = absurd (ground arith)
  parts-key r (ok k) none key intent h = absurd (ground arith)
  parts-key r (ok k) (some text) key intent h =
      let (same, made) = intended-key key k _ intent h in
      new_intent-key k _ intent made ∙ ap (λ x. fingerprint sha256 (x ∷ [])) same

  intent_of-key :
      (r : Request) (key : String) (intent : MutationIntent)
      → intent_of sha256 r ≡ ok (key, intent)
      → intent.key ≡ fingerprint sha256 (key ∷ [])
  unfolding intent_of
  intent_of-key r key intent h = parts-key r (key_of r.keys) r.body key intent h

  module _ (C : Codec) where
    coded_ok :
        (x : Stored C × Result AccountError String) (s : Stored C) (id : String)
        → coded sha256 C x ≡ (s, ok id)
        → x ≡ (s, ok id)
    coded_ok (stored, ok i) s id h = ground arith
    coded_ok (stored, err e) s id h = absurd (ground arith)

    -- The change of a job that answers with an account is one of the methods of a history.
    abbrev IsOnce : Env → MutationIntent → Stored C → Stored C → String → Type 0
    IsOnce env intent stored s id =
        (m : History.Mutation) × IsAllowed m
        × (commit_once C env intent (apply sha256 m) stored ≡ (s, ok id))

    perform-IsOnce :
        (env : Env) (guard : Bool) (random : Result AccountError String) (intent : MutationIntent)
        (m : Mutation) (stored s : Stored C) (id : String)
        → perform sha256 C env guard random intent m stored ≡ (s, ok id)
        → IsOnce env intent stored s id
    unfolding perform apply added updated removed
    perform-IsOnce env guard random intent (create (err e)) stored s id h = absurd (ground arith)
    perform-IsOnce env true random intent (create (ok p)) stored s id h =
        (adds random p.provider p.label p.identity p.credential, tt, coded_ok _ s id h)
    perform-IsOnce env false random intent (create (ok p)) stored s id h = absurd (ground arith)
    perform-IsOnce env guard random intent (reference (err e)) stored s id h = absurd (ground arith)
    perform-IsOnce env true random intent (reference (ok p)) stored s id h =
        (adds random p.provider p.label p.identity p.credential, tt, coded_ok _ s id h)
    perform-IsOnce env false random intent (reference (ok p)) stored s id h = absurd (ground arith)
    perform-IsOnce env true random intent (update i label active enabled) stored s id h =
        (patches i label active enabled, tt, coded_ok _ s id h)
    perform-IsOnce env false random intent (update i label active enabled) stored s id h =
        absurd (ground arith)
    perform-IsOnce env true random intent (remove_one i) stored s id h =
        (removes i, tt, coded_ok _ s id h)
    perform-IsOnce env false random intent (remove_one i) stored s id h = absurd (ground arith)

    -- A change that fails is asked for only where the ledger has no receipt.
    refused_once :
        (env : Env) (intent : MutationIntent) (stored : Stored C) (found : Option String)
        → mutation_receipt C env intent stored ≡ ok found
        → ((i : String) × (found ≡ some i)
            × ((commit_once C env intent (fail busy) stored).1 ≡ ok i))
          ⊎ (((commit_once C env intent (fail busy) stored).1 ≡ err idempotency_full)
              ⊎ ((commit_once C env intent (fail busy) stored).1 ≡ err busy))
    unfolding commit_once mutation_receipt
    refused_once env intent stored found h = elim (Result-cases (begin C env.attempts stored)) [
      | inr (e, bad) ↦ absurd (ground (arith, rw (mutation_receipt, bad) at h))
      | inl (d, fine) ↦
          let told : receipt intent d ≡ ok found = rw (mutation_receipt, fine) at h in
          elim (Option-cases found) [
            | inr (i, hit) ↦ inl (i, hit, rw (commit_once, fine, told, hit) refl)
            | inl miss ↦ elim (Bool-cases (leb 4096 (length d.mutation_receipts))) [
              | inl full ↦ inr (inl (rw (commit_once, fine, told, miss, full) refl))
              | inr room ↦ inr (inr (rw (commit_once, fine, told, miss, room) refl))
            ]
          ]
    ]

    -- After a change under the key, a read of the ledger finds the receipt, or a conflict.
    module _ (codec : IsCodec C) where
      later_receipt :
          (env : Env) (guard : Bool) (random : Result AccountError String)
          (intent other : MutationIntent) (m : Mutation) (stored s : Stored C) (id : String)
          (calls : List (Env × Call)) (attempts : List Attempt) (last : Written)
          (found : Option String)
          → Holds C (λ _. Unit {0}) stored
          → perform sha256 C env guard random intent m stored ≡ (s, ok id)
          → All IsAllowedCall calls
          → other.key ≡ intent.key
          → mutation_receipt C
              (record { attempts = free ∷ attempts; written = last })
              other
              (run sha256 C calls s)
            ≡ ok found
          → (other.fingerprint ≡ intent.fingerprint) × (found ≡ some id)
      later_receipt env guard random intent other m stored s id calls attempts last found h e
            allowed keys got =
          let (change, w, first) = perform-IsOnce env guard random intent m stored s id e in
          let again =
            replays sha256 C codec env intent change stored s id calls attempts last
              other.fingerprint (fail busy) w h first allowed in
          let told =
            subst
              (λ k.
                (commit_once C (record { attempts = free ∷ attempts; written = last })
                  (record { key = k; fingerprint = other.fingerprint }) (fail busy)
                  (run sha256 C calls s)).1
                ≡ (if intent.fingerprint == other.fingerprint
                    then ok id
                    else err idempotency_conflict))
              (sym keys) (ap (λ x. x.1) again) in
          found_one intent.fingerprint other.fingerprint id found _
            (refused_once (record { attempts = free ∷ attempts; written = last }) other
              (run sha256 C calls s) found got)
            told

      module _ {Fl : Float} {Value : Type 0} where
        spawned-work :
            (now : ℕ) (o op : Operation Value) (w work : Work) (t : State Fl Value C)
            (y : List Job × Result ApiError (Unit {0}))
            → (spawned now o w t y).1 ≡ ok (op, some work)
            → (o ≡ op) × (w ≡ work)
        spawned-work now o op w work t (jobs, ok u) h = (ground arith, ground arith)
        spawned-work now o op w work t (jobs, err e) h = absurd (ground arith)

        started-work :
            (now : ℕ) (receipt : Option String) (intent : MutationIntent) (t : State Fl Value C)
            (x : Operations Value × Result String (Operation Value × Bool)) (op : Operation Value)
            (work : Work)
            → (started now receipt intent t x).1 ≡ ok (op, some work)
            → (op.id ≡ work.id) × (receipt ≡ work.receipt)
        started-work now receipt intent t (operations, err code) op work h = absurd (ground arith)
        started-work now receipt intent t (operations, ok (o, false)) op work h =
            absurd (ground arith)
        started-work now receipt intent t (operations, ok (o, true)) op work h =
            let (same, known) =
              spawned-work now o op (record { id = o.id; receipt = receipt; intent = intent }) work
                (record t { operations = operations }) (spawn t.jobs) h in
            (ap (λ x. x.id) (sym same) ∙ ap (λ x. x.id) known, ap (λ x. x.receipt) known)

        looked_up-work :
            (now : ℕ) (random : Option String) (r : Request) (key : String)
            (intent : MutationIntent) (t : State Fl Value C)
            (x : Result AccountError (Option String)) (op : Operation Value) (work : Work)
            → (looked_up now random r key intent t x).1 ≡ ok (op, some work)
            → (op.id ≡ work.id) × (x ≡ ok work.receipt)
        looked_up-work now random r key intent t (err e) op work h = absurd (ground arith)
        looked_up-work now random r key intent t (ok receipt) op work h =
            let (same, known) = started-work now receipt intent t _ op work h in (same, ap ok known)

        mutate-work :
            (env : Env) (now : ℕ) (random : Option String) (r : Request) (key : String)
            (intent : MutationIntent) (t : State Fl Value C) (op : Operation Value) (work : Work)
            → intent_of sha256 r ≡ ok (key, intent)
            → (mutate sha256 true env now random r t).1 ≡ ok (op, some work)
            → (op.id ≡ work.id) × (mutation_receipt C env intent t.vault ≡ ok work.receipt)
        unfolding mutate
        mutate-work env now random r key intent t op work asked h =
            looked_up-work now random r key intent t _ op work
              (subst (λ x. (checked env now random r t x).1 ≡ ok (op, some work)) asked h)

        -- Where a job changes the accounts under a retry key and answers with an account, and
        -- any allowed transactions follow, on the same server or after it has started again,
        -- then a request with the same retry key whose lookup in the ledger gets the locks and
        -- reads, and which starts a job, has the same fingerprint of its kind, target and body,
        -- and its job, whatever it was to change, only ends its operation with that account: it
        -- leaves the vault, the snapshot and the generation as they are. The first job begins on
        -- no stored bytes or on bytes that `begin` accepts, and `from_slice` reads what `to_vec`
        -- wrote.
        pub mutate-retried :
            (account_json : String → Value) (env late : Env) (guard held : Bool)
            (random fresh : Result AccountError String) (first again : Request) (key : String)
            (intent other : MutationIntent) (m n : Mutation) (stored s : Stored C) (id : String)
            (calls : List (Env × Call)) (attempts : List Attempt) (last : Written) (now end : ℕ)
            (name : Option String) (t u : State Fl Value C) (op : Operation Value) (work : Work)
            → Holds C (λ _. Unit {0}) stored
            → intent_of sha256 first ≡ ok (key, intent)
            → perform sha256 C env guard random intent m stored ≡ (s, ok id)
            → All IsAllowedCall calls
            → t.vault ≡ run sha256 C calls s
            → intent_of sha256 again ≡ ok (key, other)
            → (mutate sha256 true
                (record { attempts = free ∷ attempts; written = last })
                now
                name
                again
                t).1
              ≡ ok (op, some work)
            → (other.fingerprint ≡ intent.fingerprint)
              × (finish_mutation sha256 account_json late held fresh end work n u
                  ≡ record u { operations = finish end op.id (ok (account_json id)) u.operations })
        unfolding finish_mutation
        mutate-retried account_json env late guard held random fresh first again key intent other m
              n stored s id calls attempts last now end name t u op work h asked done_ allowed vault
              asked_again answer =
            let (same, got) =
              mutate-work (record { attempts = free ∷ attempts; written = last }) now name again key
                other t op work asked_again answer in
            let keys =
              intent_of-key again key other asked_again
              ∙ sym (intent_of-key first key intent asked) in
            let (prints, found) =
              later_receipt env guard random intent other m stored s id calls attempts last
                work.receipt h done_ allowed keys
                (subst
                  (λ v.
                    mutation_receipt C (record { attempts = free ∷ attempts; written = last }) other
                      v
                    ≡ ok work.receipt)
                  vault got) in
            (prints, rw (found, same) refl)
