-- ===== src/Accounts/Document/Calls.antt =====
-- Sequences of calls of the methods that change the account list.
use quotio_cli.Base.{
  ℕ, String, ◌≡◌, Bool, true, false, not, ◌&&◌, List, [], ◌∷◌, Option, any, arith, Result, ok, err,
  string_eq,
}
use quotio_cli.Provider.{Provider}
use quotio_cli.Accounts.Credential.{AccountError, Credential}
use quotio_cli.Accounts.Document
use quotio_cli.Accounts.Document.{Document, has_id}
use quotio_cli.Accounts.Document.Consistent.{
  IsConsistent, add-IsConsistent, remove-IsConsistent, select-IsConsistent, rename-IsConsistent,
  patch-IsConsistent,
}

-- A call of `add` comes with what the random source gives.
pub data Call : Type 0 where
  add : Result AccountError String → Provider → (text identity : String) → Credential → Call
  remove select : (id : String) → Call
  rename : (id text : String) → Call
  patch : (id : String) → Option String → (active enabled : Option Bool) → Call

-- No account has the id that the random source gives.
abbrev pub is_new : Document → Result AccountError String → Bool
is_new d (err e) = true
is_new d (ok id) = not (any (has_id id) d.accounts)

abbrev pub is_fresh : Document → Call → Bool
is_fresh d (add random p text identity c) = is_new d random
is_fresh d _ = true

module _ (sha256 : List ℕ → List ℕ) where
  -- The document after a call, which may have failed.
  unfoldable pub call : Call → Document → Document
  call (add random p text identity c) d = (Document.add sha256 random p text identity c d).0
  call (remove id) d = (Document.remove sha256 id d).0
  call (select id) d = (Document.select id d).0
  call (rename id text) d = (Document.rename id text d).0
  call (patch id text active enabled) d = (Document.patch id text active enabled d).0

  unfoldable pub calls : List Call → Document → Document
  unfolding call
  calls [] d = d
  calls (c ∷ cs) d = calls cs (call c d)

  abbrev pub are_fresh : List Call → Document → Bool
  are_fresh [] d = true
  are_fresh (c ∷ cs) d = is_fresh d c && are_fresh cs (call c d)

  call-IsConsistent :
      (c : Call) (d : Document)
      → is_fresh d c ≡ true
      → IsConsistent d.accounts
      → IsConsistent (call c d).accounts
  unfolding call
  call-IsConsistent (add random p text identity c) d fresh h =
      add-IsConsistent sha256 random p text identity c d (new random fresh) h
    where
      new :
          (r : Result AccountError String)
          → is_new d r ≡ true
          → (id : String) → r ≡ ok id
          → any (has_id id) d.accounts ≡ false
      new (err e) fresh id drawn = absurd (ground arith)
      new (ok j) fresh id drawn = ground arith
  call-IsConsistent (remove id) d fresh h = remove-IsConsistent sha256 id d h
  call-IsConsistent (select id) d fresh h = select-IsConsistent id d h
  call-IsConsistent (rename id text) d fresh h = rename-IsConsistent id text d h
  call-IsConsistent (patch id text active enabled) d fresh h =
      patch-IsConsistent id text active enabled d h

  -- The account list stays consistent under any calls of `add`, `remove`, `select`, `rename` and
  -- `patch`, in any order and on their error paths too, where each random id is new when it is
  -- drawn: ids are unique, no two accounts of a provider share a label or an identity, and a
  -- provider with accounts has exactly one active.
  pub calls-IsConsistent :
      (cs : List Call) (d : Document)
      → are_fresh cs d ≡ true
      → IsConsistent d.accounts
      → IsConsistent (calls cs d).accounts
  unfolding calls
  calls-IsConsistent [] d fresh h = h
  calls-IsConsistent (c ∷ cs) d fresh h =
      calls-IsConsistent cs (call c d) (ground arith) (call-IsConsistent c d (ground arith) h)
