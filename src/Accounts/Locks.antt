-- ===== src/Accounts/Locks.antt =====
-- src/accounts/vault.rs: the locks of the vault: the names of the lock files, and the table of locks
-- that keeps two tasks of one process out of the same lock file. An `AtomicBool` that is shared is its
-- flag with the number of its strong references; `flock` is an argument.
pub mod Sound
pub mod Exclusive
pub mod Tests
use quotio_cli.Base.{
  ℕ, ◌+◌, ◌-◌, String, Bool, true, false, not, ◌&&◌, ◌||◌, List, [], ◌∷◌, Option, none, some, all,
  any, length, ltb, leb, remove_first, if◌then◌else◌, Result, ok, err, ◌==◌, string_eq, nat_eq,
  append, bytes, byte_len, is_ascii_lowercase, is_ascii_digit, is_ascii_alphanumeric,
}
use quotio_cli.Accounts.Credential.{AccountError, busy, storage, corrupt}

abbrev last_is : (ℕ → Bool) → List ℕ → Bool
last_is p [] = false
last_is p (b ∷ []) = p b
last_is p (b ∷ c ∷ bs) = last_is p (c ∷ bs)

abbrev first_is : (ℕ → Bool) → List ℕ → Bool
first_is p [] = false
first_is p (b ∷ bs) = p b

abbrev is_namespace_byte : ℕ → Bool
is_namespace_byte b = is_ascii_lowercase b || is_ascii_digit b || b == b'-'

-- `VaultNamespace::from_str`
unfoldable pub is_namespace : String → Bool
is_namespace value =
    leb 1 (byte_len value)
    && leb (byte_len value) 32
    && first_is is_ascii_lowercase (bytes value)
    && last_is is_ascii_alphanumeric (bytes value)
    && all is_namespace_byte (bytes value)

-- `VaultNamespace::lock_name`
unfoldable pub lock_name : Option String → String
lock_name none = "accounts.lock"
lock_name (some namespace) = append "accounts-" (append namespace ".lock")

-- The name of the file in `refresh_lock`.
unfoldable pub refresh_lock_name : String → Result AccountError String
refresh_lock_name id =
    if leb 1 (byte_len id)
      && leb (byte_len id) 80
      && all (λ b. is_ascii_alphanumeric b || b == b'-' || b == b'_') (bytes id)
    then ok (append "refresh-" (append id ".lock"))
    else err corrupt

-- An `AtomicBool` behind an `Arc`, with its strong references.
pub record Lock : Type 0 where
  pub held : Bool
  pub strong : ℕ

-- The table `LOCKS` of weak references, by path.
abbrev pub Table : Type 0
Table = String → Option Lock

abbrev pub alive : Option Lock → Option Lock
alive none = none
alive (some lock) = if ltb 0 lock.strong then some lock else none

-- `locks.retain(|_, lock| lock.strong_count() > 0)`
abbrev pub retain_alive : Table → Table
retain_alive table path = alive (table path)

abbrev pub put : String → Lock → Table → Table
put path lock table other = if path == other then some lock else table other

-- The table, and the paths of the `ProcessLock`s that live.
pub record Process : Type 0 where
  pub table : Table
  pub guards : List String

abbrev exchanged : String → Table → List String → Lock → Process × Result AccountError (Unit {0})
exchanged path table guards lock =
    if lock.held then (record { table = table; guards = guards }, err busy) else (
      record {
        table = put path (record { held = true; strong = lock.strong + 1 }) table;
        guards = path ∷ guards;
      },
      ok tt,
    )

abbrev shared : Option Lock → Lock
shared (some lock) = lock
shared none = record { held = false; strong = 0 }

-- `acquire_process_lock`. The reference that the function itself holds is dropped at its end.
unfoldable pub acquire_process_lock : String → Process → Process × Result AccountError (Unit {0})
acquire_process_lock path p =
    let table = retain_alive p.table in
    let lock = shared (table path) in exchanged path (put path lock table) p.guards lock

abbrev pub freed : Option Lock → Option Lock
freed none = none
freed (some lock) = some (record { held = false; strong = lock.strong - 1 })

abbrev pub released : String → Table → Table
released path table other = if path == other then freed (table other) else table other

abbrev pub is_held : String → List String → Bool
is_held path guards = any (λ g. g == path) guards

-- `Drop for ProcessLock`, for a guard of that path, if there is one.
unfoldable pub release : String → Process → Process
release path p =
    if is_held path p.guards
    then record { table = released path p.table; guards = remove_first (λ g. g == path) p.guards }
    else p

-- What the operating system answers to the opening of the file and to `flock`.
pub data Flock : Type 0 where
  locked not_opened taken : Flock

abbrev pub flocked :
    Flock
    → String
    → Process × Result AccountError (Unit {0})
    → Process × Result AccountError (Unit {0})
flocked f path (p, err e) = (p, err e)
flocked locked path (p, ok u) = (p, ok u)
flocked not_opened path (p, ok u) = (release path p, err storage)
flocked taken path (p, ok u) = (release path p, err busy)

-- `acquire`
unfoldable pub acquire : Flock → String → Process → Process × Result AccountError (Unit {0})
unfolding release
acquire f path p = flocked f path (acquire_process_lock path p)
