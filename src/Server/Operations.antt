-- ===== src/Server/Operations.antt =====
-- src/server/operations.rs: the table of long operations that the server runs, with retry keys. An
-- instant is a number of nanoseconds, read from the clock and passed to each method. The fresh id, or
-- the failure of the random source, is an argument of `start`. A JSON value is of the type `Value`.
pub mod Bounds
pub mod Tests
use quotio_cli.Base.{
  ℕ, ◌-◌, ◌*◌, ◌^◌, String, Bool, true, false, not, ◌&&◌, ◌||◌, List, [], ◌∷◌, Option, none, some,
  all, find, retain, count, length, ltb, leb, if◌then◌else◌, Result, ok, err, Method, ◌>>=◌, ◌>>◌,
  done, fail, refuse_if, modify, with_self, lift, ◌==◌, string_eq, option_eq, is_empty, byte_len,
  bytes, is_ascii_graphic,
}
use quotio_cli.Base.Dict.{Dict, lookup, insert}

module _ (Value : Type 0) where
  pub record Operation : Type 0 where
    pub id : String
    pub kind : String
    pub status : String
    pub result : Option Value
    pub error : Option String
    pub message : Option String

  pub record Entry : Type 0 where
    pub operation : Operation
    pub finished : Option ℕ
    pub key : Option String
    pub fingerprint : String

abbrev is_some {ℓ} : {A : Type ℓ} → Option A → Bool
is_some none = false
is_some (some a) = true

-- 900 seconds.
abbrev pub retention : ℕ
retention = 900 * 10 ^ 9

-- `finished.is_none_or(|t| t.elapsed() < 900 s)`
abbrev is_recent : ℕ → Option ℕ → Bool
is_recent now none = true
is_recent now (some t) = ltb (now - t) retention

abbrev pub Operations : Type 0 → Type 0
Operations Value = Dict (Entry Value)

-- `sort_by_key(|(_, at)| *at)`, which is stable.
pub insert_by_time : String × ℕ → List (String × ℕ) → List (String × ℕ)
insert_by_time (id, t) [] = (id, t) ∷ []
insert_by_time (id, t) ((j, u) ∷ xs) =
    if leb t u then (id, t) ∷ (j, u) ∷ xs else (j, u) ∷ insert_by_time (id, t) xs

abbrev pub is_invalid_key : String → Bool
is_invalid_key key =
    is_empty key || not (leb (byte_len key) 128) || not (all is_ascii_graphic (bytes key))

abbrev pub locked_message : String
locked_message =
    "Allow Quotio access to its account vault on the Mac server, then retry. Remote requests cannot display Keychain authorization prompts."

module _ {Value : Type 0} where
  abbrev pub has_key : String × Entry Value → Bool
  has_key (id, e) = is_some e.key

  abbrev pub is_running : String × Entry Value → Bool
  is_running (id, e) = not (is_some e.finished)

  abbrev is_retained : ℕ → String × Entry Value → Bool
  is_retained now (id, e) = is_some e.key || is_recent now e.finished

  abbrev pub is_completed : String × Entry Value → Bool
  is_completed (id, e) = not (is_some e.key) && is_some e.finished

  abbrev at_of : Entry Value → ℕ
  at_of e = elim e.finished [ none ↦ 0 | some t ↦ t ]

  unfoldable pub completed : Operations Value → List (String × ℕ)
  unfolding insert_by_time
  completed [] = []
  completed ((id, e) ∷ d) =
      if is_completed (id, e) then insert_by_time (id, at_of e) (completed d) else completed d

  -- `HashMap::remove`
  unfoldable pub remove : String → Operations Value → Operations Value
  remove id [] = []
  remove id ((j, e) ∷ d) = if id == j then d else (j, e) ∷ remove id d

  -- `completed.into_iter().take(excess)`, each removed.
  unfoldable pub remove_first_ones : ℕ → List (String × ℕ) → Operations Value → Operations Value
  unfolding remove
  remove_first_ones excess [] d = d
  remove_first_ones excess ((id, t) ∷ xs) d =
      if ltb 0 excess then remove_first_ones (excess - 1) xs (remove id d) else d

  unfoldable pub prune : ℕ → Operations Value → Operations Value
  prune now entries =
      let kept = retain (is_retained now) entries in
      let old = completed kept in remove_first_ones (length old - 128) old kept

  abbrev pub has_this_key : String → String × Entry Value → Bool
  has_this_key key (id, e) = e.key == some key

  abbrev pub repeated :
      String
      → String
      → Option (String × Entry Value)
      → Option (Result String (Operation Value × Bool))
  repeated kind fingerprint none = none
  repeated kind fingerprint (some (id, e)) = some (
      if e.operation.kind == kind && e.fingerprint == fingerprint
      then ok (e.operation, false)
      else err "idempotency_conflict")

  -- The answer that `start` gives for the key alone, if any.
  abbrev pub answered :
      String
      → Option String
      → String
      → Operations Value
      → Option (Result String (Operation Value × Bool))
  answered kind none fingerprint entries = none
  answered kind (some key) fingerprint entries =
      if is_invalid_key key
      then some (err "invalid_idempotency_key")
      else repeated kind fingerprint (find (has_this_key key) entries)

  abbrev pub running : String → String → Operation Value
  running id kind = record {
    id = id;
    kind = kind;
    status = "running";
    result = none;
    error = none;
    message = none;
  }

  abbrev pub new_entry : String → String → Option String → String → Entry Value
  new_entry id kind key fingerprint = record {
    operation = running id kind;
    finished = none;
    key = key;
    fingerprint = fingerprint;
  }

  -- The end of `start`, after the key is found to be new.
  unfoldable pub admit :
      Option String
      → String
      → Option String
      → String
      → Method (Operations Value) String (Operation Value × Bool)
  admit random kind key fingerprint entries =
      if is_some key && leb 4096 (count has_key entries)
      then (entries, err "idempotency_full")
      else if leb 128 (count is_running entries)
      then (entries, err "operations_full")
      else elim random [
        | none ↦ (entries, err "internal_error")
        | some id ↦
            (insert id (new_entry id kind key fingerprint) entries, ok (running id kind, true))
      ]

  unfoldable pub start :
      ℕ
      → Option String
      → String
      → Option String
      → String
      → Method (Operations Value) String (Operation Value × Bool)
  start now random kind key fingerprint entries =
      let pruned = prune now entries in
      elim (answered kind key fingerprint pruned) [
        | some answer ↦ (pruned, answer)
        | none ↦ admit random kind key fingerprint pruned
      ]

  abbrev finished_operation : Result String Value → Operation Value → Operation Value
  finished_operation (ok value) o = record o { status = "completed"; result = some value }
  finished_operation (err code) o = record o {
    status = "failed";
    error = some code;
    message = if code == "credential_storage_unavailable" then some locked_message else o.message;
  }

  abbrev pub finish_entry : ℕ → Result String Value → Entry Value → Entry Value
  finish_entry now result e = record e {
    operation = finished_operation result e.operation;
    finished = some now;
  }

  unfoldable pub finish : ℕ → String → Result String Value → Operations Value → Operations Value
  finish now id result [] = []
  finish now id result ((j, e) ∷ d) =
      if id == j then (j, finish_entry now result e) ∷ d else (j, e) ∷ finish now id result d

  abbrev operation_of : Option (Entry Value) → Option (Operation Value)
  operation_of none = none
  operation_of (some e) = some e.operation

  unfoldable pub get : ℕ → String → Operations Value → Operations Value × Option (Operation Value)
  get now id entries = let pruned = prune now entries in (pruned, operation_of (lookup id pruned))
