-- ===== src/Accounts/Oauth/History.antt =====
-- Histories of the sessions: the methods of the manager in any order, with the tasks between their
-- locks. `World` has the tables, the tasks that run, and a record of what has happened.
use quotio_cli.Base.{
  ℕ, ◌+◌, String, Bool, true, false, List, [], ◌∷◌, Option, none, some, any, count, remove_first,
  if◌then◌else◌, Result, ok, err, ◌==◌, string_eq, ℤ,
}
use quotio_cli.Base.Dict.{lookup}
use quotio_cli.Provider.{Provider}
use quotio_cli.Accounts.Credential.{AccountError}
use quotio_cli.Accounts.Oauth.{
  OauthMode, relay, loopback, SessionStatus, failed, cancelled, expired, Workflow, browser_callback,
  manual_code, Authorization, SessionDto, Sessions,
}
use quotio_cli.Accounts.Oauth.Manager.{
  get, cancel, claim, claim_device, end_device, end_loopback, finish_end, raised,
}
use quotio_cli.Accounts.Oauth.Begin.{
  Plan, on_machine, plan, begin_for, admit_device, Device, begin_device, Begun, answered, spawned,
  panicked, begin_keyed, begin_end,
}

-- `keys`: the tasks of `begin_keyed`. `checked`: callers that have seen the workflow of a session and
-- go on to claim it, the task of a loopback too. `tasks`: claims whose `finish` has not ended.
pub record World : Type 0 where
  pub store : Sessions
  pub generation : ℕ
  pub keys : List String
  pub checked : List String
  pub tasks : List String
  pub begun : List String
  pub devices : List String
  pub claims : List String
  pub cancels : List String
  pub added : List String
  pub lost : List String
  pub panics : ℕ

abbrev pub empty : World
empty = record {
  store = record { sessions = []; begins = [] };
  generation = 0;
  keys = [];
  checked = [];
  tasks = [];
  begun = [];
  devices = [];
  claims = [];
  cancels = [];
  added = [];
  lost = [];
  panics = 0;
}

-- How often a text is in a list.
abbrev pub times : String → List String → ℕ
times id = count (λ j. id == j)

abbrev pub has : String → List String → Bool
has id = any (λ j. id == j)

abbrev pub without : String → List String → List String
without id = remove_first (λ j. id == j)

-- The three ends of a device login in `poll_device`.
pub data DeviceEnd : Type 0 where
  over denied : DeviceEnd
  broken : String → DeviceEnd

abbrev pub end_status : DeviceEnd → SessionStatus
end_status over = expired
end_status denied = cancelled
end_status (broken code) = failed

abbrev pub end_code : DeviceEnd → Option String
end_code (broken code) = some code
end_code _ = none

-- A step, with the instants at which it reads the clock and the answers that it gets.
pub data Event : Type 0 where
  began :
      (now created : ℕ) (clock : ℤ)
      → Result AccountError (Unit {0})
      → Result AccountError Authorization
      → Result AccountError String
      → Provider
      → OauthMode
      → Option String
      → Event
  admitted : (now : ℕ) → Option String → Event
  device_began :
      (now asked elapsed : ℕ) (clock : ℤ)
      → Result AccountError Device
      → Result AccountError String
      → Option String
      → Event
  keyed : (now : ℕ) → Provider → Option String → OauthMode → (key : String) → Event
  key_ended : (key : String) → Result AccountError SessionDto → Event
  looked : (now later : ℕ) (id : String) → Event
  seen : (now later : ℕ) → Workflow → (id : String) → Event
  called_off : (now : ℕ) (id : String) → Event
  claimed : (now : ℕ) (id : String) → Event
  device_claimed : (now : ℕ) (id : String) → Event
  device_ended : (id : String) → DeviceEnd → Event
  loopback_ended : (id : String) → Event
  finishing : (now later : ℕ) (id : String) → Event
  finished : (id : String) → Result AccountError String → Event

abbrev pub after_begin : OauthMode → World → Sessions × Result AccountError SessionDto → World
after_begin relay w (s, ok d) = record w { store = s; begun = d.id ∷ w.begun }
after_begin loopback w (s, ok d) = record w {
  store = s;
  begun = d.id ∷ w.begun;
  checked = d.id ∷ w.checked;
}
after_begin mode w (s, err e) = record w { store = s }

abbrev pub after_device : World → Sessions × Result AccountError SessionDto → World
after_device w (s, ok d) = record w {
  store = s;
  begun = d.id ∷ w.begun;
  devices = d.id ∷ w.devices;
}
after_device w (s, err e) = record w { store = s }

abbrev pub after_keyed : String → World → Sessions × Begun → World
after_keyed key w (s, answered r) = record w { store = s }
after_keyed key w (s, spawned) = record w { store = s; keys = key ∷ w.keys }
after_keyed key w (s, panicked) = record w { store = s; panics = w.panics + 1 }

abbrev pub after_key : String → World → Option Sessions → World
after_key key w none = record w { panics = w.panics + 1; keys = without key w.keys }
after_key key w (some s) = record w { store = s; keys = without key w.keys }

-- The check of the workflow in `manual_code` and `callback`.
abbrev pub is_workflow : Workflow → Workflow → Bool
is_workflow manual_code manual_code = true
is_workflow browser_callback browser_callback = true
is_workflow _ _ = false

abbrev pub after_seen :
    Workflow → String → World → Sessions × Result AccountError SessionDto → World
after_seen workflow id w (s, ok d) = record w {
  store = s;
  checked = if is_workflow workflow d.workflow then id ∷ w.checked else w.checked;
}
after_seen workflow id w (s, err e) = record w { store = s }

abbrev pub after_cancel : String → World → Sessions × Result AccountError SessionDto → World
after_cancel id w (s, ok d) = record w { store = s; cancels = id ∷ w.cancels }
after_cancel id w (s, err e) = record w { store = s }

abbrev pub after_claim :
    String → World → Sessions × Result AccountError (Authorization × Option String) → World
after_claim id w (s, ok a) = record w {
  store = s;
  checked = without id w.checked;
  tasks = id ∷ w.tasks;
  claims = id ∷ w.claims;
}
after_claim id w (s, err e) = record w { store = s; checked = without id w.checked }

abbrev pub after_device_claim : String → World → Sessions × Option (Option String) → World
after_device_claim id w (s, some label) = record w {
  store = s;
  tasks = id ∷ w.tasks;
  claims = id ∷ w.claims;
}
after_device_claim id w (s, none) = record w { store = s }

-- `finish` ends where its `get` finds no session.
abbrev pub after_get : String → World → Sessions × Result AccountError SessionDto → World
after_get id w (s, ok d) = record w { store = s }
after_get id w (s, err e) = record w { store = s; tasks = without id w.tasks; lost = id ∷ w.lost }

abbrev pub added_to : String → Result AccountError String → List String → List String
added_to id (ok account) xs = id ∷ xs
added_to id (err e) xs = xs

abbrev is_lost : Sessions × Result AccountError SessionDto → Result AccountError String → Bool
is_lost (s, err e) (ok account) = true
is_lost _ _ = false

abbrev pub after_finish :
    String → Result AccountError String → World → Sessions × Result AccountError SessionDto → World
after_finish id result w (s, answer) = record w {
  store = s;
  generation = raised (lookup id s.sessions) result w.generation;
  tasks = without id w.tasks;
  added = added_to id result w.added;
  lost = if is_lost (s, answer) result then id ∷ w.lost else w.lost;
}

abbrev pub begin_planned :
    ℕ
    → ℕ
    → ℤ
    → Result AccountError (Unit {0})
    → Result AccountError Authorization
    → Result AccountError String
    → Provider
    → OauthMode
    → Option String
    → World
    → Plan
    → World
begin_planned now created clock bound auth random provider mode label w (on_machine workflow) =
    after_begin mode w
      (begin_for now created clock bound auth random provider workflow label w.store)
begin_planned now created clock bound auth random provider mode label w _ = w

unfoldable pub step : Event → World → World
step (began now created clock bound auth random provider mode label) w =
    begin_planned now created clock bound auth random provider mode label w (plan provider mode)
step (admitted now label) w = record w { store = (admit_device now label w.store).0 }
step (device_began now asked elapsed clock answer random label) w =
    after_device w (begin_device now asked elapsed clock answer random label w.store)
step (keyed now provider label mode key) w =
    after_keyed key w (begin_keyed now provider label mode key w.store)
step (key_ended key result) w =
    if has key w.keys then after_key key w (begin_end key result w.store) else w
step (looked now later id) w = record w { store = (get now later id w.store).0 }
step (seen now later workflow id) w = after_seen workflow id w (get now later id w.store)
step (called_off now id) w = after_cancel id w (cancel now id w.store)
step (claimed now id) w = if has id w.checked then after_claim id w (claim now id w.store) else w
step (device_claimed now id) w = after_device_claim id w (claim_device now id w.store)
step (device_ended id e) w = record w { store = end_device id (end_status e) (end_code e) w.store }
step (loopback_ended id) w = record w { store = end_loopback id w.store }
step (finishing now later id) w =
    if has id w.tasks then after_get id w (get now later id w.store) else w
step (finished id result) w =
    if has id w.tasks then after_finish id result w (finish_end id result w.store) else w

unfoldable pub run : List Event → World → World
unfolding step
run [] w = w
run (e ∷ es) w = run es (step e w)
