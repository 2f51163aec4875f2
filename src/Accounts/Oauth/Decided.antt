-- ===== src/Accounts/Oauth/Decided.antt =====
-- A session is decided at most once: a login that is called off adds no account.
use quotio_cli.Base.{
  ℕ, ◌+◌, ◌≤◌, String, ◌≡◌, true, ◌&&◌, List, [], ◌∷◌, Option, none, some, length, arith, Result,
  ok, err, string_eq, ◌==◌, Bool-cases, inl, inr, ℤ,
}
use quotio_cli.Accounts.Credential.{AccountError}
use quotio_cli.Provider.{Provider}
use quotio_cli.Accounts.Oauth.{
  OauthMode, relay, loopback, Workflow, Authorization, SessionDto, Sessions,
}
use quotio_cli.Accounts.Oauth.Begin.{
  Plan, device, on_machine, no_plan, plan, Begun, answered, spawned, panicked,
}
use quotio_cli.Accounts.Oauth.Tally.{tally}
use quotio_cli.Accounts.Oauth.History
use quotio_cli.Accounts.Oauth.History.{
  World, empty, Event, times, has, without, end_status, end_code, after_begin, after_device,
  after_keyed, after_key, after_seen, after_cancel, after_claim, after_device_claim, after_get,
  after_finish, added_to, begin_planned, step, run,
}
use quotio_cli.Accounts.Oauth.Falls.{
  in_waiting, Falls, Enters, Leaves, one_if, is_ok, get-Falls, cancel-Falls, claim-Falls,
  claim_device-Falls, finish-Falls, end_device-Falls, end_loopback-Falls, begin_for-Enters,
  begin_device-Enters, admit_device-Falls, begin_keyed-Falls, begin_end-Leaves,
}
use quotio_cli.Accounts.Oauth.{is_some}

pub record IsDecided (id : String) (w : World) : Type 0 where
  pub few : length w.store.sessions ≤ 128
  pub undecided :
      tally in_waiting id w.store.sessions + times id w.claims + times id w.cancels
      ≤ times id w.begun
  pub settled : times id w.added + times id w.tasks ≤ times id w.claims

pub times-without :
    (id j : String) (xs : List String)
    → has j xs ≡ true
    → times id (without j xs) + one_if (id == j) ≡ times id xs
times-without id j [] h = absurd (ground arith)
times-without id j (x ∷ xs) h = ground (arith, times-without id j xs)

module _ (id : String) (w : World) (d : IsDecided id w) where
  store-IsDecided : (t : Sessions) → Falls id 0 w.store t → IsDecided id (record w { store = t })
  store-IsDecided t h = record {
    few = h.0;
    undecided = omega (arith, h.1, d.undecided);
    settled = d.settled;
  }

  begin-IsDecided :
      (mode : OauthMode) (r : Sessions × Result AccountError SessionDto)
      → Enters id w.store r
      → IsDecided id (after_begin mode w r)
  begin-IsDecided relay (t, ok x) h = ground (arith, d)
  begin-IsDecided loopback (t, ok x) h = ground (arith, d)
  begin-IsDecided relay (t, err e) h = store-IsDecided t h
  begin-IsDecided loopback (t, err e) h = store-IsDecided t h

  device-IsDecided :
      (r : Sessions × Result AccountError SessionDto)
      → Enters id w.store r
      → IsDecided id (after_device w r)
  device-IsDecided (t, ok x) h = ground (arith, d)
  device-IsDecided (t, err e) h = store-IsDecided t h

  keyed-IsDecided :
      (key : String) (r : Sessions × Begun)
      → Falls id 0 w.store r.0
      → IsDecided id (after_keyed key w r)
  keyed-IsDecided key (t, answered a) h = store-IsDecided t h
  keyed-IsDecided key (t, spawned) h = ground (arith, store-IsDecided t h)
  keyed-IsDecided key (t, panicked) h = ground (arith, store-IsDecided t h)

  key-IsDecided :
      (key : String) (r : Option Sessions) → Leaves id w.store r → IsDecided id (after_key key w r)
  key-IsDecided key none h = ground (arith, d)
  key-IsDecided key (some t) h = record {
    few = rw h d.few;
    undecided = rw h d.undecided;
    settled = d.settled;
  }

  seen-IsDecided :
      (workflow : Workflow) (j : String) (r : Sessions × Result AccountError SessionDto)
      → Falls id 0 w.store r.0
      → IsDecided id (after_seen workflow j w r)
  seen-IsDecided workflow j (t, ok x) h = ground (arith, store-IsDecided t h)
  seen-IsDecided workflow j (t, err e) h = store-IsDecided t h

  cancel-IsDecided :
      (j : String) (r : Sessions × Result AccountError SessionDto)
      → Falls id (one_if (is_ok r.1 && id == j)) w.store r.0
      → IsDecided id (after_cancel j w r)
  cancel-IsDecided j (t, ok x) h = ground (arith, d)
  cancel-IsDecided j (t, err e) h = store-IsDecided t h

  claim-IsDecided :
      (j : String) (r : Sessions × Result AccountError (Authorization × Option String))
      → Falls id (one_if (is_ok r.1 && id == j)) w.store r.0
      → IsDecided id (after_claim j w r)
  claim-IsDecided j (t, ok x) h = ground (arith, d)
  claim-IsDecided j (t, err e) h = ground (arith, store-IsDecided t h)

  device_claim-IsDecided :
      (j : String) (r : Sessions × Option (Option String))
      → Falls id (one_if (is_some r.1 && id == j)) w.store r.0
      → IsDecided id (after_device_claim j w r)
  device_claim-IsDecided j (t, some x) h = ground (arith, d)
  device_claim-IsDecided j (t, none) h = store-IsDecided t h

  get-IsDecided :
      (j : String) (r : Sessions × Result AccountError SessionDto)
      → has j w.tasks ≡ true
      → Falls id 0 w.store r.0
      → IsDecided id (after_get j w r)
  get-IsDecided j (t, ok x) there h = store-IsDecided t h
  get-IsDecided j (t, err e) there h =
      ground (arith, store-IsDecided t h, times-without id j w.tasks there)

  finish-IsDecided :
      (j : String) (result : Result AccountError String)
      (r : Sessions × Result AccountError SessionDto)
      → has j w.tasks ≡ true
      → Falls id 0 w.store r.0
      → IsDecided id (after_finish j result w r)
  finish-IsDecided j (ok a) (t, answer) there h =
      ground (arith, store-IsDecided t h, times-without id j w.tasks there)
  finish-IsDecided j (err e) (t, answer) there h =
      ground (arith, store-IsDecided t h, times-without id j w.tasks there)

module _ (id : String) where
  planned-IsDecided :
      (now created : ℕ) (clock : ℤ) (bound : Result AccountError (Unit {0}))
      (auth : Result AccountError Authorization) (random : Result AccountError String)
      (provider : Provider) (mode : OauthMode) (label : Option String) (w : World) (p : Plan)
      → IsDecided id w
      → IsDecided id (begin_planned now created clock bound auth random provider mode label w p)
  planned-IsDecided now created clock bound auth random provider mode label w (on_machine workflow)
        d =
      begin-IsDecided id w d mode _ (
        begin_for-Enters id now created clock bound auth random provider workflow label w.store
          d.few)
  planned-IsDecided now created clock bound auth random provider mode label w device d = d
  planned-IsDecided now created clock bound auth random provider mode label w no_plan d = d

  pub step-IsDecided : (e : Event) (w : World) → IsDecided id w → IsDecided id (step e w)
  unfolding step
  step-IsDecided (History.began now created clock bound auth random provider mode label) w d =
      planned-IsDecided now created clock bound auth random provider mode label w
        (plan provider mode) d
  step-IsDecided (History.admitted now label) w d =
      store-IsDecided id w d _ (admit_device-Falls id now label w.store d.few)
  step-IsDecided (History.device_began now asked elapsed clock answer random label) w d =
      device-IsDecided id w d _
        (begin_device-Enters id now asked elapsed clock answer random label w.store d.few)
  step-IsDecided (History.keyed now provider label mode key) w d =
      keyed-IsDecided id w d key _ (begin_keyed-Falls id now provider label mode key w.store d.few)
  step-IsDecided (History.key_ended key result) w d = elim (Bool-cases (has key w.keys)) [
    | inr idle ↦ rw idle d
    | inl there ↦ rw there (key-IsDecided id w d key _ (begin_end-Leaves id key result w.store))
  ]
  step-IsDecided (History.looked now later j) w d =
      store-IsDecided id w d _ (get-Falls id now later j w.store d.few)
  step-IsDecided (History.seen now later workflow j) w d =
      seen-IsDecided id w d workflow j _ (get-Falls id now later j w.store d.few)
  step-IsDecided (History.called_off now j) w d =
      cancel-IsDecided id w d j _ (cancel-Falls id now j w.store d.few)
  step-IsDecided (History.claimed now j) w d = elim (Bool-cases (has j w.checked)) [
    | inr idle ↦ rw idle d
    | inl there ↦ rw there (claim-IsDecided id w d j _ (claim-Falls id now j w.store d.few))
  ]
  step-IsDecided (History.device_claimed now j) w d =
      device_claim-IsDecided id w d j _ (claim_device-Falls id now j w.store d.few)
  step-IsDecided (History.device_ended j e) w d =
      store-IsDecided id w d _ (end_device-Falls id j e w.store d.few)
  step-IsDecided (History.loopback_ended j) w d =
      store-IsDecided id w d _ (end_loopback-Falls id j w.store d.few)
  step-IsDecided (History.finishing now later j) w d = elim (Bool-cases (has j w.tasks)) [
    | inr idle ↦ rw idle d
    | inl there ↦ rw there (get-IsDecided id w d j _ there (get-Falls id now later j w.store d.few))
  ]
  step-IsDecided (History.finished j result) w d = elim (Bool-cases (has j w.tasks)) [
    | inr idle ↦ rw idle d
    | inl there ↦
        rw there (finish-IsDecided id w d j result _ there (finish-Falls id j result w.store d.few))
  ]

  pub run-IsDecided : (es : List Event) (w : World) → IsDecided id w → IsDecided id (run es w)
  unfolding run
  run-IsDecided [] w d = d
  run-IsDecided (e ∷ es) w d = run-IsDecided es (step e w) (step-IsDecided e w d)

-- In any history of the methods of the session manager, which begins without sessions, and for
-- each id, the logins under the id that have added an account and those that were called off are
-- together no more than the sessions begun under it; and the table has at most 128 sessions.
pub run-decided_once :
    (id : String) (es : List Event)
    → let w = run es empty in
      (times id w.added + times id w.cancels ≤ times id w.begun) × (length w.store.sessions ≤ 128)
run-decided_once id es =
    let d =
      run-IsDecided id es empty
        (record { few = omega arith; undecided = omega arith; settled = omega arith }) in
    (omega (arith, d.settled, d.undecided), d.few)
