-- ===== src/Accounts/Oauth/Calm.antt =====
-- The `expect`s of the sessions' manager never fail.
use quotio_cli.Base.{
  ℕ, ◌+◌, ◌≤◌, String, ◌≡◌, ◌≢◌, refl, sym, subst, true, false, ◌||◌, List, [], ◌∷◌, Option, none,
  some, length, retain, leb, arith, Result, ok, err, string_eq, ◌==◌, Bool-cases, Option-cases, inl,
  inr, ℤ,
}
use quotio_cli.Base.Dict.{Dict, lookup, insert, remove, update}
use quotio_cli.Provider.{Provider}
use quotio_cli.Accounts.Credential.{AccountError}
use quotio_cli.Accounts.Oauth.{
  OauthMode, relay, loopback, Workflow, Authorization, SessionDto, PendingSession, BeginClaim,
  Sessions, prune, prune_sessions, is_retained, is_some,
}
use quotio_cli.Accounts.Oauth.Manager.{
  get, cancel, claim, claim_device, end_device, end_loopback, finish_end,
}
use quotio_cli.Accounts.Oauth.Begin.{
  Plan, device, on_machine, no_plan, plan, begin_for, admit_device, begin_device, Begun, answered,
  spawned, panicked, begin_keyed, begin_end, recorded, recover, repeated, check_label, is_claim_of,
  opened, admit_key, keyed,
}
use quotio_cli.Accounts.Oauth.History
use quotio_cli.Accounts.Oauth.History.{
  World, empty, Event, times, has, without, after_begin, after_device, after_keyed, after_key,
  after_seen, after_cancel, after_claim, after_device_claim, after_get, after_finish, begin_planned,
  step, run, end_status, end_code,
}
use quotio_cli.Accounts.Oauth.Keys.{
  is_open, total, running, Loses, prune-Loses, get-Loses, cancel-Loses, claim-Loses,
  claim_device-Loses, finish-Loses, admit_device-Loses, begin_for-Loses, begin_device-Loses,
  total-insert, total-missing, running-le-total, ended-Loses, own_ended,
}
use quotio_cli.Accounts.Oauth.Decided.{times-without}
use quotio_cli.Accounts.Oauth.Falls.{one_if}
use quotio_cli.Accounts.Oauth.Lasting.{times-has, same_name}

retained-lookup :
    (sessions : Dict PendingSession) (key : String) (d : Dict BeginClaim) (c : BeginClaim)
    → lookup key (retain (is_retained sessions) d) ≡ some c
    → is_retained sessions (key, c) ≡ true
unfolding lookup
retained-lookup sessions key [] c h = absurd (ground arith)
retained-lookup sessions key ((k, x) ∷ d) c h = elim (Bool-cases (is_retained sessions (k, x))) [
  | inr gone ↦ retained-lookup sessions key d c (rw gone at h)
  | inl kept ↦ ground (arith, retained-lookup sessions key d c)
]

abbrev IsCalm : Begun → Type 0
IsCalm panicked = ⊥
IsCalm _ = Unit {0}

recover-IsCalm :
    (sessions : Dict PendingSession) (o : Option String)
    → (elim o [ none ↦ true | some id ↦ is_some (lookup id sessions) ]) ≡ true
    → IsCalm (recover sessions o)
recover-IsCalm sessions none h = tt
recover-IsCalm sessions (some id) h = elim (Option-cases (lookup id sessions)) [
  | inl missing ↦ absurd (ground arith)
  | inr (x, there) ↦ ground arith
]

repeated-IsCalm :
    (provider : Provider) (label : Option String) (mode : OauthMode) (now : ℕ) (s : Sessions)
    (key : String) (c : BeginClaim)
    → lookup key (prune now s).begins ≡ some c
    → IsCalm (repeated provider label mode (prune now s).sessions c)
unfolding prune
repeated-IsCalm provider label mode now s key c old =
    elim (Bool-cases (is_claim_of provider label mode c)) [
      | inr other ↦ rw other tt
      | inl same ↦ rw same (
          recover-IsCalm (prune_sessions now s.sessions) c.session_id
            (retained-lookup (prune_sessions now s.sessions) key s.begins c old))
    ]

repeated-ne-spawned :
    (provider : Provider) (label : Option String) (mode : OauthMode) (d : Dict PendingSession)
    (c : BeginClaim)
    → repeated provider label mode d c ≢ spawned
repeated-ne-spawned provider label mode d c h = ground arith

-- A world without panics, within the bound of the claims.
pub record AreSound (begins : Dict BeginClaim) (keys : List String) (panics : ℕ) : Type 0 where
  pub calm : panics ≡ 0
  pub few : length begins ≤ 128
  pub single : (key : String) → total key begins ≤ 1
  pub tasks : (key : String) → times key keys ≡ running key begins

abbrev pub IsSound : World → Type 0
IsSound w = AreSound w.store.begins w.keys w.panics

store-IsSound :
    (w : World) (t : Sessions)
    → IsSound w
    → ((key : String) → Loses key w.store.begins t.begins)
    → IsSound (record w { store = t })
store-IsSound w t h loses = record {
  calm = h.calm;
  few = omega (arith, h.few, loses "");
  single = λ key. omega (arith, h.single key, loses key);
  tasks = λ key. omega (arith, h.tasks key, loses key);
}

module _ (w : World) (h : IsSound w) where
  spawn-IsSound :
      (now : ℕ) (key : String) (c : BeginClaim)
      → lookup key (prune now w.store).begins ≡ none
      → leb 128 (length (prune now w.store).begins) ≡ false
      → is_open c ≡ true
      → IsSound (record w {
        store = record (prune now w.store) { begins = insert key c (prune now w.store).begins };
        keys = key ∷ w.keys;
      })
  spawn-IsSound now key c new room fresh = record {
    calm = h.calm;
    few = ground (arith, total-insert key key c (prune now w.store).begins new);
    single = λ k. ground (
      arith,
      h.single k,
      prune-Loses k now w.store,
      total-insert k key c (prune now w.store).begins new,
      total-missing key (prune now w.store).begins new,
    );
    tasks = λ k. ground (
      arith,
      h.tasks k,
      prune-Loses k now w.store,
      total-insert k key c (prune now w.store).begins new,
    );
  }

  answered-IsSound :
      (key : String) (t : Sessions) (b : Begun)
      → IsCalm b
      → b ≢ spawned
      → IsSound (record w { store = t })
      → IsSound (after_keyed key w (t, b))
  answered-IsSound key t (answered r) calm other sound = sound
  answered-IsSound key t spawned calm other sound = absurd (other refl)
  answered-IsSound key t panicked calm other sound = absurd calm

  admit-IsSound :
      (now : ℕ) (provider : Provider) (label : Option String) (mode : OauthMode) (key : String)
      (o : Option BeginClaim)
      → lookup key (prune now w.store).begins ≡ o
      → IsSound (after_keyed key w (admit_key provider label mode key (prune now w.store) o))
  admit-IsSound now provider label mode key (some c) old =
      answered-IsSound key (prune now w.store)
        (repeated provider label mode (prune now w.store).sessions c)
        (repeated-IsCalm provider label mode now w.store key c old)
        (repeated-ne-spawned provider label mode (prune now w.store).sessions c)
        (store-IsSound w (prune now w.store) h (λ k. prune-Loses k now w.store))
  admit-IsSound now provider label mode key none new =
      elim (Bool-cases (
        leb 128 (length (prune now w.store).begins)
        || leb 128 (length (prune now w.store).sessions))) [
          | inl full ↦
              rw full (store-IsSound w (prune now w.store) h (λ k. prune-Loses k now w.store))
          | inr room ↦
              rw room (spawn-IsSound now key (opened provider label mode) new (ground arith) refl)
        ]

  keyed-IsSound :
      (now : ℕ) (provider : Provider) (label : Option String) (mode : OauthMode) (key : String)
      (r : Result AccountError (Unit {0}))
      → IsSound (after_keyed key w (keyed provider label mode key w.store (prune now w.store) r))
  keyed-IsSound now provider label mode key (err e) = h
  keyed-IsSound now provider label mode key (ok u) =
      admit-IsSound now provider label mode key (lookup key (prune now w.store).begins) refl

  busy_claim : (key : String) → has key w.keys ≡ true → running key w.store.begins ≡ 1
  busy_claim key there = omega (
    arith,
    h.tasks key,
    times-has key w.keys there,
    running-le-total key w.store.begins,
    h.single key,
  )

  -- One claim of the key ends, and all else stays.
  abbrev Ends : String → Dict BeginClaim → Type 0
  Ends key e =
      (k : String)
      → (running k e + one_if (k == key) ≡ running k w.store.begins)
        × (total k e ≤ 1)
        × (length e ≤ length w.store.begins)

  removed-Ends : (key : String) → has key w.keys ≡ true → Ends key (remove key w.store.begins)
  removed-Ends key there k = elim (Bool-cases (k == key)) [
    | inr other ↦ ground (arith, ended-Loses k key "" w.store.begins other, h.single k)
    | inl mine ↦
        let same : key ≡ k = sym (same_name k key mine) in
        subst
          (λ j.
            (running j (remove key w.store.begins) + one_if (j == key) ≡ running j w.store.begins)
            × (total j (remove key w.store.begins) ≤ 1)
            × (length (remove key w.store.begins) ≤ length w.store.begins))
          same
          (ground (
            arith,
            own_ended key "" w.store.begins (h.single key) (busy_claim key there),
            busy_claim key there,
          ))
  ]

  recorded-Ends :
      (key id : String) → has key w.keys ≡ true → Ends key (update key (recorded id) w.store.begins)
  recorded-Ends key id there k = elim (Bool-cases (k == key)) [
    | inr other ↦ ground (arith, ended-Loses k key id w.store.begins other, h.single k)
    | inl mine ↦
        let same : key ≡ k = sym (same_name k key mine) in
        subst
          (λ j.
            (running j (update key (recorded id) w.store.begins) + one_if (j == key)
              ≡ running j w.store.begins)
            × (total j (update key (recorded id) w.store.begins) ≤ 1)
            × (length (update key (recorded id) w.store.begins) ≤ length w.store.begins))
          same
          (ground (
            arith,
            own_ended key id w.store.begins (h.single key) (busy_claim key there),
            busy_claim key there,
          ))
  ]

  Ends-IsSound :
      (key : String) (t : Sessions)
      → has key w.keys ≡ true
      → Ends key t.begins
      → IsSound (after_key key w (some t))
  Ends-IsSound key t there ends = record {
    calm = h.calm;
    few = omega (arith, h.few, ends key);
    single = λ k. (ends k).1;
    tasks = λ k. omega (arith, h.tasks k, ends k, times-without k key w.keys there);
  }

  end-IsSound :
      (key : String) (result : Result AccountError SessionDto)
      → has key w.keys ≡ true
      → IsSound (after_key key w (begin_end key result w.store))
  unfolding begin_end
  end-IsSound key (err e) there =
      Ends-IsSound key (record w.store { begins = remove key w.store.begins }) there
        (removed-Ends key there)
  end-IsSound key (ok d) there = found (lookup key w.store.begins) refl
    where
      found :
          (o : Option BeginClaim)
          → lookup key w.store.begins ≡ o
          → IsSound (
              after_key key w (elim o [
                | none ↦ none
                | some c ↦
                    some (record w.store { begins = update key (recorded d.id) w.store.begins })
              ]))
      found none missing = absurd (
          omega (
            arith,
            total-missing key w.store.begins missing,
            busy_claim key there,
            running-le-total key w.store.begins,
          ))
      found (some c) old =
          Ends-IsSound key (record w.store { begins = update key (recorded d.id) w.store.begins })
            there (recorded-Ends key d.id there)

planned-IsSound :
    (now created : ℕ) (clock : ℤ) (bound : Result AccountError (Unit {0}))
    (auth : Result AccountError Authorization) (random : Result AccountError String)
    (provider : Provider) (mode : OauthMode) (label : Option String) (w : World) (p : Plan)
    → IsSound w
    → IsSound (begin_planned now created clock bound auth random provider mode label w p)
planned-IsSound now created clock bound auth random provider mode label w device h = h
planned-IsSound now created clock bound auth random provider mode label w no_plan h = h
planned-IsSound now created clock bound auth random provider mode label w (on_machine wf) h =
    entered mode (begin_for now created clock bound auth random provider wf label w.store)
      (λ k. begin_for-Loses k now created clock bound auth random provider wf label w.store)
  where
    entered :
        (mode : OauthMode) (r : Sessions × Result AccountError SessionDto)
        → ((key : String) → Loses key w.store.begins r.0.begins)
        → IsSound (after_begin mode w r)
    entered relay (t, ok d) loses = store-IsSound w t h loses
    entered loopback (t, ok d) loses = store-IsSound w t h loses
    entered relay (t, err e) loses = store-IsSound w t h loses
    entered loopback (t, err e) loses = store-IsSound w t h loses

module _ (w : World) (h : IsSound w) where
  device-IsSound :
      (r : Sessions × Result AccountError SessionDto)
      → ((key : String) → Loses key w.store.begins r.0.begins)
      → IsSound (after_device w r)
  device-IsSound (t, ok d) loses = store-IsSound w t h loses
  device-IsSound (t, err e) loses = store-IsSound w t h loses

  seen-IsSound :
      (workflow : Workflow) (j : String) (r : Sessions × Result AccountError SessionDto)
      → ((key : String) → Loses key w.store.begins r.0.begins)
      → IsSound (after_seen workflow j w r)
  seen-IsSound workflow j (t, ok d) loses = store-IsSound w t h loses
  seen-IsSound workflow j (t, err e) loses = store-IsSound w t h loses

  cancel-IsSound :
      (j : String) (r : Sessions × Result AccountError SessionDto)
      → ((key : String) → Loses key w.store.begins r.0.begins)
      → IsSound (after_cancel j w r)
  cancel-IsSound j (t, ok d) loses = store-IsSound w t h loses
  cancel-IsSound j (t, err e) loses = store-IsSound w t h loses

  claim-IsSound :
      (j : String) (r : Sessions × Result AccountError (Authorization × Option String))
      → ((key : String) → Loses key w.store.begins r.0.begins)
      → IsSound (after_claim j w r)
  claim-IsSound j (t, ok d) loses = store-IsSound w t h loses
  claim-IsSound j (t, err e) loses = store-IsSound w t h loses

  device_claim-IsSound :
      (j : String) (r : Sessions × Option (Option String))
      → ((key : String) → Loses key w.store.begins r.0.begins)
      → IsSound (after_device_claim j w r)
  device_claim-IsSound j (t, some l) loses = store-IsSound w t h loses
  device_claim-IsSound j (t, none) loses = store-IsSound w t h loses

  get-IsSound :
      (j : String) (r : Sessions × Result AccountError SessionDto)
      → ((key : String) → Loses key w.store.begins r.0.begins)
      → IsSound (after_get j w r)
  get-IsSound j (t, ok d) loses = store-IsSound w t h loses
  get-IsSound j (t, err e) loses = store-IsSound w t h loses

same-Loses : (key : String) (d : Dict BeginClaim) → Loses key d d
same-Loses key d = (refl, omega arith, omega arith)

step-IsSound : (e : Event) (w : World) → IsSound w → IsSound (step e w)
unfolding step begin_keyed end_device end_loopback
step-IsSound (History.began now created clock bound auth random provider mode label) w h =
    planned-IsSound now created clock bound auth random provider mode label w (plan provider mode) h
step-IsSound (History.admitted now label) w h =
    store-IsSound w (admit_device now label w.store).0 h
      (λ k. admit_device-Loses k now label w.store)
step-IsSound (History.device_began now asked elapsed clock answer random label) w h =
    device-IsSound w h (begin_device now asked elapsed clock answer random label w.store)
      (λ k. begin_device-Loses k now asked elapsed clock answer random label w.store)
step-IsSound (History.keyed now provider label mode key) w h =
    keyed-IsSound w h now provider label mode key (check_label label)
step-IsSound (History.key_ended key result) w h = elim (Bool-cases (has key w.keys)) [
  | inr idle ↦ rw idle h
  | inl there ↦ rw there (end-IsSound w h key result there)
]
step-IsSound (History.looked now later j) w h =
    store-IsSound w (get now later j w.store).0 h (λ k. get-Loses k now later j w.store)
step-IsSound (History.seen now later workflow j) w h =
    seen-IsSound w h workflow j (get now later j w.store) (λ k. get-Loses k now later j w.store)
step-IsSound (History.called_off now j) w h =
    cancel-IsSound w h j (cancel now j w.store) (λ k. cancel-Loses k now j w.store)
step-IsSound (History.claimed now j) w h = elim (Bool-cases (has j w.checked)) [
  | inr idle ↦ rw idle h
  | inl there ↦
      rw there (claim-IsSound w h j (claim now j w.store) (λ k. claim-Loses k now j w.store))
]
step-IsSound (History.device_claimed now j) w h =
    device_claim-IsSound w h j (claim_device now j w.store)
      (λ k. claim_device-Loses k now j w.store)
step-IsSound (History.device_ended j e) w h = h
step-IsSound (History.loopback_ended j) w h = h
step-IsSound (History.finishing now later j) w h = elim (Bool-cases (has j w.tasks)) [
  | inr idle ↦ rw idle h
  | inl there ↦
      rw there (get-IsSound w h j (get now later j w.store) (λ k. get-Loses k now later j w.store))
]
step-IsSound (History.finished j result) w h = elim (Bool-cases (has j w.tasks)) [
  | inr idle ↦ rw idle h
  | inl there ↦
      rw there
        (store-IsSound w (finish_end j result w.store).0 h (λ k. finish-Loses k j result w.store))
]

run-IsSound : (es : List Event) (w : World) → IsSound w → IsSound (run es w)
unfolding run
run-IsSound [] w h = h
run-IsSound (e ∷ es) w h = run-IsSound es (step e w) (step-IsSound e w h)

-- In any history of the methods of the session manager, which begins without sessions, no claim
-- and no session that the code expects is missing, under each retry key at most one request
-- runs, exactly where there is a claim of the key without a session, and there are at most 128
-- claims.
pub run-calm :
    (key : String) (es : List Event)
    → let w = run es empty in
      (w.panics ≡ 0)
      × (times key w.keys ≤ 1)
      × (times key w.keys ≡ running key w.store.begins)
      × (length w.store.begins ≤ 128)
run-calm key es =
    let h : IsSound (run es empty) =
      run-IsSound es empty
        (record { calm = refl; few = omega arith; single = λ k. omega arith; tasks = λ k. refl }) in
    (
      h.calm,
      omega (arith, h.tasks key, h.single key, running-le-total key (run es empty).store.begins),
      h.tasks key,
      h.few,
    )
