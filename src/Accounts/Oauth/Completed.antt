-- ===== src/Accounts/Oauth/Completed.antt =====
-- Each login that is claimed ends, and its end is told.
use quotio_cli.Base.{
  ℕ, ◌≤◌, String, ◌≡◌, ◌⊎◌, refl, ap, true, false, not, List, [], ◌∷◌, Option, some, arith, Result,
  ok, string_eq, Bool-cases, inl, inr, ℤ, subst,
}
use quotio_cli.Accounts.Credential.{AccountError}
use quotio_cli.Provider.{Provider}
use quotio_cli.Accounts.Oauth.{OauthMode, Workflow, Authorization, SessionDto, completed}
use quotio_cli.Accounts.Oauth.Manager.{
  get, cancel, claim, claim_device, end_device, end_loopback, finish_end,
}
use quotio_cli.Accounts.Oauth.Begin.{
  Plan, device, on_machine, no_plan, plan, admit_device, begin_keyed,
}
use quotio_cli.Accounts.Oauth.Tally.{tally, in_processing}
use quotio_cli.Accounts.Oauth.History
use quotio_cli.Accounts.Oauth.History.{
  World, empty, Event, times, has, end_status, end_code, begin_planned, step, run, after_begin,
  after_device, after_keyed, after_key, after_seen, after_cancel, after_claim, after_device_claim,
  after_get, after_finish,
}
use quotio_cli.Accounts.Oauth.Falls.{begin_end-Leaves, is_ok}
use quotio_cli.Accounts.Oauth.Decided.{IsDecided, step-IsDecided}
use quotio_cli.Accounts.Oauth.Stable.{
  on_device, off_device, unsigned, is_device_code, on_device-IsStable, off_device-IsStable,
  unsigned-IsStable, get-Lessens, cancel-Lessens, claim-Lessens, claim_device-Lessens,
  end_device-Lessens, end_loopback-Lessens, finish-Lessens, admit_device-Lessens,
  begin_keyed-Lessens, begin_for-Grows, begin_device-Grows,
}
use quotio_cli.Accounts.Oauth.Working.{
  get-works, get-is_ok, cancel-works, claim-works, claim_device-works, end_device-works,
  end_loopback-works, admit_device-works, begin_keyed-works, begin_for-Spares, begin_device-Spares,
  finish-answer, get-Finds, Finds,
}
use quotio_cli.Accounts.Oauth.Lasting.{
  IsLasting, three, times-has, same_name, at_most, store-IsLasting, begin-IsLasting,
  device-IsLasting, keyed-IsLasting, key-IsLasting, cancel-IsLasting, device_claim-IsLasting,
  claim-IsLasting, seen-IsLasting, get-IsLasting, finish-IsLasting,
}

-- No plan of this machine is that of a device.
plan-here :
    (provider : Provider) (mode : OauthMode) (wf : Workflow)
    → plan provider mode ≡ on_machine wf
    → is_device_code wf ≡ false
unfolding plan
plan-here provider mode wf h = ground arith

module _ (id : String) where
  -- The sessions that were begun stay on record.
  begun_grows : (e : Event) (w : World) → times id w.begun ≤ times id (step e w).begun
  unfolding step
  begun_grows e w = ground arith

  planned-IsLasting :
      (now created : ℕ) (clock : ℤ) (bound : Result AccountError (Unit {0}))
      (auth : Result AccountError Authorization) (random : Result AccountError String)
      (provider : Provider) (mode : OauthMode) (label : Option String) (w : World) (p : Plan)
      → ((wf : Workflow) → p ≡ on_machine wf → is_device_code wf ≡ false)
      → IsDecided id w
      → IsLasting id w
      → times id (begin_planned now created clock bound auth random provider mode label w p).begun
        ≤ 1
      → IsLasting id (begin_planned now created clock bound auth random provider mode label w p)
  planned-IsLasting now created clock bound auth random provider mode label w (on_machine wf) here d
        h fresh =
      let off : is_device_code wf ≡ false = here wf refl in
      begin-IsLasting id w h mode _
        (begin_for-Grows off_device off_device-IsStable true id now created clock bound auth random
          provider wf label w.store (λ a at. ap not off) d.few)
        (begin_for-Grows on_device on_device-IsStable false id now created clock bound auth random
          provider wf label w.store (λ a at. off) d.few)
        (begin_for-Grows unsigned unsigned-IsStable false id now created clock bound auth random
          provider wf label w.store (λ a at. ground arith) d.few)
        (begin_for-Spares id now created clock bound auth random provider wf label w.store d.few)
        fresh
  planned-IsLasting now created clock bound auth random provider mode label w device here d h
        fresh =
      h
  planned-IsLasting now created clock bound auth random provider mode label w no_plan here d h
        fresh =
      h

  step-IsLasting :
      (e : Event) (w : World)
      → IsDecided id w
      → IsLasting id w
      → times id (step e w).begun ≤ 1
      → IsLasting id (step e w)
  unfolding step
  step-IsLasting (History.began now created clock bound auth random provider mode label) w d h
        fresh =
      planned-IsLasting now created clock bound auth random provider mode label w
        (plan provider mode) (plan-here provider mode) d h fresh
  step-IsLasting (History.admitted now label) w d h fresh =
      store-IsLasting id w h _
        (three id w.store ((admit_device now label w.store).0)
          (λ p s. admit_device-Lessens p s id now label w.store d.few))
        (admit_device-works id now label w.store d.few)
  step-IsLasting (History.device_began now asked elapsed clock answer random label) w d h fresh =
      device-IsLasting id w h _
        (begin_device-Grows off_device off_device-IsStable false id now asked elapsed clock answer
          random label w.store (λ x at. refl) d.few)
        (begin_device-Grows on_device on_device-IsStable true id now asked elapsed clock answer
          random label w.store (λ x at. refl) d.few)
        (begin_device-Grows unsigned unsigned-IsStable false id now asked elapsed clock answer
          random label w.store (λ x at. refl) d.few)
        (begin_device-Spares id now asked elapsed clock answer random label w.store d.few) fresh
  step-IsLasting (History.keyed now provider label mode key) w d h fresh =
      keyed-IsLasting id w h key _
        (three id w.store ((begin_keyed now provider label mode key w.store).0)
          (λ p s. begin_keyed-Lessens p s id now provider label mode key w.store d.few))
        (begin_keyed-works id now provider label mode key w.store d.few)
  step-IsLasting (History.key_ended key result) w d h fresh = elim (Bool-cases (has key w.keys)) [
    | inr idle ↦ rw idle h
    | inl there ↦ rw there (key-IsLasting id w h key _ (begin_end-Leaves id key result w.store))
  ]
  step-IsLasting (History.looked now later j) w d h fresh =
      store-IsLasting id w h _
        (three id w.store ((get now later j w.store).0)
          (λ p s. get-Lessens p s id now later j w.store d.few))
        (get-works id now later j w.store d.few)
  step-IsLasting (History.seen now later workflow j) w d h fresh =
      seen-IsLasting id w h workflow j _
        (omega (arith, begun_grows (History.seen now later workflow j) w, fresh))
        (three id w.store ((get now later j w.store).0)
          (λ p s. get-Lessens p s id now later j w.store d.few))
        (get-works id now later j w.store d.few)
        (λ mine.
          subst (λ k. Finds id w.store (get now later k w.store).1) (same_name id j mine)
            (get-Finds now later id w.store d.few))
  step-IsLasting (History.called_off now j) w d h fresh =
      cancel-IsLasting id w h j _
        (three id w.store ((cancel now j w.store).0)
          (λ p s. cancel-Lessens p s id now j w.store d.few))
        (cancel-works id now j w.store d.few)
  step-IsLasting (History.claimed now j) w d h fresh = elim (Bool-cases (has j w.checked)) [
    | inr idle ↦ rw idle h
    | inl there ↦
        let (low, high) = claim-works id now j w.store d.few in
        rw there (
          claim-IsLasting id w h j _ there
            (omega (arith, begun_grows (History.claimed now j) w, fresh))
            (three id w.store ((claim now j w.store).0)
              (λ p s. claim-Lessens p s id now j w.store d.few))
            low high)
  ]
  step-IsLasting (History.device_claimed now j) w d h fresh =
      device_claim-IsLasting id w h j _
        (three id w.store ((claim_device now j w.store).0)
          (λ p s. claim_device-Lessens p s id now j w.store d.few))
        (claim_device-works id now j w.store d.few)
  step-IsLasting (History.device_ended j e) w d h fresh =
      store-IsLasting id w h _
        (three id w.store (end_device j (end_status e) (end_code e) w.store)
          (λ p s. end_device-Lessens p s id j e w.store))
        (end_device-works id j e w.store)
  step-IsLasting (History.loopback_ended j) w d h fresh =
      store-IsLasting id w h _
        (three id w.store (end_loopback j w.store) (λ p s. end_loopback-Lessens p s id j w.store))
        (end_loopback-works id j w.store)
  step-IsLasting (History.finishing now later j) w d h fresh = elim (Bool-cases (has j w.tasks)) [
    | inr idle ↦ rw idle h
    | inl there ↦
        let busy : 1 ≤ times j w.tasks = times-has j w.tasks there in
        rw there (
          get-IsLasting id w h j _ there
            (three id w.store ((get now later j w.store).0)
              (λ p s. get-Lessens p s id now later j w.store d.few))
            (get-works id now later j w.store d.few)
            (λ mine.
              subst (λ k. 1 ≤ times k w.tasks → is_ok (get now later k w.store).1 ≡ true)
                (same_name id j mine)
                (λ b. get-is_ok id now later w.store d.few (omega (arith, h.working, b))) busy))
  ]
  step-IsLasting (History.finished j result) w d h fresh = elim (Bool-cases (has j w.tasks)) [
    | inr idle ↦ rw idle h
    | inl there ↦ rw there (
        finish-IsLasting id w h j result there
          (omega (arith, begun_grows (History.finished j result) w, fresh))
          (three id w.store ((finish_end j result w.store).0)
            (λ p s. finish-Lessens p s id j result w.store)))
  ]

  run_grows : (es : List Event) (w : World) → times id w.begun ≤ times id (run es w).begun
  unfolding run
  run_grows [] w = omega arith
  run_grows (e ∷ es) w = omega (arith, begun_grows e w, run_grows es (step e w))

  run-IsLasting :
      (es : List Event) (w : World)
      → IsDecided id w
      → IsLasting id w
      → times id (run es w).begun ≤ 1
      → IsLasting id (run es w)
  unfolding run
  run-IsLasting [] w d h fresh = h
  run-IsLasting (e ∷ es) w d h fresh =
      run-IsLasting es (step e w) (step-IsDecided id e w d)
        (step-IsLasting e w d h (omega (arith, run_grows es (step e w), fresh))) fresh

-- In any history of the methods of the session manager, which begins without sessions and begins
-- at most one session under the id, the sessions with the id that are being processed are as
-- many as the tasks that have claimed it and not ended, no such task misses its session, and
-- where there is one, its end with an account is answered with a session that is completed and
-- has that account.
pub run-completes :
    (id account : String) (es : List Event)
    → times id (run es empty).begun ≤ 1
    → let w = run es empty in
      (tally in_processing id w.store.sessions ≡ times id w.tasks)
      × (times id w.lost ≡ 0)
      × ((has id w.tasks ≡ false)
          ⊎ ((d : SessionDto) × ((finish_end id (ok account) w.store).1 ≡ ok d)
              × (d.status ≡ completed)
              × (d.account_id ≡ some account)))
run-completes id account es fresh =
    let w = run es empty in
    let start : IsDecided id empty = record {
      few = omega arith;
      undecided = omega arith;
      settled = omega arith;
    } in
    let h : IsLasting id w =
      run-IsLasting id es empty start
        (record {
          here = omega arith;
          there = omega arith;
          held = inl refl;
          signed = refl;
          working = refl;
          kept = refl;
        })
        fresh in
    (h.working, h.kept, answer h (Bool-cases (has id w.tasks)))
  where
    answer :
        IsLasting id (run es empty)
        → (has id (run es empty).tasks ≡ true) ⊎ (has id (run es empty).tasks ≡ false)
        → (has id (run es empty).tasks ≡ false)
          ⊎ ((d : SessionDto) × ((finish_end id (ok account) (run es empty).store).1 ≡ ok d)
              × (d.status ≡ completed)
              × (d.account_id ≡ some account))
    answer h (inr none_left) = inl none_left
    answer h (inl there) =
        let (d, told, named, status, account_id) =
          finish-answer id (run es empty).store
            (omega (arith, h.working, times-has id (run es empty).tasks there))
            (omega (arith, at_most id (run es empty) h, fresh)) account in
        inr (d, told, status, account_id)
