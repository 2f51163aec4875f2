-- ===== src/Accounts/Oauth/Lasting.antt =====
-- No login is lost: where ids are fresh, a session that is being processed has a task that ends it.
use quotio_cli.Base.{
  ◌+◌, ◌≤◌, String, ◌≡◌, ◌⊎◌, refl, true, false, ◌&&◌, List, [], ◌∷◌, Option, none, some, arith,
  if◌then◌else◌, Result, ok, err, string_eq, ◌==◌, ==_iff, Bool-cases, inl, inr, subst,
}
use quotio_cli.Accounts.Credential.{AccountError}
use quotio_cli.Accounts.Oauth.{
  OauthMode, relay, loopback, Workflow, browser_callback, manual_code, Authorization, SessionDto,
  Sessions, is_some,
}
use quotio_cli.Accounts.Oauth.Manager.{finish_end}
use quotio_cli.Accounts.Oauth.Begin.{Begun, answered, spawned, panicked}
use quotio_cli.Accounts.Oauth.Tally.{Test, tally, tally-split, is_any}
use quotio_cli.Accounts.Oauth.History.{
  World, times, has, after_begin, after_device, after_keyed, after_key, after_seen, is_workflow,
  after_cancel, after_claim, after_device_claim, after_get, after_finish,
}
use quotio_cli.Accounts.Oauth.Falls.{one_if, is_ok, Leaves}
use quotio_cli.Accounts.Oauth.Decided.{times-without}
use quotio_cli.Accounts.Oauth.Stable.{
  Lessens, Grows, IsStable, on_device, off_device, unsigned, is_device_code, on_device-IsStable,
  off_device-IsStable, unsigned-IsStable,
}
use quotio_cli.Accounts.Oauth.Working.{
  works, Spares, finish-others, finish-works, finish-answer, Finds,
}

pub record IsLasting (id : String) (w : World) : Type 0 where
  pub here : tally off_device id w.store.sessions + times id w.devices ≤ times id w.begun
  pub there : tally on_device id w.store.sessions ≤ times id w.devices
  pub held : (times id w.checked ≡ 0) ⊎ ((times id w.devices ≡ 0) × (1 ≤ times id w.begun))
  pub signed : tally unsigned id w.store.sessions ≡ 0
  pub working : works id w.store ≡ times id w.tasks
  pub kept : times id w.lost ≡ 0

-- The three tests hold of no more sessions.
abbrev pub Quiet : String → Sessions → Sessions → Type 0
Quiet id s t = Lessens off_device id s t × Lessens on_device id s t × Lessens unsigned id s t

-- The same for each of the three tests.
pub three :
    (id : String) (s t : Sessions) → ((p : Test) → IsStable p → Lessens p id s t) → Quiet id s t
three id s t each = (
  each off_device off_device-IsStable,
  each on_device on_device-IsStable,
  each unsigned unsigned-IsStable,
)

pub times-has : (id : String) (xs : List String) → has id xs ≡ true → 1 ≤ times id xs
times-has id [] h = absurd (ground arith)
times-has id (x ∷ xs) h = ground (arith, times-has id xs)

is_workflow-here :
    (wanted workflow : Workflow)
    → is_workflow wanted workflow ≡ true
    → is_device_code workflow ≡ false
is_workflow-here manual_code manual_code h = refl
is_workflow-here browser_callback browser_callback h = refl
is_workflow-here _ _ h = ground arith

-- Equal names are named alike.
pub same_name : (id j : String) → (id == j) ≡ true → id ≡ j
same_name id j h = (==_iff id j).0 h

module _ (id : String) (w : World) (h : IsLasting id w) where
  pub at_most : tally is_any id w.store.sessions ≤ times id w.begun
  at_most = omega (arith, tally-split on_device id w.store.sessions, h.here, h.there)

  pub store-IsLasting :
      (t : Sessions)
      → Quiet id w.store t
      → works id t ≡ works id w.store
      → IsLasting id (record w { store = t })
  store-IsLasting t (a, b, c) same = ground (arith, h)

  pub begin-IsLasting :
      (mode : OauthMode) (r : Sessions × Result AccountError SessionDto)
      → Grows off_device true id w.store r
      → Grows on_device false id w.store r
      → Grows unsigned false id w.store r
      → Spares id w.store r
      → times id (after_begin mode w r).begun ≤ 1
      → IsLasting id (after_begin mode w r)
  begin-IsLasting relay (t, ok x) a b c s fresh = ground (arith, h, at_most)
  begin-IsLasting loopback (t, ok x) a b c s fresh = ground (arith, h, at_most)
  begin-IsLasting relay (t, err e) a b c s fresh = store-IsLasting t (a, b, c) s
  begin-IsLasting loopback (t, err e) a b c s fresh = store-IsLasting t (a, b, c) s

  pub device-IsLasting :
      (r : Sessions × Result AccountError SessionDto)
      → Grows off_device false id w.store r
      → Grows on_device true id w.store r
      → Grows unsigned false id w.store r
      → Spares id w.store r
      → times id (after_device w r).begun ≤ 1
      → IsLasting id (after_device w r)
  device-IsLasting (t, ok x) a b c s fresh = ground (arith, h, at_most)
  device-IsLasting (t, err e) a b c s fresh = store-IsLasting t (a, b, c) s

  pub keyed-IsLasting :
      (key : String) (r : Sessions × Begun)
      → Quiet id w.store r.0
      → works id r.0 ≡ works id w.store
      → IsLasting id (after_keyed key w r)
  keyed-IsLasting key (t, answered a) q s = store-IsLasting t q s
  keyed-IsLasting key (t, spawned) q s = ground (arith, store-IsLasting t q s)
  keyed-IsLasting key (t, panicked) q s = ground (arith, store-IsLasting t q s)

  pub key-IsLasting :
      (key : String) (r : Option Sessions) → Leaves id w.store r → IsLasting id (after_key key w r)
  key-IsLasting key none same = ground (arith, h)
  key-IsLasting key (some t) same = record {
    here = rw same h.here;
    there = rw same h.there;
    held = h.held;
    signed = rw same h.signed;
    working = rw same h.working;
    kept = h.kept;
  }

  pub cancel-IsLasting :
      (j : String) (r : Sessions × Result AccountError SessionDto)
      → Quiet id w.store r.0
      → works id r.0 ≡ works id w.store
      → IsLasting id (after_cancel j w r)
  cancel-IsLasting j (t, ok x) q s = ground (arith, store-IsLasting t q s)
  cancel-IsLasting j (t, err e) q s = store-IsLasting t q s

  pub device_claim-IsLasting :
      (j : String) (r : Sessions × Option (Option String))
      → Quiet id w.store r.0
      → works id r.0 ≡ works id w.store + one_if (is_some r.1 && id == j)
      → IsLasting id (after_device_claim j w r)
  device_claim-IsLasting j (t, some x) (a, b, c) s = ground (arith, h)
  device_claim-IsLasting j (t, none) q s = store-IsLasting t q (ground arith)

  pub claim-IsLasting :
      (j : String) (r : Sessions × Result AccountError (Authorization × Option String))
      → has j w.checked ≡ true
      → times id w.begun ≤ 1
      → Quiet id w.store r.0
      → works id w.store + one_if (is_ok r.1 && id == j) ≤ works id r.0
      → works id r.0
        ≤ works id w.store
          + one_if (is_ok r.1 && id == j)
          + (if id == j
              then tally on_device id w.store.sessions + tally unsigned id w.store.sessions
              else 0)
      → IsLasting id (after_claim j w r)
  claim-IsLasting j (t, ok x) there fresh (a, b, c) low high =
      ground (arith, h, times-without id j w.checked there)
  claim-IsLasting j (t, err e) there fresh (a, b, c) low high =
      ground (arith, h, times-without id j w.checked there)

  pub seen-IsLasting :
      (workflow : Workflow) (j : String) (r : Sessions × Result AccountError SessionDto)
      → times id w.begun ≤ 1
      → Quiet id w.store r.0
      → works id r.0 ≡ works id w.store
      → ((id == j) ≡ true → Finds id w.store r.1)
      → IsLasting id (after_seen workflow j w r)
  seen-IsLasting workflow j (t, err e) fresh q s found = store-IsLasting t q s
  seen-IsLasting workflow j (t, ok d) fresh q s found =
      elim (Bool-cases (is_workflow workflow d.workflow && (id == j))) [
        | inr other ↦ ground (arith, store-IsLasting t q s)
        | inl mine ↦ ground (
          arith,
          store-IsLasting t q s,
          found (ground arith),
          is_workflow-here workflow d.workflow,
        )
      ]

  pub get-IsLasting :
      (j : String) (r : Sessions × Result AccountError SessionDto)
      → has j w.tasks ≡ true
      → Quiet id w.store r.0
      → works id r.0 ≡ works id w.store
      → ((id == j) ≡ true → is_ok r.1 ≡ true)
      → IsLasting id (after_get j w r)
  get-IsLasting j (t, ok d) there q s found = store-IsLasting t q s
  get-IsLasting j (t, err e) there q s found = elim (Bool-cases (id == j)) [
    | inl mine ↦ absurd (cc (found mine))
    | inr other ↦ ground (arith, store-IsLasting t q s, times-without id j w.tasks there)
  ]

  -- The end of the task of the session itself.
  own-IsLasting :
      (result : Result AccountError String)
      → has id w.tasks ≡ true
      → times id w.begun ≤ 1
      → Quiet id w.store (finish_end id result w.store).0
      → IsLasting id (after_finish id result w (finish_end id result w.store))
  own-IsLasting result there fresh (a, b, c) =
      let busy : 1 ≤ works id w.store = omega (arith, h.working, times-has id w.tasks there) in
      let one : tally is_any id w.store.sessions ≤ 1 = omega (arith, at_most, fresh) in
      record {
        here = omega (arith, h.here, a);
        there = omega (arith, h.there, b);
        held = h.held;
        signed = omega (arith, h.signed, c);
        working = ground (
          arith,
          h.working,
          times-without id id w.tasks there,
          finish-works id w.store busy one result,
        );
        kept = found result busy one;
      }
    where
      found :
          (r : Result AccountError String)
          → 1 ≤ works id w.store
          → tally is_any id w.store.sessions ≤ 1
          → times id (after_finish id r w (finish_end id r w.store)).lost ≡ 0
      found (err e) busy one = ground (arith, h.kept)
      found (ok account) busy one =
          ground (arith, h.kept, finish-answer id w.store busy one account)

  pub finish-IsLasting :
      (j : String) (result : Result AccountError String)
      → has j w.tasks ≡ true
      → times id w.begun ≤ 1
      → Quiet id w.store (finish_end j result w.store).0
      → IsLasting id (after_finish j result w (finish_end j result w.store))
  finish-IsLasting j result there fresh (a, b, c) = elim (Bool-cases (id == j)) [
    | inr other ↦
        ground (arith, h, times-without id j w.tasks there, finish-others id j result w.store other)
    | inl mine ↦
        subst
          (λ k.
            has k w.tasks ≡ true
            → Quiet id w.store (finish_end k result w.store).0
            → IsLasting id (after_finish k result w (finish_end k result w.store)))
          (same_name id j mine) (λ t q. own-IsLasting result t fresh q) there (a, b, c)
  ]
