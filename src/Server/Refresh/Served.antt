-- ===== src/Server/Refresh/Served.antt =====
-- What a client is served after any history.
use quotio_cli.Base.{
  ℕ, String, ◌≡◌, ◌⊎◌, refl, sym, Bool, true, false, not, List, [], ◌∷◌, map, Option, none, some,
  any, All, All-append, retain-All, arith, Result, ok, err, ◌==◌, nat_eq, ==_iff, Bool-cases,
  Option-cases, inl, inr, subst,
}
use quotio_cli.Provider.{Provider}
use quotio_cli.Accounts.Credential.{AccountError, ProviderError}
use quotio_cli.Usage.{Float, ProviderUsage, UsageReport}
use quotio_cli.Server.Refresh.History.{
  Event, invalidated, logged_in, notified, settings_read, settings_patched, IsResettled,
  settings_response-IsResettled, patch_settings-IsResettled, begun, ended, asked, end_running, step,
  run, begin-snapshot, asked-snapshot,
}
use quotio_cli.Server.Refresh.{
  response, answered, is_expired, merge_scope, published, concluded, in_scope, report_of, is_in,
  is_full, State, Ticket, invalidate, login_committed, woken, refresh_end, usage_response,
  merge_refresh_report, shown, is_asked,
}

module _ {Fl : Float} (from_str : String → Option Provider) (text_of : ProviderError → String) where
  module _ (P : ℕ → ProviderUsage Fl → Type 0) where
    abbrev Gives : {E : Type 0} → ℕ → Result E (UsageReport Fl) → Type 0
    Gives generation (ok report) = All (P generation) report.providers
    Gives generation (err e) = Unit

    abbrev TicketGives : Option Ticket → Result AccountError (UsageReport Fl) → Type 0
    TicketGives none collected = Unit
    TicketGives (some t) collected = Gives t.generation collected

    abbrev EventGives : Event Fl → State Fl → Type 0
    EventGives (ended now guard collected) s = TicketGives s.running collected
    EventGives e s = Unit

    -- What a refresh collects has `P` of the generation at which it began.
    abbrev pub IsCollected : List (Event Fl) → State Fl → Type 0
    IsCollected [] s = Unit
    IsCollected (e ∷ es) s = EventGives e s × IsCollected es (step from_str text_of e s)

    abbrev HasAll : Option (ℕ × UsageReport Fl) → Type 0
    HasAll none = Unit
    HasAll (some (generation, report)) = All (P generation) report.providers

    scope-HasAll :
        (generation : ℕ) (selected : List Provider) (account : Option String)
        (report : UsageReport Fl) (snapshot : Option (ℕ × UsageReport Fl))
        → HasAll snapshot
        → All (P generation) report.providers
        → HasAll (merge_scope generation selected account report snapshot).0
    scope-HasAll generation selected account report none old new = tt
    scope-HasAll generation selected account report (some (at, previous)) old new =
        elim (Bool-cases (at == generation)) [
          | inr other ↦ rw other old
          | inl same ↦ rw same (
              All-append (P at) _ report.providers
                (retain-All (λ u. not (in_scope selected account u)) (P at) previous.providers old)
                (subst (λ g. All (P g) report.providers) (sym ((==_iff at generation).0 same)) new))
        ]

    merge-HasAll :
        (snapshot : Option (ℕ × UsageReport Fl)) (generation : ℕ) (selected enabled : List Provider)
        (account : Option String) (report : UsageReport Fl)
        → HasAll snapshot
        → All (P generation) report.providers
        → HasAll (merge_refresh_report snapshot generation selected enabled account report).0
    unfolding merge_refresh_report
    merge-HasAll snapshot generation selected enabled account report old new =
        elim (Bool-cases (any (λ p. not (is_in enabled p)) selected)) [
          | inl foreign_one ↦ rw foreign_one old
          | inr own ↦ elim (Bool-cases (is_full selected enabled account)) [
            | inl full ↦ rw (own, full) new
            | inr partial ↦
                rw (own, partial) (scope-HasAll generation selected account report snapshot old new)
          ]
        ]

    published-HasAll :
        (s : State Fl) (t : Ticket) (report : UsageReport Fl)
        → HasAll s.snapshot
        → All (P t.generation) report.providers
        → HasAll (published text_of s t report).0.snapshot
    published-HasAll s t report h new = elim (Bool-cases (t.generation == s.generation)) [
      | inr other ↦ rw other h
      | inl same ↦
          rw same (merge-HasAll s.snapshot t.generation t.selected t.enabled t.account report h new)
    ]

    concluded-HasAll :
        (guard : Bool) (t : Ticket) (s : State Fl) (r : Result String (UsageReport Fl))
        → HasAll s.snapshot
        → Gives t.generation r
        → HasAll (concluded text_of guard t s r).0.snapshot
    concluded-HasAll guard t s (err e) h given = h
    concluded-HasAll true t s (ok report) h given = published-HasAll s t report h given
    concluded-HasAll false t s (ok report) h given = h

    report-Gives :
        (now : ℕ) (t : Ticket) (collected : Result AccountError (UsageReport Fl))
        → Gives t.generation collected
        → Gives t.generation (report_of text_of now t collected)
    report-Gives now t (ok report) given = given
    report-Gives now t (err e) given = elim (Option-cases t.account) [
      | inl all_accounts ↦ rw all_accounts tt
      | inr (a, one_account) ↦ rw one_account tt
    ]

    end-HasAll :
        (now : ℕ) (guard : Bool) (collected : Result AccountError (UsageReport Fl)) (s : State Fl)
        (running : Option Ticket)
        → TicketGives running collected
        → HasAll s.snapshot
        → HasAll (end_running from_str text_of now guard collected s running).snapshot
    unfolding refresh_end
    end-HasAll now guard collected s none given h = h
    end-HasAll now guard collected s (some t) given h =
        concluded-HasAll guard t s (report_of text_of now t collected) h
          (report-Gives now t collected given)

    resettled-HasAll :
        (s new : State Fl) → HasAll s.snapshot → IsResettled s new → HasAll new.snapshot
    unfolding invalidate
    resettled-HasAll s new h (inl same) = subst (λ t. HasAll t.snapshot) (sym same) h
    resettled-HasAll s new h (inr (view, same)) = subst (λ t. HasAll t.snapshot) (sym same) tt

    step-HasAll :
        (e : Event Fl) (s : State Fl)
        → EventGives e s
        → HasAll s.snapshot
        → HasAll (step from_str text_of e s).snapshot
    unfolding step invalidate login_committed woken
    step-HasAll invalidated s given h = tt
    step-HasAll logged_in s given h = h
    step-HasAll notified s given h = h
    step-HasAll (settings_read guard loaded) s given h =
        resettled-HasAll s _ h (settings_response-IsResettled guard loaded s)
    step-HasAll (settings_patched guard patched) s given h =
        resettled-HasAll s _ h (patch_settings-IsResettled guard patched s)
    step-HasAll (begun request) s given h =
        subst HasAll (sym (begin-snapshot from_str text_of request s s.running)) h
    step-HasAll (ended now guard collected) s given h =
        end-HasAll now guard collected s s.running given h
    step-HasAll (asked guard now provider account) s given h =
        subst HasAll (sym (asked-snapshot from_str text_of guard now provider account s)) h

    run-HasAll :
        (es : List (Event Fl)) (s : State Fl)
        → IsCollected es s
        → HasAll s.snapshot
        → HasAll (run from_str text_of es s).snapshot
    unfolding run
    run-HasAll [] s given h = h
    run-HasAll (e ∷ es) s (given, later) h =
        run-HasAll es (step from_str text_of e s) later (step-HasAll e s given h)

    -- What a client sees of a usage that has `P`: the usage, or the usage without its reset credits.
    abbrev pub IsShown : ℕ → ProviderUsage Fl → Type 0
    IsShown generation seen =
        (u : ProviderUsage Fl) × P generation u
        × ((seen ≡ u) ⊎ (seen ≡ record u { reset_credits = none }))

    shown-IsShown :
        (generation now : ℕ) (us : List (ProviderUsage Fl))
        → All (P generation) us
        → All (IsShown generation) (map (shown now) us)
    shown-IsShown generation now [] h = tt
    shown-IsShown generation now (u ∷ us) (p, ps) = (
      (
        u,
        p,
        elim (Bool-cases (is_expired now u.reset_credits)) [
          | inl old ↦ inr (rw old refl)
          | inr new ↦ inl (rw new refl)
        ],
      ),
      shown-IsShown generation now us ps,
    )

    answered-IsShown :
        (s : State Fl) (now : ℕ) (provider account : Option String) (report : UsageReport Fl)
        (snapshot : Option (ℕ × UsageReport Fl))
        → HasAll snapshot
        → (answered s now provider account snapshot).1 ≡ ok report
        → All (IsShown s.generation) report.providers
    answered-IsShown s now provider account report none h answer = absurd (ground arith)
    answered-IsShown s now provider account report (some (at, all_usages)) h answer =
        elim (Bool-cases (at == s.generation)) [
          | inr old ↦ absurd (ground arith)
          | inl same ↦
              let shown_report : response now provider account all_usages ≡ report = ground arith in
              subst (λ r. All (IsShown s.generation) r.providers) shown_report
                (retain-All (λ u. is_asked provider account u.provider u.account_ref)
                  (IsShown s.generation) (map (shown now) all_usages.providers)
                  (shown-IsShown s.generation now all_usages.providers (
                    subst (λ g. All (P g) all_usages.providers) ((==_iff at s.generation).0 same)
                      h)))
        ]

    response-IsShown :
        (s : State Fl) (guard : Bool) (now : ℕ) (provider account : Option String)
        (report : UsageReport Fl)
        → HasAll s.snapshot
        → (usage_response guard now provider account s).1 ≡ ok report
        → All (IsShown s.generation) report.providers
    unfolding usage_response
    response-IsShown s guard now provider account report h answer = elim (Bool-cases guard) [
      | inr late ↦ absurd (ground arith)
      | inl free ↦ answered-IsShown s now provider account report s.snapshot h (rw free at answer)
    ]

    -- Let a history of invalidations, OAuth logins, settings requests, refreshes, whose end may
    -- come after other steps, and usage requests start without a snapshot, and let `P g u` hold
    -- of each usage `u` that a refresh collects which began at the generation `g`. Then in every
    -- report that a client gets at its end, each usage is one that has `P` of the generation of
    -- that moment, with or without its reset credits.
    pub served-IsShown :
        (s : State Fl) (es : List (Event Fl)) (guard : Bool) (now : ℕ)
        (provider account : Option String) (report : UsageReport Fl)
        → s.snapshot ≡ none
        → IsCollected es s
        → (usage_response guard now provider account (run from_str text_of es s)).1 ≡ ok report
        → All (IsShown (run from_str text_of es s).generation) report.providers
    served-IsShown s es guard now provider account report fresh given answer =
        response-IsShown (run from_str text_of es s) guard now provider account report
          (run-HasAll es s given (subst HasAll (sym fresh) tt)) answer
