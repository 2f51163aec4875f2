-- ===== src/Server/Refresh/Late.antt =====
-- A refresh that is still running when accounts or settings change.
use quotio_cli.Base.{
  ℕ, ◌+◌, ◌%◌, ◌<◌, ◌≤◌, String, ◌≡◌, refl, sym, ap, Bool, true, false, List, [], ◌∷◌, Option, none,
  some, all, length, arith, Result, ok, err, ◌==◌, nat_eq, inl, inr, subst,
}
use quotio_cli.Provider.{Provider}
use quotio_cli.Accounts.Credential.{AccountError, ProviderError}
use quotio_cli.Usage.{Float, UsageReport}
use quotio_cli.Server.Answers.{ApiError, api_error}
use quotio_cli.Server.Refresh.{
  State, Ticket, invalidate, login_committed, woken, answered, refresh_end, usage_response,
  concluded, report_of,
}
use quotio_cli.Server.Refresh.History.{
  Event, invalidated, settings_read, settings_patched, IsResettled, settings_response-IsResettled,
  patch_settings-IsResettled, begun, ended, asked, step, run, end_running, logged_in, notified,
}

abbrev wrap : ℕ
wrap = 18446744073709551616

abbrev pub begins_no_refresh : {Fl : Float} → Event Fl → Bool
begins_no_refresh (begun request) = false
begins_no_refresh e = true

-- The generation `n` comes after `old`, by at least one and at most `most` changes.
abbrev IsPast : ℕ → ℕ → ℕ → Type 0
IsPast most n old = (d : ℕ) × (old < wrap) × (1 ≤ d) × (d ≤ most) × (n ≡ (old + d) % wrap)

IsPast-ne : (most n old : ℕ) → most < wrap → IsPast most n old → (old == n) ≡ false
IsPast-ne most n old few (d, small, pos, le, at) = ground arith

IsPast-next : (most n old : ℕ) → IsPast most n old → IsPast (most + 1) ((n + 1) % wrap) old
IsPast-next most n old (d, small, pos, le, at) =
    (d + 1, small, omega arith, omega arith, omega arith)

IsPast-more : (most n old : ℕ) → IsPast most n old → IsPast (most + 1) n old
IsPast-more most n old (d, small, pos, le, at) = (d, small, pos, omega arith, at)

abbrev IsOldTicket : ℕ → ℕ → Option Ticket → Type 0
IsOldTicket most n none = Unit
IsOldTicket most n (some t) = IsPast most n t.generation

ticket-map :
    (most n m later : ℕ) (o : Option Ticket)
    → ((old : ℕ) → IsPast most n old → IsPast m later old)
    → IsOldTicket most n o
    → IsOldTicket m later o
ticket-map most n m later none f h = tt
ticket-map most n m later (some t) f h = f t.generation h

module _ {Fl : Float} where
  abbrev IsOldSnapshot : ℕ → ℕ → Option (ℕ × UsageReport Fl) → Type 0
  IsOldSnapshot most n none = Unit
  IsOldSnapshot most n (some (old, report)) = IsPast most n old

  -- What is kept and what a refresh collects are of generations before, by at most `most` changes.
  record IsStale (most : ℕ) (s : State Fl) : Type 0 where
    kept : IsOldSnapshot most s.generation s.snapshot
    collected : IsOldTicket most s.generation s.running

  snapshot-map :
      (most n m later : ℕ) (o : Option (ℕ × UsageReport Fl))
      → ((old : ℕ) → IsPast most n old → IsPast m later old)
      → IsOldSnapshot most n o
      → IsOldSnapshot m later o
  snapshot-map most n m later none f h = tt
  snapshot-map most n m later (some (old, report)) f h = f old h

  more-IsStale : (most : ℕ) (s : State Fl) → IsStale most s → IsStale (most + 1) s
  more-IsStale most s h = record {
    kept =
        snapshot-map most s.generation (most + 1) s.generation s.snapshot
          (IsPast-more most s.generation) h.kept;
    collected =
        ticket-map most s.generation (most + 1) s.generation s.running
          (IsPast-more most s.generation) h.collected;
  }

  module _ (most : ℕ) (s : State Fl) (h : IsStale most s) where
    later_ticket : IsOldTicket (most + 1) ((s.generation + 1) % wrap) s.running
    later_ticket =
        ticket-map most s.generation (most + 1) _ s.running (IsPast-next most s.generation)
          h.collected

    login-IsStale : IsStale (most + 1) (login_committed s)
    unfolding login_committed
    login-IsStale = record {
      kept =
          snapshot-map most s.generation (most + 1) _ s.snapshot (IsPast-next most s.generation)
            h.kept;
      collected = later_ticket;
    }

    invalidate-IsStale : IsStale (most + 1) (invalidate s)
    unfolding invalidate
    invalidate-IsStale = record { kept = tt; collected = later_ticket }

    settings-IsStale : (new : State Fl) → IsResettled s new → IsStale (most + 1) new
    unfolding invalidate
    settings-IsStale new (inl same) = subst (IsStale (most + 1)) (sym same) (more-IsStale most s h)
    settings-IsStale new (inr (view, same)) =
        subst (IsStale (most + 1)) (sym same) (record { kept = tt; collected = later_ticket })

  -- A usage request gets an error, and at most wakes the refreshes.
  abbrev pub IsNotReady : State Fl → State Fl × Result ApiError (UsageReport Fl) → Type 0
  IsNotReady s r =
      (wake : Bool) × (code : String) × (r ≡ (record s { wake = wake }, err (api_error 503 code)))

  -- The snapshot, if there is one, is of the present generation or of one of the `most` before.
  abbrev pub IsRecent : ℕ → ℕ → Option (ℕ × UsageReport Fl) → Type 0
  IsRecent most n none = Unit
  IsRecent most n (some (old, report)) =
      (d : ℕ) × (old < wrap) × (d ≤ most) × (n ≡ (old + d) % wrap)

  -- How accounts change: by a route, which takes the snapshot, or by an OAuth login.
  abbrev pub is_change : Event Fl → Bool
  is_change invalidated = true
  is_change logged_in = true
  is_change e = false

  recent-next :
      (most n : ℕ) (o : Option (ℕ × UsageReport Fl))
      → IsRecent most n o
      → IsOldSnapshot (most + 1) ((n + 1) % wrap) o
  recent-next most n none h = tt
  recent-next most n (some (old, report)) (d, small, le, at) =
      (d + 1, small, omega arith, omega arith, omega arith)

module _ {Fl : Float} (from_str : String → Option Provider) (text_of : ProviderError → String) where
  concluded-IsStale :
      (most : ℕ) (guard : Bool) (t : Ticket) (s : State Fl) (r : Result String (UsageReport Fl))
      → most < wrap
      → IsPast most s.generation t.generation
      → IsStale most s
      → IsStale most (concluded text_of guard t s r).0
  concluded-IsStale most guard t s (err e) few old h = record { kept = h.kept; collected = tt }
  concluded-IsStale most false t s (ok report) few old h = record { kept = h.kept; collected = tt }
  concluded-IsStale most true t s (ok report) few old h =
      rw (IsPast-ne most s.generation t.generation few old)
        (record { kept = h.kept; collected = tt })

  end-IsStale :
      (most now : ℕ) (guard : Bool) (collected : Result AccountError (UsageReport Fl))
      (s : State Fl) (running : Option Ticket)
      → most < wrap
      → IsOldTicket most s.generation running
      → IsStale most s
      → IsStale most (end_running from_str text_of now guard collected s running)
  unfolding refresh_end
  end-IsStale most now guard collected s none few old h = h
  end-IsStale most now guard collected s (some t) few old h =
      concluded-IsStale most guard t s (report_of text_of now t collected) few old h

  answered-IsNotReady :
      (most now : ℕ) (provider account : Option String) (s : State Fl)
      (o : Option (ℕ × UsageReport Fl))
      → most < wrap
      → IsOldSnapshot most s.generation o
      → IsNotReady s (answered s now provider account o)
  answered-IsNotReady most now provider account s none few h = (s.wake, "not_ready", refl)
  answered-IsNotReady most now provider account s (some (old, report)) few h =
      rw (IsPast-ne most s.generation old few h) (true, "not_ready", refl)

  asked-IsNotReady :
      (most : ℕ) (guard : Bool) (now : ℕ) (provider account : Option String) (s : State Fl)
      → most < wrap
      → IsStale most s
      → IsNotReady s (usage_response guard now provider account s)
  unfolding usage_response
  asked-IsNotReady most true now provider account s few h =
      answered-IsNotReady most now provider account s s.snapshot few h.kept
  asked-IsNotReady most false now provider account s few h = (s.wake, "account_busy", refl)

  step-IsStale :
      (most : ℕ) (e : Event Fl) (s : State Fl)
      → most < wrap
      → begins_no_refresh e ≡ true
      → IsStale most s
      → IsStale (most + 1) (step from_str text_of e s)
  unfolding step woken
  step-IsStale most invalidated s few no_begin h = invalidate-IsStale most s h
  step-IsStale most logged_in s few no_begin h = login-IsStale most s h
  step-IsStale most notified s few no_begin h =
      let more = more-IsStale most s h in record { kept = more.kept; collected = more.collected }
  step-IsStale most (settings_read guard loaded) s few no_begin h =
      settings-IsStale most s h _ (settings_response-IsResettled guard loaded s)
  step-IsStale most (settings_patched guard patched) s few no_begin h =
      settings-IsStale most s h _ (patch_settings-IsResettled guard patched s)
  step-IsStale most (begun request) s few no_begin h = absurd (ground arith)
  step-IsStale most (ended now guard collected) s few no_begin h =
      more-IsStale most _ (end-IsStale most now guard collected s s.running few h.collected h)
  step-IsStale most (asked guard now provider account) s few no_begin h =
      let (wake, code, answer) = asked-IsNotReady most guard now provider account s few h in
      let more = more-IsStale most s h in
      subst (IsStale (most + 1)) (sym (ap (λ r. r.0) answer))
        (record { kept = more.kept; collected = more.collected })

  run-IsStale :
      (most : ℕ) (es : List (Event Fl)) (s : State Fl)
      → most + length es < wrap
      → all begins_no_refresh es ≡ true
      → IsStale most s
      → IsStale (most + length es) (run from_str text_of es s)
  unfolding run
  run-IsStale most [] s few no_begin h = subst (λ m. IsStale m s) (omega arith) h
  run-IsStale most (e ∷ es) s few no_begin h =
      subst (λ m. IsStale m (run from_str text_of es (step from_str text_of e s))) (omega arith)
        (run-IsStale (most + 1) es (step from_str text_of e s) (omega arith) (ground arith)
          (step-IsStale most e s (omega arith) (ground arith) h))

  began_before :
      (most : ℕ) (s : State Fl) (t : Ticket)
      → s.running ≡ some t
      → t.generation ≡ s.generation
      → s.generation < wrap
      → IsOldTicket (most + 1) ((s.generation + 1) % wrap) s.running
  began_before most s t running same small =
      rw running (1, omega arith, omega arith, omega arith, rw same refl)

  changed-IsStale :
      (most : ℕ) (e : Event Fl) (s : State Fl) (t : Ticket)
      → is_change e ≡ true
      → s.running ≡ some t
      → t.generation ≡ s.generation
      → s.generation < wrap
      → IsRecent most s.generation s.snapshot
      → IsStale (most + 1) (step from_str text_of e s)
  unfolding step invalidate login_committed
  changed-IsStale most invalidated s t change running same small recent = record {
    kept = tt;
    collected = began_before most s t running same small;
  }
  changed-IsStale most logged_in s t change running same small recent = record {
    kept = recent-next most s.generation s.snapshot recent;
    collected = began_before most s t running same small;
  }
  changed-IsStale most notified s t change running same small recent = absurd (ground arith)
  changed-IsStale most (settings_read guard r) s t change running same small recent =
      absurd (ground arith)
  changed-IsStale most (settings_patched guard r) s t change running same small recent =
      absurd (ground arith)
  changed-IsStale most (begun request) s t change running same small recent = absurd (ground arith)
  changed-IsStale most (ended now guard r) s t change running same small recent =
      absurd (ground arith)
  changed-IsStale most (asked guard now p a) s t change running same small recent =
      absurd (ground arith)

  -- Where a refresh runs that began at the present generation, and then accounts change, by a
  -- route or by an OAuth login, no history of further steps in which no other refresh begins
  -- ends in a state in which a usage request gets a report: it gets an error with the status
  -- 503, and at most wakes the refreshes. The snapshot at the start, if there is one, is of the
  -- present generation or of one of the `most` before, and `most` and the further steps together
  -- are fewer than 2^64 - 1.
  pub late_refresh :
      (s : State Fl) (t : Ticket) (most : ℕ) (change : Event Fl) (es : List (Event Fl))
      (guard : Bool) (now : ℕ) (provider account : Option String)
      → s.running ≡ some t
      → t.generation ≡ s.generation
      → s.generation < wrap
      → IsRecent most s.generation s.snapshot
      → is_change change ≡ true
      → most + 1 + length es < wrap
      → all begins_no_refresh es ≡ true
      → (let after = run from_str text_of (change ∷ es) s in
          IsNotReady after (usage_response guard now provider account after))
  unfolding run
  late_refresh s t most change es guard now provider account running same small recent changes few
        no_begin =
      asked-IsNotReady (most + 1 + length es) guard now provider account _ few (
        run-IsStale (most + 1) es (step from_str text_of change s) few no_begin
          (changed-IsStale most change s t changes running same small recent))
