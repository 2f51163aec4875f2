-- ===== src/Server/Refresh/Ready.antt =====
-- A scheduled refresh that no change interrupts.
use quotio_cli.Base.{
  ℕ, String, ◌≡◌, refl, ap, ◌∙◌, true, false, not, List, [], ◌∷◌, map, Option, none, some, any, all,
  All, arith, ok, ◌==◌, nat_eq, retain_every, ==_refl,
}
use quotio_cli.Config.{providers}
use quotio_cli.Provider.{Provider, provider_eq}
use quotio_cli.Accounts.Credential.{ProviderError}
use quotio_cli.Usage.{Float, UsageReport}
use quotio_cli.Server.Refresh.{
  ticket_of, enabled_in, published, stopped, Ticket, State, is_in, refresh_begin, refresh_end,
  usage_response, merge_refresh_report, shown, response,
}
use quotio_cli.Server.Refresh.History.{begin_next, begun, ended, step, run}

all_in :
    (ps qs : List Provider)
    → ((p : Provider) → is_in ps p ≡ true → is_in qs p ≡ true)
    → all (is_in qs) ps ≡ true
all_in [] qs h = refl
all_in (p ∷ ps) qs h = rw (h p (rw (==_refl p) refl)) (all_in ps qs (λ q there. h q (ground arith)))

none_foreign :
    (ps qs : List Provider) → all (is_in qs) ps ≡ true → any (λ p. not (is_in qs p)) ps ≡ false
none_foreign [] qs h = refl
none_foreign (p ∷ ps) qs h = ground (arith, none_foreign ps qs)

each_true : {A : Type 0} (xs : List A) → All (λ x. true ≡ true) xs
each_true [] = tt
each_true (x ∷ xs) = (refl, each_true xs)

full_merge :
    {Fl : Float} (snapshot : Option (ℕ × UsageReport Fl)) (generation : ℕ) (enabled : List Provider)
    (report : UsageReport Fl)
    → merge_refresh_report snapshot generation enabled enabled none report
      ≡ (some (generation, report), true)
unfolding merge_refresh_report
full_merge snapshot generation enabled report =
    let own = all_in enabled enabled (λ p h. h) in
    rw (none_foreign enabled enabled own, own) (ground arith)

module _ {Fl : Float} (from_str : String → Option Provider) (text_of : ProviderError → String) where
  abbrev collecting : State Fl → List Provider → State Fl
  collecting s enabled = record s {
    refreshing = true;
    running = some (ticket_of s.generation enabled enabled none false);
  }

  begin_lem :
      (s : State Fl) (enabled : List Provider)
      → s.running ≡ none
      → providers from_str s.settings.values ≡ ok enabled
      → step from_str text_of (begun none) s ≡ collecting s enabled
  unfolding step refresh_begin
  begin_lem s enabled idle known =
      ap (begin_next from_str text_of none s) idle
      ∙ (ap (λ r. (enabled_in s none r).0) known
          ∙ ground (arith, none_foreign enabled enabled (all_in enabled enabled (λ p h. h))))

  abbrev refreshed : State Fl → UsageReport Fl → State Fl
  refreshed s report = record s {
    refreshing = false;
    running = none;
    last_completed_at = some report.generated_at;
    snapshot = some (s.generation, report);
  }

  published_lem :
      (s : State Fl) (t : Ticket) (report : UsageReport Fl)
      → (t.generation == s.generation) ≡ true
      → (published text_of s t report).0 ≡ record (stopped s) {
        last_completed_at = some report.generated_at;
        snapshot =
            (merge_refresh_report s.snapshot t.generation t.selected t.enabled t.account report).0;
      }
  published_lem s t report same = rw same refl

  end_lem :
      (s : State Fl) (enabled : List Provider) (report : UsageReport Fl) (now : ℕ)
      → step from_str text_of (ended now true (ok report)) (collecting s enabled)
        ≡ refreshed s report
  unfolding step refresh_end
  end_lem s enabled report now =
      published_lem (collecting s enabled) (ticket_of s.generation enabled enabled none false)
        report (==_refl s.generation)
      ∙ ap (λ m. record (refreshed s report) { snapshot = m.0 })
          (full_merge s.snapshot s.generation enabled report)

  abbrev seen_of : ℕ → UsageReport Fl → UsageReport Fl
  seen_of later report = response later none none report

  answer_lem :
      (s : State Fl) (report : UsageReport Fl) (later : ℕ)
      → usage_response true later none none (refreshed s report)
        ≡ (refreshed s report, ok (seen_of later report))
  unfolding usage_response
  answer_lem s report later = rw (==_refl s.generation) refl

  -- Where no refresh runs and the settings name known providers, a scheduled refresh that
  -- begins, collects a report and ends without steps between them leaves a state without a
  -- running refresh in which the request of all usages gets the usages of that report, their
  -- expired reset credits left out, and its failures.
  pub refreshed-Served :
      (s : State Fl) (enabled : List Provider) (report : UsageReport Fl) (now later : ℕ)
      → s.running ≡ none
      → providers from_str s.settings.values ≡ ok enabled
      → (let after = run from_str text_of (begun none ∷ ended now true (ok report) ∷ []) s in
          (seen : UsageReport Fl) × (usage_response true later none none after ≡ (after, ok seen))
          × (seen.providers ≡ map (shown later) report.providers)
          × (seen.failures ≡ report.failures)
          × (after.refreshing ≡ false)
          × (after.running ≡ none))
  unfolding run
  refreshed-Served s enabled report now later idle known =
      let same =
        ap (step from_str text_of (ended now true (ok report))) (begin_lem s enabled idle known)
        ∙ end_lem s enabled report now in
      rw same (
        seen_of later report,
        answer_lem s report later,
        retain_every (λ u. true) (map (shown later) report.providers)
            (each_true (map (shown later) report.providers)),
        retain_every (λ f. true) report.failures (each_true report.failures),
        refl,
        refl,
      )
