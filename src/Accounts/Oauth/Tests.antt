-- ===== src/Accounts/Oauth/Tests.antt =====
-- One login by a browser, under a retry key, that another request tries to call off.
use quotio_cli.Base.{
  ℕ, ◌+◌, ◌≤◌, ◌<◌, String, ◌≡◌, ◌⊎◌, refl, Bool, true, false, List, [], ◌∷◌, Option, none, some,
  length, Result, ok, err, pos, arith, checked_add, leb_ℤ,
}
use quotio_cli.Provider.{codex}
use quotio_cli.Accounts.Credential.{Credential}
use quotio_cli.Accounts.Oauth.{
  relay, browser_callback, Authorization, SessionDto, completed, seconds,
}
use quotio_cli.Accounts.Oauth.Manager.{finish_end}
use quotio_cli.Accounts.Oauth.Tally.{tally, in_processing}
use quotio_cli.Accounts.Oauth.History.{
  empty, Event, began, keyed, seen, called_off, claimed, finishing, finished, times, has, run,
}
use quotio_cli.Accounts.Oauth.Decided.{run-decided_once}
use quotio_cli.Accounts.Oauth.Completed.{run-completes}
use quotio_cli.Accounts.Oauth.Keys.{running}
use quotio_cli.Accounts.Oauth.Calm.{run-calm}
use quotio_cli.Accounts.Oauth.Codes.{pending}
use quotio_cli.Accounts.Oauth.Polling.{Net, answered, Outcome, poll_loop, poll_loop-ends}
use quotio_cli.Accounts.Oauth.Tokens.{Claims, Tokens, credential, IsRenewed, credential-IsRenewed}

abbrev authorization : Authorization
authorization = record { state = "s"; verifier = "v"; nonce = "n"; url = "u" }

abbrev claiming : List Event
claiming =
    keyed 1 codex none relay "k"
    ∷ began 2 2 (pos 100) (ok tt) (ok authorization) (ok "1") codex relay none
    ∷ seen 3 3 browser_callback "1"
    ∷ claimed 4 "1"
    ∷ called_off 5 "1"
    ∷ []

abbrev whole : List Event
whole =
    keyed 1 codex none relay "k"
    ∷ began 2 2 (pos 100) (ok tt) (ok authorization) (ok "1") codex relay none
    ∷ seen 3 3 browser_callback "1"
    ∷ claimed 4 "1"
    ∷ called_off 5 "1"
    ∷ finishing 6 6 "1"
    ∷ finished "1" (ok "a")
    ∷ []

run-decided_once_example :
    (times "1" (run whole empty).added + times "1" (run whole empty).cancels
      ≤ times "1" (run whole empty).begun)
    × (length (run whole empty).store.sessions ≤ 128)
run-decided_once_example = run-decided_once "1" whole

run-calm_example :
    ((run whole empty).panics ≡ 0)
    × (times "k" (run whole empty).keys ≤ 1)
    × (times "k" (run whole empty).keys ≡ running "k" (run whole empty).store.begins)
    × (length (run whole empty).store.begins ≤ 128)
run-calm_example = run-calm "k" whole

added_lem : (run whole empty).added ≡ "1" ∷ []
unfolding run quotio_cli.Accounts.Oauth.Manager.cancel quotio_cli.Base.Dict.lookup
    quotio_cli.Accounts.Oauth.prune quotio_cli.Accounts.Oauth.Manager.get
    quotio_cli.Accounts.Oauth.Begin.plan quotio_cli.Accounts.Oauth.Begin.begin_for checked_add
    quotio_cli.Base.◌+ℤ◌ quotio_cli.Accounts.Oauth.Begin.begin_keyed quotio_cli.Base.Dict.insert
    quotio_cli.Base.String-discrete quotio_cli.Accounts.Oauth.dto
    quotio_cli.Accounts.Oauth.Manager.claim quotio_cli.Base.Dict.update
added_lem = refl

begun_lem : (run claiming empty).begun ≡ "1" ∷ []
unfolding run quotio_cli.Accounts.Oauth.Manager.cancel quotio_cli.Base.Dict.lookup
    quotio_cli.Accounts.Oauth.prune quotio_cli.Accounts.Oauth.Manager.get
    quotio_cli.Accounts.Oauth.Begin.plan quotio_cli.Accounts.Oauth.Begin.begin_for checked_add
    quotio_cli.Base.◌+ℤ◌ quotio_cli.Accounts.Oauth.Begin.begin_keyed quotio_cli.Base.Dict.insert
    quotio_cli.Base.String-discrete quotio_cli.Accounts.Oauth.dto
    quotio_cli.Accounts.Oauth.Manager.claim quotio_cli.Base.Dict.update
begun_lem = refl

waits : has "1" (run claiming empty).tasks ≡ true
unfolding run quotio_cli.Accounts.Oauth.Manager.cancel quotio_cli.Base.Dict.lookup
    quotio_cli.Accounts.Oauth.prune quotio_cli.Accounts.Oauth.Manager.get
    quotio_cli.Accounts.Oauth.Begin.plan quotio_cli.Accounts.Oauth.Begin.begin_for checked_add
    quotio_cli.Base.◌+ℤ◌ quotio_cli.Accounts.Oauth.Begin.begin_keyed quotio_cli.Base.Dict.insert
    quotio_cli.Base.String-discrete quotio_cli.Accounts.Oauth.dto
    quotio_cli.Accounts.Oauth.Manager.claim quotio_cli.Base.Dict.update
waits = refl

begun_once : times "1" (run claiming empty).begun ≤ 1
begun_once = rw begun_lem (ground arith)

run-completes_example :
    (tally in_processing "1" (run claiming empty).store.sessions
      ≡ times "1" (run claiming empty).tasks)
    × (times "1" (run claiming empty).lost ≡ 0)
    × ((has "1" (run claiming empty).tasks ≡ false)
        ⊎ ((d : SessionDto) × ((finish_end "1" (ok "a") (run claiming empty).store).1 ≡ ok d)
            × (d.status ≡ completed)
            × (d.account_id ≡ some "a")))
run-completes_example = run-completes "1" "a" claiming begun_once

-- A token endpoint that is always pending.
abbrev net : Net
net n = (answered pending, 10)

poll_loop-ends_example : (o : Outcome) × (poll_loop 4 net 5 (seconds 15) 0 ≡ some o)
poll_loop-ends_example =
    poll_loop-ends 4 net 5 (seconds 15) 0 (omega arith) (omega arith) (omega arith)

abbrev claims : String → Option Claims
claims id = some (record {
  audiences = "app_EMoamEEZ73f0CkXaXp7hrann" ∷ [];
  issuer = some "https://auth.openai.com";
  nonce = none;
  exp = none;
  email = some "me@example.com";
  account_id = some "acc";
})

abbrev tokens : Tokens
tokens = record { access_token = "new"; refresh_token = none; id_token = none; expires_in = pos 60 }

abbrev renewed : Credential
renewed = Credential.codex_oauth "new" "r" "i" "acc" "me@example.com" (pos 160)

renewed_lem :
    credential claims tokens none
      (some (Credential.codex_oauth "old" "r" "i" "acc" "me@example.com" (pos 90)))
      (pos 100)
    ≡ ok renewed
unfolding credential quotio_cli.Base.Option-discrete quotio_cli.Base.String-discrete checked_add
    quotio_cli.Base.◌+ℤ◌
renewed_lem = refl

credential-IsRenewed_example :
    IsRenewed "acc" "me@example.com" (checked_add (pos 100) (pos 60)) renewed
    × (leb_ℤ (pos 60) (pos 0) ≡ false)
credential-IsRenewed_example =
    credential-IsRenewed claims tokens none "old" "r" "i" "acc" "me@example.com" (pos 90) (pos 100)
      renewed renewed_lem
