-- ===== src/Accounts/Document/Tests.antt =====
-- Runs of the methods of a document on a small account list.
use quotio_cli.Base.{
  ℕ, ◌≤◌, String, ◌≡◌, ◌⊎◌, refl, Bool, true, false, List, [], ◌∷◌, none, some, arith, Result, ok,
  err, pos, String-discrete,
}
use quotio_cli.Base.Dict.{lookup}
use quotio_cli.Provider.{Provider, amp, factory, Provider-discrete}
use quotio_cli.Accounts.Credential.{
  AccountError, duplicate, Credential, api_key, factory_oauth, Account,
}
use quotio_cli.Accounts.Document.{
  Document, ledger, token_key, is_taken, has_id, add, remove, select, rename, patch,
  reserve_factory_refresh,
}
use quotio_cli.Accounts.Document
use quotio_cli.Accounts.Document.Active.{OneActive}
use quotio_cli.Accounts.Document.Ledger.{IsOthers, reserve-decides}
use quotio_cli.Accounts.Document.Consistent.{IsConsistent}
use quotio_cli.Accounts.Document.Calls.{Call, calls, are_fresh, calls-IsConsistent}

abbrev digest : List ℕ → List ℕ
digest m = m

abbrev droid : Credential
droid = factory_oauth "a" "spent" none (pos 0) false

abbrev account : String → Provider → String → Bool → Credential → Account
account id p text on c = record {
  id = id;
  provider = p;
  label = text;
  identity = id;
  active = on;
  enabled = true;
  credential = c;
}

abbrev three : Document
three = record {
  version = 5;
  accounts =
      account "1" amp "main" true (api_key "x" none none)
      ∷ account "2" factory "droid" true droid
      ∷ account "3" amp "other" false (api_key "y" none none)
      ∷ [];
  mutation_receipts = [];
  factory_refresh_owners = (token_key digest Document.factory "spent", "2") ∷ [];
  claude_refresh_owners = [];
  kiro_refresh_owners = [];
  antigravity_refresh_owners = [];
}

three-OneActive : OneActive three.accounts
three-OneActive p = ground arith

three-IsConsistent : IsConsistent three.accounts
unfolding String-discrete Provider-discrete
three-IsConsistent = record {
  ids = (refl, (refl, (refl, tt)));
  labels = (refl, (refl, (refl, tt)));
  one_active = three-OneActive;
}

abbrev history : List Call
history =
    Call.add (ok "4") factory " second " "me" droid
    ∷ Call.rename "3" " main "
    ∷ Call.patch "3" (some "third") (some true) (some false)
    ∷ Call.remove "1"
    ∷ Call.select "3"
    ∷ []

history_fresh : are_fresh digest history three ≡ true
unfolding String-discrete
history_fresh = refl

calls-IsConsistent_example : IsConsistent (calls digest history three).accounts
calls-IsConsistent_example =
    calls-IsConsistent digest history three history_fresh three-IsConsistent

abbrev reserved : Document × Result AccountError (Unit {0})
reserved = reserve_factory_refresh digest "2" droid three

reserve-decides_example :
    (IsOthers digest "2" "spent" Document.factory three × (reserved ≡ (three, err duplicate)))
    ⊎ (¬ IsOthers digest "2" "spent" Document.factory three
        × (reserved.1 ≡ ok tt)
        × (lookup (token_key digest Document.factory "spent") (ledger Document.factory reserved.0)
            ≡ some "2")
        × (reserved.0.accounts ≡ three.accounts)
        × (Document.format Document.factory ≤ reserved.0.version)
        × (three.version ≤ reserved.0.version))
reserve-decides_example = reserve-decides digest "2" "spent" Document.factory droid three refl
