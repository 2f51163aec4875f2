-- ===== src/Accounts/Vault/Tests.antt =====
-- The format of a small document.
use quotio_cli.Base.{◌≡◌, true, false, [], ◌∷◌, none, arith, pos}
use quotio_cli.Provider.{factory}
use quotio_cli.Accounts.Credential.{factory_oauth, origin_of}
use quotio_cli.Accounts.Document.{Document}
use quotio_cli.Accounts.Vault.{is_rejected, upgraded}
use quotio_cli.Accounts.Vault.Format.{IsFormatted, upgraded-accepted}

-- A document of an early format that has a ledger of a later one.
abbrev early : Document
early = record {
  version = 1;
  accounts =
      record {
        id = "1";
        provider = factory;
        label = "droid";
        identity = "me";
        active = true;
        enabled = true;
        credential = factory_oauth "a" "spent" none (pos 0) false;
      }
      ∷ [];
  mutation_receipts = [];
  factory_refresh_owners = ("spent", "1") ∷ [];
  claude_refresh_owners = [];
  kiro_refresh_owners = ("other", "2") ∷ [];
  antigravity_refresh_owners = [];
}

early-IsFormatted : IsFormatted early
unfolding origin_of
early-IsFormatted = record {
  low = omega arith;
  high = omega arith;
  fits = ((ground arith, λ off. ground arith), tt);
  receipts = λ e. ground arith;
  bounded = omega arith;
}

upgraded-accepted_example : is_rejected (upgraded early) ≡ false
upgraded-accepted_example = upgraded-accepted early early-IsFormatted
