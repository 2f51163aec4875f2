-- ===== src/Accounts/Service/Read/Tests.antt =====
-- A read of an account whose credential has expired.
use quotio_cli.Base.{ℕ, ◌≡◌, refl, sym, true, false, List, [], ◌∷◌, none, some, arith, All, ok, pos}
use quotio_cli.Provider.{factory}
use quotio_cli.Accounts.Credential.{AccountError, Credential, factory_oauth}
use quotio_cli.Accounts.Document.{Document}
use quotio_cli.Accounts.Vault.{Codec, replaced, is_rejected}
use quotio_cli.Accounts.Service.Durable.{IsCodec, Holds}
use quotio_cli.Accounts.Service.History.{is_refreshable}
use quotio_cli.Accounts.Service.Promises.{free, nothing_kept}
use quotio_cli.Accounts.Service.Read.{Reading, read}
use quotio_cli.Accounts.Service.Read.Fenced.{IsFenced, read-IsFenced}

abbrev direct : Codec
direct = record { Bytes = Document; size = λ d. 0; encode = some; decode = some }

abbrev digest : List ℕ → List ℕ
digest m = m

abbrev expired : Credential
expired = factory_oauth "a" "spent" none (pos 0) false

abbrev renewed : Credential
renewed = factory_oauth "b" "next" none (pos 9000) false

abbrev before : Document
before = record {
  version = 1;
  accounts =
      record {
        id = "1";
        provider = factory;
        label = "droid";
        identity = "me";
        active = true;
        enabled = true;
        credential = expired;
      }
      ∷ [];
  mutation_receipts = [];
  factory_refresh_owners = [];
  claude_refresh_owners = [];
  kiro_refresh_owners = [];
  antigravity_refresh_owners = [];
}

abbrev reading : Reading (Unit {0})
reading = record {
  id = "1";
  provider = factory;
  now = pos 100;
  quota = λ c. ok tt;
  quota_again = λ c. ok tt;
  refresh = λ c. ok renewed;
  refresh_lock = ok tt;
  env = λ n. record { attempts = free ∷ []; written = replaced };
  others = λ n. [];
}

direct-IsCodec : IsCodec direct
direct-IsCodec d b h = sym h

before-Holds : Holds direct (λ d. Unit {0}) (some before)
unfolding is_rejected quotio_cli.Accounts.Credential.origin_of
before-Holds = (before, refl, refl, ground arith, tt)

renewed_only : (c u : Credential) → reading.refresh c ≡ ok u → is_refreshable u ≡ true
renewed_only c u h = ground arith

read-IsFenced_example :
    let end =
      (read digest {C = direct} reading (record { stored = some before; refreshed = [] })).0 in
    Holds direct (λ d. Unit {0}) end.stored × All (IsFenced direct reading) end.refreshed
read-IsFenced_example =
    read-IsFenced digest direct direct-IsCodec (λ d. Unit {0}) (nothing_kept digest) reading
      (λ n. tt) renewed_only (some before) before-Holds
