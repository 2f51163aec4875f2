-- ===== src/Cache/Tests.antt =====
-- A lookup whose fetch fails, one that fetches, and the report of both.
use quotio_cli.Base.{
  ℕ, ◌<◌, ◌%◌, String, ◌≡◌, ◌⊎◌, refl, ap, ◌∙◌, inl, inr, Bool-cases, Bool, true, false, not, List,
  [], ◌∷◌, Option, none, some, All, arith, ok, err, ◌==◌, string_eq, byte_len, String-discrete,
}
use quotio_cli.Base.Dict.{Dict, lookup}
use quotio_cli.Accounts.Credential.{ProviderError, rate_limited}
use quotio_cli.Usage.{ProviderUsage, AccountRef, ref_id}
use quotio_cli.Usage.Fetch.{finished, outcome}
use quotio_cli.Usage.Samples.{whole, window_eq, usage, ref}
use quotio_cli.Cache.{Adapter, Env, entry_key, or_empty, key_of, is_served, one, stale, fetched}
use quotio_cli.Cache.Identity.{parts, entry_key_injective}
use quotio_cli.Fingerprint.Injective.{IsSized}
use quotio_cli.Cache.Lookup.{IsSnapshot, IsServed, one-IsOwned, one-serves}
use quotio_cli.Cache.Fallback.{IsServedNow, IsFailed, one-falls_back}

-- A digest of bytes that forgets nothing of them.
digest : List ℕ → List ℕ
digest [] = []
digest (b ∷ bs) = (b % 256) ∷ digest bs

digest_octets : (m : List ℕ) → All (λ b. b < 256) (digest m)
unfolding digest
digest_octets [] = tt
digest_octets (b ∷ bs) = (omega arith, digest_octets bs)

abbrev text_of : ProviderError → String
text_of e = "provider failure"

abbrev adapter : Adapter whole
adapter = record {
  task = record {
    id = "codex";
    account_ref = some (ref "1");
    idempotent = false;
    fetch = λ n. err rate_limited;
    ending = finished;
  };
  cacheable = λ u. true;
}

abbrev env : Env
env = record {
  prepared = some "me";
  readable = true;
  recheck = some "me";
  before_deadline = true;
  now = 5;
  served_at = 5;
  collected_at = 6;
  last_check = some "me";
  written = true;
}

abbrev saved : ProviderUsage whole
saved = usage "codex" "1" []

abbrev entries : Dict (ProviderUsage whole)
entries = (key_of digest adapter "me", saved) ∷ []

sized : IsSized (parts "codex" (some (ref "1")) "me")
unfolding byte_len
sized = (omega arith, (omega arith, (omega arith, (omega arith, tt))))

abbrev codex_name : String
codex_name = "codex"

abbrev login : String
login = "me"

entry_key_injective_example :
    (codex_name ≡ codex_name)
    × (or_empty (ref_id (some (ref "1"))) ≡ or_empty (ref_id (some (ref "1"))))
    × (login ≡ login)
entry_key_injective_example =
    entry_key_injective digest "codex" "codex" (some (ref "1")) (some (ref "1")) "me" "me"
      digest_octets (λ same. refl) sized sized refl

trusted : IsSnapshot digest env adapter entries "me" saved
unfolding lookup String-discrete entry_key quotio_cli.Fingerprint.fingerprint digest
    quotio_cli.Base.Option-discrete quotio_cli.Cache.valid quotio_cli.Usage.is_valid
trusted = (refl, refl, refl, refl)

failed : outcome adapter.task ≡ err rate_limited
unfolding outcome quotio_cli.Usage.Fetch.work quotio_cli.Usage.Fetch.attempts
failed = refl

one-falls_back_example :
    (let (kept, report) = one digest 3 [] window_eq text_of env adapter false entries in
      (kept ≡ entries)
      × (IsServedNow digest 3 [] window_eq text_of env adapter false entries report
          ⊎ IsFailed digest 3 [] window_eq text_of env adapter entries rate_limited report))
one-falls_back_example =
    one-falls_back digest 3 [] window_eq text_of env adapter false entries rate_limited failed

one-serves_example :
    (let us = (one digest 3 [] window_eq text_of env adapter false entries).1.providers in
      (us ≡ (fetched [] window_eq text_of env adapter).providers)
      ⊎ ((identity : String) × (old : ProviderUsage whole) × IsSnapshot digest env adapter entries
            identity old
          × IsServed digest 3 [] window_eq text_of env adapter false identity old us))
one-serves_example = one-serves digest 3 [] window_eq text_of env adapter false entries

abbrev IsOfCodex : String → ProviderUsage whole → Type 0
IsOfCodex k u = u.provider ≡ "codex"

nothing_collected : (fetched [] window_eq text_of env adapter).providers ≡ []
unfolding fetched quotio_cli.Usage.Fetch.collect quotio_cli.Usage.Fetch.classify
    quotio_cli.Usage.Fetch.sort quotio_cli.Usage.Fetch.insert_at
    quotio_cli.Usage.Fetch.reconcile_accounts quotio_cli.Usage.include_diagnostics
    quotio_cli.Usage.tell_usages
nothing_collected = rw failed refl

provider_of : Option (ProviderUsage whole) → String
provider_of none = ""
provider_of (some u) = u.provider

entries_own :
    (k : String) (u : ProviderUsage whole) → lookup k entries ≡ some u → u.provider ≡ "codex"
unfolding lookup provider_of
entries_own k u h = elim (Bool-cases (k == key_of digest adapter "me")) [
  | inl same ↦ ground (arith, ap provider_of (rw same at h))
  | inr other ↦ absurd (ground arith)
]

still_there :
    lookup
      (key_of digest adapter "me")
      (one digest 3 [] window_eq text_of env adapter false entries).0
    ≡ some saved
unfolding quotio_cli.Cache.fresh
still_there =
    ap (lookup (key_of digest adapter "me"))
      (one-falls_back digest 3 [] window_eq text_of env adapter false entries rate_limited failed).0
    ∙ trusted.2

one-IsOwned_example : saved.provider ≡ "codex"
one-IsOwned_example =
    one-IsOwned digest 3 [] window_eq text_of IsOfCodex env adapter false entries
      (λ identity prepared last. rw nothing_collected tt) entries_own (key_of digest adapter "me")
      saved still_there
