-- ===== src/Cache/Identity.antt =====
-- src/cache.rs: the identity of a login that comes from the environment, and the names of the entries.
-- `Provider::from_str`, the credentials and the JSON of `serde_json` are arguments.
use quotio_cli.Base.{
  ℕ, ◌<◌, String, ◌≡◌, List, [], ◌∷◌, map, Option, none, some, All, arith, if◌then◌else◌, ◌==◌,
  string_eq, is_empty, trim,
}
use mathlib.Core.Option
use quotio_cli.Fingerprint.{fingerprint, message}
use quotio_cli.Fingerprint.Injective.{fingerprint_injective, IsSized}
use quotio_cli.Provider.{Provider, Definition, definition, api_key_name, key_api, region_key}
use quotio_cli.Usage.{AccountRef, ref_id}
use quotio_cli.Cache.{entry_key, or_empty}

abbrev to_list {ℓ} : {A : Type ℓ} → Option A → List A
to_list none = []
to_list (some a) = a ∷ []

module _ (sha256 : List ℕ → List ℕ) (definitions : List Definition)
    (from_str : String → Option Provider) (encode : List (Option String) → Option String) where
  abbrev more_names : String → Provider → List String
  more_names id provider =
      if id == "amp"
      then "AMP_URL" ∷ []
      else if id == "factory"
      then "FACTORY_REGION" ∷ "FACTORY_ORG_ID" ∷ []
      else to_list (Option.bind (key_api provider) region_key)

  -- The names of the variables that a login consists of, the key first.
  unfoldable pub variables : String → Provider → Option (String × List String)
  variables id provider = elim (definition definitions provider) [
    | some d ↦ some (d.key_env, map (λ s. s.env) d.settings)
    | none ↦ Option.map (λ name. (name, more_names id provider)) (api_key_name definitions provider)
  ]

  abbrev digest_of : String → Option String → Option String
  digest_of id encoded = Option.map (λ text. fingerprint sha256 (id ∷ text ∷ [])) encoded

  abbrev identity_of :
      (String → Option String) → String → Option (String × List String) → Option String
  identity_of get id none = none
  identity_of get id (some (first, rest)) = elim (get first) [
    | none ↦ none
    | some key ↦
        if is_empty (trim key) then none else digest_of id (encode (map get (first ∷ rest)))
  ]

  abbrev identity_for : (String → Option String) → String → Option Provider → Option String
  identity_for get id none = none
  identity_for get id (some provider) =
      if id == "mock" then some "mock-v1" else identity_of get id (variables id provider)

  unfoldable pub environment_identity : (String → Option String) → String → Option String
  environment_identity get id = identity_for get id (from_str id)

-- The parts of the name of an entry.
abbrev pub parts : String → Option AccountRef → String → List String
parts provider account_ref identity =
    "usage-v1" ∷ provider ∷ or_empty (ref_id account_ref) ∷ identity ∷ []

cons_same : (s t : String) (ss ts : List String) → s ∷ ss ≡ t ∷ ts → (s ≡ t) × (ss ≡ ts)
cons_same s t ss ts h = ground arith

-- Where SHA-256 gives bytes and does not send the two messages to one digest, and no part has
-- 2^64 bytes, two lookups with the same entry have the same provider, the same account id (none
-- counting as the empty id) and the same identity.
pub entry_key_injective :
    (sha256 : List ℕ → List ℕ) (p q : String) (r s : Option AccountRef) (i j : String)
    → ((m : List ℕ) → All (λ b. b < 256) (sha256 m))
    → (sha256 (message (parts p r i)) ≡ sha256 (message (parts q s j))
        → message (parts p r i) ≡ message (parts q s j))
    → IsSized (parts p r i)
    → IsSized (parts q s j)
    → entry_key sha256 p r i ≡ entry_key sha256 q s j
    → (p ≡ q) × (or_empty (ref_id r) ≡ or_empty (ref_id s)) × (i ≡ j)
unfolding entry_key
entry_key_injective sha256 p q r s i j octets free small small' h =
    let same = fingerprint_injective sha256 _ _ octets free small small' h in
    let (tag, provider_on) = cons_same _ _ _ _ same in
    let (provider, account_on) = cons_same _ _ _ _ provider_on in
    let (account, identity_on) = cons_same _ _ _ _ account_on in
    (provider, account, (cons_same _ _ _ _ identity_on).0)
