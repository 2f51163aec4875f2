-- ===== src/Server/Security/Guarded.antt =====
-- What the guard of the server lets pass.
use quotio_cli.Base.{
  ◌≤◌, String, ◌≡◌, ◌≢◌, ◌⊎◌, ap, subst, refl, any, any_found, any_of_mem, Memᴰ, ==_iff,
  strip_prefix, eq_ignore_ascii_case, ◌↔◌, Bool, true, false, not, ◌||◌, List, [], ◌∷◌, Option,
  none, some, arith, Result, ok, err, ◌==◌, string_eq, Option-cases, Bool-cases, inl, inr, byte_len,
  bytes, append,
}
use quotio_cli.Server.Security.{
  Url, Hmac, Request, Policy, new_policy, one, only, bearer, authorized, allowed_origin,
  is_allowed_host, is_read, has_values, is_some, guard, forwarded, key_for, policy_of, hosts_of,
  origins_of,
}

module _ (H : Hmac) where
  open H use {Key, key_of, sign, verify}

  passes_tests :
      (policy : Policy H) (request : Request) (free : Bool)
      → (guard H policy request free ≡ forwarded) ↔ (
          (is_allowed_host H policy request ≡ true)
          × ((not (has_values H (request.get_all "origin"))
                || is_some (allowed_origin H policy request))
              ≡ true)
          × ((request.method == "OPTIONS") ≡ false)
          × (authorized H request policy.token ≡ true)
          × ((is_read H request.method || policy.manage) ≡ true)
          × (request.query ≡ none)
          × (free ≡ true))
  unfolding guard
  passes_tests policy request free = (λ h. ground arith, λ h. ground arith)

  -- The single value of a header is a text.
  abbrev pub HasOne : Request → String → String → Type 0
  HasOne request key v = request.get_all key ≡ some v ∷ []

  -- One `host` header, equal but for the case of letters to an allowed host.
  abbrev pub IsHosted : Policy H → Request → Type 0
  IsHosted policy request =
      (v : String) × (h : String) × HasOne request "host" v
      × Memᴰ h policy.hosts
      × (eq_ignore_ascii_case h v ≡ true)

  -- No `origin` header, or one that is an allowed origin.
  abbrev pub IsOfOrigin : Policy H → Request → Type 0
  IsOfOrigin policy request =
      (request.get_all "origin" ≡ [])
      ⊎ ((o : String) × HasOne request "origin" o × Memᴰ o policy.origins)

  -- The policy has no token, or one `authorization` header has a bearer token that it accepts.
  abbrev pub IsAuthorized : Option Key → Request → Type 0
  IsAuthorized secret request =
      (secret ≡ none)
      ⊎ ((key : Key) × (v : String) × (token : String) × (secret ≡ some key)
          × HasOne request "authorization" v
          × (strip_prefix "Bearer " v ≡ some token)
          × (32 ≤ byte_len token)
          × (byte_len token ≤ 4096)
          × (verify key (sign (key_of (bytes token))) ≡ true))

  abbrev pub IsPassed : Policy H → Request → Type 0
  IsPassed policy request =
      IsHosted policy request
      × IsOfOrigin policy request
      × (request.method ≢ "OPTIONS")
      × IsAuthorized policy.token request
      × ((request.method ≡ "GET") ⊎ (request.method ≡ "HEAD") ⊎ (policy.manage ≡ true))
      × (request.query ≡ none)

  only-some : (vs : List (Option String)) (v : String) → only H vs ≡ some v → vs ≡ some v ∷ []
  only-some [] v h = absurd (ground arith)
  only-some (w ∷ []) v h = ap (λ x. x ∷ []) h
  only-some (w ∷ x ∷ xs) v h = absurd (ground arith)

  one-some : (r : Request) (key v : String) → HasOne r key v → one H r key ≡ some v
  one-some r key v h = ap (only H) h

  host-to :
      (policy : Policy H) (r : Request) → is_allowed_host H policy r ≡ true → IsHosted policy r
  host-to policy r h = elim (Option-cases (one H r "host")) [
    | inl missing ↦ absurd (ground (arith, rw missing at h))
    | inr (v, there) ↦
        let (a, listed, same) =
          any_found (λ a. eq_ignore_ascii_case a v) policy.hosts (rw there at h) in
        (v, a, only-some (r.get_all "host") v there, listed, same)
  ]

  host-of :
      (policy : Policy H) (r : Request) → IsHosted policy r → is_allowed_host H policy r ≡ true
  host-of policy r (v, a, there, listed, same) =
      rw there (any_of_mem (λ a. eq_ignore_ascii_case a v) policy.hosts a listed same)

  abbrev is_from : Policy H → Request → Bool
  is_from policy r = not (has_values H (r.get_all "origin")) || is_some (allowed_origin H policy r)

  origin-to : (policy : Policy H) (r : Request) → is_from policy r ≡ true → IsOfOrigin policy r
  origin-to policy r h = elim (Option-cases (one H r "origin")) [
    | inl missing ↦ inl (no_values (r.get_all "origin") (ground (arith, rw missing at h)))
    | inr (o, there) ↦ elim (Bool-cases (any (λ p. p == o) policy.origins)) [
      | inl fine ↦
          let (a, listed, same) = any_found (λ p. p == o) policy.origins fine in
          inr (
            o,
            only-some (r.get_all "origin") o there,
            subst (λ x. Memᴰ x policy.origins) ((==_iff a o).0 same) listed,
          )
      | inr bad ↦ inl (no_values (r.get_all "origin") (ground (arith, rw (there, bad) at h)))
    ]
  ]
    where
      no_values : (vs : List (Option String)) → not (has_values H vs) ≡ true → vs ≡ []
      no_values [] e = refl
      no_values (v ∷ vs) e = absurd (ground arith)

  origin-of : (policy : Policy H) (r : Request) → IsOfOrigin policy r → is_from policy r ≡ true
  origin-of policy r (inl empty) = rw empty refl
  origin-of policy r (inr (o, there, listed)) =
      rw (there, any_of_mem (λ p. p == o) policy.origins o listed ((==_iff o o).1 refl)) refl

  policy_of-token :
      (manage : Bool) (local : List String) (t : Result String (Option Key))
      (hosts origins : Result String (List String)) (policy : Policy H)
      → policy_of H manage local t hosts origins ≡ ok policy
      → t ≡ ok policy.token
  policy_of-token manage local (err e) hosts origins policy h = ground arith
  policy_of-token manage local (ok t) (err e) origins policy h = ground arith
  policy_of-token manage local (ok t) (ok hs) (err e) policy h = ground arith
  policy_of-token manage local (ok t) (ok hs) (ok os) policy h = ground arith

  key_for-some :
      (token : Option String) (t : Option Key)
      → key_for H token ≡ ok t
      → is_some token ≡ true
      → is_some t ≡ true
  key_for-some none t h e = ground arith
  key_for-some (some v) t h e = ground arith

  new_policy-token :
      (parse : String → Option Url) (address port : String) (manage : Bool)
      (public_url : Option String) (origins : List String) (token : Option String)
      (policy : Policy H)
      → new_policy H parse address port manage public_url origins token ≡ ok policy
      → (manage || is_some public_url) ≡ true
      → is_some policy.token ≡ true
  unfolding new_policy
  new_policy-token parse address port manage public_url origins token policy h e =
      elim (Bool-cases (is_some token)) [
        | inr missing ↦ ground (arith, rw (missing, e) at h)
        | inl given ↦
            key_for-some token policy.token
              (policy_of-token manage (address ∷ append "localhost:" port ∷ []) (key_for H token)
                (hosts_of parse public_url) (origins_of parse origins) policy (rw (given, e) at h))
              given
      ]

  authorized-token :
      (request : Request) (o : Option Key)
      → is_some o ≡ true
      → authorized H request o ≡ true
      → (key : Key) × (token : String) × (o ≡ some key)
        × (bearer H (one H request "authorization") ≡ some token)
        × (32 ≤ byte_len token)
        × (byte_len token ≤ 4096)
        × (verify key (sign (key_of (bytes token))) ≡ true)
  unfolding authorized
  authorized-token request none e h = ground arith
  authorized-token request (some key) e h =
      elim (Option-cases (bearer H (one H request "authorization"))) [
        | inl missing ↦ ground (arith, rw missing at h)
        | inr (token, sent) ↦
            let checked = rw sent at h in
            (key, token, refl, sent, ground arith, ground arith, ground arith)
      ]

  token-to : (r : Request) (o : Option Key) → authorized H r o ≡ true → IsAuthorized o r
  token-to r none h = inl refl
  token-to r (some key) h =
      let (k, token, same, sent, low, high, fine) = authorized-token r (some key) refl h in
      elim (Option-cases (one H r "authorization")) [
        | inl missing ↦ absurd (ground (arith, rw missing at sent))
        | inr (v, there) ↦ inr (
          k,
          v,
          token,
          same,
          only-some (r.get_all "authorization") v there,
          rw there at sent,
          low,
          high,
          fine,
        )
      ]

  token-of : (r : Request) (o : Option Key) → IsAuthorized o r → authorized H r o ≡ true
  unfolding authorized
  token-of r o (inl open_) = rw open_ refl
  token-of r o (inr (key, v, token, same, there, sent, low, high, fine)) =
      rw (same, there, sent) (ground arith)

  -- The guard passes a request on exactly if the one `host` header names an allowed host, up to
  -- the case of letters, an `origin` header, if there is one, is a single allowed origin, the
  -- method is not `OPTIONS`, the policy has no token or the one `authorization` header has a
  -- bearer token of 32 to 4096 bytes whose tag is verified under its key, the method is `GET` or
  -- `HEAD` or the server may manage accounts, there is no query, and a permit is free.
  pub guard-forwards :
      (policy : Policy H) (request : Request) (free : Bool)
      → (guard H policy request free ≡ forwarded) ↔ (IsPassed policy request × (free ≡ true))
  guard-forwards policy request free = (
    λ h.
        let (host, origin, method, token, way, query, permit) =
          (passes_tests policy request free).0 h in
        (
          (
            host-to policy request host,
            origin-to policy request origin,
            ground arith,
            token-to request policy.token token,
            ground arith,
            query,
          ),
          permit,
        ),
    λ ((host, origin, method, token, way, query), permit). (passes_tests policy request free).1 (
      host-of policy request host,
      origin-of policy request origin,
      ground arith,
      token-of request policy.token token,
      ground arith,
      query,
      permit,
    ),
  )

  -- On a server that may manage accounts or has a public address, a request that the guard
  -- passes on carries one `authorization` header with a bearer token of 32 to 4096 bytes, and
  -- the tag that HMAC gives for this token is verified under the key of the policy. The policy
  -- is one that `Policy::new` makes.
  pub token_needed :
      (parse : String → Option Url) (address port : String) (manage : Bool)
      (public_url : Option String) (origins : List String) (secret : Option String)
      (policy : Policy H) (request : Request) (free : Bool)
      → new_policy H parse address port manage public_url origins secret ≡ ok policy
      → (manage || is_some public_url) ≡ true
      → guard H policy request free ≡ forwarded
      → (key : Key) × (token : String) × (policy.token ≡ some key)
        × (bearer H (one H request "authorization") ≡ some token)
        × (32 ≤ byte_len token)
        × (byte_len token ≤ 4096)
        × (verify key (sign (key_of (bytes token))) ≡ true)
  token_needed parse address port manage public_url origins secret policy request free made open_
        h =
      let (host, origin, method, passed, read, query, permit) =
        (passes_tests policy request free).0 h in
      authorized-token request policy.token
        (new_policy-token parse address port manage public_url origins secret policy made open_)
        passed
