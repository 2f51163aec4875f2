-- ===== src/Accounts/Oauth/Tokens.antt =====
-- src/accounts/oauth.rs and oauth/claude.rs: the credential that is made of the answer of a token
-- endpoint, at a login and at a refresh. The decoder of an `id_token` is the argument `claims`.
use quotio_cli.Base.{
  String, ◌≡◌, refl, subst, Bool, true, false, not, ◌||◌, List, Option, none, some, any, arith,
  if◌then◌else◌, Result, ok, err, ◌==◌, string_eq, option_eq, is_empty, ℤ, pos, leb_ℤ, checked_add,
  Bool-cases, inl, inr,
}
use quotio_cli.Accounts.Credential.{AccountError, oauth, Credential}

-- The claims that are read. An audience is a text or a list of texts.
pub record Claims : Type 0 where
  pub audiences : List String
  pub issuer : Option String
  pub nonce : Option String
  pub exp : Option ℤ
  pub email : Option String
  pub account_id : Option String

pub record Tokens : Type 0 where
  pub access_token : String
  pub refresh_token : Option String
  pub id_token : Option String
  pub expires_in : ℤ

abbrev or_else : Option String → Option String → Option String
or_else (some a) b = some a
or_else none b = b

-- `filter(|s| !s.is_empty())`
abbrev filled : Option String → Option String
filled none = none
filled (some a) = if is_empty a then none else some a

-- What a refresh starts from: refresh token, id token, account and email.
abbrev Old : Type 0
Old = Option (String × String × String × String)

abbrev old_codex : Option Credential → Old
old_codex (some (Credential.codex_oauth access refresh id account email e)) =
    some (refresh, id, account, email)
old_codex _ = none

abbrev old_refresh : Old → Option String
old_refresh none = none
old_refresh (some (refresh, id, account, email)) = some refresh

abbrev old_id : Old → Option String
old_id none = none
old_id (some (refresh, id, account, email)) = some id

-- Another account, or another email.
abbrev is_other : Old → String → String → Bool
is_other none account email = false
is_other (some (refresh, id, old_account, old_email)) account email =
    not (old_account == account) || not (old_email == email)

abbrev is_stale : ℤ → Option ℤ → Bool
is_stale now none = true
is_stale now (some e) = leb_ℤ e now

abbrev is_wrong_nonce : Option String → ℤ → Claims → Bool
is_wrong_nonce none now c = false
is_wrong_nonce (some nonce) now c = not (c.nonce == some nonce) || is_stale now c.exp

abbrev client_id : String
client_id = "app_EMoamEEZ73f0CkXaXp7hrann"

abbrev is_foreign : Claims → Bool
is_foreign c =
    not (c.issuer == some "https://auth.openai.com") || not (any (λ a. a == client_id) c.audiences)

abbrev made :
    String → String → String → String → Option String → Option ℤ → Result AccountError Credential
made access id account email none at = err oauth
made access id account email (some refresh) none = err oauth
made access id account email (some refresh) (some at) =
    ok (Credential.codex_oauth access refresh id account email at)

abbrev identified :
    Tokens → Old → ℤ → String → Option String → Option String → Result AccountError Credential
identified t old now id none account = err oauth
identified t old now id (some email) none = err oauth
identified t old now id (some email) (some account) =
    if is_other old account email
    then err oauth
    else made t.access_token id account email (filled (or_else t.refresh_token (old_refresh old)))
        (checked_add now t.expires_in)

abbrev claimed :
    Tokens → Option String → Old → ℤ → String → Option Claims → Result AccountError Credential
claimed t wanted old now id none = err oauth
claimed t wanted old now id (some c) =
    if is_foreign c || is_wrong_nonce wanted now c
    then err oauth
    else identified t old now id (filled c.email) (filled c.account_id)

abbrev with_id :
    (String → Option Claims)
    → Tokens
    → Option String
    → Old
    → ℤ
    → Option String
    → Result AccountError Credential
with_id claims t wanted old now none = err oauth
with_id claims t wanted old now (some id) = claimed t wanted old now id (claims id)

-- `credential` of oauth.rs.
unfoldable pub credential :
    (String → Option Claims)
    → Tokens
    → Option String
    → Option Credential
    → ℤ
    → Result AccountError Credential
credential claims t wanted previous now =
    if is_empty t.access_token || leb_ℤ t.expires_in (pos 0)
    then err oauth
    else with_id claims t wanted (old_codex previous) now
        (or_else t.id_token (old_id (old_codex previous)))

-- A credential of Codex of the same account and email, with a token and one to refresh it, that ends
-- at `at`.
abbrev pub IsRenewed : String → String → Option ℤ → Credential → Type 0
IsRenewed account email at (Credential.codex_oauth access refresh id a e end) =
    (a ≡ account)
    × (e ≡ email)
    × (is_empty access ≡ false)
    × (is_empty refresh ≡ false)
    × (at ≡ some end)
IsRenewed account email at c = ⊥

filled-full : (o : Option String) (r : String) → filled o ≡ some r → is_empty r ≡ false
filled-full none r h = absurd (ground arith)
filled-full (some a) r h = ground arith

module _ (t : Tokens) (refresh id account email : String) (now : ℤ)
    (full : is_empty t.access_token ≡ false) where
  abbrev old : Old
  old = some (refresh, id, account, email)

  made-IsRenewed :
      (new_id a e : String) (o r : Option String) (at : Option ℤ) (c : Credential)
      → is_other old a e ≡ false
      → filled o ≡ r
      → made t.access_token new_id a e r at ≡ ok c
      → IsRenewed account email at c
  made-IsRenewed new_id a e o none at c same from h = absurd (ground arith)
  made-IsRenewed new_id a e o (some r) none c same from h = absurd (ground arith)
  made-IsRenewed new_id a e o (some r) (some at) c same from h =
      let it : Credential.codex_oauth t.access_token r new_id a e at ≡ c = ground arith in
      subst (IsRenewed account email (some at)) it
        (ground arith, ground arith, full, filled-full o r from, refl)

  identified-IsRenewed :
      (new_id : String) (e a : Option String) (c : Credential)
      → identified t old now new_id e a ≡ ok c
      → IsRenewed account email (checked_add now t.expires_in) c
  identified-IsRenewed new_id none a c h = absurd (ground arith)
  identified-IsRenewed new_id (some e) none c h = absurd (ground arith)
  identified-IsRenewed new_id (some e) (some a) c h = elim (Bool-cases (is_other old a e)) [
    | inl other ↦ absurd (ground arith)
    | inr same ↦
        made-IsRenewed new_id a e (or_else t.refresh_token (some refresh))
          (filled (or_else t.refresh_token (some refresh))) (checked_add now t.expires_in) c same
          refl (rw same at h)
  ]

  claimed-IsRenewed :
      (wanted : Option String) (new_id : String) (o : Option Claims) (c : Credential)
      → claimed t wanted old now new_id o ≡ ok c
      → IsRenewed account email (checked_add now t.expires_in) c
  claimed-IsRenewed wanted new_id none c h = absurd (ground arith)
  claimed-IsRenewed wanted new_id (some x) c h =
      elim (Bool-cases (is_foreign x || is_wrong_nonce wanted now x)) [
        | inl bad ↦ absurd (cc (rw bad at h))
        | inr good ↦
            identified-IsRenewed new_id (filled x.email) (filled x.account_id) c (rw good at h)
      ]

  with_id-IsRenewed :
      (claims : String → Option Claims) (wanted o : Option String) (c : Credential)
      → with_id claims t wanted old now o ≡ ok c
      → IsRenewed account email (checked_add now t.expires_in) c
  with_id-IsRenewed claims wanted none c h = absurd (ground arith)
  with_id-IsRenewed claims wanted (some new_id) c h =
      claimed-IsRenewed wanted new_id (claims new_id) c h

-- A credential that is made of the answer to a refresh of a Codex login has the account and the
-- email of that login, an access token and a refresh token that are not empty, and ends the
-- announced time, which is more than zero, after now.
pub credential-IsRenewed :
    (claims : String → Option Claims) (t : Tokens) (wanted : Option String)
    (access refresh id account email : String) (end now : ℤ) (c : Credential)
    → credential claims t wanted
        (some (Credential.codex_oauth access refresh id account email end))
        now
      ≡ ok c
    → IsRenewed account email (checked_add now t.expires_in) c
      × (leb_ℤ t.expires_in (pos 0) ≡ false)
unfolding credential
credential-IsRenewed claims t wanted access refresh id account email end now c h =
    elim (Bool-cases (is_empty t.access_token || leb_ℤ t.expires_in (pos 0))) [
      | inl bad ↦ absurd (cc (rw bad at h))
      | inr good ↦ (
        with_id-IsRenewed t refresh id account email now (ground arith) claims wanted
            (or_else t.id_token (some id)) c (rw good at h),
        ground arith,
      )
    ]
