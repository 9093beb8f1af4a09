-- ===== src/Access.antt =====
-- hodu.go: who may call an HTTP endpoint (`HttpAuthConfig.Authenticate`, `check_access_token`).
-- Texts are lists of character codes. What a network contains, and base64, JSON and RSA, are Go's, and
-- parameters.
pub mod Credentials
mod Tests
pub mod Audit
pub mod Rules
pub mod Config
use hodu.Prelude.{
  ◌-◌, ℕ, ◌+◌, ◌*◌, ◌^◌, Bool, true, false, not, ◌&&◌, ◌||◌, Option, none, some, List, [], ◌∷◌,
  ◌++◌, ◌==◌, ltb, leb, if◌then◌else◌, ℤ, pos, negsuc,
}
use hodu.Jwt.{Calls, Verified, verified, refused, nil_key, verify_rs256}
use hodu.Prelude.Texts.{Text, eq_text, has_prefix, fields, equal_fold, trim_space}

pub data HttpAccessAction : Type 0 where
  accept reject auth_required cert_required : HttpAccessAction

pub record HttpAccessRule (Net : Type 0) : Type 0 where
  pub prefix : Text
  pub org_nets : List Net
  pub action : HttpAccessAction

pub record HttpAuthConfig (Net Key : Type 0) : Type 0 where
  pub enabled : Bool
  pub realm : Text
  pub creds : Text → Option Text
  pub token_rsa_key : Option Key
  pub access_rules : List (HttpAccessRule Net)

-- What Authenticate reads of a request.
pub record Request (Addr : Type 0) : Type 0 where
  -- the address in RemoteAddr, if it parses
  pub remote : Option Addr
  pub path : Text
  pub peer_certificates : ℕ
  -- headers and form values; a blank text if there is none
  pub authorization : Text
  pub access_token : Text
  pub x_auth_username : Text
  pub x_auth_password : Text
  -- req.BasicAuth
  pub basic_auth : Option (Text × Text)

pub record Claim : Type 0 where
  pub issued_at : ℤ
  pub expires_at : ℤ

pub data Status : Type 0 where
  status_ok forbidden unauthorized bad_request : Status

-- The status with the realm to ask for, and the panic at a blank prefix.
pub data Answer : Type 0 where
  answer : Status → Text → Answer
  panic : Answer

-- From here on time.Unix wraps around: it adds the seconds from the year 1 to 1970 to an int64.
abbrev pub unix_limit : ℕ
unix_limit = 2 ^ 63 - 62135596800

-- A time in nanoseconds since 1970 against Unix seconds: `!now.Before(time.Unix(t, 0))`.
abbrev pub is_past : ℕ → ℤ → Bool
is_past now (pos t) = leb unix_limit t || leb (t * 10 ^ 9) now
is_past now (negsuc t) = true

-- What check_access_token makes of the claims.
unfoldable pub is_current : ℕ → Claim → Bool
is_current now claim = is_past now claim.issued_at && not (is_past now claim.expires_at)

-- `pfxd[len(pfxd) - 1]`, if there is one
abbrev pub last_of : Text → Option ℕ
last_of [] = none
last_of (c ∷ []) = some c
last_of (c ∷ d ∷ s) = last_of (d ∷ s)

abbrev pub ends_in_slash : ℕ → Bool
ends_in_slash c = c == b'/'

abbrev pub with_slash : Text → Option Text
with_slash p = elim (last_of p) [
  | none ↦ none
  | some c ↦ some (if ends_in_slash c then p else p ++ (b'/' ∷ []))
]

-- `path == rule.Prefix || strings.HasPrefix(path, pfxd)`; none is the panic.
unfoldable pub matches : Text → Text → Option Bool
matches prefix path = elim (with_slash prefix) [
  | none ↦ none
  | some pfxd ↦ some (eq_text path prefix || has_prefix pfxd path)
]

abbrev pub is_some {ℓ} : {A : Type ℓ} → Option A → Bool
is_some none = false
is_some (some a) = true

abbrev pub is_nil {ℓ} : {A : Type ℓ} → List A → Bool
is_nil [] = true
is_nil (a ∷ s) = false

-- What the loop over the access rules comes to.
pub data Decision : Type 0 where
  responds : Status → Decision
  moves_on : Decision
  panics : Decision

-- The action of the rule that applies.
abbrev pub act : HttpAccessAction → ℕ → Decision
act accept certificates = responds status_ok
act reject certificates = responds forbidden
act cert_required certificates = responds (if certificates == 0 then forbidden else status_ok)
act auth_required certificates = moves_on

abbrev pub bearer : Text
bearer = b'B' ∷ b'e' ∷ b'a' ∷ b'r' ∷ b'e' ∷ b'r' ∷ []

-- check_access_token, and what Authenticate answers after it
unfoldable pub by_token : {Key : Type 0} → Calls Key Claim → ℕ → Option Key → Text → Answer
unfolding is_current
by_token go now key token = elim (verify_rs256 go key (trim_space token)) [
  | nil_key ↦ panic
  | refused ↦ answer unauthorized []
  | verified claim ↦ if is_current now claim then answer status_ok [] else answer unauthorized []
]

module _ {Net Addr : Type 0} (contains : Net → Addr → Bool) where
  abbrev pub any_contains : List Net → Addr → Bool
  any_contains [] raddr = false
  any_contains (netpfx ∷ nets) raddr = contains netpfx raddr || any_contains nets raddr

  -- `org_net_ok`
  unfoldable pub org_net_ok : List Net → Option Addr → Bool
  org_net_ok nets none = true
  org_net_ok nets (some raddr) = is_nil nets || any_contains nets raddr

  unfoldable pub decide : List (HttpAccessRule Net) → Request Addr → Decision
  unfolding matches
  decide [] req = moves_on
  decide (rule ∷ rules) req =
      let rest = decide rules req in
      elim (matches rule.prefix req.path) [
        | none ↦ panics
        | some matched ↦
            if matched && org_net_ok rule.org_nets req.remote
            then act rule.action req.peer_certificates
            else rest
      ]

  module _ {Key : Type 0} (go : Calls Key Claim) (decode : Text → Option Text) (now : ℕ) where
    -- The Authorization header and the parameter that stands in for it: an answer, unless the check
    -- is to go on.
    unfoldable pub by_bearer : Bool → HttpAuthConfig Net Key → Request Addr → Option Answer
    unfolding by_token
    by_bearer has_param_name auth req =
        if not (is_nil req.authorization)
        then elim (fields req.authorization) [
          | kind ∷ token ∷ [] ↦
              if equal_fold kind bearer && is_some auth.token_rsa_key
              then some (by_token go now auth.token_rsa_key token)
              else none
          | _ ↦ none
        ]
        else if has_param_name && not (is_nil req.access_token)
        then some (by_token go now auth.token_rsa_key req.access_token)
        else none

    -- A header in base64, of which a blank one stays blank.
    abbrev decoded : Text → Option Text
    decoded s = if is_nil s then some s else decode s

    unfoldable pub check_creds : HttpAuthConfig Net Key → Text → Text → Answer
    check_creds auth username password = elim (auth.creds username) [
      | none ↦ answer unauthorized auth.realm
      | some credpass ↦
          if eq_text credpass password then answer status_ok [] else answer unauthorized auth.realm
    ]

    -- From the X-Auth headers, or else by basic authentication.
    unfoldable pub by_creds : HttpAuthConfig Net Key → Request Addr → Answer
    unfolding check_creds
    by_creds auth req = elim (decoded req.x_auth_username) [
      | none ↦ answer bad_request []
      | some username ↦ elim (decoded req.x_auth_password) [
        | none ↦ answer bad_request []
        | some password ↦
            if is_nil username && is_nil password && not (is_nil auth.realm)
            then elim req.basic_auth [
              | none ↦ answer unauthorized auth.realm
              | some (name, pass) ↦ check_creds auth name pass
            ]
            else check_creds auth username password
      ]
    ]

    -- HttpAuthConfig.Authenticate
    unfoldable pub authenticate : Bool → HttpAuthConfig Net Key → Request Addr → Answer
    unfolding decide by_bearer by_creds
    authenticate has_param_name auth req = elim (decide auth.access_rules req) [
      | panics ↦ panic
      | responds status ↦ answer status []
      | moves_on ↦
          if auth.enabled
          then elim (by_bearer has_param_name auth req) [ some a ↦ a | none ↦ by_creds auth req ]
          else answer status_ok []
    ]
