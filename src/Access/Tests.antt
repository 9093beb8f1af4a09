-- ===== src/Access/Tests.antt =====
-- The theorems on access at concrete inputs.
use hodu.Prelude.{ℕ, refl, Bool, true, false, none, some, [], ◌∷◌, ◌==◌, if◌then◌else◌}
use hodu.Prelude.Texts.{Text, eq_text}
use hodu.Jwt.{Calls}
use hodu.Access.{
  HttpAuthConfig, Request, Claim, decide, authenticate, accept, auth_required, reject, matches,
  org_net_ok, by_bearer, by_creds, check_creds,
}
use hodu.Access.Audit.{Permitted, authenticate-Permitted}

-- A network is a number that it contains, and nothing decodes to claims.
abbrev contains : ℕ → ℕ → Bool
contains net addr = net == addr

abbrev no_tokens : Calls ℕ Claim
no_tokens = record {
  encode = λ t. t;
  decode = λ t. some t;
  marshal_header = λ h. none;
  unmarshal_header = λ t. none;
  marshal = λ c. none;
  unmarshal = λ t. none;
  sign = λ k t. none;
  verify = λ k t s. false;
}

-- Under /a only from the network 3; under /b whoever has the password.
abbrev auth : HttpAuthConfig ℕ ℕ
auth = record {
  enabled = true;
  realm = [];
  creds = λ name. if eq_text name (b'u' ∷ []) then some (b'p' ∷ []) else none;
  token_rsa_key = none;
  access_rules =
      record { prefix = b'/' ∷ b'a' ∷ []; org_nets = 3 ∷ []; action = accept }
      ∷ record { prefix = b'/' ∷ b'b' ∷ []; org_nets = []; action = auth_required }
      ∷ record { prefix = b'/' ∷ []; org_nets = []; action = reject }
      ∷ [];
}

abbrev request : Text → Request ℕ
request path = record {
  remote = some 3;
  path = path;
  peer_certificates = 0;
  authorization = [];
  access_token = [];
  x_auth_username = b'u' ∷ [];
  x_auth_password = b'p' ∷ [];
  basic_auth = none;
}

authenticate-Permitted_example :
    Permitted contains no_tokens (λ t. some t) 0 auth (request (b'/' ∷ b'b' ∷ b'/' ∷ b'c' ∷ []))
unfolding authenticate decide matches org_net_ok by_bearer by_creds check_creds
authenticate-Permitted_example =
    authenticate-Permitted contains no_tokens (λ t. some t) 0 true auth
      (request (b'/' ∷ b'b' ∷ b'/' ∷ b'c' ∷ [])) [] (refl, (refl, (refl, tt))) refl
