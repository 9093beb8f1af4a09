-- ===== src/Access/Config/Tests.antt =====
-- An access configuration at concrete texts.
use hodu.Prelude.{◌⊎◌, ◌≡◌, ℕ, refl, Bool, true, false, none, some, [], ◌∷◌, ◌==◌}
use hodu.Jwt.{Calls}
use hodu.Access.{HttpAuthConfig, Request, Claim, accept, authenticate}
use hodu.Access.Config.{
  AuthText, Parsers, put_cred, no_creds, make_http_auth_config, parse_duration_string, read_creds,
  read_rules, read_rule, read_action, read_nets,
}
use hodu.Access.Config.Answers.{IsAnswer}
use hodu.Access.Config.Checked.{AreRules, make_http_auth_config-Answers}

-- The network of a text is its length, and no text is in base64.
abbrev parsers : Parsers ℕ
parsers = record { decode = λ t. none; parse_duration = λ t. some 0; parse_prefix = λ t. some 3 }

abbrev contains : ℕ → ℕ → Bool
contains net addr = net == addr

abbrev no_tokens : Calls ℕ Claim
no_tokens = record {
  encode = λ t. t;
  decode = λ t. some t;
  marshal_header = λ h. none;
  unmarshal_header = λ t. none;
  marshal = λ c. none;
  unmarshal = λ t. none;
  sign = λ k t. none;
  verify = λ k t s. false;
}

-- u:p as a credential, and what comes from the network under /a is accepted.
abbrev cfg : AuthText
cfg = record {
  enabled = true;
  realm = [];
  creds = (b'u' ∷ b':' ∷ b'p' ∷ []) ∷ [];
  token_ttl = [];
  access_rules =
      record {
        prefix = b'/' ∷ b'a' ∷ [];
        org_nets = (b'n' ∷ []) ∷ [];
        action = b'A' ∷ b'c' ∷ b'c' ∷ b'e' ∷ b'p' ∷ b't' ∷ [];
      }
      ∷ [];
}

abbrev auth : HttpAuthConfig ℕ ℕ
auth = record {
  enabled = true;
  realm = [];
  creds = put_cred (b'u' ∷ []) (b'p' ∷ []) no_creds;
  token_rsa_key = some 9;
  access_rules = record { prefix = b'/' ∷ b'a' ∷ []; org_nets = 3 ∷ []; action = accept } ∷ [];
}

abbrev request : Request ℕ
request = record {
  remote = some 3;
  path = b'/' ∷ b'a' ∷ b'/' ∷ b'c' ∷ [];
  peer_certificates = 0;
  authorization = [];
  access_token = [];
  x_auth_username = [];
  x_auth_password = [];
  basic_auth = none;
}

make_http_auth_config-Answers_example :
    AreRules parsers.parse_prefix cfg.access_rules auth.access_rules
    × ((auth.token_rsa_key ≡ none)
        ⊎ IsAnswer (authenticate contains no_tokens parsers.decode 0 true auth request))
unfolding make_http_auth_config parse_duration_string read_creds read_rules read_rule read_action
    read_nets
make_http_auth_config-Answers_example =
    make_http_auth_config-Answers parsers contains no_tokens 0 (some (some 9)) cfg auth true request
      refl
