-- ===== src/Access/Config.antt =====
-- cmd/config.go: the access configuration from its texts (`make_http_auth_config`), and hodu.go:
-- `ParseDurationString`. Base64, durations and networks are parsed by Go, and parameters; the key is
-- read from a text or a file before, and an argument.
pub mod Answers
pub mod Checked
mod Tests
use hodu.Prelude.{
  ℕ, Bool, true, false, ◌||◌, Option, none, some, List, [], ◌∷◌, ◌++◌, ◌==◌, if◌then◌else◌, map,
  between,
}
use hodu.Prelude.Texts.{Text, eq_text, to_lower}
use hodu.Prelude.Results.{Result, ok, err, ◌>>=◌}
use hodu.Access.{
  HttpAccessAction, accept, reject, auth_required, cert_required, HttpAccessRule, HttpAuthConfig,
  is_nil, last_of,
}

-- HttpAccessRule and HttpAuthConfig of the configuration file
pub record RuleText : Type 0 where
  pub prefix : Text
  pub org_nets : List Text
  pub action : Text

pub record AuthText : Type 0 where
  pub enabled : Bool
  pub realm : Text
  pub creds : List Text
  pub token_ttl : Text
  pub access_rules : List RuleText

pub data ConfigError : Type 0 where
  invalid_ttl invalid_cred invalid_key blank_prefix invalid_action invalid_network : ConfigError

-- strings.Split(s, ":")
abbrev pub split_colon : Text → List Text
split_colon [] = [] ∷ []
split_colon (c ∷ s) = elim (split_colon s) [
  | [] ↦ (c ∷ []) ∷ []
  | x ∷ xs ↦ if c == b':' then [] ∷ x ∷ xs else (c ∷ x) ∷ xs
]

abbrev pub word_accept : Text
word_accept = b'a' ∷ b'c' ∷ b'c' ∷ b'e' ∷ b'p' ∷ b't' ∷ []

abbrev pub word_reject : Text
word_reject = b'r' ∷ b'e' ∷ b'j' ∷ b'e' ∷ b'c' ∷ b't' ∷ []

abbrev pub word_required : Text
word_required = b'-' ∷ b'r' ∷ b'e' ∷ b'q' ∷ b'u' ∷ b'i' ∷ b'r' ∷ b'e' ∷ b'd' ∷ []

abbrev pub word_auth_required : Text
word_auth_required = b'a' ∷ b'u' ∷ b't' ∷ b'h' ∷ word_required

abbrev pub word_cert_required : Text
word_cert_required = b'c' ∷ b'e' ∷ b'r' ∷ b't' ∷ word_required

-- unicode.ToLower, where its value is an ASCII letter: two letters beyond ASCII have one, the I with a
-- dot above and the Kelvin sign.
abbrev lower_rune : ℕ → ℕ
lower_rune c = if c == 0x130 then b'i' else if c == 0x212a then b'k' else to_lower c

-- `switch strings.ToLower(rule.Action)`
unfoldable pub read_action : Text → Option HttpAccessAction
read_action word =
    let w = map lower_rune word in
    if eq_text w word_accept
    then some accept
    else if eq_text w word_reject
    then some reject
    else if eq_text w word_auth_required
    then some auth_required
    else if eq_text w word_cert_required
    then some cert_required
    else none

-- is_digit_or_period
abbrev pub is_digit_or_period : ℕ → Bool
is_digit_or_period c = between b'0' b'9' c || c == b'.'

-- ParseDurationString, with time.ParseDuration as an argument
unfoldable pub parse_duration_string : (Text → Option ℕ) → Text → Option ℕ
parse_duration_string parse_duration dur = elim (last_of dur) [
  | none ↦ some 0
  | some c ↦ parse_duration (if is_digit_or_period c then dur ++ (b's' ∷ []) else dur)
]

abbrev pub or_cred_text : Text → Option Text → Text
or_cred_text cred none = cred
or_cred_text cred (some b) = b

abbrev pub put_cred : Text → Text → (Text → Option Text) → Text → Option Text
put_cred user pass creds name = if eq_text name user then some pass else creds name

-- `if len(x) != 2 { return ... }; config.Creds[x[0]] = x[1]`
abbrev pub add_cred : List Text → (Text → Option Text) → Result ConfigError (Text → Option Text)
add_cred (user ∷ pass ∷ []) creds = ok (put_cred user pass creds)
add_cred _ creds = err invalid_cred

module _ (decode : Text → Option Text) where
  -- The loop over the credentials
  unfoldable pub read_creds :
      List Text → (Text → Option Text) → Result ConfigError (Text → Option Text)
  read_creds [] creds = ok creds
  read_creds (cred ∷ rest) creds =
      add_cred (split_colon (or_cred_text cred (decode cred))) creds >>= read_creds rest

module _ {Net : Type 0} (parse_prefix : Text → Option Net) where
  unfoldable pub read_nets : List Text → Result ConfigError (List Net)
  read_nets [] = ok []
  read_nets (orgnet ∷ rest) =
      let nets = read_nets rest in
      elim (parse_prefix orgnet) [
        | none ↦ err invalid_network
        | some netpfx ↦ nets >>= λ ns. ok (netpfx ∷ ns)
      ]

  unfoldable pub read_rule : RuleText → Result ConfigError (HttpAccessRule Net)
  unfolding read_action read_nets
  read_rule rule = if is_nil rule.prefix then err blank_prefix else elim (read_action rule.action) [
    | none ↦ err invalid_action
    | some action ↦ read_nets rule.org_nets >>= λ nets.
        ok (record { prefix = rule.prefix; org_nets = nets; action = action })
  ]

  unfoldable pub read_rules : List RuleText → Result ConfigError (List (HttpAccessRule Net))
  unfolding read_rule
  read_rules [] = ok []
  read_rules (rule ∷ rest) =
      let rules = read_rules rest in read_rule rule >>= λ r. rules >>= λ rs. ok (r ∷ rs)

abbrev pub no_creds : Text → Option Text
no_creds name = none

abbrev pub checked : {A : Type 0} → Option A → ConfigError → Result ConfigError A
checked none e = err e
checked (some a) e = ok a

-- What Go parses.
pub record Parsers (Net : Type 0) : Type 0 where
  pub decode : Text → Option Text
  pub parse_duration : Text → Option ℕ
  pub parse_prefix : Text → Option Net

-- make_http_auth_config; the key is none inside if none is configured, and outside if it is invalid.
unfoldable pub make_http_auth_config :
    {Net Key : Type 0}
    → Parsers Net
    → Option (Option Key)
    → AuthText
    → Result ConfigError (HttpAuthConfig Net Key)
unfolding parse_duration_string read_creds read_rules
make_http_auth_config go key cfg =
    checked (parse_duration_string go.parse_duration cfg.token_ttl) invalid_ttl >>= λ ttl.
    read_creds go.decode cfg.creds no_creds >>= λ creds. checked key invalid_key >>= λ rk.
    read_rules go.parse_prefix cfg.access_rules >>= λ rules. ok (record {
      enabled = cfg.enabled;
      realm = cfg.realm;
      creds = creds;
      token_rsa_key = rk;
      access_rules = rules;
    })
