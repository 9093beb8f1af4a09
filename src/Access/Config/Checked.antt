-- ===== src/Access/Config/Checked.antt =====
-- cmd/config.go: what an accepted access configuration guarantees to `Authenticate`.
use hodu.Prelude.{
  ℕ, ◌≡◌, ◌⊎◌, refl, Bool, false, Option, none, some, List, [], ◌∷◌, Bool-cases, Option-cases, inl,
  inr, subst,
}
use hodu.Prelude.Texts.{Text}
use hodu.Prelude.Results.{Result, ok, err, ◌>>=◌}
use hodu.Jwt.{Calls}
use hodu.Access.{HttpAccessRule, HttpAuthConfig, Request, Claim, is_nil, decide, authenticate}
use hodu.Access.Rules.{HasPrefixes, decide-Decided}
use hodu.Access.Config.{
  RuleText, AuthText, read_action, read_nets, read_rule, read_rules, read_creds, no_creds, checked,
  invalid_ttl, invalid_key, Parsers, parse_duration_string, make_http_auth_config,
}
use hodu.Access.Config.Answers.{IsAnswer, Decided-answers}

-- What holds of the value of a result without an error.
abbrev OkIs : {E A : Type 0} → (A → Type 0) → Result E A → Type 0
OkIs P (ok a) = P a
OkIs P (err e) = Unit

bind-OkIs :
    {E A B : Type 0} (P : A → Type 0) (Q : B → Type 0) (r : Result E A) (f : A → Result E B)
    → OkIs P r
    → ((a : A) → P a → OkIs Q (f a))
    → OkIs Q (r >>= f)
bind-OkIs P Q (ok a) f h k = k a h
bind-OkIs P Q (err e) f h k = tt

module _ {Net : Type 0} (parse_prefix : Text → Option Net) where
  -- The networks are the texts', one each.
  abbrev pub AreNets : List Text → List Net → Type 0
  AreNets [] [] = Unit
  AreNets (t ∷ ts) (n ∷ ns) = (parse_prefix t ≡ some n) × AreNets ts ns
  AreNets _ _ = ⊥

  -- A rule is that of its texts, and its prefix is not blank.
  abbrev pub IsRule : RuleText → HttpAccessRule Net → Type 0
  IsRule t r =
      (r.prefix ≡ t.prefix)
      × (is_nil r.prefix ≡ false)
      × (read_action t.action ≡ some r.action)
      × AreNets t.org_nets r.org_nets

  abbrev pub AreRules : List RuleText → List (HttpAccessRule Net) → Type 0
  AreRules [] [] = Unit
  AreRules (t ∷ ts) (r ∷ rs) = IsRule t r × AreRules ts rs
  AreRules _ _ = ⊥

  read_nets-AreNets : (ts : List Text) → OkIs (AreNets ts) (read_nets parse_prefix ts)
  unfolding read_nets
  read_nets-AreNets [] = tt
  read_nets-AreNets (t ∷ ts) = elim (Option-cases (parse_prefix t)) [
    | inl e ↦ rw (read_nets, e) tt
    | inr (n, e) ↦
        rw (read_nets, e)
          (bind-OkIs (AreNets ts) (AreNets (t ∷ ts)) (read_nets parse_prefix ts) (λ ns. ok (n ∷ ns))
            (read_nets-AreNets ts) (λ ns h. (e, h)))
  ]

  read_rule-IsRule : (t : RuleText) → OkIs (IsRule t) (read_rule parse_prefix t)
  unfolding read_rule
  read_rule-IsRule t = elim (Bool-cases (is_nil t.prefix)) [
    | inl blank ↦ rw (read_rule, blank) tt
    | inr given ↦ elim (Option-cases (read_action t.action)) [
      | inl e ↦ rw (read_rule, given, e) tt
      | inr (action, e) ↦
          rw (read_rule, given, e)
            (bind-OkIs (AreNets t.org_nets) (IsRule t) (read_nets parse_prefix t.org_nets)
              (λ nets. ok (record { prefix = t.prefix; org_nets = nets; action = action }))
              (read_nets-AreNets t.org_nets) (λ nets h. (refl, given, e, h)))
    ]
  ]

  read_rules-AreRules : (ts : List RuleText) → OkIs (AreRules ts) (read_rules parse_prefix ts)
  unfolding read_rules
  read_rules-AreRules [] = tt
  read_rules-AreRules (t ∷ ts) =
      bind-OkIs (IsRule t) (AreRules (t ∷ ts)) (read_rule parse_prefix t)
        (λ r. read_rules parse_prefix ts >>= λ rs. ok (r ∷ rs)) (read_rule-IsRule t)
        (λ r h.
          bind-OkIs (AreRules ts) (AreRules (t ∷ ts)) (read_rules parse_prefix ts)
            (λ rs. ok (r ∷ rs)) (read_rules-AreRules ts) (λ rs hs. (h, hs)))

OkIs-trivial : {E A : Type 0} (r : Result E A) → OkIs (λ a. Unit) r
OkIs-trivial (ok a) = tt
OkIs-trivial (err e) = tt

module _ {Net Addr : Type 0} (parse_prefix : Text → Option Net) (contains : Net → Addr → Bool) where
  AreRules-HasPrefixes :
      (ts : List RuleText) (rs : List (HttpAccessRule Net))
      → AreRules parse_prefix ts rs
      → HasPrefixes contains rs
  AreRules-HasPrefixes [] [] h = tt
  AreRules-HasPrefixes [] (r ∷ rs) h = absurd h
  AreRules-HasPrefixes (t ∷ ts) [] h = absurd h
  AreRules-HasPrefixes (t ∷ ts) (r ∷ rs) (h, hs) = (h.1, AreRules-HasPrefixes ts rs hs)

module _ {Net Key Addr : Type 0} (parsers : Parsers Net) (contains : Net → Addr → Bool) where
  -- The rules of a configuration are those of its texts.
  abbrev pub HasRulesOf : AuthText → HttpAuthConfig Net Key → Type 0
  HasRulesOf cfg auth = AreRules parsers.parse_prefix cfg.access_rules auth.access_rules

  make_http_auth_config-HasRulesOf :
      (key : Option (Option Key)) (cfg : AuthText)
      → OkIs (HasRulesOf cfg) (make_http_auth_config parsers key cfg)
  unfolding make_http_auth_config
  make_http_auth_config-HasRulesOf key cfg =
      let ttl = checked (parse_duration_string parsers.parse_duration cfg.token_ttl) invalid_ttl in
      let creds = read_creds parsers.decode cfg.creds no_creds in
      bind-OkIs (λ t. Unit {0}) (HasRulesOf cfg) ttl _ (OkIs-trivial ttl)
        λ t u0.
          bind-OkIs (λ c. Unit {0}) (HasRulesOf cfg) creds _ (OkIs-trivial creds)
            λ c u1.
              bind-OkIs (λ k. Unit {0}) (HasRulesOf cfg) (checked key invalid_key) _
                (OkIs-trivial (checked key invalid_key))
                λ k u2.
                  bind-OkIs (AreRules parsers.parse_prefix cfg.access_rules) (HasRulesOf cfg)
                    (read_rules parsers.parse_prefix cfg.access_rules) _
                    (read_rules-AreRules parsers.parse_prefix cfg.access_rules) (λ rules h. h)

  -- What a configuration gives that is accepted.
  ok_HasRulesOf :
      (key : Option (Option Key)) (cfg : AuthText) (auth : HttpAuthConfig Net Key)
      → make_http_auth_config parsers key cfg ≡ ok auth
      → HasRulesOf cfg auth
  ok_HasRulesOf key cfg auth e =
      subst (OkIs (HasRulesOf cfg)) e (make_http_auth_config-HasRulesOf key cfg)

module _ {Net Key Addr : Type 0} (parsers : Parsers Net) (contains : Net → Addr → Bool)
    (go : Calls Key Claim) (now : ℕ) where
  -- An access configuration that is accepted has one rule for each rule of its texts, in their order,
  -- with the prefix, which is not blank, the action that the word means and the networks that the
  -- texts mean; and it has no key, or `Authenticate` with it answers every request at every time,
  -- and never panics.
  pub make_http_auth_config-Answers :
      (key : Option (Option Key)) (cfg : AuthText) (auth : HttpAuthConfig Net Key)
      (has_param_name : Bool) (req : Request Addr)
      → make_http_auth_config parsers key cfg ≡ ok auth
      → AreRules parsers.parse_prefix cfg.access_rules auth.access_rules
        × ((auth.token_rsa_key ≡ none)
            ⊎ IsAnswer (authenticate contains go parsers.decode now has_param_name auth req))
  unfolding authenticate
  make_http_auth_config-Answers key cfg auth has_param_name req e =
      let rules = ok_HasRulesOf parsers contains key cfg auth e in
      (
        rules,
        elim (Option-cases auth.token_rsa_key) [
          | inl no_key ↦ inl no_key
          | inr (k, has_key) ↦ inr (
              Decided-answers contains go parsers.decode now auth req k has_key has_param_name
                (decide contains auth.access_rules req)
                (decide-Decided contains auth.access_rules req (
                  AreRules-HasPrefixes parsers.parse_prefix contains cfg.access_rules
                    auth.access_rules rules)))
        ],
      )
