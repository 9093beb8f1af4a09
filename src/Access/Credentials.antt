-- ===== src/Access/Credentials.antt =====
-- hodu.go: what a request proves with a token or a password.
use hodu.Prelude.{
  ℕ, ◌≡◌, ◌⊎◌, inl, inr, refl, ap, ◌∙◌, Bool, true, false, not, ◌&&◌, Option, none, some, List, [],
  ◌∷◌, Bool-cases, Option-cases, arith, if◌then◌else◌,
}
use hodu.Prelude.Texts.{eq_text→eq, Text, eq_text, fields, equal_fold, trim_space}
use hodu.Jwt.{Calls, Verified, verified, refused, nil_key, verify_rs256}
use hodu.Jwt.Accepted.{Good, verify_rs256-Good}
use hodu.Access.{
  HttpAuthConfig, Request, Claim, is_current, Answer, answer, panic, status_ok, unauthorized,
  by_token, by_bearer, check_creds, by_creds, is_nil, is_some, bearer, decoded,
}

module _ {Key : Type 0} (go : Calls Key Claim) (now : ℕ) where
  -- The token was given, is good for claims, and is current.
  abbrev pub HasToken : Option Key → Text → Type 0
  HasToken key token =
      (claim : Claim) × Good go key (trim_space token) claim × (is_current now claim ≡ true)

  -- The cases of what the check of a token comes to that let a request in.
  current :
      (v : Verified Claim) (r : Text)
      → elim v [
        | nil_key ↦ panic
        | refused ↦ answer unauthorized []
        | verified claim ↦
            if is_current now claim then answer status_ok [] else answer unauthorized []
      ]
        ≡ answer status_ok r
      → (claim : Claim) × (v ≡ verified claim) × (is_current now claim ≡ true)
  current nil_key r h = absurd (ground arith)
  current refused r h = absurd (ground arith)
  current (verified claim) r h = elim (Bool-cases (is_current now claim)) [
    | inl e ↦ (claim, refl, e)
    | inr e ↦ absurd (ground arith)
  ]

  by_token-HasToken :
      (key : Option Key) (token r : Text)
      → by_token go now key token ≡ answer status_ok r
      → HasToken key token
  unfolding by_token
  by_token-HasToken key token r h =
      let (claim, e, c) = current (verify_rs256 go key (trim_space token)) r h in
      (claim, verify_rs256-Good go key (trim_space token) claim e, c)

module _ {Net Addr Key : Type 0} (contains : Net → Addr → Bool) (go : Calls Key Claim)
    (decode : Text → Option Text) (now : ℕ) where
  -- The name and the password stand in the X-Auth headers, or in the header of basic authentication.
  abbrev pub Presents : Request Addr → Text → Text → Type 0
  Presents req username password =
      ((decoded contains go decode now req.x_auth_username ≡ some username)
        × (decoded contains go decode now req.x_auth_password ≡ some password))
      ⊎ (req.basic_auth ≡ some (username, password))

  pub data Proves (auth : HttpAuthConfig Net Key) (req : Request Addr) : Type 0 where
    not_enabled : auth.enabled ≡ false → Proves auth req
    with_bearer :
        (kind token : Text)
        → fields req.authorization ≡ kind ∷ token ∷ []
        → HasToken go now auth.token_rsa_key token
        → Proves auth req
    with_token : HasToken go now auth.token_rsa_key req.access_token → Proves auth req
    with_password :
        (username password : Text)
        → Presents req username password
        → auth.creds username ≡ some password
        → Proves auth req

  check_creds-Has :
      (auth : HttpAuthConfig Net Key) (username password r : Text)
      → check_creds contains go decode now auth username password ≡ answer status_ok r
      → auth.creds username ≡ some password
  unfolding check_creds
  check_creds-Has auth username password r h = elim (Option-cases (auth.creds username)) [
    | inl e ↦ absurd (ground arith)
    | inr (credpass, e) ↦ elim (Bool-cases (eq_text credpass password)) [
      | inl same ↦ e ∙ ap some (eq_text→eq credpass password same)
      | inr other ↦ absurd (ground arith)
    ]
  ]

  by_basic-Proves :
      (auth : HttpAuthConfig Net Key) (req : Request Addr) (basic : Option (Text × Text)) (r : Text)
      → req.basic_auth ≡ basic
      → elim basic [
        | none ↦ answer unauthorized auth.realm
        | some (name, pass) ↦ check_creds contains go decode now auth name pass
      ]
        ≡ answer status_ok r
      → Proves auth req
  by_basic-Proves auth req none r e h = absurd (ground arith)
  by_basic-Proves auth req (some (name, pass)) r e h =
      with_password name pass (inr e) (check_creds-Has auth name pass r h)

  by_creds-Proves :
      (auth : HttpAuthConfig Net Key) (req : Request Addr) (r : Text)
      → by_creds contains go decode now auth req ≡ answer status_ok r
      → Proves auth req
  unfolding by_creds
  by_creds-Proves auth req r h =
      elim (Option-cases (decoded contains go decode now req.x_auth_username)) [
        | inl e ↦ absurd (ground arith)
        | inr (username, eu) ↦
            elim (Option-cases (decoded contains go decode now req.x_auth_password)) [
              | inl e ↦ absurd (ground arith)
              | inr (password, ep) ↦
                  elim (Bool-cases
                    (is_nil username && is_nil password && not (is_nil auth.realm))) [
                      | inl blank ↦ by_basic-Proves auth req req.basic_auth r refl (ground arith)
                      | inr given ↦
                          with_password username password (inl (eu, ep))
                            (check_creds-Has auth username password r (ground arith))
                    ]
            ]
      ]

  by_header-Proves :
      (auth : HttpAuthConfig Net Key) (req : Request Addr) (fs : List Text) (r : Text)
      → fields req.authorization ≡ fs
      → elim fs [
        | kind ∷ token ∷ [] ↦
            if equal_fold kind bearer && is_some auth.token_rsa_key
            then some (by_token go now auth.token_rsa_key token)
            else none
        | _ ↦ none
      ]
        ≡ some (answer status_ok r)
      → Proves auth req
  by_header-Proves auth req [] r e h = absurd (ground arith)
  by_header-Proves auth req (kind ∷ []) r e h = absurd (ground arith)
  by_header-Proves auth req (kind ∷ token ∷ f ∷ fs) r e h = absurd (ground arith)
  by_header-Proves auth req (kind ∷ token ∷ []) r e h =
      with_bearer kind token e (by_token-HasToken go now auth.token_rsa_key token r (ground arith))

  by_bearer-Proves :
      (has_param_name : Bool) (auth : HttpAuthConfig Net Key) (req : Request Addr) (r : Text)
      → by_bearer contains go decode now has_param_name auth req ≡ some (answer status_ok r)
      → Proves auth req
  unfolding by_bearer
  by_bearer-Proves has_param_name auth req r h = elim (Bool-cases (is_nil req.authorization)) [
    | inr header ↦ by_header-Proves auth req (fields req.authorization) r refl (ground arith)
    | inl no_header ↦
        with_token (by_token-HasToken go now auth.token_rsa_key req.access_token r (ground arith))
  ]

  pub rest-Proves :
      (has_param_name : Bool) (auth : HttpAuthConfig Net Key) (req : Request Addr)
      (a : Option Answer) (r : Text)
      → by_bearer contains go decode now has_param_name auth req ≡ a
      → elim a [ some b ↦ b | none ↦ by_creds contains go decode now auth req ] ≡ answer status_ok r
      → Proves auth req
  rest-Proves has_param_name auth req none r e h = by_creds-Proves auth req r h
  rest-Proves has_param_name auth req (some b) r e h =
      by_bearer-Proves has_param_name auth req r (e ∙ ap some h)
