-- ===== src/Access/Config/Answers.antt =====
-- hodu.go: `Authenticate` answers where it has a key and no rule has a blank prefix.
use hodu.Prelude.{
  ℕ, ◌≡◌, ◌≢◌, refl, Bool, true, false, Option, none, some, List, [], ◌∷◌, arith, Bool-cases,
  Option-cases, inl, inr, sym, not, ◌&&◌, if◌then◌else◌,
}
use hodu.Prelude.Texts.{Text, eq_text, trim_space, fields, equal_fold}
use hodu.Jwt.{Calls, Verified, verified, refused, nil_key, split_dot, verify_segments, verify_rs256}
use hodu.Access.{
  HttpAccessAction, HttpAuthConfig, Request, Claim, Answer, answer, panic, Decision, responds,
  moves_on, panics, act, accept, reject, auth_required, cert_required, is_nil, is_some, by_token,
  is_current, by_bearer, check_creds, by_creds, status_ok, unauthorized, decoded, bearer,
}
use hodu.Access.Rules.{Decided}

abbrev pub IsAnswer : Answer → Type 0
IsAnswer (answer code realm) = Unit
IsAnswer panic = ⊥

abbrev MayAnswer : Option Answer → Type 0
MayAnswer none = Unit
MayAnswer (some a) = IsAnswer a

act_answers : (action : HttpAccessAction) (certificates : ℕ) → act action certificates ≢ panics
act_answers accept n h = ground (arith, h)
act_answers reject n h = ground (arith, h)
act_answers auth_required n h = ground (arith, h)
act_answers cert_required n h = ground (arith, h)

if_IsAnswer : (b : Bool) (x y : Answer) → IsAnswer x → IsAnswer y → IsAnswer (if b then x else y)
if_IsAnswer true x y hx hy = hx
if_IsAnswer false x y hx hy = hy

if_MayAnswer :
    (b : Bool) (x y : Option Answer) → MayAnswer x → MayAnswer y → MayAnswer (if b then x else y)
if_MayAnswer true x y hx hy = hx
if_MayAnswer false x y hx hy = hy

module _ {Key : Type 0} (go : Calls Key Claim) (now : ℕ) (k : Key) where
  segments_not_nil : (s0 : Text) (ss : List Text) → verify_segments go (some k) s0 ss ≢ nil_key
  unfolding verify_segments
  segments_not_nil s0 [] h = ground (arith, h)
  segments_not_nil s0 (s1 ∷ []) h = ground (arith, h)
  segments_not_nil s0 (s1 ∷ s2 ∷ []) h = ground (arith, h)
  segments_not_nil s0 (s1 ∷ s2 ∷ s3 ∷ ss) h = ground (arith, h)

  verdict_answers :
      (v : Verified Claim)
      → v ≢ nil_key
      → IsAnswer (elim v [
        | nil_key ↦ panic
        | refused ↦ answer unauthorized []
        | verified claim ↦
            if is_current now claim then answer status_ok [] else answer unauthorized []
      ])
  verdict_answers nil_key h = h refl
  verdict_answers refused h = tt
  verdict_answers (verified claim) h = if_IsAnswer (is_current now claim) _ _ tt tt

  by_token_answers : (token : Text) → IsAnswer (by_token go now (some k) token)
  unfolding by_token verify_rs256
  by_token_answers token =
      let parts = split_dot (trim_space token) in
      verdict_answers (verify_segments go (some k) parts.0 parts.1)
        (segments_not_nil parts.0 parts.1)

module _ {Net Key Addr : Type 0} (contains : Net → Addr → Bool) (go : Calls Key Claim)
    (decode : Text → Option Text) (now : ℕ) (auth : HttpAuthConfig Net Key)
    (req : Request Addr) where
  check_creds_answers :
      (name pass : Text) → IsAnswer (check_creds contains go decode now auth name pass)
  unfolding check_creds
  check_creds_answers name pass = elim (Option-cases (auth.creds name)) [
    | inl e ↦ rw (check_creds, e) tt
    | inr (c, e) ↦ rw (check_creds, e) (if_IsAnswer (eq_text c pass) _ _ tt tt)
  ]

  by_basic_answers :
      (basic : Option (Text × Text))
      → IsAnswer (elim basic [
        | none ↦ answer unauthorized auth.realm
        | some (name, pass) ↦ check_creds contains go decode now auth name pass
      ])
  by_basic_answers none = tt
  by_basic_answers (some (name, pass)) = check_creds_answers name pass

  by_creds_answers : IsAnswer (by_creds contains go decode now auth req)
  unfolding by_creds
  by_creds_answers = elim (Option-cases (decoded contains go decode now req.x_auth_username)) [
    | inl e ↦ rw (by_creds, e) tt
    | inr (u, eu) ↦ elim (Option-cases (decoded contains go decode now req.x_auth_password)) [
      | inl e ↦ rw (by_creds, eu, e) tt
      | inr (p, ep) ↦
          rw (by_creds, eu, ep)
            (if_IsAnswer (is_nil u && is_nil p && not (is_nil auth.realm)) _ _
              (by_basic_answers req.basic_auth) (check_creds_answers u p))
    ]
  ]

  module _ (k : Key) (has_key : auth.token_rsa_key ≡ some k) where
    by_header_answers :
        (fs : List Text)
        → MayAnswer (elim fs [
          | kind ∷ token ∷ [] ↦
              if equal_fold kind bearer && is_some auth.token_rsa_key
              then some (by_token go now auth.token_rsa_key token)
              else none
          | _ ↦ none
        ])
    by_header_answers [] = tt
    by_header_answers (kind ∷ []) = tt
    by_header_answers (kind ∷ token ∷ f ∷ fs) = tt
    by_header_answers (kind ∷ token ∷ []) =
        elim (Bool-cases (equal_fold kind bearer && is_some auth.token_rsa_key)) [
          | inl e ↦ rw (e, has_key) (by_token_answers go now k token)
          | inr e ↦ rw e tt
        ]

    by_bearer_answers :
        (has_param_name : Bool)
        → MayAnswer (by_bearer contains go decode now has_param_name auth req)
    unfolding by_bearer
    by_bearer_answers has_param_name =
        if_MayAnswer (not (is_nil req.authorization)) _ _
          (by_header_answers (fields req.authorization))
          (if_MayAnswer (has_param_name && not (is_nil req.access_token)) _ _
            (rw has_key (by_token_answers go now k req.access_token)) tt)

    rest_answers :
        (o : Option Answer)
        → MayAnswer o
        → IsAnswer (elim o [ some a ↦ a | none ↦ by_creds contains go decode now auth req ])
    rest_answers none h = by_creds_answers
    rest_answers (some a) h = h

    pub Decided-answers :
        (has_param_name : Bool) (d : Decision)
        → Decided contains auth.access_rules req d
        → IsAnswer (elim d [
          | panics ↦ panic
          | responds code ↦ answer code []
          | moves_on ↦
              if auth.enabled
              then elim (by_bearer contains go decode now has_param_name auth req) [
                | some a ↦ a
                | none ↦ by_creds contains go decode now auth req
              ]
              else answer status_ok []
        ])
    Decided-answers has_param_name panics (inl (rule, first, e)) =
        absurd (act_answers rule.action req.peer_certificates (sym e))
    Decided-answers has_param_name panics (inr (none_applies, e)) = absurd (ground (arith, e))
    Decided-answers has_param_name (responds code) how = tt
    Decided-answers has_param_name moves_on how =
        if_IsAnswer auth.enabled _ _
          (rest_answers (by_bearer contains go decode now has_param_name auth req)
            (by_bearer_answers has_param_name))
          tt
