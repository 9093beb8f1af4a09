-- ===== src/Access/Audit.antt =====
-- hodu.go: why a request was let in.
use hodu.Prelude.{
  ℕ, ◌≡◌, ◌≢◌, ◌⊎◌, inl, inr, refl, sym, ap, ◌∙◌, Bool, Option, none, some, [], Bool-cases, arith,
  if◌then◌else◌,
}
use hodu.Prelude.Texts.{Text}
use hodu.Jwt.{Calls}
use hodu.Access.{
  HttpAccessAction, HttpAccessRule, HttpAuthConfig, Request, Claim, answer, panic, status_ok,
  Decision, responds, moves_on, panics, act, decide, by_bearer, by_creds, authenticate, accept,
  cert_required, reject, auth_required,
}
use hodu.Access.Rules.{First, NoneApplies, HasPrefixes, Decided, decide-Decided}
use hodu.Access.Credentials.{Proves, not_enabled, rest-Proves}

module _ {Net Addr Key : Type 0} (contains : Net → Addr → Bool) (go : Calls Key Claim)
    (decode : Text → Option Text) (now : ℕ) where
  -- The first rule that applies lets the request in by itself.
  abbrev pub LetIn : HttpAccessRule Net → Request Addr → Type 0
  LetIn rule req =
      (rule.action ≡ accept) ⊎ ((rule.action ≡ cert_required) × (req.peer_certificates ≢ 0))

  -- No rule applies, or the first one that does asks for authentication.
  abbrev pub MovesOn : HttpAuthConfig Net Key → Request Addr → Type 0
  MovesOn auth req =
      NoneApplies contains req auth.access_rules
      ⊎ ((rule : HttpAccessRule Net) × First contains req auth.access_rules rule
          × (rule.action ≡ auth_required))

  abbrev pub Permitted : HttpAuthConfig Net Key → Request Addr → Type 0
  Permitted auth req =
      ((rule : HttpAccessRule Net) × First contains req auth.access_rules rule × LetIn rule req)
      ⊎ (MovesOn auth req × Proves contains go decode now auth req)

  act-LetIn :
      (rule : HttpAccessRule Net) (req : Request Addr) (action : _)
      → rule.action ≡ action
      → act action req.peer_certificates ≡ responds status_ok
      → LetIn rule req
  act-LetIn rule req accept e h = inl e
  act-LetIn rule req reject e h = absurd (ground arith)
  act-LetIn rule req auth_required e h = absurd (ground arith)
  act-LetIn rule req cert_required e h = inr (e, ground arith)

  act-AuthRequired :
      (action : HttpAccessAction) (n : ℕ) → moves_on ≡ act action n → action ≡ auth_required
  act-AuthRequired accept n h = absurd (ground arith)
  act-AuthRequired reject n h = absurd (ground arith)
  act-AuthRequired auth_required n h = refl
  act-AuthRequired cert_required n h = absurd (ground arith)

  Decided-MovesOn :
      (auth : HttpAuthConfig Net Key) (req : Request Addr)
      → Decided contains auth.access_rules req moves_on
      → MovesOn auth req
  Decided-MovesOn auth req (inl (rule, first, e)) =
      inr (rule, first, act-AuthRequired rule.action req.peer_certificates e)
  Decided-MovesOn auth req (inr (none_applies, e)) = inl none_applies

  Decided-Permitted :
      (has_param_name : Bool) (auth : HttpAuthConfig Net Key) (req : Request Addr) (d : Decision)
      (r : Text)
      → Decided contains auth.access_rules req d
      → elim d [
        | panics ↦ panic
        | responds status ↦ answer status []
        | moves_on ↦
            if auth.enabled
            then elim (by_bearer contains go decode now has_param_name auth req) [
              | some a ↦ a
              | none ↦ by_creds contains go decode now auth req
            ]
            else answer status_ok []
      ]
        ≡ answer status_ok r
      → Permitted auth req
  Decided-Permitted has_param_name auth req panics r how h = absurd (ground arith)
  Decided-Permitted has_param_name auth req (responds code) r (inr (none_applies, e)) h =
      absurd (ground arith)
  Decided-Permitted has_param_name auth req (responds code) r (inl (rule, first, e)) h =
      inl (rule, first, act-LetIn rule req rule.action refl (sym e ∙ ap responds (ground arith)))
  Decided-Permitted has_param_name auth req moves_on r how h =
      (inr (
        Decided-MovesOn auth req how,
        elim (Bool-cases auth.enabled) [
          | inr off ↦ not_enabled off
          | inl on ↦
              rest-Proves contains go decode now has_param_name auth req
                (by_bearer contains go decode now has_param_name auth req) r refl (ground arith)
        ],
      ))

  -- Where no access rule has a blank prefix, a request is answered with 200 only if the first rule
  -- that applies to it accepts it, or requires a certificate and the request has one; or if no rule
  -- applies, or the first one asks for authentication, and authentication is not enabled, or the
  -- request has a token that is current and signed with the server's key, or it presents a name with
  -- the password that the name has.
  pub authenticate-Permitted :
      (has_param_name : Bool) (auth : HttpAuthConfig Net Key) (req : Request Addr) (r : Text)
      → HasPrefixes contains auth.access_rules
      → authenticate contains go decode now has_param_name auth req ≡ answer status_ok r
      → Permitted auth req
  unfolding authenticate
  authenticate-Permitted has_param_name auth req r p h =
      Decided-Permitted has_param_name auth req (decide contains auth.access_rules req) r
        (decide-Decided contains auth.access_rules req p) h
