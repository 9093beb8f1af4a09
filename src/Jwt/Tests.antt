-- ===== src/Jwt/Tests.antt =====
-- The theorems on tokens at concrete inputs.
use hodu.Prelude.{
  ℕ, ◌+◌, ◌-◌, ◌≡◌, refl, sym, ap, ap₂, false, ◌&&◌, Option, none, some, [], ◌∷◌, arith,
  if◌then◌else◌,
}
use hodu.Prelude.Texts.{Text, eq_text, eq_text→eq, eq_text_self}
use hodu.Jwt.{JwtHeader, Calls, rs256, jwt_type, join_dot, sign_rs256, verify_rs256, verified}
use hodu.Jwt.Accepted.{has_dot, Lawful, verify_rs256-sign_rs256}

-- Each code moves up beyond the dot, a claim is a number, and a signature starts with the key.
abbrev up : Text → Text
up [] = []
up (c ∷ t) = (c + 47) ∷ up t

abbrev down : Text → Text
down [] = []
down (c ∷ t) = (c - 47) ∷ down t

abbrev header_text : JwtHeader → Option Text
header_text h = if eq_text h.algo rs256 && eq_text h.typ jwt_type then some [] else none

abbrev claim_of : Text → Option ℕ
claim_of [] = none
claim_of (c ∷ t) = some c

abbrev calls : Calls ℕ ℕ
calls = record {
  encode = up;
  decode = λ t. some (down t);
  marshal_header = header_text;
  unmarshal_header = λ t. some (record { algo = rs256; typ = jwt_type });
  marshal = λ c. some (c ∷ []);
  unmarshal = claim_of;
  sign = λ k t. some (k ∷ t);
  verify = λ k t s. eq_text s (k ∷ t);
}

down-up : (t : Text) → down (up t) ≡ t
down-up [] = refl
down-up (c ∷ t) = ap₂ (◌∷◌) (omega arith) (down-up t)

up_no_dot : (t : Text) → has_dot (up t) ≡ false
up_no_dot [] = refl
up_no_dot (c ∷ t) = ground (arith, up_no_dot t)

abbrev header : Text → Text → JwtHeader
header a t = record { algo = a; typ = t }

header_back :
    (h : JwtHeader) (b : Text)
    → header_text h ≡ some b
    → some (record { algo = rs256; typ = jwt_type }) ≡ some h
header_back h b e = ap some (
    ap₂ header (sym (eq_text→eq h.algo rs256 (ground arith)))
      (sym (eq_text→eq h.typ jwt_type (ground arith))))

calls-Lawful : Lawful calls
calls-Lawful = record {
  decode_encode = λ t. ap some (down-up t);
  encode_no_dot = up_no_dot;
  header_back = header_back;
  claims_back = λ c b e. ground arith;
  verify_sign = λ k t s e. ground (arith, eq_text_self (k ∷ t));
}

-- A token for the claim 5 under the key 9.
abbrev signed_five : Text
signed_five = join_dot (join_dot (up []) (up (5 ∷ []))) (up (9 ∷ join_dot (up []) (up (5 ∷ []))))

verify_rs256-sign_rs256_example : verify_rs256 calls (some 9) signed_five ≡ verified 5
unfolding sign_rs256
verify_rs256-sign_rs256_example = verify_rs256-sign_rs256 calls calls-Lawful 9 5 signed_five refl
