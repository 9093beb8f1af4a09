-- ===== src/Jwt.antt =====
-- jwt.go: tokens that the server signs and checks (`SignRS256`, `VerifyRS256`).
-- Base64, JSON and RSA with SHA-256 are Go's: a record of the functions that the code calls.
pub mod Accepted
mod Tests
use hodu.Prelude.{
  ℕ, Bool, true, false, ◌&&◌, Option, none, some, List, [], ◌∷◌, ◌++◌, ◌==◌, if◌then◌else◌,
}
use hodu.Prelude.Options.{◌>>=◌}
use hodu.Prelude.Texts.{Text, eq_text}

pub record JwtHeader : Type 0 where
  pub algo : Text
  pub typ : Text

-- What the code calls, for a type of keys and of claims.
pub record Calls (Key Claims : Type 0) : Type 0 where
  pub encode : Text → Text
  pub decode : Text → Option Text
  pub marshal_header : JwtHeader → Option Text
  pub unmarshal_header : Text → Option JwtHeader
  pub marshal : Claims → Option Text
  pub unmarshal : Text → Option Claims
  -- of a text with the private key
  pub sign : Key → Text → Option Text
  -- of a text and a signature with the public key
  pub verify : Key → Text → Text → Bool

abbrev pub rs256 : Text
rs256 = b'R' ∷ b'S' ∷ b'2' ∷ b'5' ∷ b'6' ∷ []

abbrev pub jwt_type : Text
jwt_type = b'J' ∷ b'W' ∷ b'T' ∷ []

-- strings.Split at dots: the first part and the others.
abbrev pub split_dot : Text → Text × List Text
split_dot [] = ([], [])
split_dot (c ∷ s) = let (t, ts) = split_dot s in if c == b'.' then ([], t ∷ ts) else (c ∷ t, ts)

abbrev pub join_dot : Text → Text → Text
join_dot s t = s ++ (b'.' ∷ t)

-- What VerifyRS256 comes to: the claims, an error, or a panic, since it reads the key it was given,
-- which may be nil.
pub data Verified {ℓ} (Claims : Type ℓ) : Type ℓ where
  verified : Claims → Verified Claims
  refused : Verified Claims
  nil_key : Verified Claims

module _ {Key Claims : Type 0} (go : Calls Key Claims) where
  -- SignRS256
  unfoldable pub sign_rs256 : Key → Claims → Option Text
  sign_rs256 key claims = do
    hb ← go.marshal_header (record { algo = rs256; typ = jwt_type })
    cb ← go.marshal claims
    let ss = join_dot (go.encode hb) (go.encode cb)
    sb ← go.sign key ss
    some (join_dot ss (go.encode sb))

  -- The three segments, decoded: the claims with the signature.
  unfoldable pub read_segments : Text → Text → Text → Option (Claims × Text)
  read_segments s0 s1 s2 = do
    hb ← go.decode s0
    jh ← go.unmarshal_header hb
    cb ← if eq_text jh.algo rs256 && eq_text jh.typ jwt_type then go.decode s1 else none
    claims ← go.unmarshal cb
    ss ← go.decode s2
    some (claims, ss)

  -- The rest of VerifyRS256, for the segments of the token.
  unfoldable pub verify_segments : Option Key → Text → List Text → Verified Claims
  unfolding read_segments
  verify_segments key s0 (s1 ∷ s2 ∷ []) = elim (read_segments s0 s1 s2) [
    | none ↦ refused
    | some (claims, ss) ↦ elim key [
      | none ↦ nil_key
      | some k ↦ if go.verify k (join_dot s0 s1) ss then verified claims else refused
    ]
  ]
  verify_segments key s0 ss = refused

  -- VerifyRS256
  unfoldable pub verify_rs256 : Option Key → Text → Verified Claims
  unfolding verify_segments
  verify_rs256 key tok = let (s0, ss) = split_dot tok in verify_segments key s0 ss
