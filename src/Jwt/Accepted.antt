-- ===== src/Jwt/Accepted.antt =====
-- jwt.go: a token that was signed is accepted, and a token that is accepted was signed.
use hodu.Prelude.{
  ℕ, ◌≡◌, subst, refl, ap, ap₂, ◌∙◌, Bool, true, false, ◌&&◌, ◌||◌, Option, none, some, List, [],
  ◌∷◌, ◌==◌, if◌then◌else◌, Bool-cases, inl, inr, arith,
}
use hodu.Prelude.Options.{bind-some, if-some}
use hodu.Prelude.Texts.{Text, eq_text}
use hodu.Jwt.{
  JwtHeader, Calls, rs256, jwt_type, split_dot, join_dot, verified, refused, nil_key, sign_rs256,
  read_segments, verify_segments, verify_rs256,
}

abbrev pub has_dot : Text → Bool
has_dot [] = false
has_dot (c ∷ s) = c == b'.' || has_dot s

-- What the code relies on: decoding gives back what was encoded or marshalled, base64 for URLs has
-- no dot, and the public key accepts what the private key signed.
pub record Lawful {Key Claims : Type 0} (go : Calls Key Claims) : Type 0 where
  pub decode_encode : (t : Text) → go.decode (go.encode t) ≡ some t
  pub encode_no_dot : (t : Text) → has_dot (go.encode t) ≡ false
  pub header_back :
      (h : JwtHeader) (b : Text) → go.marshal_header h ≡ some b → go.unmarshal_header b ≡ some h
  pub claims_back : (c : Claims) (b : Text) → go.marshal c ≡ some b → go.unmarshal b ≡ some c
  pub verify_sign : (k : Key) (t s : Text) → go.sign k t ≡ some s → go.verify k t s ≡ true

split_dot_no_dot : (s : Text) → has_dot s ≡ false → split_dot s ≡ (s, [])
split_dot_no_dot [] h = refl
split_dot_no_dot (c ∷ s) h = ground (arith, split_dot_no_dot s)

split_dot-join_dot :
    (s t : Text)
    → has_dot s ≡ false
    → split_dot (join_dot s t) ≡ (s, (split_dot t).0 ∷ (split_dot t).1)
split_dot-join_dot [] t h = refl
split_dot-join_dot (c ∷ s) t h = ground (arith, split_dot-join_dot s t)

append_dot : (s t u : Text) → join_dot (join_dot s t) u ≡ join_dot s (join_dot t u)
append_dot [] t u = refl
append_dot (c ∷ s) t u = ap (◌∷◌ c) (append_dot s t u)

module _ {Key Claims : Type 0} (go : Calls Key Claims) (lawful : Lawful go) where
  three_segments :
      (s t u : Text)
      → has_dot s ≡ false
      → has_dot t ≡ false
      → has_dot u ≡ false
      → split_dot (join_dot (join_dot s t) u) ≡ (s, t ∷ u ∷ [])
  three_segments s t u hs ht hu =
      rw
        (
          append_dot s t u,
          split_dot-join_dot s (join_dot t u) hs,
          split_dot-join_dot t u ht,
          split_dot_no_dot u hu,
        )
        refl

  segments_back :
      (c : Claims) (hb cb sb : Text)
      → go.marshal_header (record { algo = rs256; typ = jwt_type }) ≡ some hb
      → go.marshal c ≡ some cb
      → read_segments go (go.encode hb) (go.encode cb) (go.encode sb) ≡ some (c, sb)
  unfolding read_segments
  segments_back c hb cb sb eh ec =
      rw
        (
          read_segments,
          lawful.decode_encode hb,
          lawful.header_back _ hb eh,
          lawful.decode_encode cb,
          lawful.claims_back c cb ec,
          lawful.decode_encode sb,
        )
        refl

  signed-verified :
      (k : Key) (c : Claims) (hb cb sb : Text)
      → go.marshal_header (record { algo = rs256; typ = jwt_type }) ≡ some hb
      → go.marshal c ≡ some cb
      → go.sign k (join_dot (go.encode hb) (go.encode cb)) ≡ some sb
      → verify_rs256 go (some k) (join_dot (join_dot (go.encode hb) (go.encode cb)) (go.encode sb))
        ≡ verified c
  unfolding verify_rs256 verify_segments
  signed-verified k c hb cb sb eh ec es =
      let split =
        three_segments (go.encode hb) (go.encode cb) (go.encode sb) (lawful.encode_no_dot hb)
          (lawful.encode_no_dot cb) (lawful.encode_no_dot sb) in
      ap (λ p. verify_segments go (some k) p.0 p.1) split
      ∙ rw
          (
            verify_segments,
            segments_back c hb cb sb eh ec,
            lawful.verify_sign k (join_dot (go.encode hb) (go.encode cb)) sb es,
          )
          refl

  -- A token that SignRS256 makes with a key has, for VerifyRS256 with that key, the claims it was made
  -- for.
  pub verify_rs256-sign_rs256 :
      (k : Key) (c : Claims) (tok : Text)
      → sign_rs256 go k c ≡ some tok
      → verify_rs256 go (some k) tok ≡ verified c
  unfolding sign_rs256
  verify_rs256-sign_rs256 k c tok signed =
      let (hb, eh, h1) =
        bind-some (go.marshal_header (record { algo = rs256; typ = jwt_type })) signed in
      let (cb, ec, h2) = bind-some (go.marshal c) h1 in
      let (sb, es, h3) = bind-some (go.sign k (join_dot (go.encode hb) (go.encode cb))) h2 in
      subst (λ t. verify_rs256 go (some k) t ≡ verified c) (ground (arith, h3))
        (signed-verified k c hb cb sb eh ec es)

-- What makes a token good for claims: a key, and three segments of which the first says how the
-- token is signed, the second has the claims, and the third is a signature of the other two that the key verifies.
pub record Good {Key Claims : Type 0} (go : Calls Key Claims) (key : Option Key) (tok : Text)
    (c : Claims) : Type 0 where
  pub k : Key
  pub has_key : key ≡ some k
  pub s0 : Text
  pub s1 : Text
  pub s2 : Text
  pub segments : tok ≡ join_dot s0 (join_dot s1 s2)
  pub hb : Text
  pub header_is : go.decode s0 ≡ some hb
  pub jh : JwtHeader
  pub says : go.unmarshal_header hb ≡ some jh
  pub algo_is : eq_text jh.algo rs256 ≡ true
  pub typ_is : eq_text jh.typ jwt_type ≡ true
  pub cb : Text
  pub claims_are : go.decode s1 ≡ some cb
  pub has_claims : go.unmarshal cb ≡ some c
  pub ss : Text
  pub signature : go.decode s2 ≡ some ss
  pub signed : go.verify k (join_dot s0 s1) ss ≡ true

abbrev join_all : Text → List Text → Text
join_all s [] = s
join_all s (t ∷ ts) = join_dot s (join_all t ts)

join_all-cons : (c : ℕ) (s : Text) (ts : List Text) → join_all (c ∷ s) ts ≡ c ∷ join_all s ts
join_all-cons c s [] = refl
join_all-cons c s (t ∷ ts) = refl

join_all-split_dot : (tok : Text) → join_all (split_dot tok).0 (split_dot tok).1 ≡ tok
join_all-split_dot [] = refl
join_all-split_dot (c ∷ s) = elim (Bool-cases (c == b'.')) [
  | inl dot ↦ rw dot (ap₂ (◌∷◌) (ground arith) (join_all-split_dot s))
  | inr other ↦
      rw other (join_all-cons c (split_dot s).0 (split_dot s).1 ∙ ap (◌∷◌ c) (join_all-split_dot s))
]

module _ {Key Claims : Type 0} (go : Calls Key Claims) where
  read_segments-Good :
      (key : Option Key) (s0 s1 s2 sig : Text) (c : Claims)
      → read_segments go s0 s1 s2 ≡ some (c, sig)
      → (k : Key) → key ≡ some k
      → go.verify k (join_dot s0 s1) sig ≡ true
      → Good go key (join_dot s0 (join_dot s1 s2)) c
  unfolding read_segments
  read_segments-Good key s0 s1 s2 sig c h k ek hv =
      let (hb, e0, h0) = bind-some (go.decode s0) h in
      let (jh, e1, h1) = bind-some (go.unmarshal_header hb) h0 in
      let (ok, h2) =
        if-some (eq_text jh.algo rs256 && eq_text jh.typ jwt_type) (go.decode s1) _ h1 in
      let (cb, e3, h3) = bind-some (go.decode s1) h2 in
      let (claims, e4, h4) = bind-some (go.unmarshal cb) h3 in
      let (ss, e5, h5) = bind-some (go.decode s2) h4 in
      record {
        k = k;
        has_key = ek;
        s0 = s0;
        s1 = s1;
        s2 = s2;
        segments = refl;
        hb = hb;
        header_is = e0;
        jh = jh;
        says = e1;
        algo_is = ground (arith, ok);
        typ_is = ground (arith, ok);
        cb = cb;
        claims_are = e3;
        has_claims = ground (arith, e4, h5);
        ss = sig;
        signature = ground (arith, e5, h5);
        signed = hv;
      }

  -- The cases of the end of VerifyRS256 that give claims.
  opened :
      (t : Text) (c : Claims) (r : Option (Claims × Text)) (key : Option Key)
      → elim r [
        | none ↦ refused
        | some (claims, ss) ↦ elim key [
          | none ↦ nil_key
          | some k ↦ if go.verify k t ss then verified claims else refused
        ]
      ]
        ≡ verified c
      → (sig : Text) × (k : Key) × (r ≡ some (c, sig)) × (key ≡ some k) × (go.verify k t sig ≡ true)
  opened t c none key h = absurd (ground arith)
  opened t c (some (claims, ss)) none h = absurd (ground arith)
  opened t c (some (claims, ss)) (some k) h = elim (Bool-cases (go.verify k t ss)) [
    | inl e ↦ (ss, k, ground arith, refl, e)
    | inr e ↦ absurd (ground arith)
  ]

  verify_segments-Good :
      (key : Option Key) (s0 : Text) (ss : List Text) (c : Claims)
      → verify_segments go key s0 ss ≡ verified c
      → Good go key (join_all s0 ss) c
  unfolding verify_segments
  verify_segments-Good key s0 [] c h = absurd (ground arith)
  verify_segments-Good key s0 (s1 ∷ []) c h = absurd (ground arith)
  verify_segments-Good key s0 (s1 ∷ s2 ∷ s3 ∷ ss) c h = absurd (ground arith)
  verify_segments-Good key s0 (s1 ∷ s2 ∷ []) c h =
      let (sig, k, er, ek, hv) = opened (join_dot s0 s1) c (read_segments go s0 s1 s2) key h in
      read_segments-Good key s0 s1 s2 sig c er k ek hv

  -- For claims that VerifyRS256 gives, there is a key and the token is three segments joined by dots:
  -- the first decodes to a header that says RS256 and JWT, the second to the claims, and the third to
  -- a signature that the key verifies of the first two, joined by a dot.
  pub verify_rs256-Good :
      (key : Option Key) (tok : Text) (c : Claims)
      → verify_rs256 go key tok ≡ verified c
      → Good go key tok c
  unfolding verify_rs256
  verify_rs256-Good key tok c h =
      subst (λ t. Good go key t c) (join_all-split_dot tok)
        (verify_segments-Good key (split_dot tok).0 (split_dot tok).1 c h)
