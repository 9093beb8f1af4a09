-- ===== src/Transform/Tests.antt =====
-- The theorems on the transformer at concrete inputs.
use hodu.Prelude.{ℕ, ◌≡◌, ◌++◌, refl, true, List, [], ◌∷◌, arith}
use hodu.Transform.{Transformer, ok, transform}
use hodu.Transform.Copying.{result}
use hodu.Transform.Streaming.{feed, text, feed-result, feed-ends}

-- "abc" by "X".
abbrev t : Transformer
t = record { needle = 97 ∷ 98 ∷ 99 ∷ []; replacement = 88 ∷ [] }

-- "zzab", and then "c_yy" for the last chunk.
abbrev zzab : List (ℕ × List ℕ)
zzab = (16, 122 ∷ 122 ∷ 97 ∷ 98 ∷ []) ∷ []

abbrev c_yy : List ℕ
c_yy = 99 ∷ 89 ∷ 89 ∷ []

zzab-ok : (transform t true 16 ((feed t zzab []).1 ++ c_yy)).err ≡ ok
zzab-ok = feed-ends t zzab 16 c_yy (omega arith) (omega arith)

feed-result_example :
    (feed t zzab []).0 ++ (transform t true 16 ((feed t zzab []).1 ++ c_yy)).dst
    ≡ result t true (text t zzab ++ c_yy)
feed-result_example = feed-result t zzab 16 c_yy (omega arith) zzab-ok

feed-ends_example : (transform t true 7 ((feed t zzab []).1 ++ c_yy)).err ≡ ok
feed-ends_example = feed-ends t zzab 7 c_yy (omega arith) (omega arith)

-- The text is "zzXYY".
result_test : result t true (text t zzab ++ c_yy) ≡ 122 ∷ 122 ∷ 88 ∷ 89 ∷ 89 ∷ []
result_test = refl
