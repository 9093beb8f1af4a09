-- ===== src/Bulletin/Topics/Nodes.antt =====
-- bulletin.go: the lists of subscribers, in which a node stands once.
use hodu.Prelude.{ℕ, ◌≡◌, refl, false, not, ◌&&◌, ◌||◌, List, [], ◌∷◌, ◌++◌, ◌==◌, arith}
use hodu.Bulletin.Topics.{remove_node}
use hodu.Bulletin.Topics.Sending.{has, IsUnique}

pub has-snoc : (q s : ℕ) (xs : List ℕ) → has q (xs ++ (s ∷ [])) ≡ (has q xs || s == q)
has-snoc q s [] = ground arith
has-snoc q s (x ∷ xs) = ground (arith, has-snoc q s xs)

pub snoc-IsUnique :
    (s : ℕ) (xs : List ℕ) → IsUnique xs → has s xs ≡ false → IsUnique (xs ++ (s ∷ []))
snoc-IsUnique s [] u h = ground arith
snoc-IsUnique s (x ∷ xs) u h = ground (arith, snoc-IsUnique s xs u.1, has-snoc x s xs)

pub remove_absent : (s : ℕ) (xs : List ℕ) → has s xs ≡ false → remove_node s xs ≡ xs
remove_absent s [] h = refl
remove_absent s (x ∷ xs) h = ground (arith, remove_absent s xs)

pub has-remove_node :
    (q s : ℕ) (xs : List ℕ) → IsUnique xs → has q (remove_node s xs) ≡ (not (q == s) && has q xs)
has-remove_node q s [] u = ground arith
has-remove_node q s (x ∷ xs) u = ground (arith, has-remove_node q s xs u.1, u.0)

pub remove_node-IsUnique : (s : ℕ) (xs : List ℕ) → IsUnique xs → IsUnique (remove_node s xs)
remove_node-IsUnique s [] u = u
remove_node-IsUnique s (x ∷ xs) u =
    ground (arith, remove_node-IsUnique s xs u.1, has-remove_node x s xs u.1, u.0)
