-- ===== src/Bulletin/Topics/Unsubscription.antt =====
-- bulletin.go: what `UnsubscribeAll` reaches.
use Prim.Native.String.{String}
use text.Mathlib.Text.{◌==◌ as str_eq}
use hodu.Prelude.{ℕ, ◌≡◌, Bool, true, false, ◌||◌, none, List, [], ◌∷◌, ◌==◌}
use hodu.Bulletin.Topics.{Board, put_topic, or_empty, unsubscribe_list}

abbrev pub is_first : ℕ → List ℕ → Bool
is_first s [] = false
is_first s (x ∷ xs) = x == s

abbrev pub has_topic : String → List String → Bool
has_topic t [] = false
has_topic t (x ∷ xs) = str_eq t x || has_topic t xs

module _ {T : Type 0} where
  -- A subscriber that is not the first of any list.
  pub record IsBehind (s : ℕ) (b : Board T) : Type 0 where
    pub in_topics : (topic : String) → is_first s (or_empty (b.sbsc_map topic)) ≡ false
    pub in_list : is_first s b.sbsc_list ≡ false

  -- After one topic.
  abbrev one : String → Board T → Board T
  one topic b =
      let b' = (unsubscribe_list (or_empty (b.sbsc_map topic)) b).0 in
      record b' { sbsc_map = put_topic b'.sbsc_map topic none }

  -- What the loop over the topics leaves.
  record Swept (topics : List String) (b b' : Board T) : Type 0 where
    same_list : b'.sbsc_list ≡ b.sbsc_list
    gone : (topic : String) → has_topic topic topics ≡ true → b'.sbsc_map topic ≡ none
    fewer : (topic : String) → b.sbsc_map topic ≡ none → b'.sbsc_map topic ≡ none
    same : (s : ℕ) → IsBehind s b → b'.subscriptions s ≡ b.subscriptions s
