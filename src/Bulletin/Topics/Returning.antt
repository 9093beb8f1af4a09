-- ===== src/Bulletin/Topics/Returning.antt =====
-- bulletin.go: a subscription that is ended.
use Prim.Native.String.{String}
use text.Mathlib.Text.{◌==◌ as str_eq}
use text.Mathlib.TextEquality.{eq_iff}
use hodu.Prelude.{
  ℕ, ◌≡◌, refl, true, false, not, Option, none, some, List, [], ◌∷◌, ◌++◌, ◌==◌, Bool-cases, inl,
  inr, arith,
}
use hodu.Bulletin.Topics.{Board, or_empty, remove_node, subscribe, unsubscribe}
use hodu.Bulletin.Topics.Sending.{has}

remove_node_last : (s : ℕ) (xs : List ℕ) → has s xs ≡ false → remove_node s (xs ++ (s ∷ [])) ≡ xs
remove_node_last s [] h = ground arith
remove_node_last s (x ∷ xs) h = ground (arith, remove_node_last s xs)

module _ {T : Type 0} where
  -- The outcome of a subscription, after it has been ended.
  abbrev pub Ended : Board T → Board T × Option ℕ → Type 0
  Ended b (b', none) = (b.blocked ≡ true) × (b' ≡ b)
  Ended b (b', some s) =
      (b.blocked ≡ false)
      × ((b'.subscriptions s).closed ≡ false)
      × (((unsubscribe s b').subscriptions s).closed ≡ true)
      × ((unsubscribe s b').sbsc_list ≡ b.sbsc_list)
      × ((topic : String)
          → or_empty ((unsubscribe s b').sbsc_map topic) ≡ or_empty (b.sbsc_map topic))
      × ((q : ℕ) → not (q == s) ≡ true → (unsubscribe s b').subscriptions q ≡ b.subscriptions q)

  -- On a board where the next pointer is in no list, `Subscribe` fails exactly if the board is blocked
  -- and then changes nothing. Otherwise the new channel is open, and `Unsubscribe` closes it and
  -- leaves every list of subscribers, and every other subscription, as before.
  pub subscribe-Ended :
      (topic : String) (b : Board T)
      → ((t : String) → has b.next_ref (or_empty (b.sbsc_map t)) ≡ false)
      → has b.next_ref b.sbsc_list ≡ false
      → Ended b (subscribe topic b)
  unfolding subscribe unsubscribe
  subscribe-Ended topic b fresh fresh_list = elim (Bool-cases b.blocked) [
    | inl e ↦ rw e (refl, refl)
    | inr e ↦ elim (Bool-cases (str_eq topic "")) [
      | inl unnamed ↦
          rw (e, unnamed)
            (
              refl,
              ground arith,
              ground arith,
              ground (arith, remove_node_last b.next_ref b.sbsc_list fresh_list),
              λ t. ground arith,
              λ q n. ground arith,
            )
      | inr named ↦
          rw (e, named)
            (
              refl,
              ground arith,
              ground (arith, eq_iff topic topic),
              ground (arith, eq_iff topic topic),
              λ t. ground (
                arith,
                eq_iff topic topic,
                eq_iff t topic,
                remove_node_last b.next_ref (or_empty (b.sbsc_map topic)) (fresh topic),
              ),
              λ q n. ground (arith, eq_iff topic topic),
            )
    ]
  ]
