-- ===== src/Bulletin/Topics/Openness.antt =====
-- bulletin.go: the channels of the subscribers in the lists are open.
use Prim.Native.String.{String}
use text.Mathlib.Text.{◌==◌ as str_eq}
use text.Mathlib.TextEquality.{eq_iff}
use hodu.Prelude.{
  ℕ, ◌<◌, ◌≡◌, refl, sym, subst, Bool, true, false, not, Option, none, some, List, [], ◌∷◌, ◌==◌,
  if◌then◌else◌, update, Bool-cases, inl, inr, arith,
}
use hodu.Bulletin.Topics.{
  Board, put_topic, or_empty, unsubscribe_list, unsubscribe_topics, remove_node, offer,
  end_subscription, subscribe, unsubscribe, publish, send_all,
}
use hodu.Bulletin.Topics.Sending.{has, IsUnique}
use hodu.Bulletin.Topics.Nodes.{has-snoc, snoc-IsUnique, has-remove_node, remove_node-IsUnique}

module _ {T : Type 0} where
  -- The subscription is open, and stands under this topic.
  abbrev pub IsOpen : Board T → String → ℕ → Type 0
  IsOpen b topic s =
      ((b.subscriptions s).closed ≡ false) × ((b.subscriptions s).topic ≡ topic) × (s < b.next_ref)

  pub record IsValid (b : Board T) : Type 0 where
    pub topics_open :
        (t : String) (s : ℕ)
        → has s (or_empty (b.sbsc_map t)) ≡ true
        → IsOpen b t s × (str_eq t "" ≡ false)
    pub list_open : (s : ℕ) → has s b.sbsc_list ≡ true → IsOpen b "" s
    pub topics_unique : (t : String) → IsUnique (or_empty (b.sbsc_map t))
    pub list_unique : IsUnique b.sbsc_list

  pub subscribe-IsValid : (topic : String) (b : Board T) → IsValid b → IsValid (subscribe topic b).0
  unfolding subscribe
  subscribe-IsValid topic b v =
      let out_topics : (t : String) → has b.next_ref (or_empty (b.sbsc_map t)) ≡ false =
        λ t. ground (arith, v.topics_open t b.next_ref) in
      let out_list : has b.next_ref b.sbsc_list ≡ false = ground (arith, v.list_open b.next_ref) in
      elim (Bool-cases b.blocked) [
        | inl e ↦ rw e (record {
          topics_open = v.topics_open;
          list_open = v.list_open;
          topics_unique = v.topics_unique;
          list_unique = v.list_unique;
        })
        | inr e ↦ elim (Bool-cases (str_eq topic "")) [
          | inl unnamed ↦
              rw (e, unnamed)
                (record {
                  topics_open = λ t s h. ground (arith, v.topics_open t s);
                  list_open = λ s h.
                      ground
                        (arith, v.list_open s, has-snoc s b.next_ref b.sbsc_list, eq_iff topic "");
                  topics_unique = v.topics_unique;
                  list_unique = snoc-IsUnique b.next_ref b.sbsc_list v.list_unique out_list;
                })
          | inr named ↦
              rw (e, named)
                (record {
                  topics_open = λ t s h. ground (
                    arith,
                    v.topics_open t s,
                    v.topics_open topic s,
                    eq_iff t topic,
                    has-snoc s b.next_ref (or_empty (b.sbsc_map topic)),
                  );
                  list_open = λ s h. ground (arith, v.list_open s);
                  topics_unique = λ t. ground (
                    arith,
                    v.topics_unique t,
                    snoc-IsUnique b.next_ref (or_empty (b.sbsc_map topic)) (v.topics_unique topic)
                        (out_topics topic),
                  );
                  list_unique = v.list_unique;
                })
        ]
      ]

  pub send_all-IsValid :
      (msg : T) (sl : List ℕ) (b : Board T) → IsValid b → IsValid (send_all msg sl b)
  unfolding send_all
  send_all-IsValid msg [] b v = v
  send_all-IsValid msg (x ∷ sl) b v =
      send_all-IsValid msg sl
        (record b { subscriptions = update b.subscriptions x (offer msg (b.subscriptions x)) })
        (record {
          topics_open = λ t s h. ground (arith, v.topics_open t s);
          list_open = λ s h. ground (arith, v.list_open s);
          topics_unique = v.topics_unique;
          list_unique = v.list_unique;
        })

  -- A subscriber is ended and out of the list of its topic.
  pub cut_list-IsValid :
      (s : ℕ) (b : Board T) (sl : List ℕ)
      → IsValid b
      → (b.subscriptions s).topic ≡ ""
      → ((q : ℕ) → has q sl ≡ true → (has q b.sbsc_list ≡ true) × (not (q == s) ≡ true))
      → IsUnique sl
      → IsValid (end_subscription s (record b { sbsc_list = sl }))
  cut_list-IsValid s b sl v same fewer u = record {
    topics_open = λ t q h. ground (arith, v.topics_open t q, same, eq_iff t "");
    list_open = λ q h. ground (arith, v.list_open q, fewer q);
    topics_unique = v.topics_unique;
    list_unique = u;
  }

  cut_topic-IsValid :
      (t : String) (s : ℕ) (b : Board T) (o : Option (List ℕ))
      → IsValid b
      → (b.subscriptions s).topic ≡ t
      → str_eq t "" ≡ false
      → ((q : ℕ)
          → has q (or_empty o) ≡ true
          → (has q (or_empty (b.sbsc_map t)) ≡ true) × (not (q == s) ≡ true))
      → IsUnique (or_empty o)
      → IsValid (end_subscription s (record b { sbsc_map = put_topic b.sbsc_map t o }))
  cut_topic-IsValid t s b o v same named fewer u = record {
    topics_open =
        λ j q h. ground (arith, v.topics_open j q, v.topics_open t q, same, fewer q, eq_iff j t);
    list_open = λ q h. ground (arith, v.list_open q, same, eq_iff t "");
    topics_unique = λ j. ground (arith, v.topics_unique j);
    list_unique = v.list_unique;
  }

  unsubscribe_found :
      (s : ℕ) (b : Board T) (o : Option (List ℕ))
      → b.sbsc_map (b.subscriptions s).topic ≡ o
      → IsValid b
      → str_eq (b.subscriptions s).topic "" ≡ false
      → IsValid (elim o [
        | none ↦ b
        | some sl ↦ end_subscription s (record b {
          sbsc_map = put_topic b.sbsc_map (b.subscriptions s).topic (some (remove_node s sl));
        })
      ])
  unsubscribe_found s b none e v named = v
  unsubscribe_found s b (some sl) e v named =
      let u : IsUnique sl =
        subst (λ o. IsUnique (or_empty o)) e (v.topics_unique (b.subscriptions s).topic) in
      cut_topic-IsValid (b.subscriptions s).topic s b (some (remove_node s sl)) v refl named
        (λ q h. ground (arith, has-remove_node q s sl u)) (remove_node-IsUnique s sl u)

  -- What `Unsubscribe` does for a subscriber that is in a list.
  abbrev leave_named : ℕ → Board T → Board T
  leave_named s b = elim (b.sbsc_map (b.subscriptions s).topic) [
    | none ↦ b
    | some sl ↦ end_subscription s (record b {
      sbsc_map = put_topic b.sbsc_map (b.subscriptions s).topic (some (remove_node s sl));
    })
  ]

  abbrev leave : ℕ → Board T → Bool → Board T
  leave s b unnamed =
      if unnamed
      then end_subscription s (record b { sbsc_list = remove_node s b.sbsc_list })
      else leave_named s b

  leave-IsValid :
      (s : ℕ) (b : Board T) → IsValid b → IsValid (leave s b (str_eq (b.subscriptions s).topic ""))
  leave-IsValid s b v = elim (Bool-cases (str_eq (b.subscriptions s).topic "")) [
    | inl e ↦
        subst (λ c. IsValid (leave s b c)) (sym e)
          (cut_list-IsValid s b (remove_node s b.sbsc_list) v
            (ground (arith, eq_iff (b.subscriptions s).topic ""))
            (λ q h. ground (arith, has-remove_node q s b.sbsc_list v.list_unique))
            (remove_node-IsUnique s b.sbsc_list v.list_unique))
    | inr e ↦
        subst (λ c. IsValid (leave s b c)) (sym e)
          (unsubscribe_found s b (b.sbsc_map (b.subscriptions s).topic) refl v e)
  ]

  pub unsubscribe-IsValid : (s : ℕ) (b : Board T) → IsValid b → IsValid (unsubscribe s b)
  unfolding unsubscribe
  unsubscribe-IsValid s b v = kept (b.subscriptions s).in_list
    where
      kept : (c : Bool) → IsValid (if c then leave s b (str_eq (b.subscriptions s).topic "") else b)
      kept true = leave-IsValid s b v
      kept false = v

  pub publish-IsValid :
      (topic : String) (msg : T) (b : Board T) → IsValid b → IsValid (publish topic msg b)
  unfolding publish
  publish-IsValid topic msg b v = kept (str_eq topic "") b.blocked
    where
      kept :
          (c d : Bool)
          → IsValid (if c then b else if d then b else send_all msg (or_empty (b.sbsc_map topic)) b)
      kept true d = v
      kept false true = v
      kept false false = send_all-IsValid msg (or_empty (b.sbsc_map topic)) b v

  -- One topic of UnsubscribeAll, with the list that it has.
  abbrev sweep : String → List ℕ → Board T → Board T
  sweep t sl b =
      let b' = (unsubscribe_list sl b).0 in record b' { sbsc_map = put_topic b'.sbsc_map t none }

  sweep-IsValid :
      (t : String) (sl : List ℕ) (b : Board T)
      → or_empty (b.sbsc_map t) ≡ sl
      → IsValid b
      → IsValid (sweep t sl b)
  unfolding unsubscribe_list
  sweep-IsValid t [] b e v = record {
    topics_open = λ j q h. ground (arith, v.topics_open j q);
    list_open = v.list_open;
    topics_unique = λ j. ground (arith, v.topics_unique j);
    list_unique = v.list_unique;
  }
  sweep-IsValid t (s ∷ sl) b e v =
      let o = v.topics_open t s (subst (λ l. has s l ≡ true) (sym e) (ground arith)) in
      cut_topic-IsValid t s b none v o.0.1 o.1 (λ q h. cc) tt

  pub unsubscribe_topics-IsValid :
      (topics : List String) (b : Board T) → IsValid b → IsValid (unsubscribe_topics topics b)
  unfolding unsubscribe_topics
  unsubscribe_topics-IsValid [] b v = v
  unsubscribe_topics-IsValid (t ∷ topics) b v =
      unsubscribe_topics-IsValid topics (sweep t (or_empty (b.sbsc_map t)) b)
        (sweep-IsValid t (or_empty (b.sbsc_map t)) b refl v)
