-- ===== src/Bulletin/Topics/Calls.antt =====
-- bulletin.go: any calls of a bulletin board.
use Prim.Native.String.{String}
use hodu.Prelude.{ℕ, ◌≡◌, refl, sym, subst, Bool, true, false, none, List, [], ◌∷◌, arith}
use hodu.Bulletin.Topics.{
  Board, subscribe, unsubscribe, publish, forward, unsubscribe_list, unsubscribe_topics,
  unsubscribe_all, no_subscription,
}
use hodu.Bulletin.Topics.Sending.{has, IsUnique}
use hodu.Bulletin.Topics.Openness.{
  IsValid, subscribe-IsValid, unsubscribe-IsValid, publish-IsValid, send_all-IsValid,
  unsubscribe_topics-IsValid, cut_list-IsValid,
}

pub data Call (A : Type 0) : Type 0 where
  subscribes : String → Call A
  unsubscribes : ℕ → Call A
  publishes : String → A → Call A
  forwards : A → Call A
  -- with the topics in the order in which the map gives them
  unsubscribes_all : List String → Call A
  blocks : Bool → Call A

module _ {T : Type 0} where
  -- NewBulletin
  abbrev pub new_board : Board T
  new_board = record {
    subscriptions = λ s. no_subscription "";
    sbsc_map = λ t. none;
    sbsc_list = [];
    blocked = false;
    next_ref = 0;
  }

  abbrev pub call : Call T → Board T → Board T
  call (subscribes topic) b = (subscribe topic b).0
  call (unsubscribes s) b = unsubscribe s b
  call (publishes topic msg) b = publish topic msg b
  call (forwards msg) b = forward msg b
  call (unsubscribes_all topics) b = unsubscribe_all topics b
  call (blocks blocked) b = record b { blocked = blocked }

  abbrev pub calls : List (Call T) → Board T → Board T
  calls [] b = b
  calls (c ∷ cs) b = calls cs (call c b)

  -- The end of `UnsubscribeAll`, with the list of those without a topic.
  abbrev sweep_list : List ℕ → Board T → Board T
  sweep_list sl b =
      let (b', left) = unsubscribe_list sl b in record b' { sbsc_list = left; blocked = true }

  blocked-IsValid : (c : Bool) (b : Board T) → IsValid b → IsValid (record b { blocked = c })
  blocked-IsValid c b v = record {
    topics_open = v.topics_open;
    list_open = v.list_open;
    topics_unique = v.topics_unique;
    list_unique = v.list_unique;
  }

  sweep_list-IsValid :
      (sl : List ℕ) (b : Board T) → b.sbsc_list ≡ sl → IsValid b → IsValid (sweep_list sl b)
  unfolding unsubscribe_list
  sweep_list-IsValid [] b e v = record {
    topics_open = v.topics_open;
    list_open = λ s h. cc;
    topics_unique = v.topics_unique;
    list_unique = tt;
  }
  sweep_list-IsValid (s ∷ sl) b e v =
      let u : IsUnique (s ∷ sl) = subst IsUnique e v.list_unique in
      let o = v.list_open s (subst (λ l. has s l ≡ true) (sym e) (ground arith)) in
      blocked-IsValid true _ (cut_list-IsValid s b sl v o.1 (λ q h. ground (arith, e, u.0)) u.1)

  unsubscribe_all-IsValid :
      (topics : List String) (b : Board T) → IsValid b → IsValid (unsubscribe_all topics b)
  unfolding unsubscribe_all
  unsubscribe_all-IsValid topics b v =
      sweep_list-IsValid (unsubscribe_topics topics b).sbsc_list (unsubscribe_topics topics b) refl
        (unsubscribe_topics-IsValid topics b v)

  forward-IsValid : (msg : T) (b : Board T) → IsValid b → IsValid (forward msg b)
  unfolding forward
  forward-IsValid msg b v = send_all-IsValid msg b.sbsc_list b v

  call-IsValid : (c : Call T) (b : Board T) → IsValid b → IsValid (call c b)
  call-IsValid (subscribes topic) b v = subscribe-IsValid topic b v
  call-IsValid (unsubscribes s) b v = unsubscribe-IsValid s b v
  call-IsValid (publishes topic msg) b v = publish-IsValid topic msg b v
  call-IsValid (forwards msg) b v = forward-IsValid msg b v
  call-IsValid (unsubscribes_all topics) b v = unsubscribe_all-IsValid topics b v
  call-IsValid (blocks blocked) b v = blocked-IsValid blocked b v

  calls_keep : (cs : List (Call T)) (b : Board T) → IsValid b → IsValid (calls cs b)
  calls_keep [] b v = v
  calls_keep (c ∷ cs) b v = calls_keep cs (call c b) (call-IsValid c b v)

  -- After any calls of a new board, each subscriber in a list has an open channel, stands in the list
  -- of its own topic and in no other, and stands there once.
  pub calls-IsValid : (cs : List (Call T)) → IsValid (calls cs new_board)
  calls-IsValid cs = calls_keep cs new_board (record {
    topics_open = λ t s h. cc;
    list_open = λ s h. cc;
    topics_unique = λ t. tt;
    list_unique = tt;
  })
