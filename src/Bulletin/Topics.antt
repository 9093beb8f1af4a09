-- ===== src/Bulletin/Topics.antt =====
-- bulletin.go: the subscribers of a `Bulletin` (`Subscribe`, `Unsubscribe`, `Publish` and the
-- forwarding of `RunTask`). Subscriptions are shared: the store maps a pointer to one. A list of
-- container/list that a subscription's `node` stands in is the list of their pointers.
pub mod Sending
pub mod Unsubscription
pub mod Returning
pub mod Nodes
pub mod Openness
pub mod Calls
use Prim.Native.String.{String}
use text.Mathlib.Text.{◌==◌ as str_eq}
use hodu.Prelude.{
  ℕ, ◌+◌, Bool, true, false, not, ◌&&◌, Option, none, some, List, [], ◌∷◌, ◌++◌, ltb, ◌==◌,
  if◌then◌else◌, update, length,
}

pub record Subscription (T : Type 0) : Type 0 where
  -- what the channel holds, the oldest first
  pub c : List T
  pub closed : Bool
  pub topic : String
  -- whether `b` and `node` are set
  pub in_list : Bool

pub record Board (T : Type 0) : Type 0 where
  pub subscriptions : ℕ → Subscription T
  pub sbsc_map : String → Option (List ℕ)
  pub sbsc_list : List ℕ
  pub blocked : Bool
  pub next_ref : ℕ

-- make(chan T, 128)
abbrev pub channel_size : ℕ
channel_size = 128

abbrev pub put_topic {ℓ} :
    {A : Type ℓ} → (String → Option A) → String → Option A → String → Option A
put_topic m k v j = if str_eq j k then v else m j

abbrev pub or_empty : Option (List ℕ) → List ℕ
or_empty none = []
or_empty (some l) = l

abbrev pub remove_node : ℕ → List ℕ → List ℕ
remove_node s [] = []
remove_node s (x ∷ xs) = if x == s then xs else x ∷ remove_node s xs

module _ {T : Type 0} where
  abbrev pub no_subscription : String → Subscription T
  no_subscription topic = record { c = []; closed = false; topic = topic; in_list = true }

  -- Subscribe
  unfoldable pub subscribe : String → Board T → Board T × Option ℕ
  subscribe topic b =
      let s = b.next_ref in
      let b1 = record b {
        subscriptions = update b.subscriptions s (no_subscription topic);
        next_ref = s + 1;
      } in
      if b.blocked
      then (b, none)
      else if str_eq topic ""
      then (record b1 { sbsc_list = b.sbsc_list ++ (s ∷ []) }, some s)
      else (
        record b1 {
          sbsc_map = put_topic b.sbsc_map topic (some (or_empty (b.sbsc_map topic) ++ (s ∷ [])));
        },
        some s,
      )

  -- close(sbsc.C); sbsc.b = nil; sbsc.node = nil
  abbrev pub end_subscription : ℕ → Board T → Board T
  end_subscription s b = record b {
    subscriptions =
        update b.subscriptions s (record (b.subscriptions s) { closed = true; in_list = false });
  }

  -- Unsubscribe
  unfoldable pub unsubscribe : ℕ → Board T → Board T
  unsubscribe s b =
      let topic = (b.subscriptions s).topic in
      if (b.subscriptions s).in_list
      then (if str_eq topic ""
          then end_subscription s (record b { sbsc_list = remove_node s b.sbsc_list })
          else elim (b.sbsc_map topic) [
            | none ↦ b
            | some sl ↦
                end_subscription s
                  (record b { sbsc_map = put_topic b.sbsc_map topic (some (remove_node s sl)) })
          ])
      else b

  -- A send that gives way to a full channel.
  abbrev pub offer : T → Subscription T → Subscription T
  offer msg s = if ltb (length s.c) channel_size then record s { c = s.c ++ (msg ∷ []) } else s

  -- The loop over the subscribers of a list.
  unfoldable pub send_all : T → List ℕ → Board T → Board T
  send_all msg [] b = b
  send_all msg (s ∷ sl) b =
      send_all msg sl
        (record b { subscriptions = update b.subscriptions s (offer msg (b.subscriptions s)) })

  -- Publish
  unfoldable pub publish : String → T → Board T → Board T
  unfolding send_all
  publish topic msg b =
      if str_eq topic ""
      then b
      else if b.blocked
      then b
      else send_all msg (or_empty (b.sbsc_map topic)) b

  -- RunTask, for a message that `Dequeue` gave.
  unfoldable pub forward : T → Board T → Board T
  unfolding send_all
  forward msg b = send_all msg b.sbsc_list b

  -- unsubscribe_list_nolock: `Remove` clears the element that the loop stands on, whose `Next` is then
  -- nil. The list that is left.
  unfoldable pub unsubscribe_list : List ℕ → Board T → Board T × List ℕ
  unsubscribe_list [] b = (b, [])
  unsubscribe_list (s ∷ sl) b = (end_subscription s b, sl)

  -- `for topic, sl = range b.sbsc_map`, over the topics of the map.
  unfoldable pub unsubscribe_topics : List String → Board T → Board T
  unfolding unsubscribe_list
  unsubscribe_topics [] b = b
  unsubscribe_topics (topic ∷ topics) b =
      let (b', left) = unsubscribe_list (or_empty (b.sbsc_map topic)) b in
      unsubscribe_topics topics (record b' { sbsc_map = put_topic b'.sbsc_map topic none })

  -- UnsubscribeAll
  unfoldable pub unsubscribe_all : List String → Board T → Board T
  unfolding unsubscribe_topics unsubscribe_list
  unsubscribe_all topics b =
      let b1 = unsubscribe_topics topics b in
      let (b2, left) = unsubscribe_list b1.sbsc_list b1 in
      record b2 { sbsc_list = left; blocked = true }
