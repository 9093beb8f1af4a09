-- ===== src/Bulletin/Topics/Sending.antt =====
-- bulletin.go: who gets a message that is published or forwarded.
use Prim.Native.String.{String}
use text.Mathlib.Text.{◌==◌ as str_eq}
use hodu.Prelude.{
  ℕ, ◌≡◌, refl, sym, subst, ◌∙◌, Bool, false, ◌||◌, List, [], ◌∷◌, ◌==◌, if◌then◌else◌, update,
  arith,
}
use hodu.Bulletin.Topics.{Board, or_empty, offer, send_all, publish}

abbrev pub has : ℕ → List ℕ → Bool
has s [] = false
has s (x ∷ xs) = x == s || has s xs

abbrev pub IsUnique : List ℕ → Type 0
IsUnique [] = Unit
IsUnique (x ∷ xs) = (has x xs ≡ false) × IsUnique xs

module _ {T : Type 0} where
  -- Each of these has been offered the message once, and nothing else has changed.
  pub record Offered (msg : T) (sl : List ℕ) (b b' : Board T) : Type 0 where
    pub subscriptions_too :
        (s : ℕ)
        → b'.subscriptions s
          ≡ (if has s sl then offer msg (b.subscriptions s) else b.subscriptions s)
    pub same_map : b'.sbsc_map ≡ b.sbsc_map
    pub same_list : b'.sbsc_list ≡ b.sbsc_list
    pub same_blocked : b'.blocked ≡ b.blocked

  send_all-Offered :
      (msg : T) (sl : List ℕ) (b : Board T) → IsUnique sl → Offered msg sl b (send_all msg sl b)
  unfolding send_all
  send_all-Offered msg [] b u = record {
    subscriptions_too = λ s. refl;
    same_map = refl;
    same_list = refl;
    same_blocked = refl;
  }
  send_all-Offered msg (x ∷ sl) b (out, u) =
      let b1 : Board T = record b {
        subscriptions = update b.subscriptions x (offer msg (b.subscriptions x));
      } in
      let r = send_all-Offered msg sl b1 u in
      record {
        subscriptions_too = λ s. r.subscriptions_too s ∙ here s;
        same_map = r.same_map;
        same_list = r.same_list;
        same_blocked = r.same_blocked;
      }
    where
      here :
          (s : ℕ)
          → (if has s sl
              then offer msg (update b.subscriptions x (offer msg (b.subscriptions x)) s)
              else update b.subscriptions x (offer msg (b.subscriptions x)) s)
            ≡ (if x == s || has s sl then offer msg (b.subscriptions s) else b.subscriptions s)
      here s = ground (arith, out)

  -- On a board that is not blocked, where no subscriber stands twice under the topic, `Publish` under a
  -- topic that is not empty offers the message once to each subscriber of the topic: it is the last in
  -- the subscriber's channel, if there was room for it. No other channel and no list changes.
  pub publish-Offered :
      (topic : String) (msg : T) (b : Board T)
      → str_eq topic "" ≡ false
      → b.blocked ≡ false
      → IsUnique (or_empty (b.sbsc_map topic))
      → Offered msg (or_empty (b.sbsc_map topic)) b (publish topic msg b)
  unfolding publish
  publish-Offered topic msg b named ok u =
      subst (Offered msg (or_empty (b.sbsc_map topic)) b) (sym (sent topic msg b named ok))
        (send_all-Offered msg (or_empty (b.sbsc_map topic)) b u)
    where
      sent :
          (topic : String) (msg : T) (b : Board T)
          → str_eq topic "" ≡ false
          → b.blocked ≡ false
          → publish topic msg b ≡ send_all msg (or_empty (b.sbsc_map topic)) b
      sent topic msg b named ok = ground arith
