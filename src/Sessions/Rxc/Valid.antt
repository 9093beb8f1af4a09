-- ===== src/Sessions/Rxc/Valid.antt =====
-- server-cts-rxc.go: the tables of sessions by id and by websocket agree.
use hodu.Prelude.{
  ℕ, ◌+◌, ◌<◌, ◌≡◌, ◌≢◌, ◌⊎◌, inl, inr, refl, sym, ap, ◌∙◌, Bool, true, false, Option, none, some,
  List, [], ◌∷◌, ◌==◌, Bool-cases, arith, length, pos, dec, lookup, has_key, HasUniqueKeys,
  lookup-delete_key, delete_key-HasUniqueKeys, length-delete_key,
}
use hodu.Sessions.Rxc.{ServerRxc, Rxcs, rxc_ids, put_ws, take_rxc}

abbrev pub is_some {ℓ} : {A : Type ℓ} → Option A → Bool
is_some none = false
is_some (some a) = true

-- Tables beside which the other connections have `others` sessions.
pub record IsValid (others : ℕ) (s : Rxcs) : Type 0 where
  pub unique : HasUniqueKeys s.rxc_map
  pub keyed : (id : ℕ) (r : ServerRxc) → lookup id s.rxc_map ≡ some r → r.id ≡ id
  pub sunk : (id : ℕ) (r : ServerRxc) → lookup id s.rxc_map ≡ some r → is_some r.sink ≡ true
  pub found :
      (id ws : ℕ) (r : ServerRxc)
      → lookup id s.rxc_map ≡ some r
      → r.ws ≡ some ws
      → s.by_ws ws ≡ some r
  pub back :
      (ws : ℕ) (r : ServerRxc)
      → s.by_ws ws ≡ some r
      → (r.ws ≡ some ws) × (lookup r.id s.rxc_map ≡ some r)
  pub counted : s.rxc_sessions ≡ pos (others + length s.rxc_map)
  pub next_pos : 0 < s.rxc_next_id
  pub next_lt : s.rxc_next_id < rxc_ids

lookup-none : {A : Type 0} (k : ℕ) (m : List (ℕ × A)) → has_key k m ≡ false → lookup k m ≡ none
lookup-none k [] h = refl
lookup-none k ((j, a) ∷ m) h = ground (arith, lookup-none k m)

pub lookup-has_key : {A : Type 0} (k : ℕ) (m : List (ℕ × A)) → is_some (lookup k m) ≡ has_key k m
lookup-has_key k [] = refl
lookup-has_key k ((j, a) ∷ m) = ground (arith, lookup-has_key k m)

put_ws-cases :
    (o : Option ℕ) (v : Option ServerRxc) (m : ℕ → Option ServerRxc) (k : ℕ)
    → ((put_ws o v m k ≡ v) × (o ≡ some k)) ⊎ ((put_ws o v m k ≡ m k) × (o ≢ some k))
put_ws-cases none v m k = inr (refl, λ e. absurd (ground arith))
put_ws-cases (some ws) v m k = elim (Bool-cases (k == ws)) [
  | inl this ↦ inl (ground arith, ground arith)
  | inr other ↦ inr (ground arith, λ e. absurd (ground arith))
]

module _ (others : ℕ) (s : Rxcs) (v : IsValid others s) where
  -- A session that is taken out and counted off.
  pub removed-IsValid :
      (r : ServerRxc)
      → lookup r.id s.rxc_map ≡ some r
      → IsValid others (record (take_rxc r s) { rxc_sessions = dec s.rxc_sessions })
  unfolding take_rxc
  removed-IsValid r e = record {
    unique = delete_key-HasUniqueKeys r.id s.rxc_map v.unique;
    keyed = λ i q eq. ground (arith, v.keyed i q, lookup-delete_key i r.id s.rxc_map);
    sunk = λ i q eq. ground (arith, v.sunk i q, lookup-delete_key i r.id s.rxc_map);
    found = λ i w q eq ew. elim (put_ws-cases r.ws none s.by_ws w) [
      | inl (now, its) ↦ ground (
        arith,
        v.found r.id w r e its,
        v.found i w q,
        v.keyed i q,
        lookup-delete_key i r.id s.rxc_map,
      )
      | inr (kept, not_its) ↦
          ground (arith, kept, v.found i w q, lookup-delete_key i r.id s.rxc_map)
    ];
    back = λ w q eq. elim (put_ws-cases r.ws none s.by_ws w) [
      | inl (now, its) ↦ ground (arith, now)
      | inr (kept, not_its) ↦
          ground (arith, kept, not_its, v.back w q, lookup-delete_key q.id r.id s.rxc_map)
    ];
    counted = ground (
      arith,
      v.counted,
      length-delete_key r.id s.rxc_map v.unique
          (sym (lookup-has_key r.id s.rxc_map) ∙ ap is_some e),
    );
    next_pos = v.next_pos;
    next_lt = v.next_lt;
  }
