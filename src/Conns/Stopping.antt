-- ===== src/Conns/Stopping.antt =====
-- server.go: asking client connections to stop leaves the tables as they are.
use text.Mathlib.Text.{◌==◌ as str_eq}
use hodu.Prelude.{
  ℕ, ◌≡◌, inl, inr, refl, sym, ap, ◌∙◌, ◌==◌, List, [], ◌∷◌, arith, Bool-cases, update,
}
use hodu.Conns.{Conn, Conns, stop_conn, req_stop, req_stop_each}
use hodu.Conns.Valid.{IsValid}

-- A change of the connections that keeps what the tables read of them.
module _ (s : Conns) (cts : ℕ → Conn)
    (same : (r : ℕ)
      → ((cts r).id ≡ (s.cts r).id)
        × ((cts r).remote_addr ≡ (s.cts r).remote_addr)
        × ((cts r).client_token ≡ (s.cts r).client_token)) where
  same-IsValid : IsValid s → IsValid (record s { cts = cts })
  same-IsValid v = record {
    unique = v.unique;
    keyed = λ i r e. (same r).0 ∙ v.keyed i r e;
    ranged = v.ranged;
    old = v.old;
    addressed = λ i r e. ap s.by_addr (same r).1 ∙ v.addressed i r e;
    reached = λ i r e ne.
        ap s.by_token (same r).2 ∙ v.reached i r e (ap (λ t. str_eq t "") (sym (same r).2) ∙ ne);
    addrs = λ a r e. rw ((same r).0, (same r).1) (v.addrs a r e);
    tokens = λ t r e. rw ((same r).0, (same r).2) (v.tokens t r e);
    counted = v.counted;
    within = v.within;
    next_pos = v.next_pos;
    next_lt = v.next_lt;
  }

pub req_stop-IsValid : (ref : ℕ) (s : Conns) → IsValid s → IsValid (req_stop ref s)
unfolding req_stop stop_conn
req_stop-IsValid ref s v =
    same-IsValid s (update s.cts ref (stop_conn (s.cts ref)))
      (λ r. elim (Bool-cases (r == ref)) [
        | inl this ↦
            let e : ref ≡ r = ground arith in
            elim (Bool-cases (s.cts ref).stop_req) [
              | inl stopped ↦
                  rw (this, stopped)
                    (
                      ap (λ k. (s.cts k).id) e,
                      ap (λ k. (s.cts k).remote_addr) e,
                      ap (λ k. (s.cts k).client_token) e,
                    )
              | inr running ↦
                  rw (this, running)
                    (
                      ap (λ k. (s.cts k).id) e,
                      ap (λ k. (s.cts k).remote_addr) e,
                      ap (λ k. (s.cts k).client_token) e,
                    )
            ]
        | inr other ↦ rw other (refl, refl, refl)
      ])
      v

pub req_stop_each-IsValid : (refs : List ℕ) (s : Conns) → IsValid s → IsValid (req_stop_each refs s)
unfolding req_stop_each
req_stop_each-IsValid [] s v = v
req_stop_each-IsValid (ref ∷ refs) s v =
    req_stop_each-IsValid refs (req_stop ref s) (req_stop-IsValid ref s v)
