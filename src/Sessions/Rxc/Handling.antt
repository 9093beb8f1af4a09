-- ===== src/Sessions/Rxc/Handling.antt =====
-- server-cts-rxc.go: the packets of the client keep the tables of sessions, where no other goroutine comes
-- in between.
use hodu.Prelude.{
  ℕ, ◌≡◌, inl, inr, subst, ◌∙◌, ap, Bool, none, some, List, Option-cases, lookup, delete_key, dec,
}
use hodu.Sessions.Rxc.{
  ServerRxc, Rxcs, put_ws, remove_rxc_by_id, count_removed, stop_rxc_sink_by_id, RxcPacket,
  rxc_start, rxc_stop, rxc_data, handle_rxc_event,
}
use hodu.Sessions.Rxc.Valid.{IsValid, removed-IsValid}

module _ (others : ℕ) (s : Rxcs) (v : IsValid others s) where
  gone-IsValid :
      (id : ℕ) (r : ServerRxc)
      → lookup id s.rxc_map ≡ some r
      → IsValid others (count_removed (remove_rxc_by_id id s))
  unfolding remove_rxc_by_id
  gone-IsValid id r e =
      let same : r.id ≡ id = v.keyed id r e in
      let e' : lookup r.id s.rxc_map ≡ some r = ap (λ k. lookup k s.rxc_map) same ∙ e in
      rw (remove_rxc_by_id, e)
        (subst
          (λ k. IsValid others (record s {
            rxc_map = delete_key k s.rxc_map;
            by_ws = put_ws r.ws none s.by_ws;
            rxc_sessions = dec s.rxc_sessions;
          }))
          same (removed-IsValid others s v r e'))

  pub handle_rxc_event-IsValid :
      (packet : RxcPacket) (id flags : ℕ) (bytes : List ℕ) (succeeds : Bool)
      → IsValid others (handle_rxc_event packet id flags bytes succeeds s).0
  unfolding handle_rxc_event stop_rxc_sink_by_id
  handle_rxc_event-IsValid rxc_start id flags bytes succeeds = v
  handle_rxc_event-IsValid rxc_data id flags bytes succeeds = v
  handle_rxc_event-IsValid rxc_stop id flags bytes succeeds =
      elim (Option-cases (lookup id s.rxc_map)) [
        | inl e ↦ rw (stop_rxc_sink_by_id, e) v
        | inr (rxc, e) ↦ rw (stop_rxc_sink_by_id, e) (gone-IsValid id rxc e)
      ]
