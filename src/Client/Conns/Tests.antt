-- ===== src/Client/Conns/Tests.antt =====
-- The theorems on the connections of the client at concrete inputs.
use hodu.Prelude.{refl, false, [], ◌∷◌, arith, pos}
use hodu.Client.Conns.{ClientConns}
use hodu.Client.Conns.Kept.{IsValid}

abbrev one_link : ClientConns
one_link = record {
  cts_limit = pos 2;
  cts_next_id = 4;
  cts_map = (3, 0) ∷ [];
  cts = λ ref. record { id = 3; server_addrs = "h:7777" ∷ []; stop_req = false; stops = 0 };
  next_ref = 1;
  conns = 1;
}

one_link-IsValid : IsValid one_link
one_link-IsValid = record {
  unique = ground arith;
  keyed = λ id ref h. ground (arith, h);
  counted = refl;
  within = λ n e n0. ground (arith, e);
  next_pos = omega arith;
  next_lt = omega arith;
}
