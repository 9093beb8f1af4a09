-- ===== src/Client/Routes/Valid.antt =====
-- client.go: the table of the routes of a connection, its count and the timers of lifetimes agree.
use hodu.Prelude.{
  ℕ, ◌+◌, ◌<◌, ◌≡◌, refl, false, List, Option, none, some, arith, Bool-cases, Option-cases, inl,
  inr, pos, lookup, has_key, HasUniqueKeys, length, length-delete_key, delete_key-HasUniqueKeys,
  lookup-delete_key, has_key-lookup, ◌==◌,
}
use hodu.IdPool.{assign_id}
use hodu.IdPool.Found.{Finds, assign_id-Finds}
use hodu.Client.Routes.{
  RouteConfig, RouteEntry, ClientRoutes, route_ids, PersisterCall, set_route, put_client_route,
  enter_assigned, add_client_route, stop_route, req_stop_client_route, drop_client_route,
  remove_client_route, remove_client_route_by_id,
}

-- A timer fires at the end of the lifetime of its route.
abbrev pub IsTimed : RouteEntry → Type 0
IsTimed r = (due : ℕ) → r.lifetime_timer ≡ some due → due ≡ r.lifetime_start + r.lifetime

-- The tables beside which the other connections have `others` routes.
pub record IsValid (others : ℕ) (s : ClientRoutes) : Type 0 where
  pub unique : HasUniqueKeys s.route_map
  pub keyed :
      (id ref : ℕ)
      → lookup id s.route_map ≡ some ref
      → ((s.route ref).id ≡ id) × (0 < id) × (ref < s.next_ref)
  pub counted : s.routes ≡ pos (others + length s.route_map)
  pub timed : (ref : ℕ) → IsTimed (s.route ref)
  pub next_pos : 0 < s.route_next_id
  pub next_lt : s.route_next_id < route_ids

module _ (others : ℕ) (s : ClientRoutes) (v : IsValid others s) where
  pub set_route-IsValid :
      (ref : ℕ) (r : RouteEntry)
      → r.id ≡ (s.route ref).id
      → IsTimed r
      → IsValid others (set_route ref r s)
  set_route-IsValid ref r e t = record {
    unique = v.unique;
    keyed = λ i q h. ground (arith, v.keyed i q);
    counted = v.counted;
    timed =
        λ q. elim (Bool-cases (q == ref)) [ inl it ↦ rw it t | inr not_it ↦ rw not_it (v.timed q) ];
    next_pos = v.next_pos;
    next_lt = v.next_lt;
  }

  next_id-IsValid :
      (next : ℕ) → 0 < next → next < route_ids → IsValid others (record s { route_next_id = next })
  next_id-IsValid next n0 n1 = record {
    unique = v.unique;
    keyed = v.keyed;
    counted = v.counted;
    timed = v.timed;
    next_pos = n0;
    next_lt = n1;
  }

  -- Fields that the tables' agreement does not depend on.
  pub same_IsValid :
      (list : List ℕ) (calls : List PersisterCall)
      → IsValid others (record s { route_list = list; calls = calls })
  same_IsValid list calls = record {
    unique = v.unique;
    keyed = v.keyed;
    counted = v.counted;
    timed = v.timed;
    next_pos = v.next_pos;
    next_lt = v.next_lt;
  }

  pub req_stop_client_route-IsValid : (ref : ℕ) → IsValid others (req_stop_client_route ref s)
  unfolding req_stop_client_route
  req_stop_client_route-IsValid ref =
      set_route-IsValid ref (stop_route (s.route ref)) refl (v.timed ref)

  pub put_client_route-IsValid :
      (now id : ℕ) (rc : RouteConfig)
      → 0 < id
      → has_key id s.route_map ≡ false
      → IsValid others (put_client_route now id rc s)
  unfolding put_client_route
  put_client_route-IsValid now id rc id_pos new = record {
    unique = (new, v.unique);
    keyed = λ i q h. ground (arith, v.keyed i q);
    counted = ground (arith, v.counted);
    timed = λ q. elim (Bool-cases (q == s.next_ref)) [
      | inl it ↦ rw it (λ due h. absurd (ground (arith, h)))
      | inr not_it ↦ rw not_it (v.timed q)
    ];
    next_pos = v.next_pos;
    next_lt = v.next_lt;
  }

  pub drop_client_route-IsValid :
      (id ref : ℕ) → lookup id s.route_map ≡ some ref → IsValid others (drop_client_route id ref s)
  unfolding drop_client_route req_stop_client_route
  drop_client_route-IsValid id ref here = record {
    unique = delete_key-HasUniqueKeys id s.route_map v.unique;
    keyed = λ i q h. ground (arith, v.keyed i q, lookup-delete_key i id s.route_map);
    counted = ground (
      arith,
      v.counted,
      length-delete_key id s.route_map v.unique,
      has_key-lookup id ref s.route_map here,
    );
    timed = λ q. elim (Bool-cases (q == ref)) [
      | inl it ↦ rw it (v.timed ref)
      | inr not_it ↦ rw not_it (v.timed q)
    ];
    next_pos = v.next_pos;
    next_lt = v.next_lt;
  }

module _ (others : ℕ) (s : ClientRoutes) (v : IsValid others s) where
  enter_assigned-IsValid :
      (now : ℕ) (rc : RouteConfig) (r : Option ℕ × ℕ)
      → Finds route_ids (λ k. has_key k s.route_map) r
      → IsValid others (enter_assigned now rc r s).0
  unfolding enter_assigned
  enter_assigned-IsValid now rc (none, next) (all, n0, n1) = next_id-IsValid others s v next n0 n1
  enter_assigned-IsValid now rc (some id, next) (free, i0, i1, n0, n1) =
      put_client_route-IsValid others (record s { route_next_id = next })
        (next_id-IsValid others s v next n0 n1) now id rc i0 free

  pub add_client_route-IsValid :
      (now : ℕ) (rc : RouteConfig) → IsValid others (add_client_route now rc s).0
  unfolding add_client_route
  add_client_route-IsValid now rc = elim (Bool-cases (rc.id == 0)) [
    | inl auto ↦
        rw (add_client_route, auto)
          (enter_assigned-IsValid now rc
            (assign_id route_ids (λ k. has_key k s.route_map) s.route_next_id)
            (assign_id-Finds route_ids (λ k. has_key k s.route_map) s.route_next_id (omega arith)
              v.next_pos v.next_lt))
    | inr given ↦ elim (Bool-cases (has_key rc.id s.route_map)) [
      | inl taken ↦ rw (add_client_route, given, taken) v
      | inr free ↦
          rw (add_client_route, given, free)
            (put_client_route-IsValid others s v now rc.id rc (ground arith) free)
    ]
  ]

  pub remove_client_route_by_id-IsValid :
      (id : ℕ) → IsValid others (remove_client_route_by_id id s).0
  unfolding remove_client_route_by_id
  remove_client_route_by_id-IsValid id = elim (Option-cases (lookup id s.route_map)) [
    | inl e ↦ rw (remove_client_route_by_id, e) v
    | inr (r, e) ↦ rw (remove_client_route_by_id, e) (drop_client_route-IsValid others s v id r e)
  ]

  pub remove_client_route-IsValid : (ref : ℕ) → IsValid others (remove_client_route ref s).0
  unfolding remove_client_route
  remove_client_route-IsValid ref = elim (Option-cases (lookup (s.route ref).id s.route_map)) [
    | inl e ↦ rw (remove_client_route, e) v
    | inr (r, e) ↦ elim (Bool-cases (r == ref)) [
      | inl it ↦
          rw (remove_client_route, e, it)
            (drop_client_route-IsValid others s v (s.route ref).id ref (ground arith))
      | inr not_it ↦ rw (remove_client_route, e, not_it) v
    ]
  ]
