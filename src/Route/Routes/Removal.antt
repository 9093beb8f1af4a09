-- ===== src/Route/Routes/Removal.antt =====
-- server.go: what the removal of a route takes out of the tables.
use Prim.Native.String.{String}
use text.Mathlib.Text.{◌==◌ as str_eq}
use text.Mathlib.TextEquality.{eq_iff}
use hodu.Prelude.{
  ℕ, ◌≡◌, ◌≢◌, refl, ap, sym, subst, ◌∙◌, false, not, ◌&&◌, Option, none, some, ◌==◌, ℤ, inc, dec,
  arith, Bool-cases, Option-cases, inl, inr,
}
use hodu.Route.Routes.{
  Route, Routes, Added, added, failed, is_some, put_route, enter_route, add_route, drop_route,
  Removed, removed, non_existent, remove_route_by_id, remove_route,
}
use hodu.Route.Routes.Valid.{IsValid, listen, dropped-IsValid}

-- Two states whose tables have the same entries.
pub record SameTables (s t : Routes) : Type 0 where
  pub routes_too : s.routes ≡ t.routes
  pub route_map_too : (id : ℕ) → s.route_map id ≡ t.route_map id
  pub names_too : (n : String) → s.by_ptc_name n ≡ t.by_ptc_name n
  pub ports_too : (port : ℕ) → s.svc_port_map port ≡ t.svc_port_map port

dec-inc : (z : ℤ) → dec (inc z) ≡ z
dec-inc z = ground arith

put-then-drop :
    (conn_id : ℕ) (r : Route) (t : Routes)
    → t.route_map r.id ≡ none
    → not (str_eq r.ptc_name "") && is_some (t.by_ptc_name r.ptc_name) ≡ false
    → t.svc_port_map r.svc_port ≡ none
    → SameTables (drop_route r (put_route conn_id r t)) t
unfolding put_route drop_route
put-then-drop conn_id r t new_id new_name new_port = record {
  routes_too = dec-inc t.routes;
  route_map_too = λ i. ground arith;
  names_too = λ n. ground (arith, eq_iff n r.ptc_name);
  ports_too = λ p. ground arith;
}

remove_found :
    (r : Route) (t : Routes)
    → t.route_map r.id ≡ some r
    → remove_route_by_id r.id t ≡ (drop_route r t, removed r)
unfolding remove_route_by_id
remove_found r t e = ground (arith)

-- What a removal of the new route does to the outcome of an addition.
abbrev pub Undone : ℕ → Routes → Routes × Added → Type 0
Undone id t (t', failed e) = t' ≡ t
Undone id t (t', added r) =
    ((remove_route_by_id id t').1 ≡ removed r) × SameTables (remove_route_by_id id t').0 t

put_route-Undone :
    (conn_id : ℕ) (r : Route) (t : Routes)
    → t.route_map r.id ≡ none
    → not (str_eq r.ptc_name "") && is_some (t.by_ptc_name r.ptc_name) ≡ false
    → t.svc_port_map r.svc_port ≡ none
    → Undone r.id t (put_route conn_id r t, added r)
unfolding put_route
put_route-Undone conn_id r t new_id new_name new_port =
    let found = remove_found r (put_route conn_id r t) (ground arith) in
    (
      ap (λ p. p.1) found,
      subst (λ p. SameTables p.0 t) (sym found)
          (put-then-drop conn_id r t new_id new_name new_port),
    )

module _ (conn_id id option : ℕ) (ptc_addr ptc_name : String) (t : Routes) where
  enter_route-Undone :
      (port : ℕ)
      → t.route_map id ≡ none
      → not (str_eq ptc_name "") && is_some (t.by_ptc_name ptc_name) ≡ false
      → Undone id t (enter_route conn_id id option ptc_addr ptc_name port t)
  unfolding enter_route
  enter_route-Undone port new_id new_name = elim (Option-cases (t.svc_port_map port)) [
    | inr (c, e) ↦ rw e refl
    | inl e ↦ rw e (put_route-Undone conn_id _ t new_id new_name e)
  ]

  -- Adding a route and removing it by its id gives the tables from before the addition: the id, the
  -- name and the port are free again and the count of routes is the same. A failed addition leaves
  -- everything as it was.
  pub add_route-Undone :
      (listening : Option ℕ)
      → Undone id t (add_route conn_id id option ptc_addr ptc_name listening t)
  unfolding add_route
  add_route-Undone listening = elim (Option-cases (t.route_map id)) [
    | inr (r, e) ↦ rw e refl
    | inl new_id ↦
        elim (Bool-cases (not (str_eq ptc_name "") && is_some (t.by_ptc_name ptc_name))) [
          | inl e ↦ rw (new_id, e) refl
          | inr new_name ↦
              rw (new_id, new_name)
                (elim listening
                  as (λ l. Undone id t (listen conn_id id option ptc_addr ptc_name t l)) [
                    | none ↦ refl
                    | some port ↦ enter_route-Undone port new_id new_name
                  ])
        ]
  ]

-- A removal that is called on a route: nothing changes unless the table holds this very route, and
-- then it is gone from all three tables.
abbrev pub RemoveResult : Route → Routes → Routes × Removed → Type 0
RemoveResult route t (t', non_existent) = (t' ≡ t) × (t.route_map route.id ≢ some route)
RemoveResult route t (t', removed r) =
    (r ≡ route)
    × (t'.route_map route.id ≡ none)
    × (t'.svc_port_map route.svc_port ≡ none)
    × (str_eq route.ptc_name "" ≡ false → t'.by_ptc_name route.ptc_name ≡ none)

drop_route-RemoveResult :
    (route : Route) (t : Routes) → RemoveResult route t (drop_route route t, removed route)
unfolding drop_route
drop_route-RemoveResult route t = (
  refl,
  ground arith,
  ground arith,
  λ named. ground (arith, eq_iff route.ptc_name route.ptc_name),
)

module _ (route : Route) (t : Routes) where
  remove_route_hit :
      t.route_map route.id ≡ some route → remove_route route t ≡ (drop_route route t, removed route)
  unfolding remove_route
  remove_route_hit e = ground arith

  remove_route_miss :
      (r : Route)
      → t.route_map route.id ≡ some r
      → (r.ref == route.ref) ≡ false
      → remove_route route t ≡ (t, non_existent)
  unfolding remove_route
  remove_route_miss r e other = ground arith

  remove_route_absent : t.route_map route.id ≡ none → remove_route route t ≡ (t, non_existent)
  unfolding remove_route
  remove_route_absent e = ground arith

-- A route that removes itself from a valid table, where a pointer stands for one route: if the table
-- holds this very route, it is gone from the tables of ids, names and ports; if not (it was removed,
-- or its id is taken by a newer route), nothing changes. The table stays valid.
pub remove_route-RemoveResult :
    (conn_id : ℕ) (route : Route) (t : Routes)
    → IsValid conn_id t
    → ((r : Route) → t.route_map route.id ≡ some r → r.ref ≡ route.ref → r ≡ route)
    → RemoveResult route t (remove_route route t) × IsValid conn_id (remove_route route t).0
remove_route-RemoveResult conn_id route t v one =
    let Goal : (Routes × Removed) → Type 0 = λ p. RemoveResult route t p × IsValid conn_id p.0 in
    elim (Option-cases (t.route_map route.id)) [
      | inl e ↦ subst Goal (sym (remove_route_absent route t e)) ((refl, ground arith), v)
      | inr (r, e) ↦ elim (Bool-cases (r.ref == route.ref)) [
        | inl same ↦
            let here = e ∙ ap some (one r e (ground arith)) in
            subst Goal (sym (remove_route_hit route t here))
              (drop_route-RemoveResult route t, dropped-IsValid conn_id route t v here)
        | inr other ↦
            subst Goal (sym (remove_route_miss route t r e other)) ((refl, ground arith), v)
      ]
    ]
