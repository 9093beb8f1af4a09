-- ===== src/Route/Routes/Valid.antt =====
-- server.go: the tables of routes, target names and ports agree.
use Prim.Native.String.{String}
use text.Mathlib.Text.{◌==◌ as str_eq}
use text.Mathlib.TextEquality.{eq_iff}
use hodu.Prelude.{
  ℕ, ◌<◌, ◌≡◌, ◌≢◌, refl, Bool, true, false, not, ◌&&◌, Option, none, some, ◌==◌, inc, arith,
  Bool-cases, Option-cases, inl, inr,
}
use hodu.Route.Routes.{
  Route, Routes, Added, added, failed, existent_route, existent_name, not_listening,
  port_not_unique, is_some, put_route, enter_route, add_route, drop_route, Removed, removed,
  non_existent, remove_route_by_id,
}

-- Whether a route is there and listens on a port.
abbrev pub listens_on : ℕ → Option Route → Bool
listens_on port none = false
listens_on port (some r) = r.svc_port == port

pub record IsValid (conn_id : ℕ) (t : Routes) : Type 0 where
  pub keyed : (id : ℕ) (r : Route) → t.route_map id ≡ some r → r.id ≡ id
  pub old : (id : ℕ) (r : Route) → t.route_map id ≡ some r → r.ref < t.next_ref
  pub named :
      (id : ℕ) (r : Route)
      → t.route_map id ≡ some r
      → str_eq r.ptc_name "" ≡ false
      → t.by_ptc_name r.ptc_name ≡ some r
  pub names :
      (n : String) (r : Route)
      → t.by_ptc_name n ≡ some r
      → (t.route_map r.id ≡ some r) × (r.ptc_name ≡ n) × (str_eq n "" ≡ false)
  pub ported :
      (id : ℕ) (r : Route)
      → t.route_map id ≡ some r
      → t.svc_port_map r.svc_port ≡ some (record { conn_id = conn_id; route_id = id })
  pub ports :
      (port id : ℕ)
      → t.svc_port_map port ≡ some (record { conn_id = conn_id; route_id = id })
      → listens_on port (t.route_map id) ≡ true

module _ (conn_id id option : ℕ) (ptc_addr ptc_name : String) (port : ℕ) (t : Routes)
    (v : IsValid conn_id t) (new_id : t.route_map id ≡ none)
    (new_name : not (str_eq ptc_name "") && is_some (t.by_ptc_name ptc_name) ≡ false)
    (new_port : t.svc_port_map port ≡ none) where
  entered-IsValid : IsValid conn_id (enter_route conn_id id option ptc_addr ptc_name port t).0
  unfolding enter_route put_route
  entered-IsValid = rw new_port (record {
    keyed = λ i r e. ground (arith, v.keyed i r);
    old = λ i r e. ground (arith, v.old i r);
    named = λ i r e ne.
        ground (arith, v.named i r, eq_iff r.ptc_name ptc_name, eq_iff ptc_name ptc_name);
    names = λ n r e. ground (arith, v.names n r, eq_iff n ptc_name);
    ported = λ i r e. ground (arith, v.ported i r);
    ports = λ p i e. ground (arith, v.ports p i, v.ported i);
  })

-- Taking a route out that the table has.
module _ (conn_id : ℕ) (r : Route) (t : Routes) (v : IsValid conn_id t)
    (here : t.route_map r.id ≡ some r) where
  pub dropped-IsValid : IsValid conn_id (drop_route r t)
  unfolding drop_route
  dropped-IsValid = record {
    keyed = λ i q e. ground (arith, v.keyed i q);
    old = λ i q e. ground (arith, v.old i q);
    named = λ i q e ne.
        ground (arith, v.named i q, v.named r.id r here, v.keyed i q, eq_iff q.ptc_name r.ptc_name);
    names = λ n q e. ground (
      arith,
      v.names n q,
      v.names r.ptc_name q,
      v.named r.id r here,
      eq_iff n r.ptc_name,
      eq_iff r.ptc_name "",
    );
    ported = λ i q e. ground (arith, v.ported i q, v.ported r.id r here);
    ports = λ p i e. ground (arith, v.ports p i, v.ported r.id r here);
  }

-- What adding a route is to do: on an error nothing changes, and the error tells which resource is
-- taken; otherwise the route is entered under its id, and its port leads to it.
abbrev pub AddResult : ℕ → ℕ → String → Option ℕ → Routes → Routes × Added → Type 0
AddResult conn_id id ptc_name listening t (t', failed existent_route) =
    (is_some (t.route_map id) ≡ true) × (t' ≡ t)
AddResult conn_id id ptc_name listening t (t', failed existent_name) =
    (is_some (t.by_ptc_name ptc_name) ≡ true) × (t' ≡ t)
AddResult conn_id id ptc_name listening t (t', failed not_listening) = (listening ≡ none) × (t' ≡ t)
AddResult conn_id id ptc_name listening t (t', failed port_not_unique) =
    (listening ≢ none) × (t' ≡ t)
AddResult conn_id id ptc_name listening t (t', added r) =
    (t.route_map id ≡ none)
    × (t'.route_map id ≡ some r)
    × (listening ≡ some r.svc_port)
    × (t.svc_port_map r.svc_port ≡ none)
    × (t'.svc_port_map r.svc_port ≡ some (record { conn_id = conn_id; route_id = id }))
    × (t'.routes ≡ inc t.routes)

is_none {ℓ} : {A : Type ℓ} → (o : Option A) → is_some o ≡ false → o ≡ none
is_none o e = ground arith

module _ (conn_id id option : ℕ) (ptc_addr ptc_name : String) (t : Routes) where
  abbrev NameIsFree : Type 0
  NameIsFree = not (str_eq ptc_name "") && is_some (t.by_ptc_name ptc_name) ≡ false

  enter_route-IsValid :
      (port : ℕ)
      → IsValid conn_id t
      → is_some (t.route_map id) ≡ false
      → NameIsFree
      → IsValid conn_id (enter_route conn_id id option ptc_addr ptc_name port t).0
  unfolding enter_route
  enter_route-IsValid port v new_id new_name = elim (Option-cases (t.svc_port_map port)) [
    | inl e ↦
        entered-IsValid conn_id id option ptc_addr ptc_name port t v (is_none _ new_id) new_name e
    | inr (c, e) ↦ rw e v
  ]

  -- The part after the checks of the id and the name.
  abbrev pub listen : Option ℕ → Routes × Added
  listen none = (t, failed not_listening)
  listen (some port) = enter_route conn_id id option ptc_addr ptc_name port t

  -- Adding a route to a valid table, with or without success, leaves a valid table: every route is
  -- under its own id, a name leads to the route that has it, and a port to the route that listens on
  -- it, one each.
  pub add_route-IsValid :
      (listening : Option ℕ)
      → IsValid conn_id t
      → IsValid conn_id (add_route conn_id id option ptc_addr ptc_name listening t).0
  unfolding add_route
  add_route-IsValid listening v = elim (Bool-cases (is_some (t.route_map id))) [
    | inl e ↦ rw e v
    | inr new_id ↦
        elim (Bool-cases (not (str_eq ptc_name "") && is_some (t.by_ptc_name ptc_name))) [
          | inl e ↦ rw (new_id, e) v
          | inr new_name ↦
              rw (new_id, new_name)
                (elim listening as (λ l. IsValid conn_id (listen l).0) [
                  | none ↦ v
                  | some port ↦ enter_route-IsValid port v new_id new_name
                ])
        ]
  ]

  -- Whether an addition succeeds, and what it enters, for every outcome of opening the listener. An
  -- error leaves the table as it was and tells that the id is taken, that the name is taken, that
  -- there is no listener, or that there is one but its port is taken. Otherwise the id and the port
  -- were free, the id now leads to the new route, the port to this route of this connection, and the
  -- count of routes has gone up.
  pub add_route-AddResult :
      (listening : Option ℕ)
      → AddResult conn_id id ptc_name listening t
          (add_route conn_id id option ptc_addr ptc_name listening t)
  unfolding add_route enter_route put_route
  add_route-AddResult none = ground arith
  add_route-AddResult (some port) = ground arith

module _ (conn_id : ℕ) (t : Routes) (v : IsValid conn_id t) where
  -- The table after a removal that found `o`.
  abbrev without : Option Route → Routes × Removed
  without none = (t, non_existent)
  without (some r) = (drop_route r t, removed r)

  without-IsValid : (id : ℕ) (o : Option Route) → t.route_map id ≡ o → IsValid conn_id (without o).0
  without-IsValid id none e = v
  without-IsValid id (some r) e = dropped-IsValid conn_id r t v (ground (arith, v.keyed id r e))

  -- Removing the route of an id from a valid table, whether there is one or not, leaves a valid table.
  pub remove_route_by_id-IsValid : (id : ℕ) → IsValid conn_id (remove_route_by_id id t).0
  unfolding remove_route_by_id
  remove_route_by_id-IsValid id = without-IsValid id (t.route_map id) refl
