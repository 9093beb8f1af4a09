-- ===== src/Lookup/Names.antt =====
-- server.go: a route is found by exactly the texts that name it.
use Prim.Native.String.{String}
use text.Mathlib.Text.{◌==◌ as str_eq}
use hodu.Prelude.{
  ℕ, ◌≡◌, ◌⊎◌, ◌↔◌, inl, inr, refl, sym, ap, ◌∙◌, false, Option, none, some, Option-cases, arith,
  lookup, parse_uint,
}
use hodu.Prelude.Options.{◌>>=◌, bind-some}
use hodu.Prelude.Results.{ok}
use hodu.Conns.{Conns}
use hodu.Conns.Valid.{IsValid as ConnsIsValid}
use hodu.Conns.Naming.{IsNameOf}
use hodu.Route.Routes.{Route, Routes, ConnRouteId}
use hodu.Route.Routes.Valid.{IsValid as RoutesIsValid}
use hodu.Lookup.{
  Server, Found, found, find_route_by_id, find_route_by_id_and_ptc_name,
  find_route_by_token_and_route_id, find_route_by_token_and_ptc_name, find_route_by_names,
  find_route_by_id_str, or_not_found, port_id_marker,
}

-- The tables of a connection with the server's table of ports.
abbrev pub with_ports : Server → ℕ → Routes
with_ports s cts = record (s.tables cts) { svc_port_map = s.svc_port_map }

pub record IsValid (s : Server) : Type 0 where
  pub conns : ConnsIsValid s.conns
  pub routes :
      (id cts : ℕ) → lookup id s.conns.cts_map ≡ some cts → RoutesIsValid id (with_ports s cts)

-- The text is the route's number, or it is no number and the name of the route, which is not blank.
abbrev pub IsRouteName : Route → String → Type 0
IsRouteName r text =
    (parse_uint 32 text ≡ some r.id)
    ⊎ ((parse_uint 32 text ≡ none) × (str_eq text "" ≡ false) × (r.ptc_name ≡ text))

-- A lookup in two parts: the connection, and then the route in its tables.
abbrev pub conn_of : Option ℕ → String → Conns → Option ℕ
conn_of (some id) conn c = lookup id c.cts_map
conn_of none conn c = c.by_token conn

abbrev pub route_of : Option ℕ → String → Routes → Option Route
route_of (some route_id) route t = t.route_map route_id
route_of none route t = t.by_ptc_name route

find_route_by_names-parts :
    (o p : Option ℕ) (conn route : String) (s : Server)
    → find_route_by_names o p conn route s
      ≡ (conn_of o conn s.conns >>= λ cts. found cts (route_of p route (s.tables cts)))
unfolding find_route_by_names find_route_by_id find_route_by_id_and_ptc_name
    find_route_by_token_and_route_id find_route_by_token_and_ptc_name
find_route_by_names-parts (some id) (some route_id) conn route s = refl
find_route_by_names-parts (some id) none conn route s = refl
find_route_by_names-parts none (some route_id) conn route s = refl
find_route_by_names-parts none none conn route s = refl

conn_of-IsNameOf :
    (conn : String) (ref : ℕ) (c : Conns)
    → ConnsIsValid c
    → lookup (c.cts ref).id c.cts_map ≡ some ref
    → (conn_of (parse_uint 64 conn) conn c ≡ some ref) ↔ IsNameOf c ref conn
conn_of-IsNameOf conn ref c v here = elim (Option-cases (parse_uint 64 conn)) [
  | inl e ↦ rw e (ground (arith, v.tokens conn ref, v.reached (c.cts ref).id ref here))
  | inr (id, e) ↦
      rw e (ground (arith, v.keyed id ref, v.tokens conn ref, v.reached (c.cts ref).id ref here))
]

route_of-IsRouteName :
    (text : String) (r : Route) (id : ℕ) (t : Routes) (ports : ℕ → Option ConnRouteId)
    → RoutesIsValid id (record t { svc_port_map = ports })
    → t.route_map r.id ≡ some r
    → (route_of (parse_uint 32 text) text t ≡ some r) ↔ IsRouteName r text
route_of-IsRouteName text r id t ports v has = elim (Option-cases (parse_uint 32 text)) [
  | inl e ↦ rw e (ground (arith, v.names text r, v.named r.id r has))
  | inr (n, e) ↦ rw e (ground (arith, v.keyed n r, has))
]

found-parts :
    (cts : ℕ) (o : Option Route) (f : Found)
    → found cts o ≡ some f
    → (cts ≡ f.cts) × (o ≡ some f.route)
found-parts cts none f h = absurd (ground arith)
found-parts cts (some r) f h = (ground arith, ground arith)

or_not_found-ok : (o : Option Found) (f : Found) → (or_not_found o ≡ ok f) ↔ (o ≡ some f)
or_not_found-ok none f = ground arith
or_not_found-ok (some g) f = ground arith

-- In valid tables, for a route of a connection, and a text for the route that is not the marker of
-- ports: the two texts find the route exactly if the first is the connection's number or its token,
-- and the second is the route's number, or reads as no number and is the name of the route.
pub find_route_by_id_str-names :
    (conn route : String) (f : Found) (s : Server)
    → IsValid s
    → lookup (s.conns.cts f.cts).id s.conns.cts_map ≡ some f.cts
    → (s.tables f.cts).route_map f.route.id ≡ some f.route
    → str_eq route port_id_marker ≡ false
    → (find_route_by_id_str conn route s ≡ ok f)
      ↔ (IsNameOf s.conns f.cts conn × IsRouteName f.route route)
unfolding find_route_by_id_str
find_route_by_id_str-names conn route f s v here has named =
    let o = parse_uint 64 conn in
    let p = parse_uint 32 route in
    let parts = find_route_by_names-parts o p conn route s in
    let back = or_not_found-ok (find_route_by_names o p conn route s) f in
    let by_conn = conn_of-IsNameOf conn f.cts s.conns v.conns here in
    let by_route =
      route_of-IsRouteName route f.route (s.conns.cts f.cts).id (s.tables f.cts) s.svc_port_map
        (v.routes (s.conns.cts f.cts).id f.cts here) has in
    rw (find_route_by_id_str, named)
      (
        λ e.
            let (cts, ec, ef) = bind-some (conn_of o conn s.conns) (sym parts ∙ back.0 e) in
            let (same, er) = found-parts cts (route_of p route (s.tables cts)) f ef in
            (
              by_conn.0 (ec ∙ ap some same),
              by_route.0 (ap (λ k. route_of p route (s.tables k)) (sym same) ∙ er),
            ),
        λ (n, m). back.1 (parts ∙ rw (by_conn.1 n, by_route.1 m) refl),
      )
