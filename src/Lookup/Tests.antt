-- ===== src/Lookup/Tests.antt =====
-- The theorem on lookups at a concrete input.
use Prim.Native.String.{String}
use text.Mathlib.Text.{◌==◌ as str_eq}
use text.Mathlib.TextEquality.{eq_iff}
use hodu.Prelude.{
  ℕ, ◌≡◌, ◌↔◌, subst, refl, sym, ap, ◌∙◌, inl, inr, Bool-cases, false, none, some, [], ◌∷◌, ◌==◌,
  if◌then◌else◌, arith, pos, parse_uint,
}
use hodu.Prelude.Results.{ok}
use hodu.Conns.{Conns}
use hodu.Conns.Valid.{IsValid as ConnsIsValid}
use hodu.Conns.Naming.{IsNameOf}
use hodu.Route.Routes.{Route, Routes}
use hodu.Route.Routes.Valid.{IsValid as RoutesIsValid}
use hodu.Lookup.{Server, find_route_by_id_str}
use hodu.Lookup.Names.{IsValid, IsRouteName, find_route_by_id_str-names}

-- The connection 1 calls itself "db", and its route 5 is named "web".
abbrev conns : Conns
conns = record {
  cts_limit = pos 2;
  cts_next_id = 2;
  cts_map = (1, 0) ∷ [];
  by_addr = λ a. if a == 70 then some 0 else none;
  by_token = λ t. if str_eq t "db" then some 0 else none;
  conns = 1;
  cts = λ r. record { id = 1; remote_addr = 70; client_token = "db"; stop_req = false; stops = 0 };
  next_ref = 1;
}

abbrev web : Route
web = record {
  ref = 0;
  id = 5;
  option = 1;
  ptc_addr = "10.0.0.1:80";
  ptc_name = "web";
  svc_port = 80;
}

abbrev routes : Routes
routes = record {
  route_map = λ id. if id == 5 then some web else none;
  by_ptc_name = λ n. if str_eq n "web" then some web else none;
  svc_port_map = λ p. if p == 80 then some (record { conn_id = 1; route_id = 5 }) else none;
  routes = pos 1;
  next_ref = 1;
}

abbrev server : Server
server = record {
  conns = conns;
  tables = λ cts. routes;
  svc_port_map = routes.svc_port_map;
  peers = λ r. [];
}

db_is_no_number : parse_uint 64 "db" ≡ none
unfolding parse_uint
db_is_no_number = refl

only_under :
    {A : Type 0} (k t : String) (a b : A)
    → (if str_eq t k then some a else none) ≡ some b
    → (t ≡ k) × (a ≡ b)
only_under k t a b e = elim (Bool-cases (str_eq t k)) [
  | inl same ↦ (ground (arith, eq_iff t k), ground arith)
  | inr other ↦ absurd (ground arith)
]

only_at : {A : Type 0} (k i : ℕ) (a b : A) → (if i == k then some a else none) ≡ some b → a ≡ b
only_at k i a b e = ground arith

conns-IsValid : ConnsIsValid conns
conns-IsValid = record {
  unique = ground arith;
  keyed = λ i r e. ground arith;
  ranged = λ i r e. ground arith;
  old = λ i r e. ground arith;
  addressed = λ i r e. ground arith;
  reached = λ i r e ne. ground arith;
  addrs = λ a r e. ground arith;
  tokens = λ t r e.
      let (same, this) = only_under "db" t 0 r e in
      (
        sym same,
        ap (λ k. str_eq k "") same,
        ap (parse_uint 64) same ∙ db_is_no_number,
        ap some this,
      );
  counted = refl;
  within = λ n e n0. ground arith;
  next_pos = omega arith;
  next_lt = omega arith;
}

routes-IsValid : RoutesIsValid 1 routes
routes-IsValid = record {
  keyed = λ i r e. ground arith;
  old = λ i r e. ground arith;
  named = λ i r e n. subst (λ q. routes.by_ptc_name q.ptc_name ≡ some q) (only_at 5 i web r e) refl;
  names = λ n r e.
      let (same, this) = only_under "web" n web r e in
      subst (λ q. (routes.route_map q.id ≡ some q) × (q.ptc_name ≡ n) × (str_eq n "" ≡ false)) this
        (refl, sym same, ap (λ k. str_eq k "") same);
  ported = λ i r e. ground arith;
  ports = λ p i e. ground arith;
}

server-IsValid : IsValid server
server-IsValid = record {
  conns = conns-IsValid;
  routes = λ id cts e. subst (λ k. RoutesIsValid k routes) (ground arith) routes-IsValid;
}

find_route_by_id_str-names_example :
    (find_route_by_id_str "db" "5" server ≡ ok (record { cts = 0; route = web }))
    ↔ (IsNameOf conns 0 "db" × IsRouteName web "5")
find_route_by_id_str-names_example =
    find_route_by_id_str-names "db" "5" (record { cts = 0; route = web }) server server-IsValid refl
      refl refl
