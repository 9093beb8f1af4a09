-- ===== src/Conns/Targets/Resolved.antt =====
-- server-rxc-job.go: a job runs on exactly the connections that its clients name.
use Prim.Native.String.{String}
use text.Mathlib.Text.{◌==◌ as str_eq}
use hodu.Prelude.{
  ℕ, ◌≡◌, ◌⊎◌, ◌↔◌, inl, inr, refl, sym, ◌∙◌, Bool, true, false, ◌||◌, some, List, [], ◌∷◌, ◌==◌,
  ltb, Bool-cases, Option-cases, arith, lookup, HasUniqueKeys, lookup-delete_key,
  has_key-delete_key, delete_key-HasUniqueKeys, parse_uint,
}
use hodu.Prelude.Results.{Result, ok, err}
use hodu.Conns.{Conns, ConnError, refs_of, find_conn_by_id_str}
use hodu.Conns.Valid.{IsValid, lookup-none}
use hodu.Conns.Targets.{
  trim_space, TargetError, no_clients, unknown_client, put_key, collect, sort_by_id,
  or_none_connected, resolve_targets,
}
use hodu.Conns.Targets.Sorted.{
  IsSorted, sort_by_id-IsSorted, lookup-sort_by_id, sort_by_id-HasUniqueKeys,
}

abbrev pub has : ℕ → List ℕ → Bool
has ref [] = false
has ref (r ∷ refs) = r == ref || has ref refs

-- The ids of the connections rise.
abbrev pub first_above : Conns → ℕ → List ℕ → Bool
first_above s id [] = true
first_above s id (r ∷ refs) = ltb id (s.cts r).id

abbrev pub Rises : Conns → List ℕ → Type 0
Rises s [] = Unit
Rises s (r ∷ refs) = (first_above s (s.cts r).id refs ≡ true) × Rises s refs

-- One of the texts, with the spaces around it taken off, is not blank and finds the connection.
abbrev pub Names : List String → Conns → ℕ → Type 0
Names [] s ref = ⊥
Names (client ∷ clients) s ref =
    ((str_eq (trim_space client) "" ≡ false) × (find_conn_by_id_str (trim_space client) s ≡ ok ref))
    ⊎ Names clients s ref

-- One of the texts is not blank and finds nothing.
abbrev pub IsUnknown : List String → Conns → Type 0
IsUnknown [] s = ⊥
IsUnknown (client ∷ clients) s =
    ((str_eq (trim_space client) "" ≡ false)
      × ((e : ConnError) × (find_conn_by_id_str (trim_space client) s ≡ err e)))
    ⊎ IsUnknown clients s

find_conn-cases :
    (r : Result ConnError ℕ) → ((e : ConnError) × (r ≡ err e)) ⊎ ((ref : ℕ) × (r ≡ ok ref))
find_conn-cases (ok ref) = inr (ref, refl)
find_conn-cases (err e) = inl (e, refl)

module _ (s : Conns) (v : IsValid s) where
  found_entered :
      (name : String) (ref : ℕ)
      → find_conn_by_id_str name s ≡ ok ref
      → lookup (s.cts ref).id s.cts_map ≡ some ref
  unfolding find_conn_by_id_str
  found_entered name ref h = elim (Option-cases (parse_uint 64 name)) [
    | inl e ↦ ground (arith, v.tokens name ref)
    | inr (id, e) ↦ ground (arith, v.keyed id ref)
  ]

  -- A map of connections that are in the table.
  abbrev IsPart : List (ℕ × ℕ) → Type 0
  IsPart m =
      HasUniqueKeys m × ((id ref : ℕ) → lookup id m ≡ some ref → lookup id s.cts_map ≡ some ref)

  put_key-IsPart :
      (ref : ℕ) (m : List (ℕ × ℕ))
      → IsPart m
      → lookup (s.cts ref).id s.cts_map ≡ some ref
      → IsPart (put_key (s.cts ref).id ref m)
  put_key-IsPart ref m (u, p) here = (
    (
      ground (arith, has_key-delete_key (s.cts ref).id (s.cts ref).id m),
      delete_key-HasUniqueKeys (s.cts ref).id m u,
    ),
    λ id r e. ground (arith, p id r, lookup-delete_key id (s.cts ref).id m),
  )

  abbrev Collected : List String → List (ℕ × ℕ) → Result TargetError (List (ℕ × ℕ)) → Type 0
  Collected clients m (err e) = (e ≡ unknown_client) × IsUnknown clients s
  Collected clients m (ok m') =
      IsPart m'
      × ((ref : ℕ)
          → (lookup (s.cts ref).id m' ≡ some ref)
            ↔ (Names clients s ref ⊎ (lookup (s.cts ref).id m ≡ some ref)))

  skipped :
      (client : String) (clients : List String) (m : List (ℕ × ℕ))
      (r : Result TargetError (List (ℕ × ℕ)))
      → str_eq (trim_space client) "" ≡ true
      → Collected clients m r
      → Collected (client ∷ clients) m r
  skipped client clients m (err e) blank (same, un) = (same, inr un)
  skipped client clients m (ok m') blank (p, names) = (p, λ ref. ground (arith, names ref))

  taken :
      (client : String) (clients : List String) (found : ℕ) (m : List (ℕ × ℕ))
      (r : Result TargetError (List (ℕ × ℕ)))
      → str_eq (trim_space client) "" ≡ false
      → find_conn_by_id_str (trim_space client) s ≡ ok found
      → IsPart m
      → Collected clients (put_key (s.cts found).id found m) r
      → Collected (client ∷ clients) m r
  taken client clients found m (err e) given f pm (same, un) = (same, inr un)
  taken client clients found m (ok m') given f pm (p, names) = (
    p,
    λ ref. ground (
      arith,
      names ref,
      pm.1 (s.cts ref).id ref,
      found_entered (trim_space client) found f,
      found_entered (trim_space client) ref,
      lookup-delete_key (s.cts ref).id (s.cts found).id m,
    ),
  )

  collect-Collected :
      (clients : List String) (m : List (ℕ × ℕ))
      → IsPart m
      → Collected clients m (collect clients s m)
  unfolding collect
  collect-Collected [] m p = (p, λ ref. (λ e. inr e, λ o. elim o [ inl x ↦ absurd x | inr e ↦ e ]))
  collect-Collected (client ∷ clients) m p = elim (Bool-cases (str_eq (trim_space client) "")) [
    | inl blank ↦
        rw (collect, blank)
          (skipped client clients m (collect clients s m) blank (collect-Collected clients m p))
    | inr given ↦ elim (find_conn-cases (find_conn_by_id_str (trim_space client) s)) [
      | inl (e, f) ↦ rw (collect, given, f) (refl, inl (given, (e, f)))
      | inr (found, f) ↦
          rw (collect, given, f)
            (taken client clients found m (collect clients s (put_key (s.cts found).id found m))
              given f p
              (collect-Collected clients (put_key (s.cts found).id found m)
                (put_key-IsPart found m p (found_entered (trim_space client) found f))))
    ]
  ]

  rest-IsPart : (k r : ℕ) (m : List (ℕ × ℕ)) → IsPart ((k, r) ∷ m) → IsPart m
  rest-IsPart k r m (u, p) = (u.1, λ id ref e. ground (arith, p id ref, lookup-none k m u.0))

  head_keyed : (k r : ℕ) (m : List (ℕ × ℕ)) → IsPart ((k, r) ∷ m) → (s.cts r).id ≡ k
  head_keyed k r m (u, p) = v.keyed k r (p k r (ground arith))

  has-refs_of :
      (ref : ℕ) (m : List (ℕ × ℕ))
      → IsPart m
      → (has ref (refs_of m) ≡ true) ↔ (lookup (s.cts ref).id m ≡ some ref)
  has-refs_of ref [] p = ground arith
  has-refs_of ref ((k, r) ∷ m) p =
      ground
        (arith, has-refs_of ref m (rest-IsPart k r m p), head_keyed k r m p, lookup-none k m p.0.0)

  refs_of-Rises : (m : List (ℕ × ℕ)) → IsPart m → IsSorted m → Rises s (refs_of m)
  refs_of-Rises [] p o = tt
  refs_of-Rises ((k, r) ∷ []) p o = (refl, tt)
  refs_of-Rises ((k, r) ∷ (j, q) ∷ m) p o =
      let rest = rest-IsPart k r ((j, q) ∷ m) p in
      (
        ground (arith, head_keyed k r ((j, q) ∷ m) p, head_keyed j q m rest),
        refs_of-Rises ((j, q) ∷ m) rest o.1,
      )

  sort_by_id-IsPart : (m : List (ℕ × ℕ)) → IsPart m → IsPart (sort_by_id m)
  sort_by_id-IsPart m (u, p) =
      (sort_by_id-HasUniqueKeys m u, λ id ref e. p id ref (sym (lookup-sort_by_id id m u) ∙ e))

  -- What the targets for some texts are to be.
  abbrev pub Resolved : List String → Result TargetError (List ℕ) → Type 0
  Resolved clients (ok refs) =
      Rises s refs × ((ref : ℕ) → (has ref refs ≡ true) ↔ Names clients s ref)
  Resolved clients (err unknown_client) = IsUnknown clients s
  Resolved clients (err no_clients) = (ref : ℕ) → ¬ Names clients s ref

  listed-Resolved :
      (clients : List String) (refs : List ℕ)
      → Rises s refs
      → ((ref : ℕ) → (has ref refs ≡ true) ↔ Names clients s ref)
      → Resolved clients (or_none_connected refs)
  listed-Resolved clients [] rises names = λ ref n. absurd (ground (arith, (names ref).1 n))
  listed-Resolved clients (r ∷ refs) rises names = (rises, names)

  Collected-Resolved :
      (clients : List String) (r : Result TargetError (List (ℕ × ℕ)))
      → Collected clients [] r
      → Resolved clients
          (elim r [ err e ↦ err e | ok dedupe ↦ or_none_connected (refs_of (sort_by_id dedupe)) ])
  Collected-Resolved clients (err unknown_client) (same, un) = un
  Collected-Resolved clients (err no_clients) (same, un) = absurd (ground arith)
  Collected-Resolved clients (ok m) (p, names) =
      let q = sort_by_id-IsPart m p in
      listed-Resolved clients (refs_of (sort_by_id m))
        (refs_of-Rises (sort_by_id m) q (sort_by_id-IsSorted m p.0))
        (λ ref. ground (
          arith,
          has-refs_of ref (sort_by_id m) q,
          lookup-sort_by_id (s.cts ref).id m p.0,
          names ref,
        ))

-- With valid tables and at least one text, the outcome is an error of an unknown client, where a text
-- that is not blank finds no connection; or an error that there is none, where no text that is not
-- blank finds one; or the targets, which are exactly the connections that such texts find, each
-- once, in the order of their ids.
pub resolve_targets-Resolved :
    (client : String) (clients : List String) (s : Conns) (v : IsValid s)
    → Resolved s v (client ∷ clients) (resolve_targets (client ∷ clients) s)
unfolding resolve_targets
resolve_targets-Resolved client clients s v =
    Collected-Resolved s v (client ∷ clients) (collect (client ∷ clients) s [])
      (collect-Collected s v (client ∷ clients) [] (tt, λ id ref e. absurd (ground arith)))
