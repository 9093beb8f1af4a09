-- ===== src/Conns/Targets/Sorted.antt =====
-- server-rxc-job.go: the targets of a job, each once and in the order of the ids.
use hodu.Prelude.{
  ℕ, ◌≡◌, refl, ap, ◌∙◌, Bool, true, false, ◌||◌, some, List, [], ◌∷◌, ◌==◌, if◌then◌else◌, ltb,
  arith, lookup, has_key, HasUniqueKeys,
}
use hodu.Conns.Targets.{insert_by_id, sort_by_id}

abbrev pub is_below : ℕ → List (ℕ × ℕ) → Bool
is_below k [] = true
is_below k ((j, r) ∷ m) = ltb k j

abbrev pub IsSorted : List (ℕ × ℕ) → Type 0
IsSorted [] = Unit
IsSorted ((k, r) ∷ m) = (is_below k m ≡ true) × IsSorted m

insert_by_id-IsSorted :
    (k ref : ℕ) (m : List (ℕ × ℕ))
    → IsSorted m
    → has_key k m ≡ false
    → IsSorted (insert_by_id k ref m)
unfolding insert_by_id
insert_by_id-IsSorted k ref [] s h = (refl, tt)
insert_by_id-IsSorted k ref ((j, r) ∷ []) s h = ground arith
insert_by_id-IsSorted k ref ((j, r) ∷ (i, q) ∷ m) s h =
    ground (arith, insert_by_id-IsSorted k ref ((i, q) ∷ m))

lookup-insert_by_id :
    (k ref i : ℕ) (m : List (ℕ × ℕ))
    → has_key k m ≡ false
    → lookup i (insert_by_id k ref m) ≡ (if k == i then some ref else lookup i m)
unfolding insert_by_id
lookup-insert_by_id k ref i [] h = refl
lookup-insert_by_id k ref i ((j, r) ∷ m) h = ground (arith, lookup-insert_by_id k ref i m)

has_key-insert_by_id :
    (k ref i : ℕ) (m : List (ℕ × ℕ)) → has_key i (insert_by_id k ref m) ≡ (k == i || has_key i m)
unfolding insert_by_id
has_key-insert_by_id k ref i [] = ground arith
has_key-insert_by_id k ref i ((j, r) ∷ m) = ground (arith, has_key-insert_by_id k ref i m)

has_key-sort_by_id : (i : ℕ) (m : List (ℕ × ℕ)) → has_key i (sort_by_id m) ≡ has_key i m
unfolding sort_by_id
has_key-sort_by_id i [] = refl
has_key-sort_by_id i ((k, r) ∷ m) =
    ground (arith, has_key-insert_by_id k r i (sort_by_id m), has_key-sort_by_id i m)

pub lookup-sort_by_id :
    (i : ℕ) (m : List (ℕ × ℕ)) → HasUniqueKeys m → lookup i (sort_by_id m) ≡ lookup i m
unfolding sort_by_id
lookup-sort_by_id i [] u = refl
lookup-sort_by_id i ((k, r) ∷ m) u =
    lookup-insert_by_id k r i (sort_by_id m) (has_key-sort_by_id k m ∙ u.0)
    ∙ ap (λ o. if k == i then some r else o) (lookup-sort_by_id i m u.1)

pub sort_by_id-IsSorted : (m : List (ℕ × ℕ)) → HasUniqueKeys m → IsSorted (sort_by_id m)
unfolding sort_by_id
sort_by_id-IsSorted [] u = tt
sort_by_id-IsSorted ((k, r) ∷ m) u =
    insert_by_id-IsSorted k r (sort_by_id m) (sort_by_id-IsSorted m u.1)
      (has_key-sort_by_id k m ∙ u.0)

insert_by_id-HasUniqueKeys :
    (k ref : ℕ) (m : List (ℕ × ℕ))
    → HasUniqueKeys m
    → has_key k m ≡ false
    → HasUniqueKeys (insert_by_id k ref m)
unfolding insert_by_id
insert_by_id-HasUniqueKeys k ref [] u h = (refl, tt)
insert_by_id-HasUniqueKeys k ref ((j, r) ∷ m) u h =
    ground (arith, insert_by_id-HasUniqueKeys k ref m u.1, has_key-insert_by_id k ref j m)

pub sort_by_id-HasUniqueKeys : (m : List (ℕ × ℕ)) → HasUniqueKeys m → HasUniqueKeys (sort_by_id m)
unfolding sort_by_id
sort_by_id-HasUniqueKeys [] u = tt
sort_by_id-HasUniqueKeys ((k, r) ∷ m) u =
    insert_by_id-HasUniqueKeys k r (sort_by_id m) (sort_by_id-HasUniqueKeys m u.1)
      (has_key-sort_by_id k m ∙ u.0)
