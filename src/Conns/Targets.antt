-- ===== src/Conns/Targets.antt =====
-- server-rxc-job.go: the connections that a job runs on (`resolve_server_rxc_targets`).
-- The map that drops repeated connections is an association list; sort.Slice is an insertion sort,
-- which gives the same slice, as no two entries have the same id.
pub mod Resolved
pub mod Sorted
use Prim.Native.Char.{code}
use Prim.Native.String.{String}
use text.Mathlib.Text.{◌==◌ as str_eq}
use hodu.Prelude.{
  ℕ, Bool, true, false, List, [], ◌∷◌, if◌then◌else◌, ltb, delete_key, Option, none, some,
}
use hodu.Prelude.Results.{Result, ok, err}
use hodu.Prelude.Texts.{is_space}
use hodu.Conns.{Conn, Conns, ConnError, refs_of, find_conn_by_id_str}

abbrev trim_left : String → String
trim_left String.[] = String.[]
trim_left (String.◌∷◌ c s) = if is_space (code c) then trim_left s else String.◌∷◌ c s

abbrev trim_right : String → String
trim_right String.[] = String.[]
trim_right (String.◌∷◌ c s) =
    let t = trim_right s in
    if str_eq t ""
    then (if is_space (code c) then String.[] else String.◌∷◌ c String.[])
    else String.◌∷◌ c t

-- strings.TrimSpace
unfoldable pub trim_space : String → String
trim_space s = trim_right (trim_left s)

pub data TargetError : Type 0 where
  no_clients unknown_client : TargetError

abbrev pub put_key : ℕ → ℕ → List (ℕ × ℕ) → List (ℕ × ℕ)
put_key k ref m = (k, ref) ∷ delete_key k m

-- The loop over the texts, with the map of what it has found.
unfoldable pub collect : List String → Conns → List (ℕ × ℕ) → Result TargetError (List (ℕ × ℕ))
unfolding trim_space
collect [] s dedupe = ok dedupe
collect (client ∷ clients) s dedupe =
    if str_eq (trim_space client) ""
    then collect clients s dedupe
    else elim (find_conn_by_id_str (trim_space client) s) [
      | err e ↦ err unknown_client
      | ok ref ↦ collect clients s (put_key (s.cts ref).id ref dedupe)
    ]

unfoldable pub insert_by_id : ℕ → ℕ → List (ℕ × ℕ) → List (ℕ × ℕ)
insert_by_id k ref [] = (k, ref) ∷ []
insert_by_id k ref ((j, r) ∷ m) =
    let rest = insert_by_id k ref m in if ltb k j then (k, ref) ∷ (j, r) ∷ m else (j, r) ∷ rest

unfoldable pub sort_by_id : List (ℕ × ℕ) → List (ℕ × ℕ)
unfolding insert_by_id
sort_by_id [] = []
sort_by_id ((k, ref) ∷ m) = insert_by_id k ref (sort_by_id m)

abbrev pub or_none_connected : List ℕ → Result TargetError (List ℕ)
or_none_connected [] = err no_clients
or_none_connected (ref ∷ refs) = ok (ref ∷ refs)

-- resolve_server_rxc_targets
unfoldable pub resolve_targets : List String → Conns → Result TargetError (List ℕ)
unfolding collect sort_by_id
resolve_targets [] s = or_none_connected (refs_of s.cts_map)
resolve_targets (client ∷ clients) s = elim (collect (client ∷ clients) s []) [
  | err e ↦ err e
  | ok dedupe ↦ or_none_connected (refs_of (sort_by_id dedupe))
]
