-- ===== src/Dream/Redirect.antt =====
-- The dictionary from victims to survivors, and the chains in it: `_root` of `plan_dedup` in
-- janus_graph/pipeline/dedup.py and of `_root_map` in janus_graph/pipeline/dedup_apply.py.
use janus_graph.Base.{
  ℕ, zero, suc, Text, text_eq, List, [], ◌∷◌, Bool, true, false, Option, none, some, any, length,
  is_none, not, if◌then◌else◌,
}
pub mod Chains
pub mod Termination

-- A dictionary, in the order of insertion.
abbrev pub Map : Type 0
Map = List (Text × Text)

unfoldable pub lookup : Text → Map → Option Text
lookup k [] = none
lookup k ((j, v) ∷ m) = if text_eq j k then some v else lookup k m

-- `uuid in victims`
abbrev pub has_key : Text → Map → Bool
has_key k m = not (is_none (lookup k m))

-- `victims[k] = v`
unfoldable pub assign : Text → Text → Map → Map
assign k v [] = (k, v) ∷ []
assign k v ((j, w) ∷ m) = if text_eq j k then (j, v) ∷ m else (j, w) ∷ assign k v m

-- The `while` loop of `_root`, on fuel.
pub root_from : ℕ → List Text → Map → Text → Text
unfolding lookup
root_from zero seen m cur = cur
root_from (suc fuel) seen m cur = elim (any (text_eq cur) seen) [
  | true ↦ cur
  | false ↦ elim (lookup cur m) [ none ↦ cur | some next ↦ root_from fuel (cur ∷ seen) m next ]
]

-- Each round visits another key, so one round more than there are keys is enough.
pub root : Map → Text → Text
unfolding root_from
root m uuid = root_from (suc (length m)) [] m uuid

-- `redirect.get(uuid, uuid)` where `redirect = {v: _root(v) for v in victims}`
unfoldable pub resolve : Map → Text → Text
unfolding root lookup
resolve m uuid = if has_key uuid m then root m uuid else uuid
