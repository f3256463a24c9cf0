-- ===== src/Dream/Redirect/Termination.antt =====
-- The loop of `_root` (janus_graph/pipeline/dedup.py, dedup_apply.py) ends, on cycles too.
use janus_graph.Base.{
  ℕ, zero, suc, Text, text_eq, text_eq_iff, List, [], ◌∷◌, ◌≡◌, ◌≤◌, ◌<◌, arith, false, some, any,
  not, length, count, Bool-cases, Option-cases, inl, inr,
}
use janus_graph.Dream.Redirect.{Map, lookup, root_from, root}

-- How many entries have a key that was not visited.
abbrev unvisited : List Text → Map → ℕ
unvisited seen m = count (λ (e : Text × Text). not (any (text_eq e.0) seen)) m

unvisited-le-length : (seen : List Text) (m : Map) → unvisited seen m ≤ length m
unfolding count
unvisited-le-length seen [] = omega arith
unvisited-le-length seen (e ∷ m) = ground (arith, unvisited-le-length seen m)

unvisited_shrinks :
    (u : Text) (seen : List Text) (m : Map) → unvisited (u ∷ seen) m ≤ unvisited seen m
unfolding count any
unvisited_shrinks u seen [] = omega arith
unvisited_shrinks u seen (e ∷ m) = ground (arith, unvisited_shrinks u seen m)

-- A visit to a new key leaves fewer.
unvisited_falls :
    (u v : Text) (seen : List Text) (m : Map)
    → any (text_eq u) seen ≡ false
    → lookup u m ≡ some v
    → unvisited (u ∷ seen) m < unvisited seen m
unfolding count any lookup
unvisited_falls u v seen [] new e = cc
unvisited_falls u v seen ((k, w) ∷ m) new e = elim (Bool-cases (text_eq k u)) [
  | inl h ↦
      let same = (text_eq_iff k u).0 h in
      let new' : any (text_eq k) seen ≡ false = cc (new, same) in
      rw (h, new') (omega (arith, unvisited_shrinks u seen m))
  | inr h ↦ ground (arith, unvisited_falls u v seen m)
]

root_from_stable :
    (m : Map) (f g : ℕ) (seen : List Text) (u : Text)
    → unvisited seen m < f
    → unvisited seen m < g
    → root_from f seen m u ≡ root_from g seen m u
unfolding root_from
root_from_stable m zero g seen u p q = absurd (omega arith)
root_from_stable m (suc f) zero seen u p q = absurd (omega arith)
root_from_stable m (suc f) (suc g) seen u p q = elim (Bool-cases (any (text_eq u) seen)) [
  | inl old ↦ rw (old, root_from)
  | inr new ↦ elim (Option-cases (lookup u m)) [
    | inl e ↦ rw (new, e, root_from)
    | inr (v, e) ↦
        let less = unvisited_falls u v seen m new e in
        rw (new, e, root_from)
          (root_from_stable m f g (u ∷ seen) v (omega (arith, less)) (omega (arith, less)))
  ]
]

-- The walk to the root of a victim ends within one round more than there are entries, in any
-- dictionary, cyclic ones included: more rounds give the same node.
pub root_from-root :
    (m : Map) (uuid : Text) (fuel : ℕ) → length m < fuel → root_from fuel [] m uuid ≡ root m uuid
unfolding root
root_from-root m uuid fuel h =
    let few = unvisited-le-length [] m in
    root_from_stable m fuel (suc (length m)) [] uuid (omega (arith, few)) (omega (arith, few))
