-- ===== src/Dream/Plan/Complete.antt =====
-- A plan leaves nothing to merge (`plan_dedup` in janus_graph/pipeline/dedup.py).
use janus_graph.Base.{
  text_eq, List, [], ◌∷◌, ◌++◌, ◌≡◌, refl, subst, arith, true, false, any, ◌||◌, not, All,
  Bool-cases, inl, inr, length, filter, ltb,
}
use mathlib.Core.List.{append_assoc}
use janus_graph.Dream.Similarity.{Score}
use janus_graph.Dream.Groups.{group_by, concat}
use janus_graph.Dream.Planner.{Node, Merge, uuid_of}
use janus_graph.Dream.Planner.Pairs.{AllPairs, AllPairs-filter, IsBelow}
use janus_graph.Dream.Planner.Complete.{is_victim, left_by, collapse-IsBelow}
use janus_graph.Dream.Plan.{Edge, same_name, cluster_name, merge_clusters, plan_dedup}
use janus_graph.Dream.Plan.Unique.{Unique, Unique-group_by, Unique-append, Apart-of_Unique}
use janus_graph.Dream.Plan.Clusters.{here_of, merges_of}

is_victim-append :
    (xs ys : List Merge) (n : Node) → is_victim (xs ++ ys) n ≡ (is_victim xs n || is_victim ys n)
unfolding any
is_victim-append [] ys n = refl
is_victim-append (g ∷ xs) ys n = ground (arith, is_victim-append xs ys n)

-- Further merges only take more away.
left_by-around :
    (xs here ys : List Merge) (nodes : List Node)
    → left_by (xs ++ (here ++ ys)) nodes
      ≡ filter (λ n. not (is_victim (xs ++ ys) n)) (left_by here nodes)
unfolding filter
left_by-around xs here ys [] = refl
left_by-around xs here ys (n ∷ nodes) = ground (
  arith,
  left_by-around xs here ys nodes,
  is_victim-append xs (here ++ ys) n,
  is_victim-append here ys n,
  is_victim-append xs ys n,
)

-- In a cluster of fewer than two nodes there is no pair.
few-IsBelow :
    (threshold : Score) (nodes : List Node)
    → ltb (length nodes) 2 ≡ true
    → AllPairs (IsBelow threshold) nodes
few-IsBelow threshold [] h = tt
few-IsBelow threshold (n ∷ []) h = (tt, tt)
few-IsBelow threshold (n ∷ m ∷ nodes) h = absurd (ground arith)

module _ (threshold : Score) where
  here-IsBelow :
      (observed : Score) (nodes : List Node)
      → AllPairs (λ a b. text_eq (uuid_of a) (uuid_of b) ≡ false) nodes
      → AllPairs (IsBelow threshold) (left_by (here_of threshold observed nodes).merges nodes)
  here-IsBelow observed nodes h = elim (Bool-cases (ltb (length nodes) 2)) [
    | inl e ↦
        AllPairs-filter (IsBelow threshold)
          (λ n. not (is_victim (here_of threshold observed nodes).merges n)) nodes
          (few-IsBelow threshold nodes e)
    | inr e ↦ rw e (
        collapse-IsBelow threshold (cluster_name nodes) (length nodes) observed nodes (omega arith)
          h)
  ]

  clusters-IsBelow :
      (observed : Score) (before : List Merge) (clusters : List (List Node))
      → Unique (concat clusters)
      → All
          (λ nodes.
            AllPairs
              (IsBelow threshold)
              (left_by (before ++ merges_of threshold observed clusters) nodes))
          clusters
  unfolding merge_clusters concat
  clusters-IsBelow observed before [] u = tt
  clusters-IsBelow observed before (nodes ∷ clusters) u =
      let here = here_of threshold observed nodes in
      let later = merges_of threshold here.observed clusters in
      let parts = Unique-append nodes (concat clusters) u in
      (
        rw (left_by-around before here.merges later nodes) (
            AllPairs-filter (IsBelow threshold) (λ n. not (is_victim (before ++ later) n))
              (left_by here.merges nodes)
              (here-IsBelow observed nodes (Apart-of_Unique nodes parts.0))),
        subst (λ ms. All (λ ns. AllPairs (IsBelow threshold) (left_by ms ns)) clusters)
            (append_assoc before here.merges later)
            (clusters-IsBelow here.observed (before ++ here.merges) clusters parts.1),
      )

  -- If the entities have different uuids, then among those of one name that a plan keeps no two
  -- are similar enough for another merge.
  pub plan_dedup-IsBelow :
      (entities : List Node) (mentions relations : List Edge)
      → Unique entities
      → All
          (λ nodes.
            AllPairs
              (IsBelow threshold)
              (left_by (plan_dedup entities mentions relations threshold).merges nodes))
          (group_by same_name entities)
  unfolding plan_dedup
  plan_dedup-IsBelow entities mentions relations u =
      clusters-IsBelow (record { num = 0; den = 1 }) [] (group_by same_name entities)
        (Unique-group_by same_name entities u)
