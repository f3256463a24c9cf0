-- ===== src/Dream/Plan/Examples.antt =====
-- Tests of the planners of phase 2 (janus_graph/pipeline/dedup.py).
use janus_graph.Base.{
  ℕ, Text, text_eq, codes, List, [], ◌∷◌, ◌≡◌, refl, ◌+◌, ◌*◌, ◌<◌, ◌≤◌, arith, Bool, true, false,
  not, Option, none, some, any, filter, length, All,
}
use janus_graph.Dream.Similarity.{Score}
use janus_graph.Dream.Groups.{group_by}
use janus_graph.Dream.Redirect.{Map, has_key, root, root_from, resolve}
use janus_graph.Dream.Redirect.Termination.{root_from-root}
use janus_graph.Dream.Planner.{collapse}
use janus_graph.Dream.Planner.Pairs.{AllPairs, IsBelow}
use janus_graph.Dream.Planner.Complete.{left_by}
use janus_graph.Dream.Planner.Merges.{has_uuid, collapse_stable}
use janus_graph.Dream.Plan.{plan_dedup, redirect_of, same_name, total_relations_removed}
use janus_graph.Dream.Plan.Survivors.{planned, resolve-Survives}
use janus_graph.Dream.Plan.Sound.{IsMerge, plan_dedup-IsMerge}
use janus_graph.Dream.Plan.Complete.{plan_dedup-IsBelow}
use janus_graph.Dream.Plan.Counts.{copies, relations_removed-copies}
use janus_graph.Dream.Episodics.{plan_episodic_exact_dups}
use janus_graph.Dream.Episodics.Exact.{IsFold, plan_episodic_exact_dups-IsFold}
use janus_graph.Base.{find}
use janus_graph.Dream.Samples.{
  half, nodes, edge, mention_edges, relation_edges, nodes-Unique, cycle, episode,
}

resolve-Survives_example :
    let m = redirect_of (planned nodes mention_edges relation_edges half) in
    (has_key (resolve m (codes "a")) m ≡ false) × (has_uuid (resolve m (codes "a")) nodes ≡ true)
unfolding any text_eq
resolve-Survives_example =
    resolve-Survives nodes mention_edges relation_edges half (codes "a") nodes-Unique refl

plan_dedup-IsMerge_example :
    All (IsMerge half nodes) (plan_dedup nodes mention_edges relation_edges half).merges
plan_dedup-IsMerge_example = plan_dedup-IsMerge half nodes mention_edges relation_edges

plan_dedup-IsBelow_example :
    All
      (λ ns.
        AllPairs
          (IsBelow half)
          (left_by (plan_dedup nodes mention_edges relation_edges half).merges ns))
      (group_by same_name nodes)
plan_dedup-IsBelow_example = plan_dedup-IsBelow half nodes mention_edges relation_edges nodes-Unique

collapse_stable_example :
    collapse 3 half (codes "n") half nodes ≡ collapse 7 half (codes "n") half nodes
collapse_stable_example =
    collapse_stable half (codes "n") 3 7 half nodes (omega arith) (omega arith)

root_from-root_example : root_from 9 [] cycle (codes "a") ≡ root cycle (codes "a")
root_from-root_example = root_from-root cycle (codes "a") 9 (omega arith)

relations_removed-copies_example :
    total_relations_removed
      (plan_dedup nodes mention_edges (copies 3 (edge (codes "a") (codes "b"))) half)
    ≡ 5
unfolding plan_dedup redirect_of janus_graph.Dream.Redirect.lookup text_eq
    janus_graph.Dream.Similarity.jaccard janus_graph.Dream.Similarity.tokenize any
    janus_graph.Base.count filter resolve
relations_removed-copies_example =
    relations_removed-copies nodes mention_edges half (edge (codes "a") (codes "b")) 2 refl refl

plan_episodic_exact_dups-IsFold_example :
    All
      (IsFold (episode (codes "d") ∷ episode (codes "e") ∷ []))
      (plan_episodic_exact_dups (λ s. s) (episode (codes "d") ∷ episode (codes "e") ∷ []))
plan_episodic_exact_dups-IsFold_example =
    plan_episodic_exact_dups-IsFold (λ s. s) (episode (codes "d") ∷ episode (codes "e") ∷ [])
      (((λ h. h), ((λ h. h), tt)), (((λ h. h), ((λ h. h), tt)), tt))
