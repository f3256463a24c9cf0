-- ===== src/Dream/Examples.antt =====
-- Tests of the execution of phase 2 (janus_graph/pipeline/dedup_apply.py).
use janus_graph.Base.{
  ℕ, Text, text_eq, codes, List, [], ◌∷◌, ◌≡◌, refl, ◌+◌, ◌*◌, ◌<◌, ◌≤◌, arith, Bool, true, false,
  not, Option, none, some, any, filter, length, All,
}
use janus_graph.Dream.Similarity.{Score}
use janus_graph.Dream.Redirect.{Map, has_key, root, root_from, resolve}
use janus_graph.Dream.Plan.{plan_dedup, redirect_of}
use janus_graph.Dream.Graph.{has_entity}
use janus_graph.Dream.Phases.{victims_of}
use janus_graph.Dream.Apply.{apply_plan}
use janus_graph.Dream.Apply.Attached.{IsAttached}
use janus_graph.Dream.Apply.Mentions
use janus_graph.Dream.Apply.Safety.{
  redirect, is_kept, apply_plan-Carried, apply_plan-CarriedBy, apply_plan-IsAttached,
  apply_plan-has_entity,
}
use janus_graph.Dream.Rewire.{episodic_redirect}
use janus_graph.Dream.Episodic.{apply_episodic_plan}
use janus_graph.Dream.Episodic.Precondition.{
  undo_rows_of, IsRecorded, apply_episodic_plan-IsRecorded,
}
use janus_graph.Base.{find}
use janus_graph.Dream.Samples.{
  half, nodes, mention_edges, relation_edges, nodes-Unique, graph, world, ends_survive, attached,
  fold_e, writer,
}

apply_plan-Carried_example :
    All
      (λ e.
        any
          (Mentions.stands_for (redirect nodes mention_edges relation_edges half) e)
          (apply_plan
            (plan_dedup nodes mention_edges relation_edges half)
            true
            200
            world).world.graph.mentions
        ≡ true)
      graph.mentions
apply_plan-Carried_example =
    apply_plan-Carried nodes mention_edges relation_edges half true 200 world nodes-Unique

apply_plan-CarriedBy_example :
    All
      (λ e.
        is_kept nodes mention_edges relation_edges half
          (apply_plan
            (plan_dedup nodes mention_edges relation_edges half)
            true
            200
            world).world.graph.relations
          e
        ≡ true)
      graph.relations
apply_plan-CarriedBy_example =
    apply_plan-CarriedBy nodes mention_edges relation_edges half true 200 world nodes-Unique
      (((λ h k. refl), tt), tt) (ends_survive, tt)

apply_plan-IsAttached_example :
    IsAttached
      (apply_plan (plan_dedup nodes mention_edges relation_edges half) true 200 world).world.graph
apply_plan-IsAttached_example =
    apply_plan-IsAttached nodes mention_edges relation_edges half true 200 world attached

apply_plan-has_entity_example :
    has_entity
      (codes "b")
      (apply_plan (plan_dedup nodes mention_edges relation_edges half) true 200 world).world.graph
    ≡ true
unfolding plan_dedup redirect_of janus_graph.Dream.Redirect.lookup text_eq
    janus_graph.Dream.Similarity.jaccard janus_graph.Dream.Similarity.tokenize any
    janus_graph.Base.count filter
apply_plan-has_entity_example =
    apply_plan-has_entity nodes mention_edges relation_edges half (codes "b") true 200 world refl
      refl

apply_episodic_plan-IsRecorded_example :
    IsRecorded graph.episodics writer
      (victims_of (episodic_redirect [] (fold_e ∷ [])))
      (undo_rows_of (fold_e ∷ []) graph)
      (apply_episodic_plan writer (fold_e ∷ []) true 200 world).session
apply_episodic_plan-IsRecorded_example =
    apply_episodic_plan-IsRecorded writer (fold_e ∷ []) true 200 world
