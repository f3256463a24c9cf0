-- ===== src/Dream/Plan.antt =====
-- The plan that `plan_dedup` of janus_graph/pipeline/dedup.py returns.
use janus_graph.Base.{
  ℕ, Text, text_eq, List, [], ◌∷◌, ◌++◌, ◌+◌, ◌-◌, Bool, false, ◌&&◌, ◌||◌, Option, get_or, any,
  count, length, leb, ltb, if◌then◌else◌,
}
use janus_graph.Dream.Similarity.{Score}
use janus_graph.Dream.Groups.{group_by}
use janus_graph.Dream.Planner.{Node, Merge, Outcome, collapse}
use janus_graph.Dream.Redirect.{Map, has_key, assign, resolve}
pub mod Unique
pub mod Counts
pub mod Complete
pub mod Sound
pub mod Survivors
pub mod Clusters
mod Examples

-- An edge of the snapshot. A MENTIONS row has no fact.
pub record Edge : Type 0 where
  pub src_uuid : Option Text
  pub dst_uuid : Option Text
  pub fact : Option Text

pub record DedupPlan : Type 0 where
  pub merges : List Merge
  pub clusters_scanned : ℕ
  pub duplicate_name_nodes : ℕ
  pub mentions_to_redirect : ℕ
  pub relations_to_redirect : ℕ
  pub mentions_to_drop : ℕ
  pub relations_to_drop : ℕ
  pub self_loops_dropped : ℕ
  pub nodes_to_delete : ℕ
  pub summary_chars_saved : ℕ
  pub threshold : Score
  pub max_observed_similarity : Score
  pub mergeable_clusters : ℕ

abbrev pub name_of : Node → Text
name_of n = get_or n.name []

abbrev pub same_name : Node → Node → Bool
same_name a b = text_eq (name_of a) (name_of b)

abbrev pub cluster_name : List Node → Text
cluster_name [] = []
cluster_name (n ∷ nodes) = name_of n

-- The loop over the clusters: only those of two nodes or more count.
pub merge_clusters : Score → Score → List (List Node) → Outcome
unfolding collapse
merge_clusters threshold observed [] = record { merges = []; mergeable = 0; observed = observed }
merge_clusters threshold observed (nodes ∷ clusters) =
    let here =
      if ltb (length nodes) 2
      then record { merges = []; mergeable = 0; observed = observed }
      else collapse (length nodes) threshold (cluster_name nodes) observed nodes in
    let rest = merge_clusters threshold here.observed clusters in
    record {
      merges = here.merges ++ rest.merges;
      mergeable = here.mergeable + rest.mergeable;
      observed = rest.observed;
    }

-- `{m.victim_uuid: m.survivor_uuid for m in plan.merges}`; the planner fills the same dictionary.
pub redirect_onto : Map → List Merge → Map
unfolding assign
redirect_onto m [] = m
redirect_onto m (g ∷ merges) = redirect_onto (assign g.victim_uuid g.survivor_uuid m) merges

unfoldable pub redirect_of : List Merge → Map
unfolding redirect_onto
redirect_of merges = redirect_onto [] merges

-- `_collisions`: what is lost in a group of edges under one key that the merges have touched.
pub group_drops : (Edge → Bool) → List Edge → ℕ
group_drops touched group =
    if ltb (length group) 2 then 0 else if any touched group then length group - 1 else 0

pub sum_drops : (Edge → Bool) → List (List Edge) → ℕ
unfolding group_drops
sum_drops touched [] = 0
sum_drops touched (group ∷ groups) = group_drops touched group + sum_drops touched groups

pub collisions : (Edge → Edge → Bool) → (Edge → Bool) → List Edge → ℕ
unfolding sum_drops group_by
collisions same touched edges = sum_drops touched (group_by same edges)

abbrev pub src_of : Edge → Text
src_of e = get_or e.src_uuid []

abbrev pub dst_of : Edge → Text
dst_of e = get_or e.dst_uuid []

abbrev pub fact_of : Edge → Text
fact_of e = get_or e.fact []

module _ (m : Map) where
  pub mention_touched : Edge → Bool
  mention_touched e = has_key (dst_of e) m

  pub same_mention : Edge → Edge → Bool
  same_mention e f =
      text_eq (src_of e) (src_of f) && text_eq (resolve m (dst_of e)) (resolve m (dst_of f))

  pub relation_touched : Edge → Bool
  relation_touched e = has_key (src_of e) m || has_key (dst_of e) m

  pub is_self_loop : Edge → Bool
  is_self_loop e = text_eq (resolve m (src_of e)) (resolve m (dst_of e))

  -- Equality of `_rel_key`: self-loops by their own ends, other edges by the new ends and the fact.
  -- The source of no edge is the text `__self_loop__`.
  pub same_relation : Edge → Edge → Bool
  unfolding is_self_loop
  same_relation e f =
      if is_self_loop e
      then is_self_loop f && text_eq (src_of e) (src_of f) && text_eq (dst_of e) (dst_of f)
      else if is_self_loop f
      then false
      else text_eq (resolve m (src_of e)) (resolve m (src_of f))
        && text_eq (resolve m (dst_of e)) (resolve m (dst_of f))
        && text_eq (fact_of e) (fact_of f)

pub victim_chars : List Merge → ℕ
victim_chars [] = 0
victim_chars (g ∷ merges) = g.victim_summary_len + victim_chars merges

abbrev pub is_cluster : List Node → Bool
is_cluster nodes = leb 2 (length nodes)

pub cluster_nodes : List (List Node) → ℕ
cluster_nodes [] = 0
cluster_nodes (g ∷ groups) = (if is_cluster g then length g else 0) + cluster_nodes groups

unfoldable pub plan_dedup : List Node → List Edge → List Edge → Score → DedupPlan
unfolding group_by merge_clusters redirect_of collisions mention_touched same_mention
    relation_touched is_self_loop same_relation victim_chars cluster_nodes
plan_dedup entities mentions relations threshold =
    let clusters = group_by same_name entities in
    let out = merge_clusters threshold (record { num = 0; den = 1 }) clusters in
    let m = redirect_of out.merges in
    record {
      merges = out.merges;
      clusters_scanned = count is_cluster clusters;
      duplicate_name_nodes = cluster_nodes clusters;
      mentions_to_redirect = count (mention_touched m) mentions;
      relations_to_redirect = count (relation_touched m) relations;
      mentions_to_drop = collisions (same_mention m) (mention_touched m) mentions;
      relations_to_drop = collisions (same_relation m) (relation_touched m) relations;
      self_loops_dropped = count (λ e. relation_touched m e && is_self_loop m e) relations;
      nodes_to_delete = length m;
      summary_chars_saved = victim_chars out.merges;
      threshold = threshold;
      max_observed_similarity = out.observed;
      mergeable_clusters = out.mergeable;
    }

-- `total_relations_removed`
abbrev pub total_relations_removed : DedupPlan → ℕ
total_relations_removed p = p.relations_to_drop + p.self_loops_dropped
