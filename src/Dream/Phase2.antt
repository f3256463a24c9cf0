-- ===== src/Dream/Phase2.antt =====
-- `load_graph_snapshot` and `run_phase2_dedup` of janus_graph/pipeline/dedup_apply.py. SHA-1 is the
-- parameter `digest`; the threshold and the undo writer are arguments.
use janus_graph.Base.{
  ℕ, Text, text_eq, any, filter, codes, List, [], ◌∷◌, ◌++◌, map, Bool, true, false, not, ◌&&◌,
  ◌||◌, Option, none, some, get_or, length, is_none, if◌then◌else◌,
}
use janus_graph.Dream.Similarity.{Score}
use janus_graph.Dream.Planner.{Node}
use janus_graph.Dream.Plan.{Edge, DedupPlan, plan_dedup}
use janus_graph.Dream.Episodics.{
  EpisodicNode, EpisodicMerge, plan_episodic_exact_dups, count_episodic_clusters,
}
use janus_graph.Dream.Graph.{
  Entity, Episodic, Mention, Relation, Graph, World, statement, uuid_is, if_truthy,
}
use janus_graph.Dream.Phases.{Session, is_empty}
use janus_graph.Dream.Apply.{apply_plan}
use janus_graph.Dream.Fold.{FoldSession}
use janus_graph.Dream.Undo.{Writer}
use janus_graph.Dream.Episodic.{Folded, apply_episodic_plan}
pub mod Whole

-- `rec[1] or rec[2]`
abbrev pub either : Option Text → Option Text → Option Text
either a b = if is_none (if_truthy a) then b else a

abbrev pub node_of : Entity → Node
node_of n = record {
  uuid = some n.uuid;
  name = n.name;
  summary = n.summary;
  created_at = if_truthy n.created_at;
}

abbrev pub episodic_of : Episodic → EpisodicNode
episodic_of n = record {
  uuid = some n.uuid;
  name = n.name;
  content = n.content;
  created_at = if_truthy n.created_at;
}

abbrev pub mention_edge : Mention → Edge
mention_edge e = record { src_uuid = some e.src; dst_uuid = some e.dst; fact = none }

-- Of a relation the two properties are read, not the nodes.
abbrev pub relation_edge : Relation → Edge
relation_edge e = record {
  src_uuid = either e.source_node_uuid e.target_node_uuid;
  dst_uuid = either e.target_node_uuid e.source_node_uuid;
  fact = e.fact;
}

pub record Snapshot : Type 0 where
  pub entities : List Node
  pub episodics : List EpisodicNode
  pub mentions : List Edge
  pub relations : List Edge

-- `n.group_id = $gid`, and the same of the entity with that uuid.
abbrev pub in_group : Text → Option Text → Bool
in_group gid v = uuid_is v (some gid)

abbrev pub entity_in_group : Text → Graph → Text → Bool
entity_in_group gid g u = any (λ n. text_eq n.uuid u && in_group gid n.group_id) g.entities

-- The four queries, with their rows as dictionaries.
abbrev pub entities_of : Text → Graph → List Node
entities_of gid g = map node_of (filter (λ n. in_group gid n.group_id) g.entities)

abbrev pub episodics_of : Text → Graph → List EpisodicNode
episodics_of gid g = map episodic_of (filter (λ n. in_group gid n.group_id) g.episodics)

abbrev pub mentions_of : Text → Graph → List Edge
mentions_of gid g = map mention_edge (filter (λ e. entity_in_group gid g e.dst) g.mentions)

abbrev pub relations_of : Text → Graph → List Edge
relations_of gid g = map relation_edge (filter (λ e. entity_in_group gid g e.src) g.relations)

-- One read; a failed one leaves its list empty and its error behind.
abbrev pub read : {A : Type 0} → (Graph → List A) → World → World × Option (List A)
read f w = statement (λ g. (g, f g)) w

-- The snapshot, and whether one of the four reads failed.
unfoldable pub load_graph_snapshot : Text → World → World × Snapshot × Bool
load_graph_snapshot gid w =
    let entities = read (entities_of gid) w in
    let episodics = read (episodics_of gid) entities.0 in
    let mentions = read (mentions_of gid) episodics.0 in
    let relations = read (relations_of gid) mentions.0 in
    (
      relations.0,
      record {
        entities = get_or entities.1 [];
        episodics = get_or episodics.1 [];
        mentions = get_or mentions.1 [];
        relations = get_or relations.1 [];
      },
      is_none entities.1 || is_none episodics.1 || is_none mentions.1 || is_none relations.1,
    )

pub data Status : Type 0 where
  skipped failed finished partial : Status

pub record Phase2 : Type 0 where
  pub status : Status
  pub world : World
  pub plan : Option DedupPlan
  pub episodic_clusters : ℕ
  pub episodic_merges : ℕ

abbrev pub gave_up : Status → World → Phase2
gave_up status w = record {
  status = status;
  world = w;
  plan = none;
  episodic_clusters = 0;
  episodic_merges = 0;
}

-- `DEFAULT_BATCH`
abbrev pub default_batch : ℕ
default_batch = 200

abbrev pub is_clean : {A : Type 0} → List A → Bool
is_clean [] = true
is_clean (t ∷ ts) = false

module _ (digest : Text → Text) (writer : Writer) (threshold : Score) (force : Bool) where
  pub merge_snapshot : Snapshot → World → Phase2
  unfolding plan_dedup apply_plan plan_episodic_exact_dups apply_episodic_plan
      count_episodic_clusters
  merge_snapshot snap w =
      let plan = plan_dedup snap.entities snap.mentions snap.relations threshold in
      let applied = apply_plan plan force default_batch w in
      let merges = plan_episodic_exact_dups digest snap.episodics in
      let folded = apply_episodic_plan writer merges force default_batch applied.world in
      record {
        status =
            if is_clean applied.counters.errors && is_clean folded.session.counters.errors
            then finished
            else partial;
        world = folded.session.world;
        plan = some plan;
        episodic_clusters = count_episodic_clusters digest snap.episodics;
        episodic_merges = length merges;
      }

  pub with_snapshot : World × Snapshot × Bool → Phase2
  unfolding merge_snapshot
  with_snapshot (w, snap, true) = gave_up failed w
  with_snapshot (w, snap, false) = merge_snapshot snap w

  -- `connected` tells whether `_graph` got a handle.
  unfoldable pub run_phase2_dedup : Text → Bool → World → Phase2
  unfolding with_snapshot load_graph_snapshot
  run_phase2_dedup gid false w = gave_up skipped w
  run_phase2_dedup gid true w = with_snapshot (load_graph_snapshot gid w)
