-- ===== src/Dream/Samples.antt =====
-- Test data for the dream cycle (janus_graph/pipeline/dream.py): small graphs, a queue and a clock.
use janus_graph.Base.{
  ℕ, Text, text_eq, codes, List, [], ◌∷◌, ◌≡◌, refl, ◌+◌, ◌*◌, ◌<◌, ◌≤◌, arith, Bool, true, false,
  not, Option, none, some, any, filter, length, All,
}
use janus_graph.Dream.Similarity.{Score}
use janus_graph.Dream.Redirect.{Map, resolve}
use janus_graph.Dream.Planner.{Node}
use janus_graph.Dream.Plan.{Edge, plan_dedup, redirect_of}
use janus_graph.Dream.Plan.Unique.{Unique}
use janus_graph.Dream.Graph.{
  Entity, Episodic, Mention, Relation, Graph, World, works, fails, fails_late,
}
use janus_graph.Dream.Phases.{Session}
use janus_graph.Dream.Apply.{no_counters}
use janus_graph.Dream.Apply.Attached.{IsAttached}
use janus_graph.Dream.Apply.Kept.{EndsSurvive}
use janus_graph.Dream.Apply.Safety.{redirect}
use janus_graph.Dream.Episodics.{EpisodicNode, EpisodicMerge}
use janus_graph.Dream.Undo.{Writer}
use janus_graph.Base.Int.{pos}
use janus_graph.Base.{find}
use janus_graph.Queue.Policy.{default_policy}
use janus_graph.Queue.Reap.{alone}
use janus_graph.Queue.Samples
use janus_graph.Dream.Cycle.{DreamSettings, Meets, Dream, at_replay}

abbrev pub half : Score
half = record { num = 1; den = 2 }

abbrev pub node : Text → Text → Text → Node
node uuid name summary = record {
  uuid = some uuid;
  name = some name;
  summary = some summary;
  created_at = none;
}

-- Two nodes `a` and `b` of one name, whose summaries share two of three words, and a third node.
abbrev pub nodes : List Node
nodes =
    node (codes "a") (codes "n") (codes "x y")
    ∷ node (codes "b") (codes "n") (codes "x y z")
    ∷ node (codes "c") (codes "m") []
    ∷ []

abbrev pub edge : Text → Text → Edge
edge src dst = record { src_uuid = some src; dst_uuid = some dst; fact = none }

abbrev pub mention_edges : List Edge
mention_edges = edge (codes "e") (codes "a") ∷ []

abbrev pub relation_edges : List Edge
relation_edges = edge (codes "a") (codes "c") ∷ []

pub nodes-Unique : Unique nodes
unfolding any text_eq
nodes-Unique = (refl, (refl, (refl, tt)))

-- Node `a` is merged into `b`, whose summary is longer.
pub merged : redirect nodes mention_edges relation_edges half ≡ (codes "a", codes "b") ∷ []
unfolding plan_dedup redirect_of text_eq janus_graph.Dream.Similarity.jaccard
    janus_graph.Dream.Similarity.tokenize any janus_graph.Base.count filter
merged = refl

abbrev pub entity : Text → Entity
entity uuid = record {
  uuid = uuid;
  name = none;
  summary = none;
  created_at = none;
  group_id = some (codes "g");
}

abbrev pub relation : Text → Text → Relation
relation src dst = record {
  uuid = some (codes "r");
  src = src;
  dst = dst;
  source_node_uuid = some src;
  target_node_uuid = some dst;
  group_id = none;
  fact = some (codes "f");
  name = none;
  created_at = none;
  valid_at = none;
  reference_time = none;
  episodes = [];
}

abbrev pub episodic : Text → Episodic
episodic uuid = record {
  uuid = uuid;
  name = none;
  content = none;
  created_at = none;
  group_id = some (codes "g");
}

abbrev pub mention : Text → Text → Text → Mention
mention uuid src dst = record {
  uuid = some uuid;
  src = src;
  dst = dst;
  created_at = none;
  group_id = none;
}

abbrev pub graph : Graph
graph = record {
  entities = entity (codes "a") ∷ entity (codes "b") ∷ entity (codes "c") ∷ [];
  episodics = episodic (codes "e") ∷ episodic (codes "d") ∷ [];
  mentions = mention (codes "m") (codes "e") (codes "a") ∷ [];
  relations = relation (codes "a") (codes "c") ∷ [];
}

-- The statement that deletes the old mention takes effect and raises.
abbrev pub world : World
world = record { graph = graph; answers = works ∷ works ∷ fails_late ∷ works ∷ fails ∷ [] }

pub ends_survive :
    EndsSurvive
      (redirect nodes mention_edges relation_edges half)
      graph
      (relation (codes "a") (codes "c"))
unfolding resolve any text_eq
ends_survive = rw merged refl

pub attached : IsAttached graph
unfolding any text_eq
attached = record { mentions = (refl, tt); relations = (refl, tt) }

-- A session whose graph has lost node `b`.
abbrev pub session : Session
session = record {
  world = record {
    graph = record graph { entities = entity (codes "a") ∷ entity (codes "c") ∷ [] };
    answers = [];
  };
  counters = no_counters true;
}

abbrev pub to_b : Map
to_b = (codes "a", codes "b") ∷ []

-- A cycle of two entries.
abbrev pub cycle : Map
cycle = (codes "a", codes "b") ∷ (codes "b", codes "a") ∷ []

abbrev pub episode : Text → EpisodicNode
episode uuid = record {
  uuid = some uuid;
  name = some (codes "n");
  content = some (codes "t");
  created_at = some (codes "1");
}

abbrev pub fold_e : EpisodicMerge
fold_e = record {
  name = codes "n";
  survivor_uuid = codes "d";
  victim_uuid = codes "e";
  content_len = 1;
}

-- The writer stores every row.
abbrev pub writer : Writer
writer = some (λ rows. some (length rows))

-- Node `d` has no edge, and white space for a summary.
abbrev pub blank_world : World
blank_world = record {
  graph = record graph {
    entities =
        entity (codes "a")
        ∷ entity (codes "c")
        ∷ record (entity (codes "d")) { summary = some (codes " ") }
        ∷ record (entity (codes "b")) { summary = some (codes "x") }
        ∷ [];
  };
  answers = works ∷ works ∷ works ∷ works ∷ works ∷ works ∷ fails_late ∷ [];
}

abbrev pub settings : DreamSettings
settings = record {
  dedup_apply = false;
  dedup_threshold = half;
  policy = default_policy;
  dlq_replay = some (record { limit = pos 100; classes = codes "TIMEOUT" ∷ []; min_age_sec = 60 });
}

-- The graph cannot be opened for phase 3, and the replay of phase 4 raises.
abbrev pub meets : Meets
meets = record {
  started_at = 1;
  undo_at = 2;
  reaped_at = 3;
  replayed_at = 4;
  completed_at = 5;
  connected_1 = true;
  connected_2 = true;
  connected_3 = false;
  insert_fails = false;
  stats_fail = false;
  undo_fails = false;
  phase_4 = at_replay 1;
  reap_others = λ _ d. d;
  replay_gaps = alone;
  final_stats_fail = false;
  update_fails = false;
}

abbrev pub dream : Dream
dream = record { world = world; db = Samples.db; runs = [] }
