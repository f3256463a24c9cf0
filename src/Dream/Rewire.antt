-- ===== src/Dream/Rewire.antt =====
-- How `apply_episodic_plan` of janus_graph/pipeline/dedup_apply.py sorts the mentions of the victims
-- before it writes anything.
use janus_graph.Base.{
  ℕ, Text, text_eq, codes, List, [], ◌∷◌, ◌+◌, Bool, ◌&&◌, ◌||◌, Option, get_or, any, if◌then◌else◌,
}
use janus_graph.Dream.Redirect.{Map, assign, resolve}
use janus_graph.Dream.Episodics.{EpisodicMerge}
use janus_graph.Dream.Graph.{Mention}
use janus_graph.Dream.Phases.{is_empty}

-- A row with its uuid as `str(edge_uuid)` writes it.
pub record VictimEdge : Type 0 where
  pub edge_uuid : Text
  pub src : Text
  pub dst : Text
  pub created_at : Option Text
  pub group_id : Option Text

-- `{m.victim_uuid: m.survivor_uuid for m in merges}`
unfoldable pub episodic_redirect : Map → List EpisodicMerge → Map
unfolding assign
episodic_redirect m [] = m
episodic_redirect m (g ∷ merges) = episodic_redirect (assign g.victim_uuid g.survivor_uuid m) merges

abbrev pub edge_of : Mention → VictimEdge
edge_of e = record {
  edge_uuid = get_or e.uuid (codes "None");
  src = e.src;
  dst = e.dst;
  created_at = e.created_at;
  group_id = e.group_id;
}

abbrev pub is_unresolved : Mention → Bool
is_unresolved e = is_empty e.src || is_empty e.dst

abbrev pub same_pair : VictimEdge → VictimEdge → Bool
same_pair e f = text_eq e.src f.src && text_eq e.dst f.dst

-- The first edge of each pair, and the uuids of the others.
pub record Split : Type 0 where
  pub unique : List VictimEdge
  pub repeated : List Text

unfoldable pub split_pairs : List VictimEdge → List VictimEdge → Split
split_pairs seen [] = record { unique = []; repeated = [] }
split_pairs seen (e ∷ es) =
    let rest = split_pairs (e ∷ seen) es in
    if any (same_pair e) seen
    then record rest { repeated = e.edge_uuid ∷ rest.repeated }
    else record rest { unique = e ∷ rest.unique }

-- An edge that is made on the survivor.
pub record Rewired : Type 0 where
  pub edge : VictimEdge
  pub survivor : Text

pub record Sorted : Type 0 where
  pub to_drop : List Text
  pub survivor_dedupe : List Text
  pub to_create : List Rewired
  pub unsorted : ℕ

-- `dst in targets.get(survivor, set())`, for the mentions of the survivors and for those to create.
abbrev pub mentions_already : Text → Text → List Mention → Bool
mentions_already survivor dst rows = any (λ x. text_eq x.src survivor && text_eq x.dst dst) rows

abbrev pub creates_already : Text → Text → List Rewired → Bool
creates_already survivor dst created =
    any (λ x. text_eq x.survivor survivor && text_eq x.edge.dst dst) created

module _ (m : Map) (surv_rows : List Mention) where
  unfoldable pub sort_edges : List Rewired → List VictimEdge → Sorted
  sort_edges created [] = record {
    to_drop = [];
    survivor_dedupe = [];
    to_create = [];
    unsorted = 0;
  }
  sort_edges created (e ∷ es) =
      let survivor = resolve m e.src in
      let new : Rewired = record { edge = e; survivor = survivor } in
      let same = sort_edges created es in
      let more = sort_edges (new ∷ created) es in
      if text_eq survivor e.src
      then record same { unsorted = same.unsorted + 1 }
      else if mentions_already survivor e.dst surv_rows
      then record same { to_drop = e.edge_uuid ∷ same.to_drop }
      else if creates_already survivor e.dst created
      then record same { survivor_dedupe = e.edge_uuid ∷ same.survivor_dedupe }
      else record more { to_create = new ∷ more.to_create }
