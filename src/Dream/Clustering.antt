-- ===== src/Dream/Clustering.antt =====
-- The label propagation of phase 1: `build_adjacency` and the loop of `cluster_graph` in
-- janus_graph/pipeline/dream_phases.py. Sets of uuids are sorted lists without repetition. The
-- components, the repair of a cycle and the hash of the partition are left out.
use janus_graph.Base.{
  ℕ, zero, suc, Text, text_eq, text_lt, codes, List, [], ◌∷◌, ◌++◌, ◌+◌, map, Bool, true, false,
  not, ◌&&◌, ◌||◌, get_or, any, count, filter, length, ltb, ◌==◌, if◌then◌else◌,
}
use janus_graph.Dream.Planner.{Node, uuid_of}
use janus_graph.Dream.Plan.{Edge}
use janus_graph.Dream.Graph.{member}
pub mod Settled

-- The dictionary of sets: its keys in order, and the pairs that were added both ways.
pub record Adjacency : Type 0 where
  pub nodes : List Text
  pub pairs : List (Text × Text)

pub insert_text : Text → List Text → List Text
insert_text u [] = u ∷ []
insert_text u (v ∷ us) =
    let rest = insert_text u us in
    if text_eq u v then v ∷ us else if text_lt u v then u ∷ v ∷ us else v ∷ rest

pub sorted_uuids : List Node → List Text
unfolding insert_text
sorted_uuids [] = []
sorted_uuids (n ∷ nodes) = insert_text (uuid_of n) (sorted_uuids nodes)

-- `str(rel.get("src_uuid"))` and the other end.
abbrev pub ends_of : Edge → Text × Text
ends_of r = (get_or r.src_uuid (codes "None"), get_or r.dst_uuid (codes "None"))

-- Both ends are nodes, and they differ.
abbrev pub is_link : List Text → Text × Text → Bool
is_link nodes p = member p.0 nodes && member p.1 nodes && not (text_eq p.0 p.1)

pub build_adjacency : List Node → List Edge → Adjacency
unfolding sorted_uuids
build_adjacency entities relations =
    let nodes = sorted_uuids entities in
    record { nodes = nodes; pairs = filter (is_link nodes) (map ends_of relations) }

abbrev pub joins : Text → Text → Text × Text → Bool
joins u v p = (text_eq p.0 u && text_eq p.1 v) || (text_eq p.0 v && text_eq p.1 u)

-- `adj[u]`
abbrev pub neighbours : Adjacency → Text → List Text
neighbours adj u = filter (λ v. any (joins u v) adj.pairs) adj.nodes

-- The labels, in the order of the nodes.
abbrev pub Labels : Type 0
Labels = List (Text × ℕ)

-- Every node starts with its rank.
pub ranked : ℕ → List Text → Labels
ranked i [] = []
ranked i (u ∷ us) = (u, i) ∷ ranked (suc i) us

pub labels_among : List Text → Labels → List ℕ
labels_among us [] = []
labels_among us ((v, l) ∷ labels) =
    let rest = labels_among us labels in if member v us then l ∷ rest else rest

abbrev pub tally : List ℕ → ℕ → ℕ
tally ls l = count (λ k. k == l) ls

-- `min(tally.items(), key=lambda kv: (-kv[1], kv[0]))[0]`: the smallest of the most frequent.
pub most_frequent : List ℕ → ℕ → List ℕ → ℕ
most_frequent all best [] = best
most_frequent all best (l ∷ ls) =
    let beats =
      ltb (tally all best) (tally all l) || (tally all best == tally all l && ltb l best) in
    most_frequent all (if beats then l else best) ls

abbrev pub chosen : ℕ → List ℕ → ℕ
chosen old [] = old
chosen old (l ∷ ls) = most_frequent (l ∷ ls) l ls

-- Equality of two label maps with the same keys in order.
pub same_labels : Labels → Labels → Bool
same_labels [] [] = true
same_labels [] (e ∷ ls) = false
same_labels (e ∷ ks) [] = false
same_labels (e ∷ ks) (f ∷ ls) = text_eq e.0 f.0 && e.1 == f.1 && same_labels ks ls

-- The nodes whose label differs between the last two rounds.
pub changed : Labels → Labels → List Text
changed (e ∷ ks) (f ∷ ls) = let rest = changed ks ls in if e.1 == f.1 then rest else e.0 ∷ rest
changed _ _ = []

pub record Propagated : Type 0 where
  pub labels : Labels
  pub rounds : ℕ
  pub converged : Bool
  pub cycle : Bool
  pub oscillating : List Text

module _ (adj : Adjacency) (min_degree : ℕ) where
  abbrev pub is_pinned : Text → Bool
  is_pinned u = ltb (length (neighbours adj u)) min_degree

  -- The label of a node after a round. Neighbours of low degree have no vote.
  pub next_label : Labels → Text → ℕ → ℕ
  unfolding labels_among most_frequent
  next_label labels u l =
      if is_pinned u
      then l
      else chosen l (labels_among (filter (λ v. not (is_pinned v)) (neighbours adj u)) labels)

  pub round_of : Labels → Labels
  unfolding next_label
  round_of labels = map (λ e. (e.0, next_label labels e.0 e.1)) labels

  -- `for rounds in range(1, max_rounds + 1)`: the rounds left, those done, the maps seen before,
  -- and the current one.
  pub propagate : ℕ → ℕ → List Labels → Labels → Propagated
  unfolding round_of same_labels changed
  propagate zero done seen labels = record {
    labels = labels;
    rounds = done;
    converged = false;
    cycle = false;
    oscillating = [];
  }
  propagate (suc left) done seen labels =
      let new = round_of labels in
      let rest = propagate left (suc done) (new ∷ seen) new in
      if same_labels new labels
      then record {
        labels = new;
        rounds = suc done;
        converged = true;
        cycle = false;
        oscillating = [];
      }
      else if any (same_labels new) seen
      then record {
        labels = new;
        rounds = suc done;
        converged = false;
        cycle = true;
        oscillating = changed new labels;
      }
      else rest

  pub propagate_labels : ℕ → Propagated
  unfolding propagate ranked
  propagate_labels max_rounds =
      let start = ranked 0 adj.nodes in propagate max_rounds 0 (start ∷ []) start
