-- ===== src/Dream/Plan/Sound.antt =====
-- What each merge of a plan joins, and what no plan leaves (`plan_dedup` in
-- janus_graph/pipeline/dedup.py).
use janus_graph.Base.{
  text_eq, text_eq_iff, List, [], ◌∷◌, ◌≡◌, refl, ap, sym, ◌∙◌, ◌⊎◌, subst, ◌≤◌, true, false, All,
  All-map, All-zip,
}
use mathlib.Core.List.{Memᴰ}
use janus_graph.Dream.Similarity.{Score, at_least}
use janus_graph.Dream.Groups.{group_by, Alike, Alike-group_by, All-group_by}
use janus_graph.Dream.Planner.{Node, Merge, uuid_of, summary_len, similarity}
use janus_graph.Dream.Planner.Sound.{IsPlanned, All-Memᴰ}
use janus_graph.Dream.Plan.{Edge, name_of, same_name, cluster_name, plan_dedup}
use janus_graph.Dream.Plan.Clusters.{merge_clusters-All}

-- A merge of two entities of one name, whose similarity reaches the threshold.
pub record IsMerge (threshold : Score) (entities : List Node) (g : Merge) : Type 0 where
  pub survivor : Node
  pub victim : Node
  pub survivor_in : Memᴰ survivor entities
  pub victim_in : Memᴰ victim entities
  pub survivor_name : name_of survivor ≡ g.name
  pub victim_name : name_of victim ≡ g.name
  pub survivor_uuid : uuid_of survivor ≡ g.survivor_uuid
  pub victim_uuid : uuid_of victim ≡ g.victim_uuid
  pub score :
      (g.similarity ≡ similarity survivor victim) ⊎ (g.similarity ≡ similarity victim survivor)
  pub reaches : at_least g.similarity threshold ≡ true
  pub longer : summary_len victim ≤ summary_len survivor
  pub differ : text_eq g.victim_uuid g.survivor_uuid ≡ false

All-at : (P : Node → Type 0) (n : Node) (nodes : List Node) → All P nodes → Memᴰ n nodes → P n
All-at P n [] a h = elim h [ ]
All-at P n (m ∷ nodes) a (Memᴰ.head e) = subst P (sym e) a.0
All-at P n (m ∷ nodes) a (Memᴰ.tail h) = All-at P n nodes a.1 h

abbrev Cluster : List Node → List Node → Type 0
Cluster entities nodes =
    All (λ n. Memᴰ n entities) nodes × All (λ n. name_of n ≡ cluster_name nodes) nodes

named :
    (nodes : List Node)
    → Alike same_name
        (λ a b. name_of a ≡ name_of b)
        (λ a b e. (text_eq_iff (name_of a) (name_of b)).0 e)
        (λ a. refl)
        nodes
    → All (λ n. name_of n ≡ cluster_name nodes) nodes
named [] h = tt
named (n ∷ nodes) h = All-map (n ∷ nodes) (λ m e. sym e) h

module _ (threshold : Score) (entities : List Node) where
  IsMerge-of :
      (nodes : List Node) (g : Merge)
      → Cluster entities nodes
      → IsPlanned threshold (cluster_name nodes) nodes g
      → IsMerge threshold entities g
  IsMerge-of nodes g c p =
      let in_name = ap (λ (h : Merge). h.name) p.made in
      let victim = ap (λ (h : Merge). h.victim_uuid) p.made in
      let survivor = ap (λ (h : Merge). h.survivor_uuid) p.made in
      record {
        survivor = p.keeper;
        victim = p.loser;
        survivor_in = All-at (λ n. Memᴰ n entities) p.keeper nodes c.0 p.keeper_in;
        victim_in = All-at (λ n. Memᴰ n entities) p.loser nodes c.0 p.loser_in;
        survivor_name =
            All-at (λ n. name_of n ≡ cluster_name nodes) p.keeper nodes c.1 p.keeper_in
            ∙ sym in_name;
        victim_name =
            All-at (λ n. name_of n ≡ cluster_name nodes) p.loser nodes c.1 p.loser_in ∙ sym in_name;
        survivor_uuid = sym survivor;
        victim_uuid = sym victim;
        score = p.score;
        reaches = p.reaches;
        longer = p.longer;
        differ = rw (victim, survivor) p.differ;
      }

  clusters : All (Cluster entities) (group_by same_name entities)
  clusters =
      All-zip (group_by same_name entities) (λ nodes a b. (a, named nodes b))
        (All-group_by same_name (λ n. Memᴰ n entities) entities (All-Memᴰ entities))
        (Alike-group_by same_name (λ a b. name_of a ≡ name_of b)
          (λ a b e. (text_eq_iff (name_of a) (name_of b)).0 e) (λ a. refl) entities)

  -- Every merge of a plan joins two different entities of one name whose similarity reaches the
  -- threshold, and the summary of the victim is no longer than that of the survivor.
  pub plan_dedup-IsMerge :
      (mentions relations : List Edge)
      → All (IsMerge threshold entities) (plan_dedup entities mentions relations threshold).merges
  unfolding plan_dedup
  plan_dedup-IsMerge mentions relations =
      merge_clusters-All threshold (IsMerge threshold entities) (Cluster entities) IsMerge-of
        (record { num = 0; den = 1 }) (group_by same_name entities) clusters
