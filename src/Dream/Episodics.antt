-- ===== src/Dream/Episodics.antt =====
-- `plan_episodic_exact_dups` of janus_graph/pipeline/dedup.py and `_count_episodic_clusters` of
-- janus_graph/pipeline/dedup_apply.py. SHA-1 over UTF-8 is the parameter `digest`.
use janus_graph.Base.{
  ℕ, Text, text_eq, text_lt, List, [], ◌∷◌, ◌++◌, Bool, not, ◌&&◌, ◌||◌, Option, get_or, count,
  filter, map, length, leb, ltb, if◌then◌else◌,
}
use janus_graph.Dream.Groups.{group_by}
pub mod Exact

pub record EpisodicNode : Type 0 where
  pub uuid : Option Text
  pub name : Option Text
  pub content : Option Text
  pub created_at : Option Text

pub record EpisodicMerge : Type 0 where
  pub name : Text
  pub survivor_uuid : Text
  pub victim_uuid : Text
  pub content_len : ℕ

-- `str(node.get("uuid") or "")`
abbrev pub uuid_of : EpisodicNode → Text
uuid_of n = get_or n.uuid []

abbrev pub name_of : EpisodicNode → Text
name_of n = get_or n.name []

abbrev pub content_of : EpisodicNode → Text
content_of n = get_or n.content []

-- The key of `a` is below that of `b`.
unfoldable pub precedes : EpisodicNode → EpisodicNode → Bool
precedes a b =
    let created = λ (n : EpisodicNode). get_or n.created_at [] in
    text_lt (created a) (created b)
    || (text_eq (created a) (created b) && text_lt (uuid_of a) (uuid_of b))

-- `sorted(nodes, key=...)[0]`: the first of the least nodes, since the sort is stable.
pub first_least : EpisodicNode → List EpisodicNode → EpisodicNode
unfolding precedes
first_least best [] = best
first_least best (n ∷ nodes) = first_least (if precedes n best then n else best) nodes

abbrev pub is_victim : EpisodicNode → EpisodicNode → Bool
is_victim keeper n = not (text_eq (uuid_of n) []) && not (text_eq (uuid_of n) (uuid_of keeper))

abbrev pub fold_into : Text → EpisodicNode → EpisodicNode → EpisodicMerge
fold_into name keeper n = record {
  name = name;
  survivor_uuid = uuid_of keeper;
  victim_uuid = uuid_of n;
  content_len = length (content_of n);
}

-- The merges of one group; a group of one node has none.
pub group_merges : List EpisodicNode → List EpisodicMerge
unfolding first_least
group_merges [] = []
group_merges (n ∷ []) = []
group_merges (n ∷ other ∷ nodes) =
    let keeper = first_least n (other ∷ nodes) in
    map (fold_into (name_of n) keeper) (filter (is_victim keeper) (n ∷ other ∷ nodes))

pub all_merges : List (List EpisodicNode) → List EpisodicMerge
unfolding group_merges
all_merges [] = []
all_merges (nodes ∷ groups) = group_merges nodes ++ all_merges groups

module _ (digest : Text → Text) where
  -- The key is the name and `_content_key`.
  abbrev pub same_episode : EpisodicNode → EpisodicNode → Bool
  same_episode a b =
      text_eq (name_of a) (name_of b) && text_eq (digest (content_of a)) (digest (content_of b))

  unfoldable pub plan_episodic_exact_dups : List EpisodicNode → List EpisodicMerge
  unfolding group_by all_merges
  plan_episodic_exact_dups episodics = all_merges (group_by same_episode episodics)

  unfoldable pub count_episodic_clusters : List EpisodicNode → ℕ
  unfolding group_by
  count_episodic_clusters episodics =
      count (λ nodes. leb 2 (length nodes)) (group_by same_episode episodics)
