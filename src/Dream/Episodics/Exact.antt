-- ===== src/Dream/Episodics/Exact.antt =====
-- Only equal episodes are folded (`plan_episodic_exact_dups` of janus_graph/pipeline/dedup.py).
use janus_graph.Base.{
  All-map_list, Text, text_eq, text_eq_iff, List, [], ◌∷◌, ◌≡◌, refl, sym, ◌∙◌, subst, arith, true,
  false, All, All-map, All-zip, All-append, All-filter, filter, filter_passes, if_both, and_split,
  if◌then◌else◌,
}
use mathlib.Core.List.{Memᴰ}
use janus_graph.Dream.Groups.{group_by, Alike, Alike-group_by, All-group_by}
use janus_graph.Dream.Episodics.{
  EpisodicNode, EpisodicMerge, uuid_of, name_of, content_of, first_least, precedes, is_victim,
  fold_into, group_merges, all_merges, same_episode, plan_episodic_exact_dups,
}

-- A merge of two nodes of the list that have different uuids and say exactly the same.
pub record IsFold (nodes : List EpisodicNode) (g : EpisodicMerge) : Type 0 where
  pub survivor : EpisodicNode
  pub victim : EpisodicNode
  pub survivor_in : Memᴰ survivor nodes
  pub victim_in : Memᴰ victim nodes
  pub survivor_uuid : uuid_of survivor ≡ g.survivor_uuid
  pub victim_uuid : uuid_of victim ≡ g.victim_uuid
  pub names : (name_of survivor ≡ g.name) × (name_of victim ≡ g.name)
  pub contents : content_of survivor ≡ content_of victim
  pub differ : text_eq g.victim_uuid g.survivor_uuid ≡ false

first_least-P :
    (P : EpisodicNode → Type 0) (best : EpisodicNode) (nodes : List EpisodicNode)
    → P best
    → All P nodes
    → P (first_least best nodes)
unfolding first_least
first_least-P P best [] h a = h
first_least-P P best (n ∷ nodes) h a =
    first_least-P P (if precedes n best then n else best) nodes (if_both (precedes n best) P a.0 h)
      a.1

All-at :
    (P : EpisodicNode → Type 0) (x : EpisodicNode) (ns : List EpisodicNode)
    → All P ns
    → Memᴰ x ns
    → P x
All-at P x [] a h = elim h [ ]
All-at P x (n ∷ ns) a (Memᴰ.head k) = subst P (sym k) a.0
All-at P x (n ∷ ns) a (Memᴰ.tail h) = All-at P x ns a.1 h

All-Memᴰ : (ns : List EpisodicNode) → All (λ n. Memᴰ n ns) ns
All-Memᴰ [] = tt
All-Memᴰ (n ∷ ns) = (Memᴰ.head refl, All-map ns (λ m h. Memᴰ.tail h) (All-Memᴰ ns))

module _ (digest : Text → Text) where
  -- No two of the nodes have contents on which the digest collides.
  abbrev pub HasNoCollision : List EpisodicNode → Type 0
  HasNoCollision nodes =
      All
        (λ a.
          All (λ b. digest (content_of a) ≡ digest (content_of b) → content_of a ≡ content_of b)
            nodes)
        nodes

  abbrev Alikes : EpisodicNode → EpisodicNode → Type 0
  Alikes a b = (name_of a ≡ name_of b) × (digest (content_of a) ≡ digest (content_of b))

  alike : (a b : EpisodicNode) → same_episode digest a b ≡ true → Alikes a b
  alike a b h =
      let p = and_split _ _ h in
      (
        (text_eq_iff (name_of a) (name_of b)).0 p.0,
        (text_eq_iff (digest (content_of a)) (digest (content_of b))).0 p.1,
      )

  alike_refl : (a : EpisodicNode) → Alikes a a
  alike_refl a = (refl, refl)

  module _ (nodes : List EpisodicNode) (clear : HasNoCollision nodes) where
    -- A node of the group that `first` heads.
    abbrev OfGroup : EpisodicNode → EpisodicNode → Type 0
    OfGroup first n = Memᴰ n nodes × Alikes first n

    fold_into-IsFold :
        (first keeper n : EpisodicNode)
        → OfGroup first keeper
        → OfGroup first n
        → is_victim keeper n ≡ true
        → IsFold nodes (fold_into (name_of first) keeper n)
    fold_into-IsFold first keeper n k h v = record {
      survivor = keeper;
      victim = n;
      survivor_in = k.0;
      victim_in = h.0;
      survivor_uuid = refl;
      victim_uuid = refl;
      names = (sym k.1.0, sym h.1.0);
      contents =
          All-at
            (λ b.
              digest (content_of keeper) ≡ digest (content_of b) → content_of keeper ≡ content_of b)
            n nodes
            (All-at
              (λ a.
                All
                  (λ b. digest (content_of a) ≡ digest (content_of b) → content_of a ≡ content_of b)
                  nodes)
              keeper nodes clear k.0)
            h.0 (sym k.1.1 ∙ h.1.1);
      differ = ground (arith, v);
    }

    group-IsFold :
        (group : List EpisodicNode)
        → All (λ n. Memᴰ n nodes) group
        → Alike (same_episode digest) Alikes alike alike_refl group
        → All (IsFold nodes) (group_merges group)
    unfolding group_merges
    group-IsFold [] h a = tt
    group-IsFold (n ∷ []) h a = tt
    group-IsFold (n ∷ other ∷ rest) h a =
        let group = n ∷ other ∷ rest in
        let of : All (OfGroup n) group = All-zip group (λ x p q. (p, q)) h a in
        let keeper = first_least n (other ∷ rest) in
        let k = first_least-P (OfGroup n) n (other ∷ rest) of.0 of.1 in
        All-map_list (IsFold nodes) (fold_into (name_of n) keeper) (filter (is_victim keeper) group)
          (All-zip (filter (is_victim keeper) group) (λ x p v. fold_into-IsFold n keeper x k p v)
            (All-filter (OfGroup n) (is_victim keeper) group of)
            (filter_passes (is_victim keeper) group))

    groups-IsFold :
        (groups : List (List EpisodicNode))
        → All (All (λ n. Memᴰ n nodes)) groups
        → All (Alike (same_episode digest) Alikes alike alike_refl) groups
        → All (IsFold nodes) (all_merges groups)
    unfolding all_merges
    groups-IsFold [] h a = tt
    groups-IsFold (g ∷ groups) h a =
        All-append (IsFold nodes) (group_merges g) (all_merges groups) (group-IsFold g h.0 a.0)
          (groups-IsFold groups h.1 a.1)

    -- If the digest does not collide on the contents of the nodes, then every planned fold joins two
    -- nodes that have different uuids, one name and one content.
    pub plan_episodic_exact_dups-IsFold : All (IsFold nodes) (plan_episodic_exact_dups digest nodes)
    unfolding plan_episodic_exact_dups
    plan_episodic_exact_dups-IsFold =
        groups-IsFold (group_by (same_episode digest) nodes)
          (All-group_by (same_episode digest) (λ n. Memᴰ n nodes) nodes (All-Memᴰ nodes))
          (Alike-group_by (same_episode digest) Alikes alike alike_refl nodes)
