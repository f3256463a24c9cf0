-- ===== src/Dream/Plan/Clusters.antt =====
-- The merges of all clusters together (`plan_dedup` in janus_graph/pipeline/dedup.py).
use janus_graph.Base.{
  Text, text_eq, List, [], ◌∷◌, ◌++◌, ◌≡◌, arith, true, false, any, if_both, All, All-map,
  All-append, length, ltb, if◌then◌else◌,
}
use mathlib.Core.List.{map-append}
use janus_graph.Dream.Similarity.{Score}
use janus_graph.Dream.Groups.{concat}
use janus_graph.Dream.Planner.{Node, Merge, Outcome, collapse}
use janus_graph.Dream.Planner.Merges.{has_uuid}
use janus_graph.Dream.Planner.Sound.{
  IsPlanned, IsPlanned-has_uuid, link, links, All-links, collapse-IsPlanned,
}
use janus_graph.Dream.Redirect.{Map}
use janus_graph.Dream.Redirect.Chains.{Forward}
use janus_graph.Dream.Plan.{cluster_name, merge_clusters}
use janus_graph.Dream.Plan.Unique.{Unique, Unique-append, apart_across}

-- Both ends of a merge are nodes of the list.
abbrev pub EndsIn : List Node → Merge → Type 0
EndsIn nodes g = (has_uuid g.victim_uuid nodes ≡ true) × (has_uuid g.survivor_uuid nodes ≡ true)

has_uuid-left : (u : Text) (xs ys : List Node) → has_uuid u xs ≡ true → has_uuid u (xs ++ ys) ≡ true
unfolding any
has_uuid-left u [] ys h = cc
has_uuid-left u (x ∷ xs) ys h = ground (arith, has_uuid-left u xs ys)

has_uuid-right :
    (u : Text) (xs ys : List Node) → has_uuid u ys ≡ true → has_uuid u (xs ++ ys) ≡ true
unfolding any
has_uuid-right u [] ys h = h
has_uuid-right u (x ∷ xs) ys h = rw (has_uuid-right u xs ys h) (ground arith)

Forward-append :
    (m n : Map)
    → Forward m
    → Forward n
    → All (λ e. All (λ f. (text_eq e.0 f.0 ≡ false) × (text_eq e.0 f.1 ≡ false)) n) m
    → Forward (m ++ n)
Forward-append [] n f g a = g
Forward-append ((k, v) ∷ m) n f g a = (
  f.0,
  All-append (λ e. (text_eq k e.0 ≡ false) × (text_eq k e.1 ≡ false)) m n f.1 a.0,
  Forward-append m n f.2 g a.1,
)

links-append : (ms ns : List Merge) → links (ms ++ ns) ≡ links ms ++ links ns
links-append ms ns = map-append link ms ns

module _ (threshold : Score) where
  abbrev pub merges_of : Score → List (List Node) → List Merge
  merges_of observed clusters = (merge_clusters threshold observed clusters).merges

  -- What one cluster adds.
  abbrev pub here_of : Score → List Node → Outcome
  here_of observed nodes =
      if ltb (length nodes) 2
      then record { merges = []; mergeable = 0; observed = observed }
      else collapse (length nodes) threshold (cluster_name nodes) observed nodes

  here-IsPlanned :
      (observed : Score) (nodes : List Node)
      → All (IsPlanned threshold (cluster_name nodes) nodes) (here_of observed nodes).merges
        × Forward (links (here_of observed nodes).merges)
  here-IsPlanned observed nodes =
      if_both (ltb (length nodes) 2)
        (λ (o : Outcome).
          All (IsPlanned threshold (cluster_name nodes) nodes) o.merges × Forward (links o.merges))
        (tt, tt) (collapse-IsPlanned threshold (cluster_name nodes) (length nodes) observed nodes)

  -- A property of merges that holds in every cluster holds of the whole plan.
  pub merge_clusters-All :
      (P : Merge → Type 0) (Q : List Node → Type 0)
      → ((nodes : List Node) (g : Merge)
          → Q nodes
          → IsPlanned threshold (cluster_name nodes) nodes g
          → P g)
      → (observed : Score) (clusters : List (List Node)) → All Q clusters
      → All P (merge_clusters threshold observed clusters).merges
  unfolding merge_clusters
  merge_clusters-All P Q f observed [] q = tt
  merge_clusters-All P Q f observed (nodes ∷ clusters) q =
      let here = here_of observed nodes in
      All-append P here.merges (merges_of here.observed clusters)
        (All-map here.merges (λ g p. f nodes g q.0 p) (here-IsPlanned observed nodes).0)
        (merge_clusters-All P Q f here.observed clusters q.1)

  pub ends_in :
      (observed : Score) (clusters : List (List Node))
      → All (EndsIn (concat clusters)) (merges_of observed clusters)
  unfolding merge_clusters concat
  ends_in observed [] = tt
  ends_in observed (nodes ∷ clusters) =
      let here = here_of observed nodes in
      All-append (EndsIn (nodes ++ concat clusters)) here.merges (merges_of here.observed clusters)
        (All-map here.merges
          (λ g p.
            let has = IsPlanned-has_uuid threshold (cluster_name nodes) nodes g p in
            (
              has_uuid-left g.victim_uuid nodes (concat clusters) has.0,
              has_uuid-left g.survivor_uuid nodes (concat clusters) has.1,
            ))
          (here-IsPlanned observed nodes).0)
        (All-map (merges_of here.observed clusters)
          (λ g h. (
            has_uuid-right g.victim_uuid nodes (concat clusters) h.0,
            has_uuid-right g.survivor_uuid nodes (concat clusters) h.1,
          ))
          (ends_in here.observed clusters))

  -- A victim is named by no later merge, neither of its own cluster nor of another.
  pub merge_clusters-Forward :
      (observed : Score) (clusters : List (List Node))
      → Unique (concat clusters)
      → Forward (links (merges_of observed clusters))
  unfolding merge_clusters concat
  merge_clusters-Forward observed [] u = tt
  merge_clusters-Forward observed (nodes ∷ clusters) u =
      let here = here_of observed nodes in
      let later = merges_of here.observed clusters in
      let parts = Unique-append nodes (concat clusters) u in
      let planned = here-IsPlanned observed nodes in
      rw (links-append here.merges later) (
        Forward-append (links here.merges) (links later) planned.1
          (merge_clusters-Forward here.observed clusters parts.1)
          (All-links
            (λ e. All (λ f. (text_eq e.0 f.0 ≡ false) × (text_eq e.0 f.1 ≡ false)) (links later))
            here.merges
            (All-map here.merges
              (λ g p.
                let has = IsPlanned-has_uuid threshold (cluster_name nodes) nodes g p in
                let across = λ (w : Text).
                  apart_across g.victim_uuid w nodes (concat clusters) parts.2 has.0 in
                All-links
                  (λ f. (text_eq g.victim_uuid f.0 ≡ false) × (text_eq g.victim_uuid f.1 ≡ false))
                  later
                  (All-map later (λ h k. (across h.victim_uuid k.0, across h.survivor_uuid k.1))
                    (ends_in here.observed clusters)))
              planned.0)))
