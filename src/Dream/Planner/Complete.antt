-- ===== src/Dream/Planner/Complete.antt =====
-- The loop over a cluster merges all that is similar enough (`plan_dedup` in
-- janus_graph/pipeline/dedup.py).
use janus_graph.Base.{
  ℕ, zero, suc, Text, text_eq, text_eq_sym, List, [], ◌∷◌, ◌≡◌, refl, ap, ◌∙◌, ◌≤◌, arith, Bool,
  false, any, not, length, filter, Bool-cases, Option-cases, inl, inr,
}
use janus_graph.Dream.Similarity.{Score}
use janus_graph.Dream.Planner.{Node, Merge, uuid_of, pick_survivor, precedes, merge_of, without}
use janus_graph.Dream.Planner.Pairs.{AllPairs, AllPairs-filter, IsBelow, scan_pairs-none}
use janus_graph.Dream.Planner.Merges.{
  Apart, round, first_look, best_pair, chosen_among, length-without-lt,
}
use janus_graph.Dream.Planner.Sound.{plan_of, collapse-none, collapse-go}

abbrev pub is_victim : List Merge → Node → Bool
is_victim ms n = any (λ g. text_eq g.victim_uuid (uuid_of n)) ms

-- The nodes of a cluster that its merges leave.
abbrev pub left_by : List Merge → List Node → List Node
left_by ms nodes = filter (λ n. not (is_victim ms n)) nodes

left_by_none : (nodes : List Node) → left_by [] nodes ≡ nodes
unfolding filter any
left_by_none [] = refl
left_by_none (n ∷ nodes) = ap (◌∷◌ n) (left_by_none nodes)

left_by_empty : (ms : List Merge) → left_by ms [] ≡ []
unfolding filter
left_by_empty ms = refl

left_by_next :
    (g : Merge) (ms : List Merge) (nodes : List Node)
    → left_by (g ∷ ms) nodes ≡ left_by ms (without g.victim_uuid nodes)
unfolding filter any
left_by_next g ms [] = refl
left_by_next g ms (n ∷ nodes) =
    ground (arith, left_by_next g ms nodes, text_eq_sym g.victim_uuid (uuid_of n))

picked-Apart :
    (a b : Node)
    → Apart a b
    → let pair = pick_survivor a b in text_eq (uuid_of pair.0) (uuid_of pair.1) ≡ false
unfolding pick_survivor
picked-Apart a b h = elim (Bool-cases (precedes b a)) [
  | inl e ↦ rw e (text_eq_sym (uuid_of b) (uuid_of a) ∙ h)
  | inr e ↦ rw e h
]

module _ (threshold : Score) (name : Text) where
  -- In a cluster whose nodes have different uuids, the merges leave no two nodes whose similarity
  -- reaches the threshold.
  pub collapse-IsBelow :
      (fuel : ℕ) (observed : Score) (nodes : List Node)
      → length nodes ≤ fuel
      → AllPairs Apart nodes
      → AllPairs (IsBelow threshold) (left_by (plan_of threshold name fuel observed nodes) nodes)
  collapse-IsBelow zero observed [] p h =
      rw (left_by_empty (plan_of threshold name zero observed [])) tt
  collapse-IsBelow zero observed (n ∷ nodes) p h = absurd (omega arith)
  collapse-IsBelow (suc fuel) observed nodes p h =
      elim (Option-cases (round threshold observed nodes).best) [
        | inl e ↦
            rw (collapse-none threshold name fuel observed nodes e, left_by_none nodes)
              (scan_pairs-none threshold nodes (first_look observed) e).1
        | inr ((s, a, b), e) ↦
            let pair = pick_survivor a b in
            let u = uuid_of pair.1 in
            let seen = round threshold observed nodes in
            let d = picked-Apart a b (best_pair threshold name Apart observed s a b nodes h e).0 in
            let less =
              length-without-lt u nodes (chosen_among threshold name observed s a b nodes e).1 in
            let ms = plan_of threshold name fuel seen.observed (without u nodes) in
            rw
              (
                collapse-go threshold name fuel observed s a b nodes e d,
                left_by_next (merge_of name s pair.0 pair.1) ms nodes,
              )
              (collapse-IsBelow fuel seen.observed (without u nodes) (omega (arith, less))
                (AllPairs-filter Apart (λ n. not (text_eq (uuid_of n) u)) nodes h))
      ]
