-- ===== src/Dream/Plan/Counts.antt =====
-- What the numbers of a plan count (`plan_dedup` in janus_graph/pipeline/dedup.py).
use janus_graph.Base.{
  ℕ, zero, suc, text_eq_self, List, [], ◌∷◌, ◌++◌, ◌≡◌, refl, ap, ◌∙◌, ◌+◌, ◌*◌, arith, true, any,
  count, ◌&&◌, length,
}
use janus_graph.Dream.Groups.{group_by, group_onto, add_to}
use janus_graph.Dream.Planner.{Node, Merge}
use janus_graph.Dream.Planner.Sound.{links}
use janus_graph.Dream.Redirect.{Map}
use janus_graph.Dream.Plan.{
  Edge, redirect_of, plan_dedup, total_relations_removed, collisions, sum_drops, group_drops,
  relation_touched, is_self_loop, same_relation, src_of, dst_of,
}
use janus_graph.Dream.Plan.Unique.{Unique}
use janus_graph.Dream.Plan.Survivors.{planned, planned-Forward, redirect_of-links}
use janus_graph.Dream.Similarity.{Score}

length-links : (ms : List Merge) → length (links ms) ≡ length ms
length-links [] = refl
length-links (g ∷ ms) = ap suc (length-links ms)

-- If the entities have different uuids, then a plan deletes as many nodes as it merges.
pub nodes_to_delete-length :
    (entities : List Node) (mentions relations : List Edge) (threshold : Score)
    → Unique entities
    → let p = plan_dedup entities mentions relations threshold in
      p.nodes_to_delete ≡ length p.merges
unfolding plan_dedup
nodes_to_delete-length entities mentions relations threshold u =
    let fwd = planned-Forward entities mentions relations threshold u in
    ap length (redirect_of-links (planned entities mentions relations threshold) fwd)
    ∙ length-links (planned entities mentions relations threshold)

pub copies : ℕ → Edge → List Edge
copies zero e = []
copies (suc n) e = e ∷ copies n e

copies-snoc : (n : ℕ) (e : Edge) → copies n e ++ e ∷ [] ≡ copies (suc n) e
unfolding copies
copies-snoc zero e = refl
copies-snoc (suc n) e = ap (◌∷◌ e) (copies-snoc n e)

length-copies : (n : ℕ) (e : Edge) → length (copies n e) ≡ n
unfolding copies
length-copies zero e = refl
length-copies (suc n) e = ap suc (length-copies n e)

module _ (m : Map) (e : Edge) (loop : is_self_loop m e ≡ true) where
  same_self : same_relation m e e ≡ true
  unfolding same_relation
  same_self = rw (loop, text_eq_self (src_of e), text_eq_self (dst_of e))

  joins : (k : ℕ) → add_to (same_relation m) e ((e ∷ copies k e) ∷ []) ≡ (e ∷ copies (suc k) e) ∷ []
  unfolding add_to
  joins k = rw same_self (ap (λ es. (e ∷ es) ∷ []) (copies-snoc k e))

  one_group :
      (n k : ℕ)
      → group_onto (same_relation m) ((e ∷ copies k e) ∷ []) (copies n e)
        ≡ (e ∷ copies (n + k) e) ∷ []
  unfolding group_onto copies
  one_group zero k = ap (λ i. (e ∷ copies i e) ∷ []) (omega arith)
  one_group (suc n) k =
      ap (λ gs. group_onto (same_relation m) gs (copies n e)) (joins k)
      ∙ (one_group n (suc k) ∙ ap (λ i. (e ∷ copies i e) ∷ []) (omega arith))

  collisions-copies :
      (n : ℕ)
      → relation_touched m e ≡ true
      → collisions (same_relation m) (relation_touched m) (copies (suc n) e) ≡ n
  unfolding collisions group_by group_onto add_to copies sum_drops group_drops any
  collisions-copies n touched =
      rw (one_group n 0) (ground (arith, length-copies (n + 0) e, touched))

  loops-copies :
      (n : ℕ)
      → relation_touched m e ≡ true
      → count (λ f. relation_touched m f && is_self_loop m f) (copies n e) ≡ n
  unfolding count copies
  loops-copies zero touched = refl
  loops-copies (suc n) touched = ground (arith, loops-copies n touched)

-- Of `n + 1` relations between the same two nodes, which the merges fold into one node, the plan
-- announces `2 n + 1` as removed: every self-loop after the first counts as a duplicate too.
pub relations_removed-copies :
    (entities : List Node) (mentions : List Edge) (threshold : Score) (e : Edge) (n : ℕ)
    → let p = plan_dedup entities mentions (copies (suc n) e) threshold in
      let m = redirect_of p.merges in
      relation_touched m e ≡ true → is_self_loop m e ≡ true → total_relations_removed p ≡ 2 * n + 1
unfolding plan_dedup
relations_removed-copies entities mentions threshold e n touched loop =
    let m = redirect_of (planned entities mentions (copies (suc n) e) threshold) in
    omega (arith, collisions-copies m e loop n touched, loops-copies m e loop (suc n) touched)
