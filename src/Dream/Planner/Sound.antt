-- ===== src/Dream/Planner/Sound.antt =====
-- Every merge that the loop over a cluster plans joins two of its nodes that are similar enough,
-- and a victim is never used again (`plan_dedup` in janus_graph/pipeline/dedup.py).
use janus_graph.Base.{
  ℕ, zero, suc, Text, text_eq, text_eq_self, text_eq_sym, List, [], ◌∷◌, map, ◌≡◌, refl, ap, ◌∙◌,
  ◌⊎◌, ◌≤◌, arith, true, false, none, some, any, ◌+◌, All, All-map, filter, subst, Bool-cases,
  Option-cases, inl, inr,
}
use mathlib.Core.Logic.{⊎_elim}
use mathlib.Core.List.{Memᴰ}
use mathlib.Core.List.Memᴰ
use janus_graph.Dream.Similarity.{Score, at_least}
use janus_graph.Dream.Planner.{
  Node, Merge, Outcome, uuid_of, summary_len, similarity, pick_survivor, precedes, merge_of,
  without, collapse,
}
use janus_graph.Dream.Planner.Merges.{
  has_uuid, round, Both, best_pair, pick_survivor-P, pick_survivor-longer, has_uuid-without,
}
use janus_graph.Dream.Redirect.{Map}
use janus_graph.Dream.Redirect.Chains.{Forward}

pub record IsPlanned (threshold : Score) (name : Text) (nodes : List Node) (g : Merge)
    : Type 0 where
  pub keeper : Node
  pub loser : Node
  pub keeper_in : Memᴰ keeper nodes
  pub loser_in : Memᴰ loser nodes
  pub made : g ≡ merge_of name g.similarity keeper loser
  pub score : (g.similarity ≡ similarity keeper loser) ⊎ (g.similarity ≡ similarity loser keeper)
  pub reaches : at_least g.similarity threshold ≡ true
  pub longer : summary_len loser ≤ summary_len keeper
  pub differ : text_eq (uuid_of loser) (uuid_of keeper) ≡ false

abbrev pub link : Merge → Text × Text
link g = (g.victim_uuid, g.survivor_uuid)

-- The entries of the dictionary, in the order of the merges.
abbrev pub links : List Merge → Map
links merges = map link merges

pub All-links :
    (Q : Text × Text → Type 0) (ms : List Merge) → All (λ g. Q (link g)) ms → All Q (links ms)
All-links Q [] h = tt
All-links Q (g ∷ ms) h = (h.0, All-links Q ms h.1)

pub All-Memᴰ : (nodes : List Node) → All (λ n. Memᴰ n nodes) nodes
All-Memᴰ [] = tt
All-Memᴰ (n ∷ nodes) = (Memᴰ.head refl, All-map nodes (λ m h. Memᴰ.tail h) (All-Memᴰ nodes))

pub has_uuid-Memᴰ :
    (n : Node) (nodes : List Node) → Memᴰ n nodes → has_uuid (uuid_of n) nodes ≡ true
unfolding any
has_uuid-Memᴰ n [] h = elim h [ ]
has_uuid-Memᴰ n (m ∷ nodes) (Memᴰ.head e) =
    subst (λ k. has_uuid (uuid_of n) (k ∷ nodes) ≡ true) e (rw (text_eq_self (uuid_of n)))
has_uuid-Memᴰ n (m ∷ nodes) (Memᴰ.tail h) = rw (has_uuid-Memᴰ n nodes h) (ground arith)

Memᴰ-without : (u : Text) (n : Node) (nodes : List Node) → Memᴰ n (without u nodes) → Memᴰ n nodes
unfolding filter
Memᴰ-without u n [] h = h
Memᴰ-without u n (m ∷ nodes) h = elim (Bool-cases (text_eq (uuid_of m) u)) [
  | inl e ↦ Memᴰ.tail (Memᴰ-without u n nodes (rw e at h))
  | inr e ↦
      let h' : Memᴰ n (m ∷ without u nodes) = rw e at h in
      ⊎_elim Memᴰ.head (λ q. Memᴰ.tail (Memᴰ-without u n nodes q)) (Memᴰ.cases_cons h')
]

picked_score :
    (s : Score) (a b : Node)
    → s ≡ similarity a b
    → let pair = pick_survivor a b in
      (s ≡ similarity pair.0 pair.1) ⊎ (s ≡ similarity pair.1 pair.0)
unfolding pick_survivor
picked_score s a b h = elim (Bool-cases (precedes b a)) [
  | inl e ↦ rw e (inr h)
  | inr e ↦ rw e (inl h)
]

module _ (threshold : Score) (name : Text) where
  IsPlanned-without :
      (u : Text) (nodes : List Node) (g : Merge)
      → IsPlanned threshold name (without u nodes) g
      → IsPlanned threshold name nodes g
  IsPlanned-without u nodes g p = record {
    keeper = p.keeper;
    loser = p.loser;
    keeper_in = Memᴰ-without u p.keeper nodes p.keeper_in;
    loser_in = Memᴰ-without u p.loser nodes p.loser_in;
    made = p.made;
    score = p.score;
    reaches = p.reaches;
    longer = p.longer;
    differ = p.differ;
  }

  -- The uuids that a merge names are those of nodes of the cluster.
  pub IsPlanned-has_uuid :
      (nodes : List Node) (g : Merge)
      → IsPlanned threshold name nodes g
      → (has_uuid g.victim_uuid nodes ≡ true) × (has_uuid g.survivor_uuid nodes ≡ true)
  IsPlanned-has_uuid nodes g p =
      rw (p.made) (has_uuid-Memᴰ p.loser nodes p.loser_in, has_uuid-Memᴰ p.keeper nodes p.keeper_in)

  -- A merge among what remains names neither uuid that was taken out.
  later_apart :
      (u : Text) (nodes : List Node) (g : Merge)
      → IsPlanned threshold name (without u nodes) g
      → (text_eq u g.victim_uuid ≡ false) × (text_eq u g.survivor_uuid ≡ false)
  later_apart u nodes g p =
      let has = IsPlanned-has_uuid (without u nodes) g p in
      (
        (has_uuid-without u g.victim_uuid nodes has.0).1,
        (has_uuid-without u g.survivor_uuid nodes has.1).1,
      )

  -- The best pair of a round, with the survivor that is picked.
  IsPlanned-here :
      (observed s : Score) (a b : Node) (nodes : List Node)
      → (round threshold observed nodes).best ≡ some (s, a, b)
      → let pair = pick_survivor a b in
        text_eq (uuid_of pair.0) (uuid_of pair.1) ≡ false
        → IsPlanned threshold name nodes (merge_of name s pair.0 pair.1)
  IsPlanned-here observed s a b nodes e d =
      let P = λ (n : Node). Memᴰ n nodes in
      let found =
        best_pair threshold name (λ x y. P x × P y) observed s a b nodes
          (Both P nodes (All-Memᴰ nodes)) e in
      let picked = pick_survivor-P P a b found.0.0 found.0.1 in
      let pair = pick_survivor a b in
      record {
        keeper = pair.0;
        loser = pair.1;
        keeper_in = picked.0;
        loser_in = picked.1;
        made = refl;
        score = picked_score s a b found.1;
        reaches = found.2;
        longer = pick_survivor-longer a b;
        differ = text_eq_sym (uuid_of pair.1) (uuid_of pair.0) ∙ d;
      }

  abbrev pub plan_of : ℕ → Score → List Node → List Merge
  plan_of fuel observed nodes = (collapse fuel threshold name observed nodes).merges

  pub collapse-zero : (observed : Score) (nodes : List Node) → plan_of zero observed nodes ≡ []
  unfolding collapse
  collapse-zero observed nodes = refl

  -- The loop stops where no pair is similar enough,
  pub collapse-none :
      (fuel : ℕ) (observed : Score) (nodes : List Node)
      → (round threshold observed nodes).best ≡ none
      → plan_of (suc fuel) observed nodes ≡ []
  unfolding collapse
  collapse-none fuel observed nodes e =
      let whole : collapse (suc fuel) threshold name observed nodes ≡ record {
        merges = [];
        mergeable = 0;
        observed = (round threshold observed nodes).observed;
      } =
        rw (e, collapse) in
      ap (λ (o : Outcome). o.merges) whole

  -- or where the two nodes of the best pair have one uuid,
  pub collapse-stop :
      (fuel : ℕ) (observed s : Score) (a b : Node) (nodes : List Node)
      → (round threshold observed nodes).best ≡ some (s, a, b)
      → let pair = pick_survivor a b in
        text_eq (uuid_of pair.0) (uuid_of pair.1) ≡ true → plan_of (suc fuel) observed nodes ≡ []
  unfolding collapse
  collapse-stop fuel observed s a b nodes e same =
      let whole : collapse (suc fuel) threshold name observed nodes ≡ record {
        merges = [];
        mergeable = 1;
        observed = (round threshold observed nodes).observed;
      } =
        rw (e, same, collapse) in
      ap (λ (o : Outcome). o.merges) whole

  -- and else goes on without the victim.
  pub collapse-go :
      (fuel : ℕ) (observed s : Score) (a b : Node) (nodes : List Node)
      → (round threshold observed nodes).best ≡ some (s, a, b)
      → let pair = pick_survivor a b in
        text_eq (uuid_of pair.0) (uuid_of pair.1) ≡ false
        → plan_of (suc fuel) observed nodes
          ≡ merge_of name s pair.0 pair.1
            ∷ plan_of fuel
                (round threshold observed nodes).observed
                (without (uuid_of pair.1) nodes)
  unfolding collapse
  collapse-go fuel observed s a b nodes e d =
      let pair = pick_survivor a b in
      let seen = round threshold observed nodes in
      let rest = collapse fuel threshold name seen.observed (without (uuid_of pair.1) nodes) in
      let whole : collapse (suc fuel) threshold name observed nodes ≡ record {
        merges = merge_of name s pair.0 pair.1 ∷ rest.merges;
        mergeable = rest.mergeable + 1;
        observed = rest.observed;
      } =
        rw (e, d, collapse) in
      ap (λ (o : Outcome). o.merges) whole

  -- Every merge of a cluster joins two nodes of it whose similarity reaches the threshold; the
  -- survivor has the longer summary or one as long; and a victim is named by no later merge.
  pub collapse-IsPlanned :
      (fuel : ℕ) (observed : Score) (nodes : List Node)
      → All (IsPlanned threshold name nodes) (plan_of fuel observed nodes)
        × Forward (links (plan_of fuel observed nodes))
  collapse-IsPlanned zero observed nodes = rw (collapse-zero observed nodes) (tt, tt)
  collapse-IsPlanned (suc fuel) observed nodes =
      elim (Option-cases (round threshold observed nodes).best) [
        | inl e ↦ rw (collapse-none fuel observed nodes e) (tt, tt)
        | inr ((s, a, b), e) ↦
            let pair = pick_survivor a b in
            let u = uuid_of pair.1 in
            let seen = round threshold observed nodes in
            let rest = collapse-IsPlanned fuel seen.observed (without u nodes) in
            let ms = plan_of fuel seen.observed (without u nodes) in
            elim (Bool-cases (text_eq (uuid_of pair.0) u)) [
              | inl same ↦ rw (collapse-stop fuel observed s a b nodes e same) (tt, tt)
              | inr d ↦ rw (collapse-go fuel observed s a b nodes e d) (
                (
                  IsPlanned-here observed s a b nodes e d,
                  All-map ms (IsPlanned-without u nodes) rest.0,
                ),
                (
                  text_eq_sym u (uuid_of pair.0) ∙ d,
                  All-links (λ l. (text_eq u l.0 ≡ false) × (text_eq u l.1 ≡ false)) ms
                      (All-map ms (later_apart u nodes) rest.0),
                  rest.1,
                ),
              )
            ]
      ]
