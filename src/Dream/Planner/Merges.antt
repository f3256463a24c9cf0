-- ===== src/Dream/Planner/Merges.antt =====
-- The merges that the loop over one cluster plans (`plan_dedup` in janus_graph/pipeline/dedup.py).
use janus_graph.Base.{
  ℕ, zero, suc, Text, text_eq, text_eq_self, text_eq_sym, text_eq_iff, subst, List, [], ◌∷◌, ◌≡◌,
  refl, ap, ◌∙◌, ◌≤◌, ◌<◌, ◌+◌, arith, Bool, true, false, none, some, any, length, All, All-map,
  filter, Bool-cases, Option-cases, inl, inr, if◌then◌else◌,
}
use janus_graph.Dream.Similarity.{Score}
use janus_graph.Dream.Planner.{
  Node, uuid_of, summary_len, Seen, scan_pairs, pick_survivor, precedes, merge_of, without,
  collapse,
}
use janus_graph.Dream.Planner.Pairs.{AllPairs, Found, scan_pairs-Found}

-- `any` node of the list has the uuid.
abbrev pub has_uuid : Text → List Node → Bool
has_uuid u nodes = any (λ n. text_eq (uuid_of n) u) nodes

abbrev pub Apart : Node → Node → Type 0
Apart a b = text_eq (uuid_of a) (uuid_of b) ≡ false

abbrev pub first_look : Score → Seen
first_look observed = record { best = none; observed = observed }

-- One round of the loop.
abbrev pub round : Score → Score → List Node → Seen
round threshold observed nodes = scan_pairs threshold nodes (first_look observed)

-- Both nodes of a pair have a property that all have.
pub Both : (P : Node → Type 0) (nodes : List Node) → All P nodes → AllPairs (λ a b. P a × P b) nodes
Both P [] h = tt
Both P (n ∷ nodes) h = (All-map nodes (λ m q. (h.0, q)) h.1, Both P nodes h.1)

-- The survivor and the victim are the two nodes of the pair.
pub pick_survivor-P :
    (P : Node → Type 0) (a b : Node) → P a → P b → P (pick_survivor a b).0 × P (pick_survivor a b).1
unfolding pick_survivor
pick_survivor-P P a b p q = elim (Bool-cases (precedes b a)) [
  | inl e ↦ rw e (q, p)
  | inr e ↦ rw e (p, q)
]

-- The survivor has the longer summary, or one as long.
pub pick_survivor-longer :
    (a b : Node) → summary_len (pick_survivor a b).1 ≤ summary_len (pick_survivor a b).0
unfolding pick_survivor precedes
pick_survivor-longer a b = ground arith

length-without-le : (u : Text) (nodes : List Node) → length (without u nodes) ≤ length nodes
unfolding filter
length-without-le u [] = omega arith
length-without-le u (n ∷ nodes) = ground (arith, length-without-le u nodes)

-- Taking out a uuid that is there leaves fewer nodes.
pub length-without-lt :
    (u : Text) (nodes : List Node)
    → has_uuid u nodes ≡ true
    → length (without u nodes) < length nodes
unfolding filter any
length-without-lt u [] h = cc
length-without-lt u (n ∷ nodes) h =
    ground (arith, length-without-lt u nodes, length-without-le u nodes)

All-has_uuid : (nodes : List Node) → All (λ n. has_uuid (uuid_of n) nodes ≡ true) nodes
unfolding any
All-has_uuid [] = tt
All-has_uuid (n ∷ nodes) =
    (rw (text_eq_self (uuid_of n)), All-map nodes (λ m h. rw h (ground arith)) (All-has_uuid nodes))

-- What remains has another uuid.
pub has_uuid-without :
    (u v : Text) (nodes : List Node)
    → has_uuid v (without u nodes) ≡ true
    → (has_uuid v nodes ≡ true) × (text_eq u v ≡ false)
unfolding any filter
has_uuid-without u v [] h = cc
has_uuid-without u v (n ∷ nodes) h = elim (Bool-cases (text_eq (uuid_of n) u)) [
  | inl e ↦ let later = has_uuid-without u v nodes (rw e at h) in (ground (arith, later), later.1)
  | inr e ↦ elim (Bool-cases (text_eq (uuid_of n) v)) [
    | inl f ↦
        let same = (text_eq_iff (uuid_of n) v).0 f in
        (ground arith, subst (λ w. text_eq u w ≡ false) same (text_eq_sym u (uuid_of n) ∙ e))
    | inr f ↦
        let later = has_uuid-without u v nodes (rw (e, f) at h) in (ground (arith, later), later.1)
  ]
]

module _ (threshold : Score) (name : Text) where
  -- The best pair of a cluster, with what holds of all its pairs.
  pub best_pair :
      (R : Node → Node → Type 0) (observed s : Score) (a b : Node) (nodes : List Node)
      → AllPairs R nodes
      → (round threshold observed nodes).best ≡ some (s, a, b)
      → Found R threshold (some (s, a, b))
  best_pair R observed s a b nodes h e =
      subst (Found R threshold) e (scan_pairs-Found R threshold nodes (first_look observed) h tt)

  -- Survivor and victim of the best pair are nodes of the cluster.
  pub chosen_among :
      (observed s : Score) (a b : Node) (nodes : List Node)
      → (round threshold observed nodes).best ≡ some (s, a, b)
      → (has_uuid (uuid_of (pick_survivor a b).0) nodes ≡ true)
        × (has_uuid (uuid_of (pick_survivor a b).1) nodes ≡ true)
  chosen_among observed s a b nodes e =
      let P = λ (n : Node). has_uuid (uuid_of n) nodes ≡ true in
      let both =
        best_pair (λ x y. P x × P y) observed s a b nodes (Both P nodes (All-has_uuid nodes)) e in
      pick_survivor-P P a b both.0.0 both.0.1

  -- With as many rounds as there are nodes, the loop has ended by its own tests: any two such
  -- numbers of rounds give the same outcome.
  pub collapse_stable :
      (f g : ℕ) (observed : Score) (nodes : List Node)
      → length nodes ≤ f
      → length nodes ≤ g
      → collapse f threshold name observed nodes ≡ collapse g threshold name observed nodes
  unfolding collapse
  collapse_stable zero zero observed nodes p q = refl
  collapse_stable zero (suc g) observed [] p q = refl
  collapse_stable zero (suc g) observed (n ∷ nodes) p q = absurd (omega arith)
  collapse_stable (suc f) zero observed [] p q = refl
  collapse_stable (suc f) zero observed (n ∷ nodes) p q = absurd (omega arith)
  collapse_stable (suc f) (suc g) observed nodes p q =
      elim (Option-cases (round threshold observed nodes).best) [
        | inl e ↦ rw (e, collapse)
        | inr ((s, a, b), e) ↦
            let pair = pick_survivor a b in
            let seen = round threshold observed nodes in
            let less =
              length-without-lt (uuid_of pair.1) nodes (chosen_among observed s a b nodes e).1 in
            rw (e, collapse)
              (ap
                (λ o.
                  if text_eq (uuid_of pair.0) (uuid_of pair.1)
                  then record { merges = []; mergeable = 1; observed = seen.observed }
                  else record {
                    merges = merge_of name s pair.0 pair.1 ∷ o.merges;
                    mergeable = o.mergeable + 1;
                    observed = o.observed;
                  })
                (collapse_stable f g seen.observed (without (uuid_of pair.1) nodes)
                  (omega (arith, less)) (omega (arith, less))))
      ]
