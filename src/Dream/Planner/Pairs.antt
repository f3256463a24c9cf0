-- ===== src/Dream/Planner/Pairs.antt =====
-- What the scan over the pairs of a cluster finds (`plan_dedup` in janus_graph/pipeline/dedup.py).
use janus_graph.Base.{
  List, [], ◌∷◌, ◌≡◌, refl, Bool, true, false, Option, none, some, All, All-filter, filter,
  Bool-cases, inl, inr, and_split,
}
use janus_graph.Dream.Similarity.{Score, at_least}
use janus_graph.Dream.Planner.{Node, Seen, similarity, improves, look_at, scan_row, scan_pairs}

-- `R` holds of every two nodes, the earlier first.
abbrev pub AllPairs : {A : Type 0} → (A → A → Type 0) → List A → Type 0
AllPairs R [] = Unit
AllPairs R (a ∷ rest) = All (R a) rest × AllPairs R rest

pub AllPairs-filter :
    {A : Type 0} (R : A → A → Type 0) (p : A → Bool) (xs : List A)
    → AllPairs R xs
    → AllPairs R (filter p xs)
unfolding filter
AllPairs-filter R p [] h = tt
AllPairs-filter R p (a ∷ rest) h = elim (Bool-cases (p a)) [
  | inl e ↦ rw e (All-filter (R a) p rest h.0, AllPairs-filter R p rest h.1)
  | inr e ↦ rw e (AllPairs-filter R p rest h.1)
]

-- The two nodes are below the threshold.
abbrev pub IsBelow : Score → Node → Node → Type 0
IsBelow threshold a b = at_least (similarity a b) threshold ≡ false

module _ (R : Node → Node → Type 0) (threshold : Score) where
  -- The best pair is a pair of the cluster, with its similarity, which reaches the threshold.
  abbrev pub Found : Option (Score × Node × Node) → Type 0
  Found none = Unit
  Found (some (score, a, b)) = R a b × (score ≡ similarity a b) × (at_least score threshold ≡ true)

  look_at-Found :
      (a b : Node) (seen : Seen) → R a b → Found seen.best → Found (look_at threshold a b seen).best
  unfolding look_at
  look_at-Found a b seen r h = elim (Bool-cases (improves threshold (similarity a b) seen.best)) [
    | inl e ↦ rw e (r, refl, reaches (similarity a b) seen.best e)
    | inr e ↦ rw e h
  ]
    where
      reaches :
          (s : Score) (best : Option (Score × Node × Node))
          → improves threshold s best ≡ true
          → at_least s threshold ≡ true
      reaches s none e = e
      reaches s (some (old, x, y)) e = (and_split _ _ e).0

  scan_row-Found :
      (a : Node) (rest : List Node) (seen : Seen)
      → All (R a) rest
      → Found seen.best
      → Found (scan_row threshold a rest seen).best
  unfolding scan_row
  scan_row-Found a [] seen r h = h
  scan_row-Found a (b ∷ rest) seen r h =
      scan_row-Found a rest (look_at threshold a b seen) r.1 (look_at-Found a b seen r.0 h)

  pub scan_pairs-Found :
      (nodes : List Node) (seen : Seen)
      → AllPairs R nodes
      → Found seen.best
      → Found (scan_pairs threshold nodes seen).best
  unfolding scan_pairs
  scan_pairs-Found [] seen r h = h
  scan_pairs-Found (a ∷ rest) seen r h =
      scan_pairs-Found rest (scan_row threshold a rest seen) r.1 (scan_row-Found a rest seen r.0 h)

module _ (threshold : Score) where
  look_at-none :
      (a b : Node) (seen : Seen)
      → (look_at threshold a b seen).best ≡ none
      → (seen.best ≡ none) × IsBelow threshold a b
  unfolding look_at
  look_at-none a b seen e = elim (Bool-cases (improves threshold (similarity a b) seen.best)) [
    | inl t ↦ let gone = rw t at e in cc gone
    | inr t ↦ let kept : seen.best ≡ none = rw t at e in (kept, rw (kept, improves) at t)
  ]

  scan_row-none :
      (a : Node) (rest : List Node) (seen : Seen)
      → (scan_row threshold a rest seen).best ≡ none
      → (seen.best ≡ none) × All (IsBelow threshold a) rest
  unfolding scan_row
  scan_row-none a [] seen e = (e, tt)
  scan_row-none a (b ∷ rest) seen e =
      let later = scan_row-none a rest (look_at threshold a b seen) e in
      let here = look_at-none a b seen later.0 in (here.0, (here.1, later.1))

  -- If the scan finds no pair, then no pair reaches the threshold.
  pub scan_pairs-none :
      (nodes : List Node) (seen : Seen)
      → (scan_pairs threshold nodes seen).best ≡ none
      → (seen.best ≡ none) × AllPairs (IsBelow threshold) nodes
  unfolding scan_pairs
  scan_pairs-none [] seen e = (e, tt)
  scan_pairs-none (a ∷ rest) seen e =
      let later = scan_pairs-none rest (scan_row threshold a rest seen) e in
      let here = scan_row-none a rest seen later.0 in (here.0, (here.1, later.1))
