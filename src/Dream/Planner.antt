-- ===== src/Dream/Planner.antt =====
-- `plan_dedup` of janus_graph/pipeline/dedup.py. A node is what the dictionary of the snapshot
-- holds, and `none` is None. The drop counts that the function computes in its first two loops
-- over the edges, and overwrites before it returns, are left out.
use janus_graph.Base.{
  ℕ, zero, suc, Text, text_eq, text_lt, codes, List, [], ◌∷◌, ◌+◌, Bool, not, ◌&&◌, ◌||◌, Option,
  none, some, get_or, filter, length, ltb, ◌==◌, if◌then◌else◌,
}
use janus_graph.Dream.Similarity.{Score, at_least, above, jaccard, tokenize}
pub mod Pairs
pub mod Complete
pub mod Sound
pub mod Merges

pub record Node : Type 0 where
  pub uuid : Option Text
  pub name : Option Text
  pub summary : Option Text
  pub created_at : Option Text

-- `str(node.get("uuid"))`
abbrev pub uuid_of : Node → Text
uuid_of n = get_or n.uuid (codes "None")

-- `len(node.get("summary") or "")`
abbrev pub summary_len : Node → ℕ
summary_len n = length (get_or n.summary [])

pub record Merge : Type 0 where
  pub name : Text
  pub survivor_uuid : Text
  pub victim_uuid : Text
  pub similarity : Score
  pub survivor_summary_len : ℕ
  pub victim_summary_len : ℕ

-- The sort key of `_pick_survivor`: whether that of `a` is below that of `b`.
unfoldable pub precedes : Node → Node → Bool
precedes a b =
    let created = λ (n : Node). get_or n.created_at [] in
    let uuid = λ (n : Node). get_or n.uuid [] in
    ltb (summary_len b) (summary_len a)
    || (summary_len a == summary_len b
        && (text_lt (created a) (created b)
            || (text_eq (created a) (created b) && text_lt (uuid a) (uuid b))))

-- `_pick_survivor([a, b])` and the other of the two. The sort is stable, so `a` stays on a tie.
pub pick_survivor : Node → Node → Node × Node
pick_survivor a b = if precedes b a then (b, a) else (a, b)

pub similarity : Node → Node → Score
similarity a b = jaccard (tokenize a.summary) (tokenize b.summary)

-- What the two loops over the pairs of a cluster keep.
pub record Seen : Type 0 where
  pub best : Option (Score × Node × Node)
  pub observed : Score

-- `score >= threshold and (best is None or score > best[0])`
abbrev pub improves : Score → Score → Option (Score × Node × Node) → Bool
improves threshold score none = at_least score threshold
improves threshold score (some (old, a, b)) = at_least score threshold && above score old

pub look_at : Score → Node → Node → Seen → Seen
unfolding similarity
look_at threshold a b seen =
    let score = similarity a b in
    record {
      best = if improves threshold score seen.best then some (score, a, b) else seen.best;
      observed = if above score seen.observed then score else seen.observed;
    }

-- `for j in range(i + 1, len(remaining))`
pub scan_row : Score → Node → List Node → Seen → Seen
scan_row threshold a [] seen = seen
scan_row threshold a (b ∷ rest) seen = scan_row threshold a rest (look_at threshold a b seen)

-- `for i in range(len(remaining))`
pub scan_pairs : Score → List Node → Seen → Seen
scan_pairs threshold [] seen = seen
scan_pairs threshold (a ∷ rest) seen = scan_pairs threshold rest (scan_row threshold a rest seen)

abbrev pub merge_of : Text → Score → Node → Node → Merge
merge_of name score keeper loser = record {
  name = name;
  survivor_uuid = uuid_of keeper;
  victim_uuid = uuid_of loser;
  similarity = score;
  survivor_summary_len = summary_len keeper;
  victim_summary_len = summary_len loser;
}

-- What the `while` loop adds to the plan for one cluster.
pub record Outcome : Type 0 where
  pub merges : List Merge
  pub mergeable : ℕ
  pub observed : Score

-- `[n for n in remaining if str(n.get("uuid")) != loser_uuid]`
abbrev pub without : Text → List Node → List Node
without uuid nodes = filter (λ n. not (text_eq (uuid_of n) uuid)) nodes

-- The `while` loop, on fuel.
unfoldable pub collapse : ℕ → Score → Text → Score → List Node → Outcome
unfolding scan_pairs scan_row look_at pick_survivor precedes
collapse zero threshold name observed nodes = record {
  merges = [];
  mergeable = 0;
  observed = observed;
}
collapse (suc fuel) threshold name observed nodes =
    let seen = scan_pairs threshold nodes (record { best = none; observed = observed }) in
    elim seen.best [
      | none ↦ record { merges = []; mergeable = 0; observed = seen.observed }
      | some (score, a, b) ↦
          let pair = pick_survivor a b in
          let rest = collapse fuel threshold name seen.observed (without (uuid_of pair.1) nodes) in
          if text_eq (uuid_of pair.0) (uuid_of pair.1)
          then record { merges = []; mergeable = 1; observed = seen.observed }
          else record {
            merges = merge_of name score pair.0 pair.1 ∷ rest.merges;
            mergeable = rest.mergeable + 1;
            observed = rest.observed;
          }
    ]
