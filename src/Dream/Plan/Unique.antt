-- ===== src/Dream/Plan/Unique.antt =====
-- Nodes with different uuids, and how grouping them by name keeps that (`plan_dedup` in
-- janus_graph/pipeline/dedup.py).
use janus_graph.Base.{
  Text, text_eq, text_eq_sym, text_eq_iff, text_eq_self, List, [], ◌∷◌, ◌++◌, ◌≡◌, refl, ◌∙◌, subst,
  ◌≤◌, arith, Bool, true, false, any, count, All, All-map, Bool-cases, inl, inr, All-of_any,
}
use janus_graph.Dream.Groups.{group_by, concat, count-group_by}
use janus_graph.Dream.Planner.{Node, uuid_of}
use janus_graph.Dream.Planner.Pairs.{AllPairs}
use janus_graph.Dream.Planner.Merges.{has_uuid, Apart}

-- No two nodes have the same uuid.
abbrev pub Unique : List Node → Type 0
Unique [] = Unit
Unique (n ∷ nodes) = (has_uuid (uuid_of n) nodes ≡ false) × Unique nodes

abbrev is_named : Text → Node → Bool
is_named u n = text_eq (uuid_of n) u

count_of_any : (p : Node → Bool) (nodes : List Node) → any p nodes ≡ false → count p nodes ≡ 0
unfolding any count
count_of_any p [] h = refl
count_of_any p (n ∷ nodes) h = ground (arith, count_of_any p nodes)

any_of_count : (p : Node → Bool) (nodes : List Node) → count p nodes ≡ 0 → any p nodes ≡ false
unfolding any count
any_of_count p [] h = refl
any_of_count p (n ∷ nodes) h = ground (arith, any_of_count p nodes)

count_of_Unique : (u : Text) (nodes : List Node) → Unique nodes → count (is_named u) nodes ≤ 1
unfolding count
count_of_Unique u [] h = omega arith
count_of_Unique u (n ∷ nodes) h = elim (Bool-cases (text_eq (uuid_of n) u)) [
  | inl e ↦
      let same = (text_eq_iff (uuid_of n) u).0 e in
      let none_left =
        count_of_any (is_named u) nodes (subst (λ w. has_uuid w nodes ≡ false) same h.0) in
      rw e (omega (arith, none_left))
  | inr e ↦ rw e (omega (arith, count_of_Unique u nodes h.1))
]

Unique-of_count : (nodes : List Node) → ((u : Text) → count (is_named u) nodes ≤ 1) → Unique nodes
unfolding count
Unique-of_count [] h = tt
Unique-of_count (n ∷ nodes) h =
    let self = text_eq_self (uuid_of n) in
    let few = rw self at (h (uuid_of n)) in
    (
      any_of_count (is_named (uuid_of n)) nodes (omega (arith, few)),
      Unique-of_count nodes (λ u. let most = h u in ground arith),
    )

-- Grouping keeps the uuids different.
pub Unique-group_by :
    (same : Node → Node → Bool) (nodes : List Node)
    → Unique nodes
    → Unique (concat (group_by same nodes))
Unique-group_by same nodes h =
    Unique-of_count (concat (group_by same nodes))
      (λ u. rw (count-group_by same (is_named u) nodes) (count_of_Unique u nodes h))

pub Apart-of_Unique : (nodes : List Node) → Unique nodes → AllPairs Apart nodes
Apart-of_Unique [] h = tt
Apart-of_Unique (n ∷ nodes) h = (
  All-map nodes (λ m e. text_eq_sym (uuid_of n) (uuid_of m) ∙ e)
      (All-of_any (is_named (uuid_of n)) nodes h.0),
  Apart-of_Unique nodes h.1,
)

has_uuid-append :
    (u : Text) (xs ys : List Node)
    → has_uuid u (xs ++ ys) ≡ false
    → (has_uuid u xs ≡ false) × (has_uuid u ys ≡ false)
unfolding any
has_uuid-append u [] ys h = (refl, h)
has_uuid-append u (x ∷ xs) ys h = ground (arith, has_uuid-append u xs ys)

-- Both parts keep to themselves.
pub Unique-append :
    (xs ys : List Node)
    → Unique (xs ++ ys)
    → Unique xs × Unique ys × All (λ n. has_uuid (uuid_of n) ys ≡ false) xs
Unique-append [] ys h = (tt, h, tt)
Unique-append (x ∷ xs) ys h =
    let here = has_uuid-append (uuid_of x) xs ys h.0 in
    let rest = Unique-append xs ys h.1 in ((here.0, rest.0), rest.1, (here.1, rest.2))

-- A uuid of one part and a uuid of the other differ.
pub apart_across :
    (v w : Text) (xs ys : List Node)
    → All (λ n. has_uuid (uuid_of n) ys ≡ false) xs
    → has_uuid v xs ≡ true
    → has_uuid w ys ≡ true
    → text_eq v w ≡ false
unfolding any
apart_across v w [] ys a h k = cc
apart_across v w (x ∷ xs) ys a h k = elim (Bool-cases (text_eq (uuid_of x) v)) [
  | inl e ↦
      let same = (text_eq_iff (uuid_of x) v).0 e in
      elim (Bool-cases (text_eq v w)) [
        | inl f ↦
            let also = (text_eq_iff v w).0 f in
            let gone : has_uuid w ys ≡ false =
              subst (λ u. has_uuid u ys ≡ false) (same ∙ also) a.0 in
            cc (gone, k)
        | inr f ↦ f
      ]
  | inr e ↦ apart_across v w xs ys a.1 (rw e at h) k
]

-- A uuid of a grouped node is one of the nodes'.
pub has_uuid-group_by :
    (u : Text) (same : Node → Node → Bool) (nodes : List Node)
    → has_uuid u (concat (group_by same nodes)) ≡ true
    → has_uuid u nodes ≡ true
has_uuid-group_by u same nodes h = elim (Bool-cases (has_uuid u nodes)) [
  | inl e ↦ e
  | inr e ↦
      let all_gone = count-group_by same (is_named u) nodes ∙ count_of_any (is_named u) nodes e in
      let gone = any_of_count (is_named u) (concat (group_by same nodes)) all_gone in cc (gone, h)
]
