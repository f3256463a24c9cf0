-- ===== src/Dream/Groups.antt =====
-- A `defaultdict(list)` that collects items under a key: the groups in the order in which their
-- keys first appear, each with its items in order. `same` compares the keys of two items.
use janus_graph.Base.{
  List, [], ◌∷◌, ◌++◌, ◌+◌, ◌≡◌, refl, arith, Bool, true, false, count, count-append, All,
  All-append, Bool-cases, inl, inr, if◌then◌else◌,
}

module _ {A : Type 0} (same : A → A → Bool) where
  -- Whether the group has the key of `x`. No group is empty.
  abbrev pub in_group : A → List A → Bool
  in_group x [] = false
  in_group x (y ∷ group) = same y x

  unfoldable pub add_to : A → List (List A) → List (List A)
  add_to x [] = (x ∷ []) ∷ []
  add_to x (g ∷ groups) = if in_group x g then (g ++ x ∷ []) ∷ groups else g ∷ add_to x groups

  unfoldable pub group_onto : List (List A) → List A → List (List A)
  unfolding add_to
  group_onto groups [] = groups
  group_onto groups (x ∷ xs) = group_onto (add_to x groups) xs

  unfoldable pub group_by : List A → List (List A)
  unfolding group_onto
  group_by xs = group_onto [] xs

module _ {A : Type 0} where
  unfoldable pub concat : List (List A) → List A
  concat [] = []
  concat (g ∷ groups) = g ++ concat groups

module _ {A : Type 0} (same : A → A → Bool) (p : A → Bool) where
  count-add_to :
      (x : A) (groups : List (List A))
      → count p (concat (add_to same x groups)) ≡ count p (x ∷ concat groups)
  unfolding add_to concat count
  count-add_to x [] = refl
  count-add_to x (g ∷ groups) = elim (Bool-cases (in_group same x g)) [
    | inl e ↦ rw e (
        omega (
          arith,
          count-append p (g ++ x ∷ []) (concat groups),
          count-append p g (x ∷ []),
          count-append p g (concat groups),
        ))
    | inr e ↦ rw e (
        omega (
          arith,
          count-append p g (concat (add_to same x groups)),
          count-append p g (concat groups),
          count-add_to x groups,
        ))
  ]

  count-group_onto :
      (groups : List (List A)) (xs : List A)
      → count p (concat (group_onto same groups xs)) ≡ count p (concat groups) + count p xs
  unfolding group_onto count
  count-group_onto groups [] = omega arith
  count-group_onto groups (x ∷ xs) =
      omega (arith, count-group_onto (add_to same x groups) xs, count-add_to x groups)

  -- Grouping moves items, and neither loses nor doubles any.
  pub count-group_by : (xs : List A) → count p (concat (group_by same xs)) ≡ count p xs
  unfolding group_by concat count
  count-group_by xs = omega (arith, count-group_onto [] xs)

-- A property of two items that the comparison gives holds between the first item of a group and
-- every item of it.
module _ {A : Type 0} (same : A → A → Bool) (Q : A → A → Type 0)
    (same_gives : (x y : A) → same x y ≡ true → Q x y) (reflexive : (x : A) → Q x x) where
  abbrev pub Alike : List A → Type 0
  Alike [] = Unit
  Alike (x ∷ group) = All (Q x) (x ∷ group)

  Alike-snoc : (g : List A) (x : A) → Alike g → in_group same x g ≡ true → Alike (g ++ x ∷ [])
  Alike-snoc [] x h e = (reflexive x, tt)
  Alike-snoc (y ∷ g) x h e = (h.0, All-append (Q y) g (x ∷ []) h.1 (same_gives y x e, tt))

  Alike-add_to :
      (x : A) (groups : List (List A)) → All Alike groups → All Alike (add_to same x groups)
  unfolding add_to
  Alike-add_to x [] h = ((reflexive x, tt), tt)
  Alike-add_to x (g ∷ groups) h = elim (Bool-cases (in_group same x g)) [
    | inl e ↦ rw e (Alike-snoc g x h.0 e, h.1)
    | inr e ↦ rw e (h.0, Alike-add_to x groups h.1)
  ]

  Alike-group_onto :
      (groups : List (List A)) (xs : List A)
      → All Alike groups
      → All Alike (group_onto same groups xs)
  unfolding group_onto
  Alike-group_onto groups [] h = h
  Alike-group_onto groups (x ∷ xs) h =
      Alike-group_onto (add_to same x groups) xs (Alike-add_to x groups h)

  pub Alike-group_by : (xs : List A) → All Alike (group_by same xs)
  unfolding group_by
  Alike-group_by xs = Alike-group_onto [] xs tt

module _ {A : Type 0} (same : A → A → Bool) (P : A → Type 0) where
  All-add_to :
      (x : A) (groups : List (List A))
      → P x
      → All (All P) groups
      → All (All P) (add_to same x groups)
  unfolding add_to
  All-add_to x [] p h = ((p, tt), tt)
  All-add_to x (g ∷ groups) p h = elim (Bool-cases (in_group same x g)) [
    | inl e ↦ rw e (All-append P g (x ∷ []) h.0 (p, tt), h.1)
    | inr e ↦ rw e (h.0, All-add_to x groups p h.1)
  ]

  All-group_onto :
      (groups : List (List A)) (xs : List A)
      → All (All P) groups
      → All P xs
      → All (All P) (group_onto same groups xs)
  unfolding group_onto
  All-group_onto groups [] h a = h
  All-group_onto groups (x ∷ xs) h a =
      All-group_onto (add_to same x groups) xs (All-add_to x groups a.0 h) a.1

  pub All-group_by : (xs : List A) → All P xs → All (All P) (group_by same xs)
  unfolding group_by
  All-group_by xs a = All-group_onto [] xs tt a
