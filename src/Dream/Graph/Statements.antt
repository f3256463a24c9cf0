-- ===== src/Dream/Graph/Statements.antt =====
-- Rules for the statements of janus_graph/pipeline/dedup_apply.py, and for lists of edges from
-- which some are deleted.
use janus_graph.Base.{
  List, [], ◌∷◌, ◌++◌, ◌≡◌, refl, ap, arith, Bool, true, Option, none, some, any, filter, All,
  All-map, Bool-cases, inl, inr,
}
use janus_graph.Dream.Graph.{Graph, World, Answer, works, fails, fails_late, answered, statement}

answered-rule :
    {A : Type 0} (R : World × Option A → Type 0) (f : Graph → Graph × A) (g : Graph)
    (answers : List Answer)
    → ((rest : List Answer) → R (record { graph = g; answers = rest }, none))
    → ((rest : List Answer) → R (record { graph = (f g).0; answers = rest }, none))
    → ((rest : List Answer) → R (record { graph = (f g).0; answers = rest }, some (f g).1))
    → R (answered f g answers)
unfolding answered
answered-rule R f g [] early late fine = fine []
answered-rule R f g (works ∷ rest) early late fine = fine rest
answered-rule R f g (fails ∷ rest) early late fine = early rest
answered-rule R f g (fails_late ∷ rest) early late fine = late rest

-- Whatever follows a statement is right if it is right after an exception before the effect, after
-- one behind it, and after success.
pub statement-rule :
    {A : Type 0} (R : World × Option A → Type 0) (f : Graph → Graph × A) (w : World)
    → ((rest : List Answer) → R (record { graph = w.graph; answers = rest }, none))
    → ((rest : List Answer) → R (record { graph = (f w.graph).0; answers = rest }, none))
    → ((rest : List Answer)
        → R (record { graph = (f w.graph).0; answers = rest }, some (f w.graph).1))
    → R (statement f w)
unfolding statement
statement-rule R f w early late fine = answered-rule R f w.graph w.answers early late fine

module _ {A : Type 0} where
  pub any-append_left : (q : A → Bool) (xs ys : List A) → any q xs ≡ true → any q (xs ++ ys) ≡ true
  unfolding any
  any-append_left q [] ys h = cc
  any-append_left q (x ∷ xs) ys h = ground (arith, any-append_left q xs ys)

  pub any-append_last :
      (q : A → Bool) (xs : List A) (y : A) → q y ≡ true → any q (xs ++ y ∷ []) ≡ true
  unfolding any
  any-append_last q [] y h = rw h
  any-append_last q (x ∷ xs) y h = rw (any-append_last q xs y h) (ground arith)

  -- What is sought survives if it passes the filter.
  pub any-filter :
      (q p : A → Bool) (xs : List A)
      → ((x : A) → q x ≡ true → p x ≡ true)
      → any q xs ≡ true
      → any q (filter p xs) ≡ true
  unfolding any filter
  any-filter q p [] f h = cc
  any-filter q p (x ∷ xs) f h = elim (Bool-cases (q x)) [
    | inl e ↦ rw (f x e, e)
    | inr e ↦
        let later = any-filter q p xs f (rw e at h) in
        elim (Bool-cases (p x)) [ inl k ↦ rw (k, e) later | inr k ↦ rw k later ]
  ]

  pub filter_all : (p : A → Bool) (xs : List A) → All (λ x. p x ≡ true) xs → filter p xs ≡ xs
  unfolding filter
  filter_all p [] h = refl
  filter_all p (x ∷ xs) h = rw h.0 (ap (◌∷◌ x) (filter_all p xs h.1))

  -- Every item finds itself.
  pub All-any :
      (r : A → A → Bool)
      → ((x : A) → r x x ≡ true)
      → (xs : List A) → All (λ x. any (r x) xs ≡ true) xs
  unfolding any
  All-any r self [] = tt
  All-any r self (x ∷ xs) =
      (rw (self x), All-map xs (λ y h. rw h (ground arith)) (All-any r self xs))

  pub any-filter_last :
      (q p : A → Bool) (xs : List A) (y : A)
      → q y ≡ true
      → p y ≡ true
      → any q (filter p (xs ++ y ∷ [])) ≡ true
  unfolding any filter
  any-filter_last q p [] y h k = rw (k, h)
  any-filter_last q p (x ∷ xs) y h k =
      let later = any-filter_last q p xs y h k in
      elim (Bool-cases (p x)) [ inl e ↦ rw (e, later) (ground arith) | inr e ↦ rw e later ]
