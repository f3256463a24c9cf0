-- ===== src/Queue/Dedup/Unique.antt =====
-- How the UNIQUE partial index of janus_graph/core/dedup.py fares under the statements that the
-- program issues.
use janus_graph.Base.{
  Text, text_eq_iff, List, [], ◌∷◌, ◌++◌, Bool, true, false, ◌||◌, Option, none, some, any, update,
  is_none, get_or, if◌then◌else◌, ◌≡◌, refl, arith, Bool-cases, All, All-of, inl, inr,
}
use janus_graph.Queue.Schema.{Row}
use janus_graph.Queue.Dedup.{hash_is, in_scope, clash, distinct}

any-append {ℓ} :
    {A : Type ℓ} (p : A → Bool) (xs ys : List A) → any p (xs ++ ys) ≡ (any p xs || any p ys)
unfolding any
any-append p [] ys = refl
any-append p (x ∷ xs) ys = ground (arith, any-append p xs ys)

hash_is-sym :
    (a b : Option Text)
    → is_none a ≡ false
    → hash_is (get_or a []) b ≡ true
    → hash_is (get_or b []) a ≡ true
hash_is-sym none b h e = ground arith
hash_is-sym (some x) none h e = ground arith
hash_is-sym (some x) (some y) h e = ground (arith, text_eq_iff x y, text_eq_iff y x)

clash-sym : (r s : Row) → clash r s ≡ true → clash s r ≡ true
unfolding clash in_scope
clash-sym r s h = ground (arith, hash_is-sym r.canonical_hash s.canonical_hash)

pub distinct-append :
    (rows : List Row) (r : Row)
    → distinct rows ≡ true
    → any (clash r) rows ≡ false
    → distinct (rows ++ r ∷ []) ≡ true
unfolding distinct any
distinct-append [] r d h = refl
distinct-append (s ∷ rows) r d h =
    ground (arith, any-append (clash s) rows (r ∷ []), clash-sym s r, distinct-append rows r)

-- A new version of a row that enters no scope of the index and keeps its key there.
abbrev pub Shrinks : Row → Row → Type 0
Shrinks r' r = in_scope r' ≡ true → (in_scope r ≡ true) × (r'.canonical_hash ≡ r.canonical_hash)

clash-Shrinks :
    (r r' s s' : Row) → Shrinks r' r → Shrinks s' s → clash r' s' ≡ true → clash r s ≡ true
unfolding clash
clash-Shrinks r r' s s' hr hs c = ground arith

module _ (p : Row → Bool) (f : Row → Row) where
  abbrev new : Row → Row
  new r = if p r then f r else r

  new-Shrinks : (r : Row) → (p r ≡ true → Shrinks (f r) r) → Shrinks (new r) r
  new-Shrinks r keeps = elim (Bool-cases (p r)) [
    | inl h ↦ rw h (keeps h)
    | inr h ↦ rw h (λ s. (s, refl))
  ]

  any-clash-update :
      (r : Row) (rows : List Row)
      → (p r ≡ true → Shrinks (f r) r)
      → All (λ s. p s ≡ true → Shrinks (f s) s) rows
      → any (clash (new r)) (update p f rows) ≡ true
      → any (clash r) rows ≡ true
  unfolding any update
  any-clash-update r [] hr keeps h = ground arith
  any-clash-update r (s ∷ rows) hr keeps h = ground (
    arith,
    clash-Shrinks r (new r) s (new s) (new-Shrinks r hr) (new-Shrinks s keeps.0),
    any-clash-update r rows hr keeps.1,
  )

  -- An UPDATE whose selected rows enter no scope of the index keeps it.
  pub distinct-update_selected :
      (rows : List Row)
      → All (λ s. p s ≡ true → Shrinks (f s) s) rows
      → distinct rows ≡ true
      → distinct (update p f rows) ≡ true
  unfolding distinct update
  distinct-update_selected [] keeps d = refl
  distinct-update_selected (r ∷ rows) keeps d =
      ground (arith, any-clash-update r rows keeps.0 keeps.1, distinct-update_selected rows keeps.1)

  pub distinct-update :
      (rows : List Row)
      → ((r : Row) → Shrinks (f r) r)
      → distinct rows ≡ true
      → distinct (update p f rows) ≡ true
  distinct-update rows keeps = distinct-update_selected rows (All-of rows (λ r _. keeps r))
