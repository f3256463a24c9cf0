-- ===== src/Dream/Apply/Relations.antt =====
-- No relation is lost as long as the survivors exist (`apply_plan` of
-- janus_graph/pipeline/dedup_apply.py).
use janus_graph.Base.{
  Text, text_eq, text_eq_self, text_eq_iff, List, [], ◌∷◌, ◌++◌, ◌≡◌, refl, ap, sym, ◌∙◌, ◌↔◌, ◌⊎◌,
  subst, arith, Bool, true, false, not, ◌&&◌, ◌||◌, Option, none, some, any, filter, All, All-of,
  All-append, Bool-cases, inl, inr, and_split,
}
use mathlib.Core.List.{Memᴰ}
use janus_graph.Dream.Redirect.{Map, resolve}
use janus_graph.Dream.Graph.{Relation, is_relation}
use janus_graph.Dream.Graph.Statements.{any-append_left, any-filter, any-filter_last}
use janus_graph.Dream.Phases.{moved_relation}
use janus_graph.Dream.Cleanup.{same_value, same_triple, first_edges}
use janus_graph.Dream.Apply.Mentions.{Settles}

same_value_iff : (s t : Option Text) → (same_value s t ≡ true) ↔ (s ≡ t)
same_value_iff none none = (λ h. refl, λ h. refl)
same_value_iff none (some t) = (λ h. cc, λ h. cc)
same_value_iff (some s) none = (λ h. cc, λ h. cc)
same_value_iff (some s) (some t) =
    (λ h. ap some ((text_eq_iff s t).0 h), λ e. (text_eq_iff s t).1 (cc))

-- An edge with the fact of the relation, between its ends or between the nodes that its ends are
-- merged into.
record StandsFor (m : Map) (e x : Relation) : Type 0 where
  fact : x.fact ≡ e.fact
  ends :
      ((x.src ≡ e.src) × (x.dst ≡ e.dst)) ⊎ ((x.src ≡ resolve m e.src) × (x.dst ≡ resolve m e.dst))

abbrev pub stands_for : Map → Relation → Relation → Bool
stands_for m e x =
    same_value x.fact e.fact
    && ((text_eq x.src e.src && text_eq x.dst e.dst)
        || (text_eq x.src (resolve m e.src) && text_eq x.dst (resolve m e.dst)))

-- The row moves an end of its relation.
abbrev Moves : Map → Relation → Type 0
Moves m e = (text_eq (resolve m e.src) e.src && text_eq (resolve m e.dst) e.dst) ≡ false

or_split : (a b : Bool) → (a || b) ≡ true → (a ≡ true) ⊎ (b ≡ true)
or_split true b h = inl refl
or_split false b h = inr h

stands_for-StandsFor : (m : Map) (e x : Relation) → stands_for m e x ≡ true → StandsFor m e x
stands_for-StandsFor m e x h =
    let eq = λ (s t : Text) (k : text_eq s t ≡ true). (text_eq_iff s t).0 k in
    let both = and_split _ _ h in
    record {
      fact = (same_value_iff x.fact e.fact).0 both.0;
      ends = elim (or_split _ _ both.1) [
        | inl k ↦ let p = and_split _ _ k in inl (eq x.src e.src p.0, eq x.dst e.dst p.1)
        | inr k ↦
            let p = and_split _ _ k in
            inr (eq x.src (resolve m e.src) p.0, eq x.dst (resolve m e.dst) p.1)
      ];
    }

-- The moved edge stands for the relation, if its row had the ends of it.
moved-stands_for :
    (m : Map) (kept e : Relation)
    → e.fact ≡ kept.fact
    → e.src ≡ kept.src
    → e.dst ≡ kept.dst
    → stands_for m kept (moved_relation m e) ≡ true
moved-stands_for m kept e f s d =
    rw
      (
        (same_value_iff e.fact kept.fact).1 f,
        (text_eq_iff (resolve m e.src) (resolve m kept.src)).1 (ap (resolve m) s),
        (text_eq_iff (resolve m e.dst) (resolve m kept.dst)).1 (ap (resolve m) d),
      )
      (ground arith)

-- A relation that a row deletes has its ends.
hit_ends :
    (e x : Relation) → is_relation e.src e.dst e.uuid x ≡ true → (x.src ≡ e.src) × (x.dst ≡ e.dst)
hit_ends e x h =
    let p = and_split _ _ (and_split _ _ h).0 in
    ((text_eq_iff x.src e.src).0 p.0, (text_eq_iff x.dst e.dst).0 p.1)

All-at : (P : Relation → Type 0) (x : Relation) (es : List Relation) → All P es → Memᴰ x es → P x
All-at P x [] a h = elim h [ ]
All-at P x (e ∷ es) a (Memᴰ.head k) = subst P (sym k) a.0
All-at P x (e ∷ es) a (Memᴰ.tail h) = All-at P x es a.1 h

-- Rows that move an edge agree with it about the fact.
abbrev pub Agrees : Map → Relation → Relation → Type 0
Agrees m x e = is_relation e.src e.dst e.uuid x ≡ true → Moves m e → x.fact ≡ e.fact

module _ (m : Map) (settles : Settles m) where
  -- A moved edge is at rest: no row moves it again.
  rests :
      (e x : Relation) → is_relation x.src x.dst x.uuid (moved_relation m e) ≡ true → Moves m x → ⊥
  rests e x hit moves =
      let at = hit_ends x (moved_relation m e) hit in
      let still = λ (u v : Text) (k : resolve m u ≡ v).
        (text_eq_iff (resolve m v) v).1 (subst (λ w. resolve m w ≡ w) k (settles u)) in
      let s = still e.src x.src at.0 in let d = still e.dst x.dst at.1 in cc (moves, s, d)

  pub moved-Agrees :
      (e : Relation) (rows : List Relation) → All (Agrees m (moved_relation m e)) rows
  moved-Agrees e rows = All-of rows (λ x hit moves. absurd (rests e x hit moves))

module _ (m : Map) (settles : Settles m) (kept : Relation)
    (apart : text_eq (resolve m kept.src) (resolve m kept.dst) ≡ false) where
  abbrev pub CarriedBy : List Relation → Type 0
  CarriedBy es = any (stands_for m kept) es ≡ true

  -- No self-loop stands for the relation.
  pub loop_misses :
      (e x : Relation)
      → text_eq (resolve m e.src) (resolve m e.dst) ≡ true
      → stands_for m kept x ≡ true
      → is_relation e.src e.dst e.uuid x ≡ true
      → ⊥
  loop_misses e x loop q hit =
      let at = hit_ends e x hit in
      let same = (text_eq_iff (resolve m e.src) (resolve m e.dst)).0 loop in
      let joined : resolve m kept.src ≡ resolve m kept.dst =
        elim ((stands_for-StandsFor m kept x q).ends) [
          | inl k ↦ ap (resolve m) (sym k.0 ∙ at.0) ∙ same ∙ ap (resolve m) (sym at.1 ∙ k.1)
          | inr k ↦
              sym (settles kept.src)
              ∙ ap (resolve m) (sym k.0 ∙ at.0)
              ∙ same
              ∙ ap (resolve m) (sym at.1 ∙ k.1)
              ∙ settles kept.dst
        ] in
      let loops = (text_eq_iff (resolve m kept.src) (resolve m kept.dst)).1 joined in
      absurd (ground (arith, loops, apart))

  -- What a row deletes, it has replaced.
  replaced :
      (e x : Relation)
      → Moves m e
      → Agrees m x e
      → stands_for m kept x ≡ true
      → is_relation e.src e.dst e.uuid x ≡ true
      → stands_for m kept (moved_relation m e) ≡ true
  replaced e x moves agrees q hit =
      let at = hit_ends e x hit in
      let st = stands_for-StandsFor m kept x q in
      elim (st.ends) [
        | inl k ↦
            moved-stands_for m kept e (sym (agrees hit moves) ∙ st.fact) (sym at.0 ∙ k.0)
              (sym at.1 ∙ k.1)
        | inr k ↦
            let still = λ (u v : Text) (h : v ≡ resolve m u).
              (text_eq_iff (resolve m v) v).1 (subst (λ w. resolve m w ≡ w) (sym h) (settles u)) in
            let s = still kept.src e.src (sym at.0 ∙ k.0) in
            let d = still kept.dst e.dst (sym at.1 ∙ k.1) in cc (moves, s, d)
      ]

  any_agreeing :
      (e : Relation) (es : List Relation)
      → Moves m e
      → stands_for m kept (moved_relation m e) ≡ false
      → All (λ x. Agrees m x e) es
      → CarriedBy es
      → any (stands_for m kept) (filter (λ x. not (is_relation e.src e.dst e.uuid x)) es) ≡ true
  unfolding any filter
  any_agreeing e [] moves k a h = cc
  any_agreeing e (x ∷ es) moves k a h = elim (Bool-cases (stands_for m kept x)) [
    | inl q ↦ elim (Bool-cases (is_relation e.src e.dst e.uuid x)) [
      | inl hit ↦ let gone = replaced e x moves a.0 q hit in cc (gone, k)
      | inr missed ↦ rw (missed, q)
    ]
    | inr q ↦
        let later = any_agreeing e es moves k a.1 (rw q at h) in
        elim (Bool-cases (is_relation e.src e.dst e.uuid x)) [
          | inl hit ↦ rw hit later
          | inr missed ↦ rw (missed, q) later
        ]
  ]

  pub moved-CarriedBy :
      (e : Relation) (es : List Relation)
      → Moves m e
      → All (λ x. Agrees m x e) es
      → CarriedBy es
      → CarriedBy
          (filter (λ x. not (is_relation e.src e.dst e.uuid x)) (es ++ moved_relation m e ∷ []))
  moved-CarriedBy e es moves a h =
      let new = moved_relation m e in
      let p = λ (x : Relation). not (is_relation e.src e.dst e.uuid x) in
      elim (Bool-cases (stands_for m kept new)) [
        | inl k ↦ any-filter_last (stands_for m kept) p es new k (rw moves (ground arith))
        | inr k ↦
            any_agreeing e (es ++ new ∷ []) moves k
              (All-append (λ x. Agrees m x e) es (new ∷ []) a
                (λ hit mv. absurd (rests m settles e e hit mv), tt))
              (any-append_left (stands_for m kept) es (new ∷ []) h)
      ]

  -- The first edge of a triple stands for what the others stand for.
  same_triple-stands_for :
      (e x : Relation)
      → same_triple e x ≡ true
      → stands_for m kept x ≡ true
      → stands_for m kept e ≡ true
  same_triple-stands_for e x t q =
      let outer = and_split _ _ t in
      let ends = and_split _ _ outer.0 in
      let f = (same_value_iff e.fact x.fact).0 outer.1 in
      let s = (text_eq_iff e.src x.src).0 ends.0 in
      let d = (text_eq_iff e.dst x.dst).0 ends.1 in rw (f, s, d) q

  pub first_edges-CarriedBy : (es : List Relation) → CarriedBy es → CarriedBy (first_edges es)
  unfolding first_edges any
  first_edges-CarriedBy [] h = h
  first_edges-CarriedBy (e ∷ es) h = elim (Bool-cases (stands_for m kept e)) [
    | inl q ↦ rw q
    | inr q ↦ rw q (
        any-filter (stands_for m kept) (λ f. not (same_triple e f)) (first_edges es)
          (λ x k. elim (Bool-cases (same_triple e x)) [
            | inl t ↦ let also = same_triple-stands_for e x t k in cc (also, q)
            | inr t ↦ rw t
          ])
          (first_edges-CarriedBy es (rw q at h)))
  ]

pub stands_for_self : (m : Map) (e : Relation) → stands_for m e e ≡ true
stands_for_self m e =
    rw ((same_value_iff e.fact e.fact).1 refl, text_eq_self e.src, text_eq_self e.dst)
