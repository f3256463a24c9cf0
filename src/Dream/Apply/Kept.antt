-- ===== src/Dream/Apply/Kept.antt =====
-- The phases of `apply_plan` (janus_graph/pipeline/dedup_apply.py) keep every relation whose ends
-- are not merged into one node.
use janus_graph.Base.{
  ℕ, text_eq, List, [], ◌∷◌, ◌++◌, ◌≡◌, refl, ap, sym, subst, true, false, not, ◌&&◌, any, All,
  All-map, All-zip, All-of, All-filter, All-append, Bool-cases, inl, inr, if_both,
}
use mathlib.Core.List.{Memᴰ}
use janus_graph.Dream.Redirect.{Map, resolve}
use janus_graph.Dream.Graph.{
  Relation, Graph, has_entity, has_episodic, create_mention, delete_mention, create_relation,
  delete_relation, is_relation,
}
use janus_graph.Dream.Graph.Statements.{any-append_left, any-filter}
use janus_graph.Dream.Phases.{Session, moved_relation, phase_a, phase_b, victims_of}
use janus_graph.Dream.Cleanup.{dedupe, phase_c}
use janus_graph.Dream.Cleanup.Isolated.{relations_stay, phase_d-P}
use janus_graph.Dream.Apply.{run_phases}
use janus_graph.Dream.Apply.Rules.{phase_a-P, phase_b-P, phase_c-P}
use janus_graph.Dream.Apply.Mentions.{Settles}
use janus_graph.Dream.Apply.Relations.{
  stands_for, Agrees, CarriedBy, moved-Agrees, loop_misses, moved-CarriedBy, first_edges-CarriedBy,
}

-- The nodes that the ends of the relation are merged into exist.
abbrev pub EndsSurvive : Map → Graph → Relation → Type 0
EndsSurvive m g e = (has_entity (resolve m e.src) g && has_entity (resolve m e.dst) g) ≡ true

-- Relations with one uuid and the same ends say the same.
abbrev pub Consistent : Map → List Relation → Type 0
Consistent m es = All (λ x. All (Agrees m x) es) es

-- Each row agrees with all the edges, if each edge agrees with all the rows.
Agrees-with :
    (m : Map) (e : Relation) (rows es : List Relation)
    → Memᴰ e rows
    → All (λ x. All (Agrees m x) rows) es
    → All (λ x. Agrees m x e) es
Agrees-with m e rows es h a = All-map es (λ x b. at x rows b h) a
  where
    at : (x : Relation) (rs : List Relation) → All (Agrees m x) rs → Memᴰ e rs → Agrees m x e
    at x [] b k = elim k [ ]
    at x (r ∷ rs) b (Memᴰ.head k) = subst (Agrees m x) (sym k) b.0
    at x (r ∷ rs) b (Memᴰ.tail k) = at x rs b.1 k

All-Memᴰ : (es : List Relation) → All (λ e. Memᴰ e es) es
All-Memᴰ [] = tt
All-Memᴰ (e ∷ es) = (Memᴰ.head refl, All-map es (λ f h. Memᴰ.tail h) (All-Memᴰ es))

module _ (m : Map) (settles : Settles m) (kept : Relation)
    (apart : text_eq (resolve m kept.src) (resolve m kept.dst) ≡ false) (start : Graph) where
  -- During phase B the nodes are those of the start, and every edge agrees with the rows.
  record During (g : Graph) : Type 0 where
    same_nodes : g.entities ≡ start.entities
    agree : All (λ x. All (Agrees m x) start.relations) g.relations
    carried : CarriedBy m settles kept apart g.relations

  abbrev Row : Relation → Type 0
  Row e = Memᴰ e start.relations × EndsSurvive m start e

  made-During :
      (e : Relation) (g : Graph)
      → Row e
      → During g
      → During (create_relation (moved_relation m e) g)
  unfolding create_relation
  made-During e g q d =
      if_both (has_entity (resolve m e.src) g && has_entity (resolve m e.dst) g) During
        (record {
          same_nodes = d.same_nodes;
          agree =
              All-append (λ x. All (Agrees m x) start.relations) g.relations
                (moved_relation m e ∷ []) d.agree (moved-Agrees m settles e start.relations, tt);
          carried =
              any-append_left (stands_for m kept) g.relations (moved_relation m e ∷ []) d.carried;
        })
        d

  loop-During :
      (e : Relation) (g : Graph)
      → Row e
      → text_eq (resolve m e.src) (resolve m e.dst) ≡ true
      → During g
      → During (delete_relation e.src e.dst e.uuid g)
  unfolding delete_relation
  loop-During e g q loop d =
      let p = λ (x : Relation). not (is_relation e.src e.dst e.uuid x) in
      record {
        same_nodes = d.same_nodes;
        agree = All-filter (λ x. All (Agrees m x) start.relations) p g.relations d.agree;
        carried =
            any-filter (stands_for m kept) p g.relations
              (λ x k. elim (Bool-cases (is_relation e.src e.dst e.uuid x)) [
                | inl hit ↦ absurd (loop_misses m settles kept apart e x loop k hit)
                | inr missed ↦ rw missed
              ])
              d.carried;
      }

  moved-During :
      (e : Relation) (g : Graph)
      → Row e
      → (text_eq (resolve m e.src) e.src && text_eq (resolve m e.dst) e.dst) ≡ false
      → During g
      → During (delete_relation e.src e.dst e.uuid (create_relation (moved_relation m e) g))
  unfolding create_relation delete_relation
  moved-During e g q moves d =
      let p = λ (x : Relation). not (is_relation e.src e.dst e.uuid x) in
      let there : (has_entity (resolve m e.src) g && has_entity (resolve m e.dst) g) ≡ true =
        subst
          (λ ns.
            (any (λ n. text_eq n.uuid (resolve m e.src)) ns
              && any (λ n. text_eq n.uuid (resolve m e.dst)) ns)
            ≡ true)
          (sym d.same_nodes) q.1 in
      rw there (record {
        same_nodes = d.same_nodes;
        agree =
            All-filter (λ x. All (Agrees m x) start.relations) p
              (g.relations ++ moved_relation m e ∷ [])
              (All-append (λ x. All (Agrees m x) start.relations) g.relations
                (moved_relation m e ∷ []) d.agree (moved-Agrees m settles e start.relations, tt));
        carried =
            moved-CarriedBy m settles kept apart e g.relations moves
              (Agrees-with m e start.relations g.relations q.0 d.agree) d.carried;
      })

  -- Phase A touches neither the nodes nor the relations.
  record Before (g : Graph) : Type 0 where
    nodes : g.entities ≡ start.entities
    edges : g.relations ≡ start.relations

  phase_a-Before : (s : Session) → Before s.world.graph → Before (phase_a m s).world.graph
  unfolding create_mention delete_mention
  phase_a-Before s h =
      phase_a-P m Before
        (λ e g k.
          if_both (has_episodic e.src g && has_entity (resolve m e.dst) g)
            (λ (p : Graph × ℕ). Before p.0) (record { nodes = k.nodes; edges = k.edges }) k)
        (λ e g there moves k. record { nodes = k.nodes; edges = k.edges }) s h

  phase_b-CarriedBy :
      (s : Session)
      → Before s.world.graph
      → Consistent m start.relations
      → All (EndsSurvive m start) start.relations
      → CarriedBy m settles kept apart start.relations
      → CarriedBy m settles kept apart (phase_b m s).world.graph.relations
  phase_b-CarriedBy s before c ends h =
      let rows : All Row start.relations =
        All-zip start.relations (λ e p q. (p, q)) (All-Memᴰ start.relations) ends in
      (phase_b-P m During Row loop-During made-During moved-During s
        (subst (All Row) (sym before.edges) rows)
        (record {
          same_nodes = before.nodes;
          agree = subst (All (λ x. All (Agrees m x) start.relations)) (sym before.edges) c;
          carried = subst (CarriedBy m settles kept apart) (sym before.edges) h;
        })).carried

  pub run_phases-CarriedBy :
      (batch : ℕ) (s : Session)
      → s.world.graph ≡ start
      → Consistent m start.relations
      → All (EndsSurvive m start) start.relations
      → CarriedBy m settles kept apart start.relations
      → CarriedBy m settles kept apart (run_phases m batch s).world.graph.relations
  unfolding run_phases dedupe
  run_phases-CarriedBy batch s e c ends h =
      let a = phase_a m s in
      let b = phase_b m a in
      let P = λ (g : Graph). CarriedBy m settles kept apart g.relations in
      let before : Before s.world.graph = record {
        nodes = ap (λ (g : Graph). g.entities) e;
        edges = ap (λ (g : Graph). g.relations) e;
      } in
      phase_d-P P (λ v. Unit {0})
        (λ chunk g q k. subst (CarriedBy m settles kept apart) (sym (relations_stay chunk g)) k)
        batch (victims_of m) (phase_c b) (All-of (victims_of m) (λ v. tt))
        (phase_c-P P (λ g k. first_edges-CarriedBy m settles kept apart g.relations k) b
          (phase_b-CarriedBy a (phase_a-Before s before) c ends h))
