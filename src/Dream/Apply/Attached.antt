-- ===== src/Dream/Apply/Attached.antt =====
-- Every edge keeps two nodes, and only emptied victims go (`apply_plan` of
-- janus_graph/pipeline/dedup_apply.py).
use janus_graph.Base.{
  ℕ, Text, text_eq, text_eq_self, List, [], ◌∷◌, ◌++◌, ◌≡◌, refl, sym, subst, arith, true, not,
  ◌&&◌, ◌||◌, any, All, All-zip, All-of, All-filter, All-append, Bool-cases, inl, inr, and_split,
}
use janus_graph.Dream.Redirect.{Map}
use janus_graph.Dream.Graph.{
  Mention, Relation, Graph, has_episodic, has_entity, create_mention, delete_mention, is_mention,
  create_relation, delete_relation, is_relation,
}
use janus_graph.Dream.Graph.Statements.{All-any}
use janus_graph.Dream.Phases.{Session, moved_mention, moved_relation, phase_a, phase_b, victims_of}
use janus_graph.Dream.Cleanup.{same_triple, first_edges, dedupe, phase_c, delete_nodes}
use janus_graph.Dream.Cleanup.Isolated.{
  mention_end, relation_end, mentions_stay, relations_stay, entity_stays, phase_d-P,
}
use janus_graph.Dream.Apply.{run_phases}
use janus_graph.Dream.Apply.Rules.{phase_a-P, phase_b-P, phase_c-P}

abbrev pub HasEnds : Graph → Mention → Type 0
HasEnds g e = (has_episodic e.src g && has_entity e.dst g) ≡ true

abbrev pub RelatesEnds : Graph → Relation → Type 0
RelatesEnds g e = (has_entity e.src g && has_entity e.dst g) ≡ true

-- Both ends of every edge are nodes of the graph.
pub record IsAttached (g : Graph) : Type 0 where
  pub mentions : All (HasEnds g) g.mentions
  pub relations : All (RelatesEnds g) g.relations

All-first_edges : (P : Relation → Type 0) (es : List Relation) → All P es → All P (first_edges es)
unfolding first_edges
All-first_edges P [] h = tt
All-first_edges P (e ∷ es) h =
    (h.0, All-filter P (λ f. not (same_triple e f)) (first_edges es) (All-first_edges P es h.1))

made-IsAttached : (e : Mention) (g : Graph) → IsAttached g → IsAttached (create_mention e g).0
unfolding create_mention
made-IsAttached e g h = elim (Bool-cases (has_episodic e.src g && has_entity e.dst g)) [
  | inl there ↦ rw there (record {
    mentions = All-append (HasEnds g) g.mentions (e ∷ []) h.mentions (there, tt);
    relations = h.relations;
  })
  | inr away ↦ rw away h
]

related-IsAttached : (e : Relation) (g : Graph) → IsAttached g → IsAttached (create_relation e g)
unfolding create_relation
related-IsAttached e g h = elim (Bool-cases (has_entity e.src g && has_entity e.dst g)) [
  | inl there ↦ rw there (record {
    mentions = h.mentions;
    relations = All-append (RelatesEnds g) g.relations (e ∷ []) h.relations (there, tt);
  })
  | inr away ↦ rw away h
]

unrelated-IsAttached :
    (e : Relation) (g : Graph) → IsAttached g → IsAttached (delete_relation e.src e.dst e.uuid g)
unfolding delete_relation
unrelated-IsAttached e g h = record {
  mentions = h.mentions;
  relations =
      All-filter (RelatesEnds g) (λ f. not (is_relation e.src e.dst e.uuid f)) g.relations
        h.relations;
}

dedupe-IsAttached : (g : Graph) → IsAttached g → IsAttached (dedupe g)
unfolding dedupe
dedupe-IsAttached g h = record {
  mentions = h.mentions;
  relations = All-first_edges (RelatesEnds g) g.relations h.relations;
}

episodics_stay :
    (chunk : List Text) (g : Graph) (u : Text)
    → has_episodic u (delete_nodes chunk g) ≡ has_episodic u g
unfolding delete_nodes
episodics_stay chunk g u = refl

-- An end of a relation is not among the nodes that are deleted.
end_stays :
    (chunk : List Text) (g : Graph) (u : Text)
    → has_entity u g ≡ true
    → any (λ x. text_eq x.src u || text_eq x.dst u) g.relations ≡ true
    → has_entity u (delete_nodes chunk g) ≡ true
end_stays chunk g u h q = entity_stays chunk g u (relation_end chunk g u q) h

mention_stays :
    (chunk : List Text) (g : Graph) (e : Mention)
    → HasEnds g e
    → any (λ x. text_eq x.dst e.dst) g.mentions ≡ true
    → HasEnds (delete_nodes chunk g) e
mention_stays chunk g e p q =
    let ends = and_split (has_episodic e.src g) (has_entity e.dst g) p in
    rw (
      episodics_stay chunk g e.src,
      ends.0,
      entity_stays chunk g e.dst (mention_end chunk g e.dst q) ends.1,
    )

relation_stays :
    (chunk : List Text) (g : Graph) (e : Relation)
    → RelatesEnds g e
    → any (λ x. text_eq x.src e.src || text_eq x.dst e.src) g.relations ≡ true
    → any (λ x. text_eq x.src e.dst || text_eq x.dst e.dst) g.relations ≡ true
    → RelatesEnds (delete_nodes chunk g) e
relation_stays chunk g e p q r =
    let ends = and_split (has_entity e.src g) (has_entity e.dst g) p in
    rw (end_stays chunk g e.src ends.0 q, end_stays chunk g e.dst ends.1 r)

delete_nodes-IsAttached :
    (chunk : List Text) (g : Graph) → IsAttached g → IsAttached (delete_nodes chunk g)
delete_nodes-IsAttached chunk g h = record {
  mentions = subst (All (HasEnds (delete_nodes chunk g))) (sym (mentions_stay chunk g)) (
      All-zip g.mentions (mention_stays chunk g) h.mentions
        (All-any (λ e x. text_eq x.dst e.dst) (λ e. text_eq_self e.dst) g.mentions));
  relations = subst (All (RelatesEnds (delete_nodes chunk g))) (sym (relations_stay chunk g)) (
      All-zip g.relations
        (λ e p
            (q : (any (λ x. text_eq x.src e.src || text_eq x.dst e.src) g.relations ≡ true)
              × (any (λ x. text_eq x.src e.dst || text_eq x.dst e.dst) g.relations ≡ true)).
          relation_stays chunk g e p q.0 q.1)
        h.relations
        (All-zip g.relations (λ e p q. (p, q))
          (All-any (λ e x. text_eq x.src e.src || text_eq x.dst e.src)
            (λ e. rw (text_eq_self e.src)) g.relations)
          (All-any (λ e x. text_eq x.src e.dst || text_eq x.dst e.dst)
            (λ e. rw (text_eq_self e.dst) (ground arith)) g.relations)));
}

unmentioned-IsAttached :
    (e : Mention) (g : Graph) → IsAttached g → IsAttached (delete_mention e.src e.dst e.uuid g)
unfolding delete_mention
unmentioned-IsAttached e g h = record {
  mentions =
      All-filter (HasEnds g) (λ f. not (is_mention e.src e.dst e.uuid f)) g.mentions h.mentions;
  relations = h.relations;
}

mentioned-IsAttached :
    (e : Mention) (g : Graph)
    → HasEnds g e
    → IsAttached g
    → IsAttached (record g { mentions = g.mentions ++ e ∷ [] })
mentioned-IsAttached e g there h = record {
  mentions = All-append (HasEnds g) g.mentions (e ∷ []) h.mentions (there, tt);
  relations = h.relations;
}

-- Whatever statements fail, if every edge has two nodes before, then every edge has two nodes
-- after the four phases.
pub run_phases-IsAttached :
    (m : Map) (batch : ℕ) (s : Session)
    → IsAttached s.world.graph
    → IsAttached (run_phases m batch s).world.graph
unfolding run_phases
run_phases-IsAttached m batch s h =
    let a = phase_a m s in
    let b = phase_b m a in
    phase_d-P IsAttached (λ v. Unit {0}) (λ chunk g q k. delete_nodes-IsAttached chunk g k) batch
      (victims_of m) (phase_c b) (All-of (victims_of m) (λ v. tt))
      (phase_c-P IsAttached dedupe-IsAttached b (
        phase_b-P m IsAttached (λ e. Unit {0}) (λ e g q l k. unrelated-IsAttached e g k)
          (λ e g q k. related-IsAttached (moved_relation m e) g k)
          (λ e g q l k.
            let n = create_relation (moved_relation m e) g in
            unrelated-IsAttached e n (related-IsAttached (moved_relation m e) g k))
          a (All-of a.world.graph.relations (λ e. tt))
          (phase_a-P m IsAttached (λ e g k. made-IsAttached (moved_mention m e) g k)
            (λ e g there l k.
              let n = record g { mentions = g.mentions ++ moved_mention m e ∷ [] } in
              unmentioned-IsAttached e n (mentioned-IsAttached (moved_mention m e) g there k))
            s h)))
