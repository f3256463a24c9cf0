-- ===== src/Dream/Apply/Rules.antt =====
-- What a phase keeps if each of its statements keeps it (`apply_plan` of
-- janus_graph/pipeline/dedup_apply.py).
use janus_graph.Base.{
  ℕ, zero, suc, text_eq, List, [], ◌∷◌, ◌++◌, true, false, ◌&&◌, ◌||◌, some, filter, All,
  All-filter, ◌+◌, ◌≡◌, Bool-cases, inl, inr,
}
use janus_graph.Dream.Groups.{group_by}
use janus_graph.Dream.Redirect.{Map, resolve}
use janus_graph.Dream.Graph.{
  Mention, Relation, Graph, World, Answer, has_episodic, has_entity, create_mention, delete_mention,
  statement, member, create_relation, delete_relation,
}
use janus_graph.Dream.Graph.Statements.{statement-rule}
use janus_graph.Dream.Phases.{
  Counters, Session, is_empty, moved_mention, drop_old_mention, after_create, move_mention,
  move_mentions, mention_rows, phase_a, moved_relation, drop_self_loop, drop_old_relation,
  after_create_relation, move_relation, move_relations, relation_rows, phase_b, victims_of,
}
use janus_graph.Dream.Cleanup.{
  same_triple, surplus, dedupe, drop_duplicates, counted_duplicates, phase_c,
}

module _ (P : Graph → Type 0) where
  pub phase_c-P :
      ((g : Graph) → P g → P (dedupe g))
      → (s : Session) → P s.world.graph
      → P (phase_c s).world.graph
  unfolding phase_c counted_duplicates drop_duplicates
  phase_c-P keeps s h =
      statement-rule (λ p. P (counted_duplicates s.counters p).world.graph)
        (λ g. (g, surplus (group_by same_triple g.relations))) s.world (λ rest. h) (λ rest. h)
        (λ rest. after rest (surplus (group_by same_triple s.world.graph.relations)))
    where
      after :
          (rest : List Answer) (n : ℕ)
          → P
              (counted_duplicates s.counters
                (record { graph = s.world.graph; answers = rest }, some n)).world.graph
      after rest zero = h
      after rest (suc n) =
          let gone = keeps s.world.graph h in
          statement-rule
            (λ p.
              P
                (drop_duplicates (record s.counters { duplicate_edges_dropped = suc n })
                  p).world.graph)
            (λ g. (dedupe g, tt)) (record { graph = s.world.graph; answers = rest }) (λ rest'. h)
            (λ rest'. gone) (λ rest'. gone)

-- Phase A, if a row keeps `P` when its edge is made, and when its old edge is gone too.
module _ (m : Map) (P : Graph → Type 0)
    (made : (e : Mention) (g : Graph) → P g → P (create_mention (moved_mention m e) g).0)
    (moved : (e : Mention) (g : Graph)
      → (has_episodic e.src g && has_entity (resolve m e.dst) g) ≡ true
      → text_eq (resolve m e.dst) e.dst ≡ false
      → P g
      → P (
          delete_mention e.src e.dst e.uuid
            (record g { mentions = g.mentions ++ moved_mention m e ∷ [] }))) where
  after_create-P :
      (e : Mention) (c : Counters) (w : World)
      → text_eq (resolve m e.dst) e.dst ≡ false
      → P w.graph
      → P (after_create e c (statement (create_mention (moved_mention m e)) w)).world.graph
  unfolding after_create create_mention drop_old_mention
  after_create-P e c w moves h =
      let g = w.graph in
      let new = made e g h in
      statement-rule (λ p. P (after_create e c p).world.graph) (create_mention (moved_mention m e))
        w (λ rest. h) (λ rest. new)
        (λ rest. elim (Bool-cases (has_episodic e.src g && has_entity (resolve m e.dst) g)) [
          | inl there ↦
              let added : World = record {
                graph = record g { mentions = g.mentions ++ moved_mention m e ∷ [] };
                answers = rest;
              } in
              let new' : P added.graph = rw there at new in
              let gone = moved e g there moves h in
              rw there (
                statement-rule (λ p. P (drop_old_mention c p).world.graph)
                  (λ k. (delete_mention e.src e.dst e.uuid k, tt)) added (λ rest'. new')
                  (λ rest'. gone) (λ rest'. gone))
          | inr away ↦ rw away h
        ])

  move_mention-P :
      (e : Mention) (s : Session) → P s.world.graph → P (move_mention m e s).world.graph
  unfolding move_mention
  move_mention-P e s h = elim (Bool-cases (is_empty e.src || is_empty e.dst)) [
    | inl k ↦ rw k h
    | inr k ↦ elim (Bool-cases (text_eq (resolve m e.dst) e.dst)) [
      | inl stays ↦ rw (k, stays) h
      | inr moves ↦ rw (k, moves) (after_create-P e s.counters s.world moves h)
    ]
  ]

  move_mentions-P :
      (rows : List Mention) (s : Session) → P s.world.graph → P (move_mentions m rows s).world.graph
  unfolding move_mentions
  move_mentions-P [] s h = h
  move_mentions-P (e ∷ rows) s h = move_mentions-P rows (move_mention m e s) (move_mention-P e s h)

  pub phase_a-P : (s : Session) → P s.world.graph → P (phase_a m s).world.graph
  unfolding phase_a mention_rows
  phase_a-P s h =
      let p = λ (e : Mention). member e.dst (victims_of m) in
      statement-rule (λ r. P (mention_rows m s.counters r).world.graph)
        (λ g. (g, filter p g.mentions)) s.world (λ rest. h) (λ rest. h)
        (λ rest.
          move_mentions-P (filter p s.world.graph.mentions)
            (record {
              world = record { graph = s.world.graph; answers = rest };
              counters = s.counters;
            })
            h)

-- Phase B, if a row keeps `P` in each of the three ways in which it changes the graph.
module _ (m : Map) (P : Graph → Type 0) (Q : Relation → Type 0)
    (self_loop : (e : Relation) (g : Graph)
      → Q e
      → text_eq (resolve m e.src) (resolve m e.dst) ≡ true
      → P g
      → P (delete_relation e.src e.dst e.uuid g))
    (made : (e : Relation) (g : Graph) → Q e → P g → P (create_relation (moved_relation m e) g))
    (moved : (e : Relation) (g : Graph)
      → Q e
      → (text_eq (resolve m e.src) e.src && text_eq (resolve m e.dst) e.dst) ≡ false
      → P g
      → P (delete_relation e.src e.dst e.uuid (create_relation (moved_relation m e) g))) where
  move_relation-P :
      (e : Relation) (s : Session) → Q e → P s.world.graph → P (move_relation m e s).world.graph
  unfolding move_relation drop_self_loop after_create_relation drop_old_relation
  move_relation-P e s q h =
      elim (Bool-cases (text_eq (resolve m e.src) e.src && text_eq (resolve m e.dst) e.dst)) [
        | inl stays ↦ rw stays h
        | inr moves ↦ elim (Bool-cases (text_eq (resolve m e.src) (resolve m e.dst))) [
          | inl loop ↦
              let gone = self_loop e s.world.graph q loop h in
              rw (moves, loop)
                (statement-rule
                  (λ p.
                    P
                      (drop_self_loop
                        (record s.counters {
                          self_loops_dropped = s.counters.self_loops_dropped + 1;
                        })
                        p).world.graph)
                  (λ g. (delete_relation e.src e.dst e.uuid g, tt)) s.world (λ rest. h)
                  (λ rest. gone) (λ rest. gone))
          | inr other ↦
              let g = s.world.graph in
              let new = made e g q h in
              let done = moved e g q moves h in
              rw (moves, other)
                (statement-rule (λ p. P (after_create_relation e s.counters p).world.graph)
                  (λ k. (create_relation (moved_relation m e) k, tt)) s.world (λ rest. h)
                  (λ rest. new)
                  (λ rest.
                    statement-rule (λ p. P (drop_old_relation s.counters p).world.graph)
                      (λ k. (delete_relation e.src e.dst e.uuid k, tt))
                      (record { graph = create_relation (moved_relation m e) g; answers = rest })
                      (λ rest'. new) (λ rest'. done) (λ rest'. done)))
        ]
      ]

  move_relations-P :
      (rows : List Relation) (s : Session)
      → All Q rows
      → P s.world.graph
      → P (move_relations m rows s).world.graph
  unfolding move_relations
  move_relations-P [] s q h = h
  move_relations-P (e ∷ rows) s q h =
      move_relations-P rows (move_relation m e s) q.1 (move_relation-P e s q.0 h)

  pub phase_b-P :
      (s : Session) → All Q s.world.graph.relations → P s.world.graph → P (phase_b m s).world.graph
  unfolding phase_b relation_rows
  phase_b-P s q h =
      let p = λ (e : Relation). member e.src (victims_of m) || member e.dst (victims_of m) in
      statement-rule (λ r. P (relation_rows m s.counters r).world.graph)
        (λ g. (g, filter p g.relations)) s.world (λ rest. h) (λ rest. h)
        (λ rest.
          move_relations-P (filter p s.world.graph.relations)
            (record {
              world = record { graph = s.world.graph; answers = rest };
              counters = s.counters;
            })
            (All-filter Q p s.world.graph.relations q) h)
