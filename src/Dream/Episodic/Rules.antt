-- ===== src/Dream/Episodic/Rules.antt =====
-- What `apply_episodic_plan` (janus_graph/pipeline/dedup_apply.py) keeps up to its last phase, if
-- each of its writes to the mentions keeps it.
use janus_graph.Base.{ℕ, zero, suc, Text, List, [], ◌∷◌, ◌+◌, Option, none, some, length}
use janus_graph.Dream.Graph.{
  Mention, Graph, World, Answer, statement, create_mention, delete_mention,
}
use janus_graph.Dream.Graph.Statements.{statement-rule}
use janus_graph.Dream.Rewire.{Rewired}
use janus_graph.Dream.Fold.{
  FoldCounters, FoldSession, delete_uuids, and_then, count_mentions, delete_mentions_by_uuid,
  rows_dropped, drop_rows, rewired_mention, drop_old_row, after_rewire, rewire_rows,
}

module _ (P : Graph → Type 0) where
  abbrev Keeps : World × Option ℕ → Type 0
  Keeps p = P p.0.graph

  and_then-Keeps :
      (next : World → World × Option ℕ) (p : World × Option ℕ)
      → ((w : World) → P w.graph → Keeps (next w))
      → Keeps p
      → Keeps (and_then next p)
  and_then-Keeps next (w, none) f h = h
  and_then-Keeps next (w, some n) f h = f w h

  count_mentions-Keeps : (w : World) → P w.graph → Keeps (count_mentions w)
  count_mentions-Keeps w h =
      statement-rule Keeps (λ g. (g, length g.mentions)) w (λ rest. h) (λ rest. h) (λ rest. h)

  module _ (dropped : (us : List Text) (g : Graph) → P g → P (delete_uuids us g)) where
    delete-Keeps : (us : List Text) (w : World) → P w.graph → Keeps (delete_mentions_by_uuid us w)
    unfolding delete_mentions_by_uuid
    delete-Keeps [] w h = h
    delete-Keeps (u ∷ us) w h =
        let delete = λ (v : World). statement {A = ℕ} (λ g. (delete_uuids (u ∷ us) g, 0)) v in
        and_then-Keeps count_mentions (and_then delete (count_mentions w)) count_mentions-Keeps (
          and_then-Keeps delete (count_mentions w)
            (λ v k.
              statement-rule Keeps (λ g. (delete_uuids (u ∷ us) g, 0)) v (λ rest. k)
                (λ rest. dropped (u ∷ us) v.graph k) (λ rest. dropped (u ∷ us) v.graph k))
            (count_mentions-Keeps w h))

    rows_dropped-P :
        (c : FoldCounters) (p : World × Option ℕ) → Keeps p → P (rows_dropped c p).world.graph
    unfolding rows_dropped
    rows_dropped-P c (w, none) h = h
    rows_dropped-P c (w, some n) h = h

    pub drop_rows-P :
        (us : List Text) (s : FoldSession) → P s.world.graph → P (drop_rows us s).world.graph
    unfolding drop_rows
    drop_rows-P us s h =
        rows_dropped-P s.counters (delete_mentions_by_uuid us s.world) (delete-Keeps us s.world h)

  module _ (made : (e : Mention) (g : Graph) → P g → P (create_mention e g).0)
      (gone : (r : Rewired) (g : Graph)
        → P (create_mention (rewired_mention r) g).0
        → P (
            delete_mention r.edge.src r.edge.dst
              (some r.edge.edge_uuid)
              (create_mention (rewired_mention r) g).0)) where
    after_rewire-P :
        (r : Rewired) (s : FoldSession)
        → P s.world.graph
        → P
            (after_rewire r s.counters
              (statement (create_mention (rewired_mention r)) s.world)).world.graph
    unfolding after_rewire drop_old_row
    after_rewire-P r s h =
        let g = s.world.graph in
        let new = made (rewired_mention r) g h in
        statement-rule (λ p. P (after_rewire r s.counters p).world.graph)
          (create_mention (rewired_mention r)) s.world (λ rest. h) (λ rest. new)
          (λ rest. counted rest (create_mention (rewired_mention r) g).1)
      where
        counted :
            (rest : List Answer) (n : ℕ)
            → P
                (after_rewire r s.counters (
                  record {
                    graph = (create_mention (rewired_mention r) s.world.graph).0;
                    answers = rest;
                  },
                  some n,
                )).world.graph
        counted rest zero = made (rewired_mention r) s.world.graph h
        counted rest (suc n) =
            let new = made (rewired_mention r) s.world.graph h in
            let done = gone r s.world.graph new in
            statement-rule
              (λ p.
                P
                  (drop_old_row
                    (record s.counters { mentions_created = s.counters.mentions_created + 1 })
                    p).world.graph)
              (λ k. (delete_mention r.edge.src r.edge.dst (some r.edge.edge_uuid) k, tt))
              (record {
                graph = (create_mention (rewired_mention r) s.world.graph).0;
                answers = rest;
              })
              (λ rest'. new) (λ rest'. done) (λ rest'. done)

    pub rewire_rows-P :
        (rows : List Rewired) (s : FoldSession)
        → P s.world.graph
        → P (rewire_rows rows s).world.graph
    unfolding rewire_rows
    rewire_rows-P [] s h = h
    rewire_rows-P (r ∷ rows) s h =
        rewire_rows-P rows
          (after_rewire r s.counters (statement (create_mention (rewired_mention r)) s.world))
          (after_rewire-P r s h)
