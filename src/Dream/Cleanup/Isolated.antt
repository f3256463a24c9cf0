-- ===== src/Dream/Cleanup/Isolated.antt =====
-- Phase D deletes no edge (`apply_plan` of janus_graph/pipeline/dedup_apply.py).
use janus_graph.Base.{
  ℕ, zero, suc, Text, text_eq, text_eq_self, text_eq_iff, subst, List, [], ◌∷◌, ◌≡◌, ap, sym, arith,
  true, false, not, ◌||◌, any, count, take, length, All, All-map, All-zip, All-take,
}
use janus_graph.Dream.Graph.{Graph, World, has_entity}
use janus_graph.Dream.Graph.Statements.{statement-rule, filter_all, All-any, any-filter}
use janus_graph.Dream.Phases.{Session}
use janus_graph.Dream.Cleanup.{
  is_deletable, delete_nodes, deleted_nodes, counted_nodes, delete_chunk, drop, delete_chunks,
  phase_d,
}

module _ (chunk : List Text) (g : Graph) where
  -- An end of an edge is not isolated.
  pub mention_end :
      (u : Text) → any (λ e. text_eq e.dst u) g.mentions ≡ true → is_deletable chunk g u ≡ false
  mention_end u h = rw h (ground arith)

  pub relation_end :
      (u : Text)
      → any (λ e. text_eq e.src u || text_eq e.dst u) g.relations ≡ true
      → is_deletable chunk g u ≡ false
  relation_end u h = rw h (ground arith)

  pub mentions_stay : (delete_nodes chunk g).mentions ≡ g.mentions
  unfolding delete_nodes
  mentions_stay =
      filter_all (λ e. not (is_deletable chunk g e.dst)) g.mentions
        (All-map g.mentions (λ e h. rw (mention_end e.dst h))
          (All-any (λ e x. text_eq x.dst e.dst) (λ e. text_eq_self e.dst) g.mentions))

  pub relations_stay : (delete_nodes chunk g).relations ≡ g.relations
  unfolding delete_nodes
  relations_stay =
      filter_all (λ e. not (is_deletable chunk g e.src || is_deletable chunk g e.dst)) g.relations
        (All-zip g.relations (λ e h k. rw (relation_end e.src h, relation_end e.dst k))
          (All-any (λ e x. text_eq x.src e.src || text_eq x.dst e.src)
            (λ e. rw (text_eq_self e.src)) g.relations)
          (All-any (λ e x. text_eq x.src e.dst || text_eq x.dst e.dst)
            (λ e. rw (text_eq_self e.dst) (ground arith)) g.relations))

  -- A node that is named by no chunk, or has an edge, stays.
  pub entity_stays :
      (u : Text)
      → is_deletable chunk g u ≡ false
      → has_entity u g ≡ true
      → has_entity u (delete_nodes chunk g) ≡ true
  unfolding delete_nodes
  entity_stays u d h =
      any-filter (λ n. text_eq n.uuid u) (λ n. not (is_deletable chunk g n.uuid)) g.entities
        (λ n e.
          let same = sym ((text_eq_iff n.uuid u).0 e) in
          ap not (subst (λ v. is_deletable chunk g v ≡ false) same d))
        h

All-drop : (C : Text → Type 0) (n : ℕ) (us : List Text) → All C us → All C (drop n us)
All-drop C zero us h = h
All-drop C (suc n) [] h = h
All-drop C (suc n) (u ∷ us) h = All-drop C n us h.1

-- What each deletion of victims keeps, phase D keeps. `C` holds of the victims.
module _ (P : Graph → Type 0) (C : Text → Type 0)
    (keeps : (chunk : List Text) (g : Graph) → All C chunk → P g → P (delete_nodes chunk g)) where
  delete_chunk-P :
      (chunk : List Text) (s : Session)
      → All C chunk
      → P s.world.graph
      → P (delete_chunk chunk s).world.graph
  unfolding delete_chunk counted_nodes deleted_nodes
  delete_chunk-P chunk s q h =
      let c = s.counters in
      let f : Graph → Graph × ℕ = λ g. (g, count (λ n. is_deletable chunk g n.uuid) g.entities) in
      statement-rule (λ p. P (counted_nodes chunk c p).world.graph) f s.world (λ rest. h)
        (λ rest. h)
        (λ rest.
          let w : World = record { graph = s.world.graph; answers = rest } in
          let n = (f s.world.graph).1 in
          let gone = keeps chunk s.world.graph q h in
          statement-rule (λ p. P (deleted_nodes n c p).world.graph)
            (λ g. (delete_nodes chunk g, tt)) w (λ rest'. h) (λ rest'. gone) (λ rest'. gone))

  delete_chunks-P :
      (fuel batch : ℕ) (victims : List Text) (s : Session)
      → All C victims
      → P s.world.graph
      → P (delete_chunks fuel batch victims s).world.graph
  unfolding delete_chunks
  delete_chunks-P zero batch victims s q h = h
  delete_chunks-P (suc fuel) batch [] s q h = h
  delete_chunks-P (suc fuel) batch (u ∷ us) s q h =
      delete_chunks-P fuel batch (drop batch (u ∷ us)) (delete_chunk (take batch (u ∷ us)) s)
        (All-drop C batch (u ∷ us) q)
        (delete_chunk-P (take batch (u ∷ us)) s (All-take C batch (u ∷ us) q) h)

  pub phase_d-P :
      (batch : ℕ) (victims : List Text) (s : Session)
      → All C victims
      → P s.world.graph
      → P (phase_d batch victims s).world.graph
  unfolding phase_d
  phase_d-P batch victims s q h = delete_chunks-P (length victims) batch victims s q h
