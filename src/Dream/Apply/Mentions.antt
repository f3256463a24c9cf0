-- ===== src/Dream/Apply/Mentions.antt =====
-- No mention is lost (`apply_plan` of janus_graph/pipeline/dedup_apply.py).
use janus_graph.Base.{
  ℕ, Text, text_eq, text_eq_iff, [], ◌∷◌, ◌++◌, ◌≡◌, ap, sym, ◌∙◌, subst, arith, Bool, true, false,
  not, ◌&&◌, ◌||◌, any, All-of, Bool-cases, inl, inr, if_both, and_split,
}
use janus_graph.Dream.Redirect.{Map, resolve}
use janus_graph.Dream.Graph.{
  Mention, Graph, has_episodic, has_entity, create_mention, delete_mention, is_mention,
  create_relation, delete_relation,
}
use janus_graph.Dream.Graph.Statements.{any-append_left, any-filter, any-filter_last}
use janus_graph.Dream.Phases.{Session, moved_mention, phase_a, phase_b, victims_of}
use janus_graph.Dream.Cleanup.{dedupe, phase_c}
use janus_graph.Dream.Cleanup.Isolated.{mentions_stay, phase_d-P}
use janus_graph.Dream.Apply.{run_phases}
use janus_graph.Dream.Apply.Rules.{phase_a-P, phase_b-P, phase_c-P}

-- The edge stands for the mention: it has its source, and leads to its target or to the node that
-- the target is merged into.
abbrev pub stands_for : Map → Mention → Mention → Bool
stands_for m e x = text_eq x.src e.src && (text_eq x.dst e.dst || text_eq x.dst (resolve m e.dst))

-- Each node is sent to one that stays where it is.
abbrev pub Settles : Map → Type 0
Settles m = (u : Text) → resolve m (resolve m u) ≡ resolve m u

module _ (m : Map) (settles : Settles m) (kept : Mention) where
  abbrev pub Carried : Graph → Type 0
  Carried g = any (stands_for m kept) g.mentions ≡ true

  -- An edge that a row deletes is replaced by the edge that the row made.
  replaced :
      (e x : Mention)
      → text_eq (resolve m e.dst) e.dst ≡ false
      → stands_for m kept x ≡ true
      → is_mention e.src e.dst e.uuid x ≡ true
      → stands_for m kept (moved_mention m e) ≡ true
  replaced e x moves q hit =
      let eq = λ (s t : Text) (h : text_eq s t ≡ true). (text_eq_iff s t).0 h in
      let at = and_split _ _ (and_split _ _ hit).0 in
      let on = and_split _ _ q in
      let src : text_eq e.src kept.src ≡ true =
        (text_eq_iff e.src kept.src).1 (sym (eq x.src e.src at.0) ∙ eq x.src kept.src on.0) in
      let here : x.dst ≡ e.dst = eq x.dst e.dst at.1 in
      let target : text_eq (resolve m e.dst) (resolve m kept.dst) ≡ true =
        (text_eq_iff (resolve m e.dst) (resolve m kept.dst)).1
          (elim (Bool-cases (text_eq x.dst kept.dst)) [
            | inl f ↦ ap (resolve m) (sym here ∙ eq x.dst kept.dst f)
            | inr f ↦
                let there = eq x.dst (resolve m kept.dst) (ground (arith, on)) in
                ap (resolve m) (sym here ∙ there) ∙ settles kept.dst
          ]) in
      rw (src, target) (ground arith)

  -- The edge that a row makes is not the one that it deletes.
  moves_on :
      (e : Mention)
      → text_eq (resolve m e.dst) e.dst ≡ false
      → is_mention e.src e.dst e.uuid (moved_mention m e) ≡ false
  moves_on e moves = rw moves (ground arith)

  -- The new edge is there before the old one goes.
  moved-Carried :
      (e : Mention) (g : Graph)
      → (has_episodic e.src g && has_entity (resolve m e.dst) g) ≡ true
      → text_eq (resolve m e.dst) e.dst ≡ false
      → Carried g
      → Carried (
          delete_mention e.src e.dst e.uuid
            (record g { mentions = g.mentions ++ moved_mention m e ∷ [] }))
  unfolding delete_mention
  moved-Carried e g there moves h =
      let new = moved_mention m e in
      elim (Bool-cases (stands_for m kept new)) [
        | inl k ↦
            any-filter_last (stands_for m kept) (λ x. not (is_mention e.src e.dst e.uuid x))
              g.mentions new k (rw (moves_on e moves) (ground arith))
        | inr k ↦
            any-filter (stands_for m kept) (λ x. not (is_mention e.src e.dst e.uuid x))
              (g.mentions ++ new ∷ [])
              (λ x q. elim (Bool-cases (is_mention e.src e.dst e.uuid x)) [
                | inl hit ↦ let gone = replaced e x moves q hit in cc (gone, k)
                | inr missed ↦ rw missed
              ])
              (any-append_left (stands_for m kept) g.mentions (new ∷ []) h)
      ]

  made-Carried :
      (e : Mention) (g : Graph) → Carried g → Carried (create_mention (moved_mention m e) g).0
  unfolding create_mention
  made-Carried e g h =
      let new = moved_mention m e in
      if_both (has_episodic new.src g && has_entity new.dst g) (λ (p : Graph × ℕ). Carried p.0)
        (any-append_left (stands_for m kept) g.mentions (new ∷ []) h) h

  -- The four phases carry the mention.
  pub run_phases-Carried :
      (batch : ℕ) (s : Session) → Carried s.world.graph → Carried (run_phases m batch s).world.graph
  unfolding run_phases dedupe create_relation delete_relation
  run_phases-Carried batch s h =
      phase_d-P Carried (λ v. Unit {0})
        (λ chunk g q k.
          subst (λ es. any (stands_for m kept) es ≡ true) (sym (mentions_stay chunk g)) k)
        batch (victims_of m) (phase_c (phase_b m (phase_a m s))) (All-of (victims_of m) (λ v. tt))
        (phase_c-P Carried (λ g k. k) (phase_b m (phase_a m s))
          (phase_b-P m Carried (λ e. Unit {0}) (λ e g q l k. k)
            (λ e g q k.
              if_both (has_entity (resolve m e.src) g && has_entity (resolve m e.dst) g) Carried k
                k)
            (λ e g q l k.
              if_both (has_entity (resolve m e.src) g && has_entity (resolve m e.dst) g)
                (λ n. Carried (delete_relation e.src e.dst e.uuid n)) k k)
            (phase_a m s) (All-of (phase_a m s).world.graph.relations (λ e. tt))
            (phase_a-P m Carried made-Carried moved-Carried s h)))
