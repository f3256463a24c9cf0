-- ===== src/Dream/Apply/Safety.antt =====
-- What `apply_plan` (janus_graph/pipeline/dedup_apply.py) does to the graph with a plan of
-- `plan_dedup`, whatever statements fail.
use janus_graph.Base.{
  ℕ, Text, text_eq, text_eq_self, text_eq_sym, any_of_All, List, [], ◌∷◌, ◌≡◌, refl, sym, ◌∙◌,
  subst, arith, Bool, true, false, ◌&&◌, ◌||◌, any, All, All-map, All-of, Bool-cases, inl, inr,
  if_both,
}
use janus_graph.Dream.Similarity.{Score}
use janus_graph.Dream.Redirect.{Map, lookup, has_key, resolve}
use janus_graph.Dream.Planner.{Node, Merge}
use janus_graph.Dream.Plan.{Edge, DedupPlan, redirect_of, plan_dedup}
use janus_graph.Dream.Plan.Unique.{Unique}
use janus_graph.Dream.Plan.Survivors.{planned, planned-Forward, redirect_of-links, has_key-resolve}
use janus_graph.Dream.Redirect.Chains.{Forward}
use janus_graph.Dream.Graph.{
  Relation, Graph, World, has_entity, has_episodic, create_relation, create_mention, delete_mention,
  delete_relation,
}
use janus_graph.Dream.Graph.Statements.{All-any}
use janus_graph.Dream.Phases.{Session, victims_of, phase_a, phase_b}
use janus_graph.Dream.Cleanup.{phase_c, dedupe}
use janus_graph.Dream.Cleanup.Isolated.{entity_stays, phase_d-P}
use janus_graph.Dream.Apply.Rules.{phase_a-P, phase_b-P, phase_c-P}
use janus_graph.Dream.Apply.{apply_plan, apply_merges, run_phases, no_counters}
use janus_graph.Dream.Apply.Attached.{IsAttached, run_phases-IsAttached}
use janus_graph.Dream.Apply.Mentions
use janus_graph.Dream.Apply.Mentions.{Settles, run_phases-Carried}
use janus_graph.Dream.Apply.Relations
use janus_graph.Dream.Apply.Kept.{EndsSurvive, Consistent, run_phases-CarriedBy}

-- In a forward dictionary every node is sent to one that stays.
pub Forward-Settles : (m : Map) → Forward m → Settles m
unfolding resolve
Forward-Settles m f u = rw (has_key-resolve m u f)

-- What the phases keep, and holds at the start, holds after the call: a plan without merges and a
-- dry run change nothing.
pub apply_plan-P :
    (P : Graph → Type 0) (plan : DedupPlan) (apply : Bool) (batch : ℕ) (w : World)
    → P w.graph
    → ((s : Session)
        → s.world.graph ≡ w.graph
        → P (run_phases (redirect_of plan.merges) batch s).world.graph)
    → P (apply_plan plan apply batch w).world.graph
unfolding apply_plan
apply_plan-P P plan apply batch w h run = go plan.merges apply run
  where
    go :
        (merges : List Merge) (a : Bool)
        → ((s : Session)
            → s.world.graph ≡ w.graph
            → P (run_phases (redirect_of merges) batch s).world.graph)
        → P (apply_merges merges plan a batch w).world.graph
    go [] a k = h
    go (g ∷ merges) false k = h
    go (g ∷ merges) true k = k (record { world = w; counters = no_counters true }) refl

other_victims :
    (m : Map) (u : Text) → has_key u m ≡ false → All (λ v. text_eq u v ≡ false) (victims_of m)
unfolding lookup
other_victims [] u h = tt
other_victims ((k, v) ∷ m) u h = elim (Bool-cases (text_eq k u)) [
  | inl e ↦ absurd (ground (arith, h, e))
  | inr e ↦ (text_eq_sym u k ∙ e, other_victims m u (rw e at h))
]

-- The phases keep every entity that the dictionary does not send on.
pub run_phases-has_entity :
    (m : Map) (u : Text) (batch : ℕ) (s : Session)
    → has_key u m ≡ false
    → has_entity u s.world.graph ≡ true
    → has_entity u (run_phases m batch s).world.graph ≡ true
unfolding run_phases create_mention delete_mention create_relation delete_relation dedupe
run_phases-has_entity m u batch s free h =
    let a = phase_a m s in
    let b = phase_b m a in
    let P = λ (g : Graph). has_entity u g ≡ true in
    phase_d-P P (λ v. text_eq u v ≡ false)
      (λ chunk g q k. entity_stays chunk g u (rw (any_of_All (text_eq u) chunk q) (ground arith)) k)
      batch (victims_of m) (phase_c b) (other_victims m u free)
      (phase_c-P P (λ g k. k) b
        (phase_b-P m P (λ e. Unit {0}) (λ e g q l k. k)
          (λ e g q k.
            if_both (has_entity (resolve m e.src) g && has_entity (resolve m e.dst) g) P k k)
          (λ e g q l k.
            if_both (has_entity (resolve m e.src) g && has_entity (resolve m e.dst) g)
              (λ n. P (delete_relation e.src e.dst e.uuid n)) k k)
          a (All-of a.world.graph.relations (λ e. tt))
          (phase_a-P m P
            (λ e g k.
              if_both (has_episodic e.src g && has_entity (resolve m e.dst) g)
                (λ (p : Graph × ℕ). P p.0) k k)
            (λ e g there l k. k) s h)))

module _ (entities : List Node) (mentions relations : List Edge) (threshold : Score) where
  abbrev pub redirect : Map
  redirect = redirect_of (planned entities mentions relations threshold)

  redirect-Settles : Unique entities → Settles redirect
  redirect-Settles u =
      let f = planned-Forward entities mentions relations threshold u in
      Forward-Settles redirect (
        subst Forward (sym (redirect_of-links (planned entities mentions relations threshold) f)) f)

  -- If the entities of the plan have different uuids, then no mention is lost, whatever statements
  -- fail, and in whatever batches: afterwards there is an edge from its source to its target or
  -- to the entity that the target is merged into.
  pub apply_plan-Carried :
      (apply : Bool) (batch : ℕ) (w : World)
      → Unique entities
      → All
          (λ e.
            any
              (Mentions.stands_for redirect e)
              (apply_plan
                (plan_dedup entities mentions relations threshold)
                apply
                batch
                w).world.graph.mentions
            ≡ true)
          w.graph.mentions
  apply_plan-Carried apply batch w u =
      All-map w.graph.mentions
        (λ e h.
          apply_plan-P (λ g. any (Mentions.stands_for redirect e) g.mentions ≡ true)
            (plan_dedup entities mentions relations threshold) apply batch w h
            (λ s k.
              run_phases-Carried redirect (redirect-Settles u) e batch s
                (subst (λ g. any (Mentions.stands_for redirect e) g.mentions ≡ true) (sym k) h)))
        (All-any (Mentions.stands_for redirect)
          (λ e. rw (text_eq_self e.src, text_eq_self e.dst) (ground arith)) w.graph.mentions)

  -- The ends of the relation are merged into one node, or the edge or its moved edge is there.
  abbrev pub is_kept : List Relation → Relation → Bool
  is_kept es e =
      text_eq (resolve redirect e.src) (resolve redirect e.dst)
      || any (Relations.stands_for redirect e) es

  -- If the entities of the plan have different uuids, the nodes into which the ends of relations
  -- are merged exist, and relations with one uuid and the same ends have one fact when a merge moves
  -- them, then every relation whose ends are not merged into one node is there afterwards with its
  -- fact, between its own ends or those they are merged into, whatever statements fail.
  pub apply_plan-CarriedBy :
      (apply : Bool) (batch : ℕ) (w : World)
      → Unique entities
      → Consistent redirect w.graph.relations
      → All (EndsSurvive redirect w.graph) w.graph.relations
      → All
          (λ e.
            is_kept
              (apply_plan
                (plan_dedup entities mentions relations threshold)
                apply
                batch
                w).world.graph.relations
              e
            ≡ true)
          w.graph.relations
  apply_plan-CarriedBy apply batch w u c ends =
      let plan = plan_dedup entities mentions relations threshold in
      let settles = redirect-Settles u in
      All-map w.graph.relations
        (λ e h. elim (Bool-cases (text_eq (resolve redirect e.src) (resolve redirect e.dst))) [
          | inl loop ↦ rw loop
          | inr apart ↦ rw apart (
              apply_plan-P (λ g. any (Relations.stands_for redirect e) g.relations ≡ true) plan
                apply batch w h
                (λ s k. run_phases-CarriedBy redirect settles e apart w.graph batch s k c ends h))
        ])
        (All-any (Relations.stands_for redirect) (λ e. Relations.stands_for_self redirect e)
          w.graph.relations)

  -- Whatever statements fail: if every edge had two nodes, it has two nodes afterwards.
  pub apply_plan-IsAttached :
      (apply : Bool) (batch : ℕ) (w : World)
      → IsAttached w.graph
      → IsAttached
          (apply_plan (plan_dedup entities mentions relations threshold) apply batch w).world.graph
  apply_plan-IsAttached apply batch w h =
      apply_plan-P IsAttached (plan_dedup entities mentions relations threshold) apply batch w h
        (λ s k. run_phases-IsAttached redirect batch s (subst IsAttached (sym k) h))

  -- Whatever statements fail, an entity that the plan does not merge away is there afterwards.
  pub apply_plan-has_entity :
      (u : Text) (apply : Bool) (batch : ℕ) (w : World)
      → has_key u redirect ≡ false
      → has_entity u w.graph ≡ true
      → has_entity u
          (apply_plan (plan_dedup entities mentions relations threshold) apply batch w).world.graph
        ≡ true
  apply_plan-has_entity u apply batch w free h =
      apply_plan-P (λ g. has_entity u g ≡ true) (plan_dedup entities mentions relations threshold)
        apply batch w h
        (λ s k.
          run_phases-has_entity redirect u batch s free
            (subst (λ g. has_entity u g ≡ true) (sym k) h))
