-- ===== src/Dream/Plan/Survivors.antt =====
-- Where the merges of a plan lead (`redirect` in `plan_dedup` of janus_graph/pipeline/dedup.py and
-- `root` in `apply_plan` of janus_graph/pipeline/dedup_apply.py).
use janus_graph.Base.{
  Text, text_eq, List, [], ◌∷◌, ◌++◌, ◌≡◌, refl, sym, ◌∙◌, arith, true, false, All, All-map,
  All-zip, All-of, Bool-cases, inl, inr, if_both,
}
use mathlib.Core.List.{append_assoc, append-nil}
use janus_graph.Dream.Similarity.{Score}
use janus_graph.Dream.Groups.{group_by}
use janus_graph.Dream.Planner.{Node, Merge}
use janus_graph.Dream.Planner.Merges.{has_uuid}
use janus_graph.Dream.Planner.Sound.{link, links, All-links}
use janus_graph.Dream.Redirect.{Map, lookup, has_key, assign, resolve}
use janus_graph.Dream.Redirect.Chains.{
  Forward, root-last_of, last_of-P, has_key-last_of, has_key-snoc,
}
use janus_graph.Dream.Plan.{Edge, same_name, redirect_onto, redirect_of, plan_dedup}
use janus_graph.Dream.Plan.Unique.{Unique, Unique-group_by, has_uuid-group_by}
use janus_graph.Dream.Plan.Clusters.{EndsIn, ends_in, merge_clusters-Forward}

assign_new : (k v : Text) (m : Map) → has_key k m ≡ false → assign k v m ≡ m ++ (k, v) ∷ []
unfolding assign lookup
assign_new k v [] h = refl
assign_new k v ((j, w) ∷ m) h = ground (arith, assign_new k v m)

All-unlink :
    (Q : Text × Text → Type 0) (ms : List Merge) → All Q (links ms) → All (λ g. Q (link g)) ms
All-unlink Q [] h = tt
All-unlink Q (g ∷ ms) h = (h.0, All-unlink Q ms h.1)

redirect_onto-append :
    (m : Map) (merges : List Merge)
    → All (λ g. has_key g.victim_uuid m ≡ false) merges
    → Forward (links merges)
    → redirect_onto m merges ≡ m ++ links merges
unfolding redirect_onto
redirect_onto-append m [] a f = sym (append-nil m)
redirect_onto-append m (g ∷ merges) a f =
    let apart =
      All-unlink (λ e. (text_eq g.victim_uuid e.0 ≡ false) × (text_eq g.victim_uuid e.1 ≡ false))
        merges f.1 in
    let fresh =
      All-zip merges (λ h p q. has_key-snoc h.victim_uuid g.victim_uuid g.survivor_uuid m p q.0) a.1
        apart in
    rw (assign_new g.victim_uuid g.survivor_uuid m a.0) (
      redirect_onto-append (m ++ link g ∷ []) merges fresh f.2
      ∙ append_assoc m (link g ∷ []) (links merges))

-- The dictionary of a plan lists its merges in order.
pub redirect_of-links :
    (merges : List Merge) → Forward (links merges) → redirect_of merges ≡ links merges
unfolding redirect_of lookup
redirect_of-links merges f = redirect_onto-append [] merges (All-of merges (λ g. refl)) f

-- In a forward dictionary a node is sent to one without an entry.
pub has_key-resolve : (m : Map) (u : Text) → Forward m → has_key (resolve m u) m ≡ false
unfolding resolve
has_key-resolve m u f = elim (Bool-cases (has_key u m)) [
  | inl e ↦ rw (e, root-last_of m u f) (has_key-last_of m u f)
  | inr e ↦ rw e e
]

pub resolve-P :
    (P : Text → Type 0) (m : Map) (u : Text)
    → Forward m
    → P u
    → All (λ (e : Text × Text). P e.1) m
    → P (resolve m u)
unfolding resolve
resolve-P P m u f h a = if_both (has_key u m) P (rw (root-last_of m u f) (last_of-P P m u h a)) h

module _ (entities : List Node) (mentions relations : List Edge) (threshold : Score) where
  -- The merges of the plan, and the dictionary of its victims.
  abbrev pub planned : List Merge
  planned = (plan_dedup entities mentions relations threshold).merges

  pub planned-Forward : Unique entities → Forward (links planned)
  unfolding plan_dedup
  planned-Forward u =
      merge_clusters-Forward threshold (record { num = 0; den = 1 }) (group_by same_name entities)
        (Unique-group_by same_name entities u)

  planned-EndsIn : All (EndsIn entities) planned
  unfolding plan_dedup
  planned-EndsIn =
      All-map planned
        (λ g h. (
          has_uuid-group_by g.victim_uuid same_name entities h.0,
          has_uuid-group_by g.survivor_uuid same_name entities h.1,
        ))
        (ends_in threshold (record { num = 0; den = 1 }) (group_by same_name entities))

  -- If the entities have different uuids, then the plan sends every entity, along whatever chain
  -- of merges, to an entity that the plan does not delete.
  pub resolve-Survives :
      (u : Text)
      → Unique entities
      → has_uuid u entities ≡ true
      → let m = redirect_of planned in
        (has_key (resolve m u) m ≡ false) × (has_uuid (resolve m u) entities ≡ true)
  resolve-Survives u unique h =
      let fwd = planned-Forward unique in
      rw (redirect_of-links planned fwd) (
        has_key-resolve (links planned) u fwd,
        resolve-P (λ w. has_uuid w entities ≡ true) (links planned) u fwd h
            (All-links (λ e. has_uuid e.1 entities ≡ true) planned
              (All-map planned (λ g k. k.1) planned-EndsIn)),
      )
