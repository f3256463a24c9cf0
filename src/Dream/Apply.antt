-- ===== src/Dream/Apply.antt =====
-- `apply_plan` of janus_graph/pipeline/dedup_apply.py.
pub mod Rules
pub mod Attached
pub mod Kept
pub mod Safety
pub mod Relations
pub mod Mentions
use janus_graph.Base.{Text, List, [], ◌∷◌, ℕ, Bool, true, false, Option, none, some}
use janus_graph.Dream.Redirect.{Map}
use janus_graph.Dream.Planner.{Merge}
use janus_graph.Dream.Plan.{DedupPlan, redirect_of}
use janus_graph.Dream.Graph.{World}
use janus_graph.Dream.Phases.{Counters, Session, victims_of, phase_a, phase_b}
use janus_graph.Dream.Cleanup.{phase_c, phase_d}

abbrev pub no_counters : Bool → Counters
no_counters apply = record {
  applied = apply;
  nodes_deleted = 0;
  mentions_moved = 0;
  relations_moved = 0;
  self_loops_dropped = 0;
  duplicate_edges_dropped = 0;
  announced = none;
  errors = [];
}

-- The four phases, with the dictionary of the plan.
pub run_phases : Map → ℕ → Session → Session
unfolding phase_a phase_b phase_c phase_d
run_phases m batch s = phase_d batch (victims_of m) (phase_c (phase_b m (phase_a m s)))

unfoldable pub apply_merges : List Merge → DedupPlan → Bool → ℕ → World → Session
unfolding run_phases redirect_of
apply_merges [] plan apply batch w = record { world = w; counters = no_counters apply }
apply_merges (g ∷ merges) plan false batch w = record {
  world = w;
  counters = record (no_counters false) {
    announced = some (record {
      nodes_to_delete = plan.nodes_to_delete;
      mentions_to_move = plan.mentions_to_redirect;
      relations_to_move = plan.relations_to_redirect;
    });
  };
}
apply_merges (g ∷ merges) plan true batch w =
    run_phases (redirect_of (g ∷ merges)) batch (record { world = w; counters = no_counters true })

unfoldable pub apply_plan : DedupPlan → Bool → ℕ → World → Session
unfolding apply_merges
apply_plan plan apply batch w = apply_merges plan.merges plan apply batch w
