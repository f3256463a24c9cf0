-- ===== src/Dream.antt =====
-- The dream cycle (janus_graph/pipeline/dream.py): phase 2 (dedup.py and dedup_apply.py) merges
-- near-duplicate nodes of the graph, phase 3 (dream_phases.py and dream_apply.py) prunes orphans,
-- and the run calls them and the queue's recoveries.
pub mod Similarity
pub mod Groups
pub mod Planner
pub mod Redirect
pub mod Plan
pub mod Graph
pub mod Episodics
pub mod Rewire
pub mod Fold
pub mod Undo
pub mod Episodic
pub mod Phase2
pub mod Phases
pub mod Cleanup
pub mod Apply
pub mod Prune
pub mod Clustering
pub mod Cycle
pub mod Runs
pub mod Samples
mod Examples
