-- ===== src/Queue.antt =====
-- janus_graph/pipeline/queue.py and janus_graph/core/dedup.py: the queue of episodes, its duplicate
-- guard, its dead letters and its reports.
pub mod Schema
pub mod Dedup
pub mod Policy
pub mod Enqueue
pub mod Valid
pub mod Claim
pub mod Marks
pub mod Reap
pub mod Replay
pub mod Reports
pub mod History
pub mod Opening
pub mod Adapter
pub mod Samples
mod Examples
