-- ===== src/Queue/Valid.antt =====
-- What the database of janus_graph/pipeline/queue.py always satisfies: the primary keys, and the
-- UNIQUE partial index where it could be created.
mod Tables
pub mod Updates
pub mod Operations
pub mod Recoveries
pub mod Openings
pub mod Inserts
pub use Tables.*
