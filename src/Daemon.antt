-- ===== src/Daemon.antt =====
-- The parts of janus_graph/daemon that guard FalkorDB: the circuit breaker and the restart policy.
pub mod Breaker
pub mod Restart
mod Examples
