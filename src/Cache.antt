-- ===== src/Cache.antt =====
-- janus_graph/cache: the LRU backend and the embedder that caches through it.
pub mod Lru
pub mod Embed
mod Examples
