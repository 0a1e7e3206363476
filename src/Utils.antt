-- ===== src/Utils.antt =====
-- internal/utils and internal/math: the cache that evicts what was used least recently, and the
-- average over the last samples.
pub mod Lru
pub mod Rolling
