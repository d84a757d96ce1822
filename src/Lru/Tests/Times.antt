-- ===== src/Lru/Tests/Times.antt =====
-- An example for the times of the tiers in src/node_shm_LRU.h.
