-- ===== src/Holey/Lost.antt =====
-- Which updates of a `KeyValueManager` of src/holey_buffer.h are lost.
use shm_lru_aging_and_quotas.Holey.Manager.{Manager}
use shm_lru_aging_and_quotas.Holey.Reach.{Reach}
