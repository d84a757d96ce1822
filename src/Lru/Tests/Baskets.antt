-- ===== src/Lru/Tests/Baskets.antt =====
-- Examples for the operations on baskets, the recount and the flushes of src/node_shm_LRU.h.
use shm_lru_aging_and_quotas.Base.Tests.{◌≡◌, refl, true, false, some, [], ◌∷◌, arith}
use shm_lru_aging_and_quotas.Base.Words.{u32_max}
use shm_lru_aging_and_quotas.Lru.{Region, Cache}
use shm_lru_aging_and_quotas.Lru.Attach.{attach_to_lru_list-Linked}
use shm_lru_aging_and_quotas.Lru.Basket.{attach_to_lru_list}
use shm_lru_aging_and_quotas.Lru.Chain.{Linked}
use shm_lru_aging_and_quotas.Lru.Elements.{evict_least_used}
use shm_lru_aging_and_quotas.Lru.Evict.{victims, hashes_of}
use shm_lru_aging_and_quotas.Lru.Flush.{evict_least_used_to_value_map}
use shm_lru_aging_and_quotas.Lru.Flush.Laws.{
  buffers_of, evict_least_used_to_value_map-evict_least_used,
}
use shm_lru_aging_and_quotas.Lru.Recount.{
  walk_allocated_list, less_used, capped, walk_allocated_list-Layout,
}
use shm_lru_aging_and_quotas.Lru.Tail.{TailReach, free_tail, tail_not_exclusive}
use shm_lru_aging_and_quotas.Lru.Tests.{
  region, sample, sample_with, sample_with-IsCache, no_tables, idle, idle-removes, idle_tables,
}

attach_to_lru_list-Linked_example :
    (n : Region) × (attach_to_lru_list region 8 (40 ∷ 48 ∷ []) ≡ some n)
    × Linked n 0 (40 ∷ 48 ∷ 24 ∷ 32 ∷ []) 8
attach_to_lru_list-Linked_example =
    attach_to_lru_list-Linked region 8 (40 ∷ 48 ∷ []) (24 ∷ 32 ∷ [])
      (sample_with-IsCache no_tables).layout.linked (λ e. absurd (ground (arith, e)))
      (λ a. ground arith) (omega arith)

tail_not_exclusive_example :
    TailReach free_tail (record { flag = u32_max; inserters = 3; removers = 1 })
tail_not_exclusive_example = tail_not_exclusive 3 (omega arith)

walk_allocated_list-Layout_example :
    (walk_allocated_list sample true ≡ walk_allocated_list sample false)
    × (walk_allocated_list sample false ≡ less_used 2 (some (capped 4 2)))
walk_allocated_list-Layout_example =
    walk_allocated_list-Layout sample (24 ∷ 32 ∷ []) (40 ∷ 48 ∷ [])
      (sample_with-IsCache no_tables).layout refl refl (omega arith) (omega arith)

evict_least_used_to_value_map-evict_least_used_example :
    let taken = victims 2 region 15 (32 ∷ 24 ∷ []) in
    ((w : Cache (Unit {0})) × (evict_least_used idle (sample_with idle_tables) 15 3
        ≡ some (hashes_of region taken, w))
      × (evict_least_used_to_value_map idle (sample_with idle_tables) 15 3 []
          ≡ some (buffers_of region taken [], w)))
evict_least_used_to_value_map-evict_least_used_example =
    evict_least_used_to_value_map-evict_least_used idle idle-removes 3 15 (sample_with idle_tables)
      (32 ∷ 24 ∷ []) (40 ∷ 48 ∷ []) [] (sample_with-IsCache idle_tables)
