-- ===== src/Lru/Tests/Attaching.antt =====
-- Examples for the constructor of `LRU_cache` in src/node_shm_LRU.h.
use shm_lru_aging_and_quotas.Base.Mem.{update}
use shm_lru_aging_and_quotas.Base.Tests.{refl, [], ◌∷◌, arith}
use shm_lru_aging_and_quotas.Base.Words.{u32_max, u64_max}
use shm_lru_aging_and_quotas.Lru.{Region}
use shm_lru_aging_and_quotas.Lru.Layout.{Layout}
use shm_lru_aging_and_quotas.Lru.Tests.{element}

-- two elements in use, at 96 and 128, and three free ones, at 160, 192 and 224
abbrev shared : Region
shared =
    update
      (update
        (update
          (update
            (update
              (update
                (update (λ _. element u32_max u32_max u64_max 0 []) 0 (element u32_max 96 0 0 []))
                32 (element 128 u32_max 0 0 []))
              64 (element u32_max 160 3 0 []))
            96 (element 0 128 5 20 []))
          128 (element 96 32 6 10 []))
        160 (element u32_max 192 u64_max 0 []))
      192 (element u32_max 224 u64_max 0 [])

shared-Layout : Layout shared 32 256 (96 ∷ 128 ∷ []) (160 ∷ 192 ∷ 224 ∷ [])
shared-Layout = record {
  linked = (refl, refl, (refl, refl, (refl, refl)));
  freed = (refl, refl, (refl, refl, (refl, refl, refl)));
  unique = λ a. ground arith;
  fits = λ a h. ground arith;
}
