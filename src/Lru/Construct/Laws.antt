-- ===== src/Lru/Construct/Laws.antt =====
-- What the constructor of `LRU_cache` in src/node_shm_LRU.h leaves.
use shm_lru_aging_and_quotas.Base.Tests.{
  ℕ, ◌+◌, ◌-◌, ◌*◌, ◌/◌, ◌%◌, ◌^◌, ◌≤◌, ◌<◌, ◌≡◌, refl, ap, ◌∙◌, true, false, none, some, List, [],
  ◌∷◌, leb, arith,
}
use shm_lru_aging_and_quotas.Base.Lists.{length}
use shm_lru_aging_and_quotas.Base.Words.{u32_max}
use shm_lru_aging_and_quotas.Lru.{Region, Cache, fine}
use shm_lru_aging_and_quotas.Lru.Construct.{
  element_size, recount, lru_cache, set_count, set_count_free, then_take_region, with_reserve,
}
use shm_lru_aging_and_quotas.Lru.Layout.{Layout}
use shm_lru_aging_and_quotas.Lru.Recount.{walk_allocated_list-Layout, capped}
use shm_lru_aging_and_quotas.Lru.Walk.{walk_free_list-Layout}

module _ {T : Type 0} (old : Cache T) (region reserve : Region) (record_size q : ℕ) where
  abbrev step : ℕ
  step = element_size + record_size

module _ {T : Type 0} (order rest : List ℕ) (x : ℕ) where
  recount-Layout :
      (c : Cache T)
      → Layout c.region c.step c.region_size order (x ∷ rest)
      → (c.region 0).prev ≡ u32_max
      → (c.region c.step).next ≡ u32_max
      → c.step < u32_max
      → c.count_free ≤ length rest
      → length rest < c.max_count
      → c.max_count < 2 ^ 16
      → recount c
        ≡ some (record c {
          count_free = (length rest - c.count_free) % 2 ^ 16;
          count = ((capped c.max_count (length order) + 2 ^ 64 - c.count) % 2 ^ 64) % 2 ^ 16;
        })
  unfolding recount
  recount-Layout c l first last low counted room small =
      let free = walk_free_list-Layout c order rest x l counted room small in
      let c' = record c { count_free = (length rest - c.count_free) % 2 ^ 16 } in
      let used = walk_allocated_list-Layout c' order (x ∷ rest) l first last low (omega arith) in
      ap (set_count_free c) free ∙ ap (set_count c') used.1

  -- The constructor of a process that attaches to a region with the layout of a cache, the ends that the
  -- set-up leaves, and one free element or more, all of them within `_max_count`, counts twice, the second
  -- time from its own first counts: it leaves the region as it is and counts no element as used or free.
  -- An element is smaller than 2 ^ 32 - 1 bytes, and the region has room for more than four and for fewer
  -- than 2 ^ 16 of them.
  pub lru_cache_attached :
      (old : Cache T) (region reserve : Region) (record_size region_size : ℕ)
      → let step = element_size + record_size in
        (Layout region step region_size order (x ∷ rest)
          → (region 0).prev ≡ u32_max
          → (region step).next ≡ u32_max
          → step < u32_max
          → 4 * step < region_size
          → region_size / step < 2 ^ 16
          → length rest < region_size / step - 3
          → (w : Cache T) × (lru_cache old region reserve record_size region_size false
              ≡ some (w, reserve))
            × (w.region ≡ region)
            × (w.count ≡ 0)
            × (w.count_free ≡ 0))
  unfolding lru_cache
  lru_cache_attached old region reserve record_size region_size l first last low large few room =
      let step = element_size + record_size in
      let fits : (element_size + record_size) % 2 ^ 32 ≡ step = omega arith in
      let enough : leb region_size (4 * step) ≡ false = ground arith in
      let most : (region_size / step + 2 ^ 64 - 3) % 2 ^ 16 ≡ region_size / step - 3 =
        omega arith in
      let c = record old {
        reason = fine;
        status = true;
        region = region;
        record_size = record_size;
        step = step;
        region_size = region_size;
        count_free = 0;
        count = 0;
        max_count = region_size / step - 3;
        hashes = record { hmap_0 = none; hmap_1 = none; local_hash_table = [] };
      } in
      let used = capped c.max_count (length order) in
      let c' = record c {
        count_free = (length rest - 0) % 2 ^ 16;
        count = ((used + 2 ^ 64 - 0) % 2 ^ 64) % 2 ^ 16;
      } in
      let once = recount-Layout c l first last low (omega arith) room (omega arith) in
      let twice = recount-Layout c' l first last low (omega arith) room (omega arith) in
      let within : used < 2 ^ 16 = ground arith in
      (
        record c' {
          count_free = (length rest - c'.count_free) % 2 ^ 16;
          count = ((used + 2 ^ 64 - c'.count) % 2 ^ 64) % 2 ^ 16;
        },
        rw (fits, enough, most)
            (ap (then_take_region false reserve) once ∙ ap (with_reserve reserve) twice),
        refl,
        omega (arith, within),
        omega arith,
      )
