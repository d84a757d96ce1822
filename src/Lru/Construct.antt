-- ===== src/Lru/Construct.antt =====
-- The constructor of `LRU_cache` in src/node_shm_LRU.h and what it calls: the set-up of the region by the
-- process that initializes it, and the count of the elements by a process that attaches to it. The
-- memory of the reserve is a region of its own, whose offsets begin at `_reserve`; the fields of the
-- reserve and of the time buffer are not part of the state.
pub mod Laws
use shm_lru_aging_and_quotas.Base.Tests.{
  ℕ, zero, suc, ◌+◌, ◌-◌, ◌*◌, ◌/◌, ◌%◌, ◌^◌, ◌≤◌, ◌<◌, ◌≡◌, ◌≢◌, refl, ap, sym, ◌∙◌, Bool, true,
  false, Option, none, some, List, [], ◌∷◌, leb, ltb, if◌then◌else◌, arith,
}
use shm_lru_aging_and_quotas.Base.Lists.{length}
use shm_lru_aging_and_quotas.Base.Words.{u32_max}
use shm_lru_aging_and_quotas.Lru.{Region, Cache, Hashes, fine, too_small}
use shm_lru_aging_and_quotas.Lru.Layout.{Layout}
use shm_lru_aging_and_quotas.Lru.Recount.{
  walk_allocated_list, walk_allocated_list-Layout, capped, less_used,
}
use shm_lru_aging_and_quotas.Lru.Setup.{
  setup_region_free_list, setup_region_free_list-Layout, places,
}
use shm_lru_aging_and_quotas.Lru.Use.{IsCache}
use shm_lru_aging_and_quotas.Lru.Walk.{walk_free_list, walk_free_list-Layout}

-- `sizeof(LRU_element)`, with the padding after `_share_key`
abbrev pub element_size : ℕ
element_size = 32

module _ {T : Type 0} where
  -- `setup_region`
  unfoldable pub setup_region : Cache T → Cache T
  setup_region c =
      let (free_count, m) = setup_region_free_list c.region c.step c.region_size in
      record c { region = m; count_free = free_count }

  -- `setup_reserve_section`, whose call of setup_region_free_list lacks its last argument: here that is the
  -- variable region_size that it sets from _region_size just before, and uses nowhere else
  unfoldable pub setup_reserve_section : Cache T → (reserve : Region) → Cache T × Region
  setup_reserve_section c reserve =
      let (free_count, m) = setup_region_free_list reserve c.step c.region_size in
      (record c { count_free = free_count }, m)

  abbrev pub set_count : Cache T → Option ℕ → Option (Cache T)
  set_count c none = none
  set_count c (some n) = some (record c { count = n % 2 ^ 16 })

  abbrev pub set_count_free : Cache T → Option ℕ → Option (Cache T)
  set_count_free c none = none
  set_count_free c (some n) =
      let c' = record c { count_free = n % 2 ^ 16 } in set_count c' (walk_allocated_list c' false)

  -- `_count_free = _walk_free_list(); _count = _walk_allocated_list(1);`
  unfoldable pub recount : Cache T → Option (Cache T)
  recount c = set_count_free c (walk_free_list c)

  -- either way to take a region
  abbrev pub take_region : (am_initializer : Bool) → Cache T → Option (Cache T)
  take_region am_initializer c = if am_initializer then some (setup_region c) else recount c

  -- the second time, with the reserve
  abbrev pub with_reserve : Region → Option (Cache T) → Option (Cache T × Region)
  with_reserve reserve none = none
  with_reserve reserve (some c) = some (c, reserve)

  abbrev pub then_take_region :
      (am_initializer : Bool) (reserve : Region) → Option (Cache T) → Option (Cache T × Region)
  then_take_region am_initializer reserve none = none
  then_take_region am_initializer reserve (some c) =
      if am_initializer
      then some (setup_reserve_section (setup_region c) reserve)
      else with_reserve reserve (recount c)

  -- the constructor, over what its memory holds before, since it leaves some fields as they are
  unfoldable pub lru_cache :
      Cache T
      → (region reserve : Region) (record_size region_size : ℕ) (am_initializer : Bool)
      → Option (Cache T × Region)
  lru_cache old region reserve record_size region_size am_initializer =
      let step = (element_size + record_size) % 2 ^ 32 in
      let c = record old {
        reason = fine;
        status = true;
        region = region;
        record_size = record_size;
        step = step;
        hashes = record { hmap_0 = none; hmap_1 = none; local_hash_table = [] };
      } in
      let sized = record c {
        region_size = region_size;
        max_count = (region_size / step + 2 ^ 64 - 3) % 2 ^ 16;
        count_free = 0;
        count = 0;
      } in
      then_take_region am_initializer reserve (
        if leb region_size (4 * step)
        then some (record c { reason = too_small; status = false })
        else take_region am_initializer sized)
