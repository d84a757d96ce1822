-- ===== src/Lru/Tests.antt =====
-- Runs of the LRU cache of src/node_shm_LRU.h over the hash tables of src/node_shm_HH.h, and examples.
mod Attaching
mod Baskets
mod Times
use shm_lru_aging_and_quotas.Base.Mem.{update}
use shm_lru_aging_and_quotas.Base.Tests.{
  ℕ, ◌*◌, ◌≡◌, ◌≢◌, refl, ap, true, false, Option, none, some, List, [], ◌∷◌, ◌++◌, arith,
}
use shm_lru_aging_and_quotas.Base.Words.{u32_max, u64_max, load64}
use shm_lru_aging_and_quotas.Hopscotch.{Table, setup, place}
use shm_lru_aging_and_quotas.Hopscotch.Api.{store, get_hh_map, get, del_hh_map, get_bucket}
use shm_lru_aging_and_quotas.Hopscotch.Tests.{store_run}
use shm_lru_aging_and_quotas.Lru.{
  Element, Region, Cache, Hashes, fine, deleted, get_el, get_el_untouched, update_el,
}
use shm_lru_aging_and_quotas.Lru.Elements.{add_el, del_el, evict_least_used}
use shm_lru_aging_and_quotas.Lru.Evict.{
  rev, victims, survivors, hashes_of, evict_least_used-victims,
}
use shm_lru_aging_and_quotas.Lru.Hash.{
  HmapInterface, store_in_hash, remove_key, check_for_hash, erase, hmap, set_hmap, remove_with,
  kept,
}
use shm_lru_aging_and_quotas.Lru.Layout.{Layout}
use shm_lru_aging_and_quotas.Lru.Setup.{setup_region_free_list, setup_region_free_list-Layout}
use shm_lru_aging_and_quotas.Lru.Selector.{
  check_for_hash-store_in_hash_apart, remove_key-store_in_hash_local,
}
use shm_lru_aging_and_quotas.Lru.Turnover.{Added, add_el-Added, del_el_lem, del_el_twice}
use shm_lru_aging_and_quotas.Lru.Walk.{walk_free_list, walk_free_list-Layout}
use shm_lru_aging_and_quotas.Lru.Use.{
  IsCache, get_el_lem, get_el_untouched-update_el, get_el-update_el_free,
}

program : Unit {0}
unfolding add_el del_el evict_least_used get_el get_el_untouched update_el store_in_hash remove_key
    check_for_hash
program = tt

-- the methods of `HH_map`
abbrev hh_map : HmapInterface Table
hh_map = record {
  store = store;
  get_64 = get_hh_map;
  get = get;
  del = del_hh_map;
  get_bucket = get_bucket;
}

abbrev pub element : (prev next hash when : ℕ) → List ℕ → Element
element p n h w bytes = record {
  prev = p;
  next = n;
  hash = h;
  when = w;
  share_key = 0;
  payload = bytes;
}

-- two elements in use, at 24 and 32, and two free ones, at 40 and 48
abbrev pub region : Region
region =
    update
      (update
        (update
          (update
            (update
              (update (λ _. element u32_max u32_max u64_max 0 []) 0 (element u32_max 24 0 0 [])) 8
              (element 32 u32_max 0 0 []))
            16 (element u32_max 40 2 0 []))
          24 (element 0 32 (load64 5 3) 20 (1 ∷ 2 ∷ [])))
        32 (element 24 8 (load64 6 4) 10 (3 ∷ 4 ∷ [])))
      40 (element u32_max 48 u64_max 0 [])

abbrev pub no_tables : Hashes Table
no_tables = record { hmap_0 = none; hmap_1 = none; local_hash_table = [] }

abbrev two_tables : Hashes Table
two_tables = record { hmap_0 = some (setup 8); hmap_1 = some (setup 8); local_hash_table = [] }

abbrev pub sample_with : {T : Type 0} → Hashes T → Cache T
sample_with h = record {
  reason = fine;
  status = true;
  region = region;
  record_size = 2;
  step = 8;
  region_size = 56;
  count_free = 2;
  count = 2;
  max_count = 4;
  share_key = 0;
  hashes = h;
}

abbrev pub sample : Cache Table
sample = sample_with no_tables

pub sample_with-IsCache :
    {T : Type 0} (h : Hashes T) → IsCache (sample_with h) (24 ∷ 32 ∷ []) (40 ∷ 48 ∷ [])
sample_with-IsCache h = record {
  layout = record {
    linked = (refl, refl, (refl, refl, (refl, refl)));
    freed = (refl, refl, (refl, refl, refl));
    unique = λ a. ground arith;
    fits = λ a h. ground arith;
  };
  counted = refl;
  few = omega arith;
}

add_el-Added_example :
    Added sample
      (24 ∷ 32 ∷ [])
      (40 ∷ 48 ∷ [])
      (7 ∷ [])
      (load64 8 5)
      30
      (store_in_hash hh_map sample.hashes 8 5 (sample.region (2 * sample.step)).next)
      (add_el hh_map sample (7 ∷ []) 8 5 30)
add_el-Added_example =
    add_el-Added hh_map sample (7 ∷ []) 8 5 30 (24 ∷ 32 ∷ []) (40 ∷ 48 ∷ [])
      (sample_with-IsCache no_tables)

get_el_lem_example :
    (w : Cache Table) × (get_el sample 32 30 ≡ (0, some (sample.region 32).payload, w))
    × IsCache w (32 ∷ 24 ∷ []) (40 ∷ 48 ∷ [])
    × ((w.region 32).when ≡ 30)
    × ((a : ℕ) → (w.region a).payload ≡ (sample.region a).payload)
get_el_lem_example =
    get_el_lem sample (24 ∷ []) [] (40 ∷ 48 ∷ []) 32 (sample_with-IsCache no_tables) 30

get_el_untouched-update_el_example :
    (w : Cache Table) × (update_el sample 32 30 (9 ∷ 9 ∷ []) ≡ (true, w))
    × IsCache w (32 ∷ 24 ∷ []) (40 ∷ 48 ∷ [])
    × (get_el_untouched w 32 ≡ (0, some (9 ∷ 9 ∷ []), w))
    × ((a : ℕ) → a ≢ 32 → (w.region a).payload ≡ (sample.region a).payload)
get_el_untouched-update_el_example =
    get_el_untouched-update_el sample (24 ∷ []) [] (40 ∷ 48 ∷ []) 32 (sample_with-IsCache no_tables)
      30 (9 ∷ 9 ∷ [])

no_key : remove_key hh_map no_tables (load64 6 4) ≡ some (0, no_tables)
unfolding program load64
no_key = refl

no_mark : remove_key hh_map no_tables u64_max ≡ some (0, no_tables)
unfolding program
no_mark = refl

del_el_lem_example :
    (w : Cache Table) × (del_el hh_map sample 32 ≡ some (true, w))
    × IsCache w (24 ∷ []) (32 ∷ 40 ∷ 48 ∷ [])
    × (w.hashes ≡ no_tables)
    × ((w.region 32).prev ≡ u32_max)
del_el_lem_example =
    del_el_lem hh_map sample (24 ∷ []) [] (40 ∷ 48 ∷ []) 32 (sample_with-IsCache no_tables) 0
      no_tables no_key

-- a table that stores nothing and answers every call
abbrev pub idle : HmapInterface (Unit {0})
idle = record {
  store = λ t b k v. some (0, t);
  get_64 = λ t k. some 0;
  get = λ t k b. some 0;
  del = λ t k. some (0, t);
  get_bucket = λ t k. some (24 ∷ 32 ∷ []);
}

abbrev pub idle_tables : Hashes (Unit {0})
idle_tables = record { hmap_0 = none; hmap_1 = some tt; local_hash_table = [] }

pub idle-removes :
    (h : Hashes (Unit {0})) (k : ℕ)
    → (r : ℕ) × (u : Hashes (Unit {0})) × (remove_key idle h k ≡ some (r, u))
unfolding program
idle-removes h k = answers (hmap h k)
  where
    answers :
        (t : Option (Unit {0}))
        → (r : ℕ) × (u : Hashes (Unit {0})) × (remove_with idle h t k ≡ some (r, u))
    answers none = (0, record h { local_hash_table = erase k h.local_hash_table }, refl)
    answers (some t) = (0, set_hmap h k t, refl)

evict_least_used-victims_example :
    (w : Cache (Unit {0})) × (evict_least_used idle (sample_with idle_tables) 15 3
      ≡ some (hashes_of region (victims 2 region 15 (32 ∷ 24 ∷ [])), w))
    × IsCache w
        (rev (survivors 2 region 15 (32 ∷ 24 ∷ [])))
        (rev (victims 2 region 15 (32 ∷ 24 ∷ [])) ++ (40 ∷ 48 ∷ []))
evict_least_used-victims_example =
    evict_least_used-victims idle idle-removes 3 15 (sample_with idle_tables) (32 ∷ 24 ∷ [])
      (40 ∷ 48 ∷ []) (sample_with-IsCache idle_tables)

abbrev stored_tables : Hashes Table
stored_tables = record {
  hmap_0 = some (place (setup 8) 3 0 (load64 24 6));
  hmap_1 = some (setup 8);
  local_hash_table = [];
}

stored_even : store_in_hash hh_map two_tables 6 3 24 ≡ some (load64 6 3, stored_tables)
unfolding program
stored_even = ap (kept two_tables 6) store_run
