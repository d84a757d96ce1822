-- ===== src/Lru/Flush.antt =====
-- The evictions of src/node_shm_LRU.h that hand the bytes of the evicted elements to the caller:
-- `evict_least_used_to_value_map` and `evict_least_used_near_hash`. `none` stands for a call of the hash
-- table that does not return, or that goes through a null pointer.
pub mod Laws
use shm_lru_aging_and_quotas.Base.Tests.{
  ℕ, zero, suc, ◌+◌, ◌-◌, ◌*◌, Bool, true, false, Option, none, some, List, [], ◌∷◌, ltb, ◌==◌,
  if◌then◌else◌, ◌&&◌, ◌||◌,
}
use shm_lru_aging_and_quotas.Lru.{Cache, get_el_untouched}
use shm_lru_aging_and_quotas.Lru.Elements.{del_el}
use shm_lru_aging_and_quotas.Lru.Hash.{HmapInterface, hmap}

-- `map<uint64_t,char *>`, with the bytes behind the pointer; `none` for a buffer that is not written
abbrev pub Buffers : Type 0
Buffers = List (ℕ × Option (List ℕ))

-- `ev_map[hash] = buffer`
abbrev pub put_buffer : ℕ → Option (List ℕ) → Buffers → Buffers
put_buffer k v [] = (k, v) ∷ []
put_buffer k v ((a, w) ∷ xs) = if a == k then (k, v) ∷ xs else (a, w) ∷ put_buffer k v xs

module _ {T : Type 0} where
  abbrev pub after_flush :
      (old : Bool) (again : Cache T → Option (Buffers × Cache T)) (ev_map : Buffers)
      → Option (Bool × Cache T)
      → Option (Buffers × Cache T)
  after_flush old again ev_map none = none
  after_flush old again ev_map (some (ok, c)) = if old then again c else some (ev_map, c)

  -- a round of the loop of `evict_least_used_to_value_map`, with what `again` does after it
  abbrev pub flush_at :
      HmapInterface T
      → Cache T
      → (cutoff : ℕ) (ev_map : Buffers) (again : Buffers → Cache T → Option (Buffers × Cache T))
        (prev_off : ℕ)
      → Option (Buffers × Cache T)
  flush_at i c cutoff ev_map again prev_off =
      let stored = c.region prev_off in
      let (code, buffer, c') = get_el_untouched c prev_off in
      let kept = put_buffer stored.hash buffer ev_map in
      if prev_off == 0
      then some (ev_map, c)
      else after_flush (ltb stored.when cutoff) (again kept) kept (del_el i c' prev_off)

  -- the loop, with the rounds that `max_evict` leaves after this one
  unfoldable pub flush_from :
      ℕ → HmapInterface T → Cache T → (cutoff : ℕ) → Buffers → Option (Buffers × Cache T)
  flush_from zero i c cutoff ev_map =
      flush_at i c cutoff ev_map (λ kept w. some (kept, w)) (c.region c.step).prev
  flush_from (suc n) i c cutoff ev_map =
      flush_at i c cutoff ev_map (λ kept w. flush_from n i w cutoff kept) (c.region c.step).prev

  -- `evict_least_used_to_value_map`
  unfoldable pub evict_least_used_to_value_map :
      HmapInterface T → Cache T → (cutoff max_evict : ℕ) → Buffers → Option (Buffers × Cache T)
  evict_least_used_to_value_map i c cutoff max_evict ev_map =
      flush_from (max_evict - 1) i c cutoff ev_map

  abbrev pub after_near :
      (again : Cache T → Option (ℕ × Buffers × Cache T))
      → Option (Bool × Cache T)
      → Option (ℕ × Buffers × Cache T)
  after_near again none = none
  after_near again (some (ok, c)) = again c

  -- the loop of `evict_least_used_near_hash` over the bucket; `ev_count` stays 0
  unfoldable pub near_from :
      HmapInterface T
      → List ℕ
      → Cache T
      → (cutoff max_evict : ℕ) → Buffers
      → (result : ℕ) → Option (ℕ × Buffers × Cache T)
  near_from i [] c cutoff max_evict ev_map result = some (result, ev_map, c)
  near_from i (x ∷ xs) c cutoff max_evict ev_map result =
      let stored = c.region x in
      let (code, buffer, c') = get_el_untouched c x in
      let kept = put_buffer stored.hash buffer ev_map in
      let go_on = λ (w : Cache T). near_from i xs w cutoff max_evict kept (result + 1) in
      let pass = near_from i xs c cutoff max_evict ev_map result in
      if (ltb stored.when cutoff || ltb 0 max_evict) && ltb result 12
      then after_near go_on (del_el i c' x)
      else pass

  abbrev pub near_bucket :
      HmapInterface T
      → Option (List ℕ)
      → Cache T
      → (cutoff max_evict : ℕ) → Buffers
      → Option (ℕ × Buffers × Cache T)
  near_bucket i none c cutoff max_evict ev_map = none
  near_bucket i (some xs) c cutoff max_evict ev_map = near_from i xs c cutoff max_evict ev_map 0

  abbrev pub bucket_of : HmapInterface T → Option T → ℕ → Option (List ℕ)
  bucket_of i none hash = none
  bucket_of i (some t) hash = i.get_bucket t hash

  -- `evict_least_used_near_hash`
  unfoldable pub evict_least_used_near_hash :
      HmapInterface T
      → Cache T
      → (hash cutoff max_evict : ℕ) → Buffers
      → Option (ℕ × Buffers × Cache T)
  evict_least_used_near_hash i c hash cutoff max_evict ev_map =
      near_bucket i (bucket_of i (hmap c.hashes hash) hash) c cutoff max_evict ev_map
