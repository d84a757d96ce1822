-- ===== src/Lru/Elements.antt =====
-- `add_el`, `del_el` and `evict_least_used` of src/node_shm_LRU.h. `none` stands for a call of the hash
-- table that does not return.
use shm_lru_aging_and_quotas.Base.Tests.{
  ℕ, zero, suc, ◌+◌, ◌-◌, ◌*◌, ◌%◌, ◌^◌, Bool, true, false, not, Option, none, some, List, [], ◌∷◌,
  ltb, ◌==◌, if◌then◌else◌, ◌&&◌,
}
use shm_lru_aging_and_quotas.Base.Words.{u32_max, u64_max, load64}
use shm_lru_aging_and_quotas.Lru.{
  Region, Cache, Hashes, relink, push_front, free_element, set_next, set_when, set_hash,
  set_payload, check_offset, out_of_free, already_deleted,
}
use shm_lru_aging_and_quotas.Lru.Hash.{HmapInterface, store_in_hash, remove_key}

-- `memset` to 0, then the first bytes of the data
abbrev pub record_bytes : ℕ → List ℕ → List ℕ
record_bytes zero xs = []
record_bytes (suc n) [] = 0 ∷ record_bytes n []
record_bytes (suc n) (x ∷ xs) = x ∷ record_bytes n xs

-- the writes of `add_el` to the region
unfoldable pub add_front : Region → (ctrl_free offset now hash : ℕ) → List ℕ → Region
add_front m ctrl_free offset now hash bytes =
    let linked = push_front (set_next m ctrl_free (m offset).next) offset in
    set_payload (set_hash (set_when linked offset now) offset hash) offset bytes

-- the writes of `del_el` to the region
abbrev pub delete_region : Region → (ctrl_free offset : ℕ) → Region
delete_region m ctrl_free offset =
    free_element (relink m (m offset).prev (m offset).next) ctrl_free offset

module _ {T : Type 0} where
  -- `add_el` after the hash table has answered
  abbrev pub added :
      Cache T
      → (bytes : List ℕ) (hash new_el now : ℕ) → Option (ℕ × Hashes T)
      → Option (ℕ × Cache T)
  added c bytes hash new_el now none = none
  added c bytes hash new_el now (some (r, h)) =
      if r == u64_max
      then some (u32_max, record c { hashes = h })
      else some (
        new_el,
        record c {
          hashes = h;
          region =
              add_front c.region (2 * c.step) new_el now hash (record_bytes c.record_size bytes);
          count = (c.count + 1) % 2 ^ 16;
          count_free = if ltb 0 c.count_free then c.count_free - 1 else c.count_free;
        },
      )

  -- `add_el`: the new offset, or `UINT32_MAX`
  unfoldable pub add_el :
      HmapInterface T
      → Cache T
      → (bytes : List ℕ) (full_hash hash_bucket now : ℕ) → Option (ℕ × Cache T)
  add_el i c bytes full_hash hash_bucket now =
      let new_el = (c.region (2 * c.step)).next in
      if new_el == u32_max
      then some (u32_max, record c { status = false; reason = out_of_free })
      else added c bytes (load64 full_hash hash_bucket) new_el now
          (store_in_hash i c.hashes full_hash hash_bucket new_el)

  -- `del_el` after `remove_key`
  abbrev pub removed : Cache T → Option (ℕ × Hashes T) → Option (Bool × Cache T)
  removed c none = none
  removed c (some (r, h)) =
      some (true, record c { hashes = h; count_free = (c.count_free + 1) % 2 ^ 16 })

  unfoldable pub del_el : HmapInterface T → Cache T → ℕ → Option (Bool × Cache T)
  del_el i c offset =
      let (valid, c') = check_offset c offset in
      let stored = c'.region offset in
      if not valid
      then some (false, c')
      else if (stored.prev == u32_max) && (stored.hash == u32_max)
      then some (false, record c' { reason = already_deleted })
      else removed (record c' { region = delete_region c'.region (2 * c'.step) offset })
          (remove_key i c'.hashes stored.hash)

  abbrev pub listed : ℕ → Option (List ℕ × Cache T) → Option (List ℕ × Cache T)
  listed hash none = none
  listed hash (some (xs, c)) = some (hash ∷ xs, c)

  abbrev pub after_del :
      (hash : ℕ) (old : Bool) (again : Cache T → Option (List ℕ × Cache T))
      → Option (Bool × Cache T)
      → Option (List ℕ × Cache T)
  after_del hash old again none = none
  after_del hash old again (some (ok, c)) =
      if old then listed hash (again c) else some (hash ∷ [], c)

  -- a round of the loop of `evict_least_used`, with what `again` does for the rounds that may follow
  abbrev pub evict_at :
      HmapInterface T
      → Cache T
      → (cutoff : ℕ) (again : Cache T → Option (List ℕ × Cache T)) (prev_off : ℕ)
      → Option (List ℕ × Cache T)
  evict_at i c cutoff again prev_off =
      if prev_off == 0
      then some ([], c)
      else after_del (c.region prev_off).hash (ltb (c.region prev_off).when cutoff) again
          (del_el i c prev_off)

  -- the loop, with the rounds that `max_evict` leaves after this one
  unfoldable pub evict_from :
      ℕ → HmapInterface T → Cache T → (cutoff : ℕ) → Option (List ℕ × Cache T)
  evict_from zero i c cutoff = evict_at i c cutoff (λ w. some ([], w)) (c.region c.step).prev
  evict_from (suc n) i c cutoff =
      evict_at i c cutoff (λ w. evict_from n i w cutoff) (c.region c.step).prev

  -- `evict_least_used`: the hashes of what is evicted
  unfoldable pub evict_least_used :
      HmapInterface T → Cache T → (cutoff max_evict : ℕ) → Option (List ℕ × Cache T)
  evict_least_used i c cutoff max_evict = evict_from (max_evict - 1) i c cutoff
