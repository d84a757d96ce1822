-- ===== src/Lru/Hash.antt =====
-- The hash tables behind the LRU cache of src/node_shm_LRU.h: `store_in_hash`, `remove_key` and
-- `check_for_hash`, over the methods of `HMap_interface` in src/hmap_interface.h. A method that does
-- not return is `none`.
use shm_lru_aging_and_quotas.Base.Tests.{
  ℕ, ◌%◌, Option, none, some, List, [], ◌∷◌, ◌==◌, if◌then◌else◌,
}
use shm_lru_aging_and_quotas.Base.Words.{u32_max, load64}
use shm_lru_aging_and_quotas.Lru.{Hashes}

-- `HMap_interface`, as far as the LRU calls it
pub record HmapInterface (T : Type 0) : Type 0 where
  pub store : T → (hash_bucket el_key v_value : ℕ) → Option (ℕ × T)
  pub get_64 : T → ℕ → Option ℕ
  pub get : T → (key bucket : ℕ) → Option ℕ
  pub del : T → ℕ → Option (ℕ × T)
  pub get_bucket : T → ℕ → Option (List ℕ)

-- `unordered_map`: erase, assignment, find
abbrev pub erase : ℕ → List (ℕ × ℕ) → List (ℕ × ℕ)
erase k [] = []
erase k ((a, v) ∷ xs) = if a == k then erase k xs else (a, v) ∷ erase k xs

abbrev pub assign : ℕ → ℕ → List (ℕ × ℕ) → List (ℕ × ℕ)
assign k v xs = (k, v) ∷ erase k xs

abbrev pub find : ℕ → List (ℕ × ℕ) → Option ℕ
find k [] = none
find k ((a, v) ∷ xs) = if a == k then some v else find k xs

abbrev pub or_max : Option ℕ → ℕ
or_max none = u32_max
or_max (some v) = v

abbrev pub result_or_max : Option ℕ → Option ℕ
result_or_max none = none
result_or_max (some v) = some (if v == 0 then u32_max else v)

module _ {T : Type 0} where
  -- `_hmap_i[selector]`, for the selector of a key
  abbrev pub hmap : Hashes T → ℕ → Option T
  hmap h key = if key % 2 == 0 then h.hmap_0 else h.hmap_1

  abbrev pub set_hmap : Hashes T → ℕ → T → Hashes T
  set_hmap h key t =
      if key % 2 == 0 then record h { hmap_0 = some t } else record h { hmap_1 = some t }

  abbrev pub kept : Hashes T → ℕ → Option (ℕ × T) → Option (ℕ × Hashes T)
  kept h key none = none
  kept h key (some (r, t)) = some (r, set_hmap h key t)

  abbrev pub store_with :
      HmapInterface T
      → Hashes T
      → Option T
      → (full_hash hash_bucket new_el_offset : ℕ) → Option (ℕ × Hashes T)
  store_with i h none full_hash hash_bucket offset = some (
    0,
    record h { local_hash_table = assign (load64 full_hash hash_bucket) offset h.local_hash_table },
  )
  store_with i h (some t) full_hash hash_bucket offset =
      kept h full_hash (i.store t hash_bucket full_hash offset)

  -- `store_in_hash`: the table by the lowest bit of `full_hash`
  unfoldable pub store_in_hash :
      HmapInterface T → Hashes T → (full_hash hash_bucket new_el_offset : ℕ) → Option (ℕ × Hashes T)
  store_in_hash i h full_hash hash_bucket offset =
      store_with i h (hmap h full_hash) full_hash hash_bucket offset

  abbrev pub remove_with : HmapInterface T → Hashes T → Option T → ℕ → Option (ℕ × Hashes T)
  remove_with i h none hash =
      some (0, record h { local_hash_table = erase hash h.local_hash_table })
  remove_with i h (some t) hash = kept h hash (i.del t hash)

  -- `remove_key`: the table by the lowest bit of the 64 bit hash
  unfoldable pub remove_key : HmapInterface T → Hashes T → ℕ → Option (ℕ × Hashes T)
  remove_key i h hash = remove_with i h (hmap h hash) hash

  abbrev pub check_with : HmapInterface T → Hashes T → Option T → ℕ → Option ℕ
  check_with i h none key = some (or_max (find key h.local_hash_table))
  check_with i h (some t) key = result_or_max (i.get_64 t key)

  -- `check_for_hash(key)`: the offset, or `UINT32_MAX`
  unfoldable pub check_for_hash : HmapInterface T → Hashes T → ℕ → Option ℕ
  check_for_hash i h key = check_with i h (hmap h key) key
