-- ===== src/Hopscotch/Api.antt =====
-- The methods of `HH_map` behind `HMap_interface`: store, get, get_bucket, del, clear, and the map
-- operations `put_hh_map`, `get_hh_map`, `del_hh_map`, of src/node_shm_HH.h.
use shm_lru_aging_and_quotas.Base.Tests.{
  ℕ, zero, suc, ◌+◌, Bool, true, false, Option, none, some, List, [], ◌∷◌, ◌==◌, if◌then◌else◌,
}
use shm_lru_aging_and_quotas.Base.Words.{u32_max, u64_max, load64, high_half, low_half}
use shm_lru_aging_and_quotas.Hopscotch.{
  Table, succ_hh_hash, get_val_at_hh_hash, put_hh_hash, get_hh_set, put_hh_set, del_hh_set,
}

-- what a put returns: the loaded key, or `UINT64_MAX`
unfoldable pub loaded_key : ℕ → ℕ → Option (Bool × Table) → Option (ℕ × Table)
loaded_key el_key hash_bucket none = none
loaded_key el_key hash_bucket (some (true, t)) = some (load64 el_key hash_bucket, t)
loaded_key el_key hash_bucket (some (false, t)) = some (u64_max, t)

-- `store`; its `return false` is a 0
unfoldable pub store : Table → (hash_bucket el_key v_value : ℕ) → Option (ℕ × Table)
unfolding loaded_key
store t hash_bucket el_key v_value =
    if v_value == 0
    then some (0, t)
    else loaded_key el_key hash_bucket (put_hh_hash t hash_bucket (load64 v_value el_key))

-- `put_hh_map`
unfoldable pub put_hh_map : Table → (hash_bucket full_hash value : ℕ) → Option (ℕ × Table)
unfolding loaded_key
put_hh_map t hash_bucket full_hash value =
    if value == 0
    then some (0, t)
    else loaded_key full_hash hash_bucket (put_hh_set t hash_bucket (load64 value full_hash))

value_of : Option ℕ → Option ℕ
value_of none = none
value_of (some x) = some (high_half x)

-- `get(key,bucket)`, which passes its arguments to `get_hh_set(T,hbucket,key)` in the order that it has them
unfoldable pub get : Table → (key bucket : ℕ) → Option ℕ
unfolding value_of
get t key bucket = value_of (get_hh_set t key bucket)

-- `get(key)` and `get_hh_map`: the key in the top half, the bucket in the bottom half
unfoldable pub get_hh_map : Table → ℕ → Option ℕ
unfolding value_of
get_hh_map t key = value_of (get_hh_set t (low_half key) (low_half (high_half key)))

hunted_half : Option (ℕ × Table) → Option (ℕ × Table)
hunted_half none = none
hunted_half (some (x, t)) = some (high_half x, t)

-- `del` and `del_hh_map`
unfoldable pub del_hh_map : Table → ℕ → Option (ℕ × Table)
unfolding hunted_half
del_hh_map t key = hunted_half (del_hh_set t (low_half key) (low_half (high_half key)))

-- the loop of `get_bucket` at position `i`
bucket_from : ℕ → Table → ℕ → ℕ → Option (List ℕ)
bucket_from zero t h i = none
bucket_from (suc f) t h i =
    let rest = bucket_from f t h (succ_hh_hash t h (i + 1)) in
    let x = high_half (get_val_at_hh_hash t h i) in
    if i == u32_max then some [] else elim rest [ none ↦ none | some xs ↦ some (x ∷ xs) ]

-- `get_bucket`: the values of a bucket, in the order of their distances
unfoldable pub get_bucket : Table → ℕ → Option (List ℕ)
unfolding bucket_from
get_bucket t h = bucket_from 33 t h (succ_hh_hash t h 0)
