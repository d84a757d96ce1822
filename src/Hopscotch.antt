-- ===== src/Hopscotch.antt =====
-- The hopscotch table of src/node_shm_HH.h (class `HH_map`, the methods that work on one `HHash`
-- header and its two regions) and the macros and header of src/hmap_interface.h.
-- The regions are functions from positions, as the C code indexes them with no bounds check.
-- `none` means that a loop used up its fuel.
pub mod Api
pub mod Counters
pub mod Counting
pub mod Inv
pub mod Place
pub mod Put
pub mod RandomBits
pub mod Remove
pub mod Hunt
pub mod Delete
pub mod Lookup
pub mod RoundTrip
pub mod Store
pub mod Setup
pub mod Tests
pub mod Scan
pub mod Swap
use shm_lru_aging_and_quotas.Base.Bits.{get_bit, set_bit, unset_bit, mask_from, ffs}
use shm_lru_aging_and_quotas.Base.Mem.{update}
use shm_lru_aging_and_quotas.Base.Tests.{
  ℕ, zero, suc, ◌+◌, ◌-◌, ◌%◌, Bool, true, false, not, ◌&&◌, ◌||◌, Option, none, some, List, [],
  ◌∷◌, ltb, ◌==◌, if◌then◌else◌,
}
use shm_lru_aging_and_quotas.Base.Words.{
  u32_max, u64_max, add32, sub32, mod_once, load64, high_half, low_half,
}

-- `HHASH`, with `_region_H` (the bit pattern of each bucket) and `_region_V` (the value slots).
pub record Table : Type 0 where
  pub neighbor : ℕ
  pub count : ℕ
  pub max_n : ℕ
  pub region_h : ℕ → ℕ
  pub region_v : ℕ → ℕ

-- `setup_region` of an initialising process, for one of the two tables
pub setup : ℕ → Table
setup max_count = record {
  neighbor = 32;
  count = 0;
  max_n = max_count;
  region_h = λ _. 0;
  region_v = λ _. 0;
}

-- `_next`: the lowest set bit from position `i` on
pub next : ℕ → ℕ → ℕ
next h i = if mask_from h i == 0 then u32_max else ffs (mask_from h i)

-- `_succ`
pub succ : Table → ℕ → ℕ → ℕ
unfolding next
succ t h_bucket i = if get_bit (t.region_h h_bucket) i then i else next (t.region_h h_bucket) i

-- `_succ_hh_hash`
pub succ_hh_hash : Table → ℕ → ℕ → ℕ
succ_hh_hash t h_bucket i = if i == 32 then u32_max else succ t (h_bucket % t.max_n) i

-- One of the two loops of `_probe`: `n` slots from position `i` on.
scan_free : (ℕ → ℕ) → ℕ → ℕ → Option ℕ
scan_free v zero i = none
scan_free v (suc n) i = let rest = scan_free v n (i + 1) in if v i == 0 then some i else rest

-- `_probe`: the distance from `h` to the first empty slot, searched to the end and then from 0
pub probe : Table → ℕ → ℕ
unfolding scan_free
probe t h = elim (scan_free t.region_v (t.max_n - h) h) [
  | some i ↦ i - h
  | none ↦ elim (scan_free t.region_v h 0) [ some j ↦ t.max_n + j - h | none ↦ u32_max ]
]

-- the loop of `_hop_scotch`, from distance `i` down
hop_from : Table → ℕ → ℕ → ℕ
hop_from t hd zero = 0
hop_from t hd (suc i) =
    let rest = hop_from t hd i in
    let h = t.region_h (mod_once (sub32 (add32 t.max_n hd) (suc i)) t.max_n) in
    if not (h == 0) && ltb (ffs h) (suc i) then suc i else rest

-- `_hop_scotch`; the neighborhood is never 0
pub hop_scotch : Table → ℕ → ℕ
unfolding hop_from
hop_scotch t hd = hop_from t hd (t.neighbor - 1)

-- `_swap`: within bucket `h`, the value at distance `i` moves to distance `j`
pub swap : Table → ℕ → ℕ → ℕ → Table
swap t h i j =
    let from = mod_once (add32 h i) t.max_n in
    let to = mod_once (add32 h j) t.max_n in
    record t {
      region_h = update t.region_h h (set_bit (unset_bit (t.region_h h) i) j);
      region_v = update (update t.region_v from 0) to (t.region_v from);
    }

-- How the `while ( d >= K )` loop of `put_hh_hash` ends.
pub data Hop : Type 0 where
  out_of_fuel : Hop
  frozen : Table → Hop
  near : Table → ℕ → Hop

-- the loop, with the hole at distance `d` from `h`
pub hop_back : ℕ → Table → ℕ → ℕ → Hop
hop_back zero t h d = out_of_fuel
hop_back (suc f) t h d =
    let hd = mod_once (add32 h d) t.max_n in
    let j = hop_scotch t hd in
    let z = mod_once (sub32 (add32 t.max_n hd) j) t.max_n in
    let i = succ t z 0 in
    let d' = mod_once (sub32 (add32 (add32 t.max_n z) i) h) t.max_n in
    let rest = hop_back f (swap t z i j) h d' in
    if ltb d t.neighbor then near t d else if j == 0 then frozen t else rest

-- the end of `put_hh_hash`: the value goes into the hole
pub place : Table → ℕ → ℕ → ℕ → Table
place t h d v = record t {
  region_v = update t.region_v (mod_once (add32 h d) t.max_n) v;
  region_h = update t.region_h h (set_bit (t.region_h h) d);
  count = add32 t.count 1;
}

-- what `put_hh_hash` returns after the loop
pub finish_put : ℕ → ℕ → Hop → Option (Bool × Table)
finish_put h v out_of_fuel = none
finish_put h v (frozen t) = some (false, t)
finish_put h v (near t d) = some (true, place t h d v)

-- The distance falls in each round, so one round more than the first distance is enough.
pub put_hh_hash : Table → ℕ → ℕ → Option (Bool × Table)
put_hh_hash t hash v =
    let h = hash % t.max_n in
    let d = probe t h in
    if t.count == t.max_n || v == 0
    then some (false, t)
    else if d == u32_max
    then some (false, t)
    else finish_put h v (hop_back (suc d) t h d)

-- `get_val_at_hh_hash`; the sum is a `uint32_t`
pub get_val_at_hh_hash : Table → ℕ → ℕ → ℕ
get_val_at_hh_hash t h_bucket i = t.region_v (add32 h_bucket i % t.max_n)

-- `_cmp`
pub cmp : ℕ → ℕ → Bool
cmp k x = low_half k == low_half x

-- the writes of `del_hh_hash`: the slot and the bit of an entry are cleared
pub take_out : Table → ℕ → ℕ → Table
take_out t h i = record t {
  region_v = update t.region_v (mod_once (add32 h i) t.max_n) 0;
  region_h = update t.region_h h (unset_bit (t.region_h h) i);
  count = sub32 t.count 1;
}

-- `del_hh_hash`; its local `V` is a `uint32_t`
pub del_hh_hash : Table → ℕ → ℕ → Table
unfolding take_out
del_hh_hash t hash i =
    let h = hash % t.max_n in
    if low_half (t.region_v (mod_once (add32 h i) t.max_n)) == 0 || not (get_bit (t.region_h h) i)
    then t
    else take_out t h i

-- the loop of `hunt_hash_set` at position `i`
hunt_from : ℕ → Table → ℕ → ℕ → Bool → ℕ → Option (ℕ × Table)
hunt_from zero t h_bucket key_null kill i = none
hunt_from (suc f) t h_bucket key_null kill i =
    let x = get_val_at_hh_hash t h_bucket i in
    let rest = hunt_from f t h_bucket key_null kill (succ_hh_hash t h_bucket (i + 1)) in
    if i == u32_max
    then some (0, t)
    else if cmp key_null x
    then some (x, if kill then del_hh_hash t h_bucket i else t)
    else rest

-- `hunt_hash_set`: at most 32 positions are looked at
pub hunt_hash_set : Table → ℕ → ℕ → Bool → Option (ℕ × Table)
hunt_hash_set t h_bucket key_null kill =
    hunt_from 33 t h_bucket key_null kill (succ_hh_hash t h_bucket 0)

pub hunted_value : Option (ℕ × Table) → Option ℕ
hunted_value none = none
hunted_value (some (x, t)) = some x

pub get_hh_set : Table → ℕ → ℕ → Option ℕ
unfolding hunted_value
get_hh_set t hbucket key = hunted_value (hunt_hash_set t hbucket key false)

pub del_hh_set : Table → ℕ → ℕ → Option (ℕ × Table)
del_hh_set t hbucket key = hunt_hash_set t hbucket key true

pub put_hh_set : Table → ℕ → ℕ → Option (Bool × Table)
put_hh_set t h key_val =
    if key_val == 0 then some (false, t) else elim (get_hh_set t h (low_half key_val)) [
      | none ↦ none
      | some x ↦ if not (x == 0) then some (true, t) else put_hh_hash t h key_val
    ]
