-- ===== src/Lru.antt =====
-- The LRU cache of src/node_shm_LRU.h (class `LRU_cache`): its elements in the shared region, and the
-- operations that use the region alone. The region is a function from offsets to elements, since the C
-- code adds an offset to the start of the region with no check. `now` is what `epoch_ms()` returns.
pub mod Attach
pub mod Basket
pub mod Chain
pub mod Construct
pub mod Elements
pub mod Evict
pub mod Flush
pub mod Hash
pub mod Layout
pub mod Use
pub mod Walk
pub mod Recount
pub mod Selector
pub mod Setup
pub mod Tail
pub mod Tests
pub mod Tiers
pub mod Turnover
use shm_lru_aging_and_quotas.Base.Mem.{update}
use shm_lru_aging_and_quotas.Base.Tests.{
  ℕ, zero, suc, ◌+◌, ◌-◌, ◌*◌, ◌/◌, ◌%◌, ◌^◌, Bool, true, false, not, Option, none, some, List, [],
  ◌∷◌, ◌++◌, ltb, leb, ◌==◌, if◌then◌else◌, ◌&&◌,
}
use shm_lru_aging_and_quotas.Base.Words.{u32_max, u64_max}

-- `LRU_element`, with the bytes that follow it
pub record Element : Type 0 where
  pub prev : ℕ
  pub next : ℕ
  pub hash : ℕ
  pub when : ℕ
  pub share_key : ℕ
  pub payload : List ℕ

abbrev pub Region : Type 0
Region = ℕ → Element

-- the values of `_reason`
pub data Reason : Type 0 where
  fine too_small out_of_free deleted already_deleted out_of_bounds boundary_violation : Reason

-- The two tables of `_hmap_i`, `none` for a null pointer, and the process's own table; `T` is what
-- stands behind a pointer to `HMap_interface`.
pub record Hashes (T : Type 0) : Type 0 where
  pub hmap_0 : Option T
  pub hmap_1 : Option T
  pub local_hash_table : List (ℕ × ℕ)

-- The fields of `LRU_cache`.
pub record Cache (T : Type 0) : Type 0 where
  pub reason : Reason
  pub status : Bool
  pub region : Region
  pub record_size : ℕ
  pub step : ℕ
  pub region_size : ℕ
  pub count_free : ℕ
  pub count : ℕ
  pub max_count : ℕ
  pub share_key : ℕ
  pub hashes : Hashes T

-- Writes to one field of the element at an offset.
abbrev pub set_next : Region → ℕ → ℕ → Region
set_next m p v = update m p (record (m p) { next = v })

abbrev pub set_prev : Region → ℕ → ℕ → Region
set_prev m p v = update m p (record (m p) { prev = v })

abbrev pub set_hash : Region → ℕ → ℕ → Region
set_hash m p v = update m p (record (m p) { hash = v })

abbrev pub set_when : Region → ℕ → ℕ → Region
set_when m p v = update m p (record (m p) { when = v })

abbrev pub set_payload : Region → ℕ → List ℕ → Region
set_payload m p v = update m p (record (m p) { payload = v })

-- the writes of `touch` and `del_el` that take an element out of the list
pub relink : Region → ℕ → ℕ → Region
relink m prev_off next_off = set_prev (set_next m prev_off next_off) next_off prev_off

-- the writes of `touch` and `add_el` that put an element in front of the list
pub push_front : Region → ℕ → Region
push_front m offset =
    let first = (m 0).next in
    set_prev (set_next (set_prev (set_next m offset first) first offset) 0 offset) offset 0

-- the writes of `del_el` that put an element on the free list
pub free_element : Region → (ctrl_free offset : ℕ) → Region
free_element m ctrl_free offset =
    let cleared = set_prev (set_hash m offset u64_max) offset u32_max in
    set_next (set_next cleared offset (cleared ctrl_free).next) ctrl_free offset

-- `touch`, on the region
pub touch : Region → (offset now : ℕ) → Bool × Region
touch m offset now =
    if (m offset).prev == u32_max
    then (false, m)
    else (true, set_when (push_front (relink m (m offset).prev (m offset).next) offset) offset now)

module _ {T : Type 0} where
  -- `check_offset`
  pub check_offset : Cache T → ℕ → Bool × Cache T
  check_offset c offset =
      if ltb c.region_size offset
      then (false, record c { reason = out_of_bounds })
      else if not (offset % c.step == 0)
      then (false, record c { reason = boundary_violation })
      else (true, record c { reason = fine })

  -- `get_el`: the code, and the bytes copied
  pub get_el : Cache T → (offset now : ℕ) → ℕ × Option (List ℕ) × Cache T
  get_el c offset now =
      let (valid, c') = check_offset c offset in
      let (touched, m) = touch c'.region offset now in
      if not valid
      then (2, none, c')
      else ((if touched then 0 else 1), some (c'.region offset).payload, record c' { region = m })

  pub get_el_untouched : Cache T → ℕ → ℕ × Option (List ℕ) × Cache T
  get_el_untouched c offset =
      let (valid, c') = check_offset c offset in
      if not valid then (2, none, c') else (0, some (c'.region offset).payload, c')

  pub update_el : Cache T → (offset now : ℕ) → List ℕ → Bool × Cache T
  update_el c offset now buffer =
      let (valid, c') = check_offset c offset in
      let (touched, m) = touch c'.region offset now in
      if not valid
      then (false, c')
      else if touched
      then (true, record c' { region = set_payload m offset buffer })
      else (false, record c' { reason = deleted; region = m })

  pub set_share_key : Cache T → (offset key : ℕ) → Bool × Cache T
  set_share_key c offset key =
      let (valid, c') = check_offset c offset in
      if not valid then (false, c') else (
        true,
        record c' {
          share_key = key;
          region = update c'.region offset (record (c'.region offset) { share_key = key });
        },
      )

  -- `get_last_reason` resets the reason
  pub get_last_reason : Cache T → Reason × Cache T
  get_last_reason c = (c.reason, record c { reason = fine })
