-- ===== src/Holey/Entries.antt =====
-- The entries of the buffer of src/holey_buffer.h: `entry_add`, `entry_key_upate` and `entry_remove`.
-- The first `n` pairs are in order, with holes; the `m` pairs after them are new.
use shm_lru_aging_and_quotas.Base.Mem.{update}
use shm_lru_aging_and_quotas.Base.Tests.{
  ℕ, zero, suc, ◌+◌, ◌-◌, Bool, ◌&&◌, Option, none, some, ltb, ◌==◌, if◌then◌else◌,
}
use shm_lru_aging_and_quotas.Base.Words.{u32_max, add32, sub32}
use shm_lru_aging_and_quotas.Holey.{
  Pair, Buffer, back, scan, b_search, bin_search_with_blackouts_increasing,
}

abbrev pub set_first : Buffer → (p v : ℕ) → Buffer
set_first b p v = update b p (record (b p) { first = v })

abbrev pub set_second : Buffer → (p v : ℕ) → Buffer
set_second b p v = update b p (record (b p) { second = v })

abbrev pub write : Buffer → (p first second : ℕ) → Buffer
write b p first second = set_second (set_first b p first) p second

-- `pair<uint32_t,uint32_t> new_hole_offset{UINT32_MAX,UINT32_MAX}`
abbrev pub no_hole : Pair
no_hole = record { first = u32_max; second = u32_max }

-- `entry_add`: the new count of new pairs, or `UINT32_MAX`
unfoldable pub entry_add : (key value : ℕ) → Buffer → (n m : ℕ) → ℕ × Buffer
entry_add key value b n m =
    if n == 0
    then (add32 m 1, write b m key value)
    else if ltb key (b (n - 1)).first
    then (u32_max, b)
    else (add32 m 1, write b (n + m) key value)

-- what `entry_key_upate` and `entry_remove` return, with what they change through references
pub record Change : Type 0 where
  pub code : ℕ
  pub buffer : Buffer
  pub n : ℕ
  pub hole : Pair

abbrev pub unchanged : Buffer → ℕ → Change
unchanged b n = record { code = u32_max; buffer = b; n = n; hole = no_hole }

-- the search of the ordered pairs
abbrev pub search_old : Bool → (key : ℕ) → Buffer → (key_val n : ℕ) → Option (Option ℕ)
search_old has_holes key b key_val n =
    if has_holes
    then bin_search_with_blackouts_increasing key b key_val n
    else b_search key b key_val n

-- `maybe_value`, or the value that is there
abbrev pub value_or : (maybe_value value : ℕ) → ℕ
value_or maybe_value value = if maybe_value == u32_max then value else maybe_value

-- an update of a new pair, which stays in its place
abbrev pub update_new : (key_update maybe_value : ℕ) → Buffer → (n m : ℕ) → Option ℕ → Change
update_new key_update maybe_value b n m none = unchanged b n
update_new key_update maybe_value b n m (some p) =
    let b' = set_first b p key_update in
    record {
      code = m;
      buffer = if maybe_value == u32_max then b' else set_second b' p maybe_value;
      n = n;
      hole = no_hole;
    }

-- an update of an ordered pair, which leaves a hole unless it is the last one
abbrev pub update_old : (key_update maybe_value : ℕ) → Buffer → (key_val n m p : ℕ) → Change
update_old key_update maybe_value b key_val n m p =
    let end = key_val + n in
    let holed = set_first b p u32_max in
    let moved = set_first holed (end + m) key_update in
    let valued = set_second moved (end + m) (value_or maybe_value (moved p).second) in
    if p == back end
    then record {
      code = m;
      buffer = write b p key_update (value_or maybe_value (b p).second);
      n = n;
      hole = no_hole;
    }
    else record {
      code = add32 m 1;
      buffer = set_second valued p u32_max;
      n = n;
      hole = record { first = (b p).first; second = p - key_val };
    }

abbrev pub update_found :
    (key key_update maybe_value : ℕ)
    → Buffer
    → (key_val n m : ℕ) → Option (Option ℕ)
    → Option Change
update_found key key_update maybe_value b key_val n m none = none
update_found key key_update maybe_value b key_val n m (some none) =
    some (update_new key_update maybe_value b n m (scan (λ p. (b p).first == key) m (key_val + n)))
update_found key key_update maybe_value b key_val n m (some (some p)) =
    some (update_old key_update maybe_value b key_val n m p)

-- `entry_key_upate`
unfoldable pub entry_key_upate :
    (key key_update : ℕ) → Buffer → (key_val n m maybe_value : ℕ) (has_holes : Bool) → Option Change
entry_key_upate key key_update b key_val n m maybe_value has_holes =
    if ltb key_update key
    then some (unchanged b n)
    else update_found key key_update maybe_value b key_val n m
        (search_old has_holes key b key_val n)

-- The loop of `entry_remove` over the new pairs. It never moves its pointer on.
unfoldable pub remove_new : ℕ → (key : ℕ) → Buffer → (p end n m : ℕ) → Option Change
remove_new zero key b p end n m = none
remove_new (suc f) key b p end n m =
    let rest = remove_new f key b p end n m in
    if (b p).first == key
    then some (record {
      code = m - 1;
      buffer = write b p (b (end - 1)).first (b (end - 1)).second;
      n = n;
      hole = no_hole;
    })
    else rest

-- the removal of an ordered pair
abbrev pub remove_old : (key : ℕ) → Buffer → (key_val n m p : ℕ) → Change
remove_old key b key_val n m p =
    let end = key_val + n in
    let q = end + m - 1 in
    if p == back end
    then (if ltb 0 m
        then record {
          code = m - 1;
          buffer = write b p (b q).first (b q).second;
          n = sub32 n 1;
          hole = no_hole;
        }
        else record { code = 0; buffer = b; n = sub32 n 1; hole = no_hole })
    else if (b p).first == key
    then record {
      code = m;
      buffer = write b p u32_max u32_max;
      n = n;
      hole = record { first = key; second = p - key_val };
    }
    else unchanged b n

abbrev pub remove_found :
    (fuel key : ℕ) → Buffer → (key_val n m : ℕ) → Option (Option ℕ) → Option Change
remove_found fuel key b key_val n m none = none
remove_found fuel key b key_val n m (some none) =
    if ltb 0 m
    then remove_new fuel key b (key_val + n) (key_val + n + m) n m
    else some (unchanged b n)
remove_found fuel key b key_val n m (some (some p)) = some (remove_old key b key_val n m p)

-- `entry_remove`
unfoldable pub entry_remove :
    (fuel key : ℕ) → Buffer → (key_val n m : ℕ) (has_holes : Bool) → Option Change
entry_remove fuel key b key_val n m has_holes =
    if (n == 0) && (m == 0)
    then some (unchanged b n)
    else remove_found fuel key b key_val n m (search_old has_holes key b key_val n)
