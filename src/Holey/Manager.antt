-- ===== src/Holey/Manager.antt =====
-- `KeyValueManager` of src/holey_buffer.h. `_key_val` is position 0 of the buffer; the library's `sort` is
-- an argument, and the fuel is that of the loops that have no bound of their own.
use shm_lru_aging_and_quotas.Base.Tests.{
  ℕ, zero, suc, ◌+◌, ◌-◌, Bool, true, false, not, ◌&&◌, Option, none, some, List, [], ◌∷◌, ltb, leb,
  ◌==◌, if◌then◌else◌,
}
use shm_lru_aging_and_quotas.Base.Words.{u32_max, add32, sub32}
use shm_lru_aging_and_quotas.Holey.{Pair, Buffer}
use shm_lru_aging_and_quotas.Holey.Entries.{Change, write, entry_add, entry_key_upate, entry_remove}
use shm_lru_aging_and_quotas.Holey.Merge.{UpdateSource, update_source, merge_sort}

pub record Manager : Type 0 where
  pub proc_queue : UpdateSource
  pub key_val : Buffer
  pub max : ℕ
  pub n : ℕ
  pub m : ℕ
  pub blackout_count : ℕ
  pub nouveau_max : ℕ
  pub nouveau_min : ℕ
  pub min_hole : Pair
  pub max_hole : Pair
  pub proc_count : ℕ

abbrev pub pair : ℕ → ℕ → Pair
pair a b = record { first = a; second = b }

-- `_init_min_max_holes`
abbrev pub init_min_max_holes : Manager → Manager
init_min_max_holes s = record s { min_hole = pair u32_max u32_max; max_hole = pair 0 u32_max }

-- the constructor
abbrev pub new_manager : Buffer → (count_size : ℕ) → Buffer → (expected_proc_max : ℕ) → Manager
new_manager primary_storage count_size shared_queue expected_proc_max = record {
  proc_queue = update_source shared_queue expected_proc_max;
  key_val = primary_storage;
  max = count_size;
  n = 0;
  m = 0;
  blackout_count = 0;
  nouveau_max = 0;
  nouveau_min = u32_max;
  min_hole = pair u32_max u32_max;
  max_hole = pair 0 u32_max;
  proc_count = 4;
}

abbrev pub larger : ℕ → ℕ → ℕ
larger a b = if ltb a b then b else a

abbrev pub lesser : ℕ → ℕ → ℕ
lesser a b = if ltb b a then b else a

-- the counts and the buffer after `entry_add`
abbrev pub added : Manager → (key : ℕ) → ℕ × Buffer → Bool × Manager
added s key (check, b) = if check == u32_max then (false, s) else (
  true,
  record s {
    key_val = b;
    nouveau_max = larger key s.nouveau_max;
    nouveau_min = lesser key s.nouveau_min;
    m = check;
  },
)

-- `add_entry`
unfoldable pub add_entry : Manager → (key value : ℕ) → Bool × Manager
add_entry s key value =
    if leb s.max (add32 s.n s.m)
    then (false, s)
    else added s key (entry_add key value s.key_val s.n s.m)

-- `manage_new_hole`, which keeps the first components alone
abbrev pub manage_new_hole : Manager → Pair → Manager
manage_new_hole s hole =
    let s' =
      if ltb s.max_hole.first hole.first
      then record s { max_hole = record s.max_hole { first = hole.first } }
      else s in
    if ltb hole.first s.min_hole.first
    then record s' { min_hole = record s.min_hole { first = hole.first } }
    else s'

-- the hole of a change, which starts at `shift`
abbrev pub note_hole : Manager → (shift : ℕ) → Pair → Manager
note_hole s shift hole =
    if hole.first == u32_max
    then s
    else manage_new_hole s (record hole { first = add32 hole.first shift })

-- the counts after a removal that has returned
abbrev pub removed : Manager → (shift : ℕ) → Option Change → Option (Bool × Manager)
removed s shift none = none
removed s shift (some c) =
    let s' = record s { key_val = c.buffer; n = add32 c.n shift } in
    let s'' = note_hole s' shift c.hole in
    if c.code == u32_max
    then some (false, s')
    else if s.m == c.code
    then some (true, record s'' { blackout_count = add32 s.blackout_count 1 })
    else some (true, record s'' { m = c.code })

-- `remove_entry`; `_regions_option` is never set, and `find_region` finds nothing
unfoldable pub remove_entry : ℕ → Manager → (key : ℕ) → Option (Bool × Manager)
remove_entry fuel s key =
    let start = s.max_hole.second in
    if (s.n == 0) && (s.m == 0)
    then some (false, s)
    else if (s.blackout_count == 0) && ltb 0 s.m
    then some (false, record s { n = add32 s.n s.m; m = 0 })
    else if leb s.max_hole.first key
    then removed s start
        (entry_remove fuel key s.key_val start (add32 (sub32 s.n start) 1) s.m false)
    else removed s 0 (entry_remove fuel key s.key_val 0 s.n s.m (not (s.blackout_count == 0)))

module _ (sort : Buffer → (start stop : ℕ) → Buffer) where
  abbrev pub merged : Manager → Option (ℕ × Buffer × UpdateSource) → Option Manager
  merged s none = none
  merged s (some (n', b, us)) = some (
      init_min_max_holes (record s {
        proc_queue = us;
        key_val = b;
        n = n';
        m = 0;
        nouveau_max = 0;
        nouveau_min = u32_max;
        blackout_count = 0;
      }))

  -- `_N = merge_sort_with_blackouts_increasing(…)`
  unfoldable pub merge_sort_with_blackouts_increasing : ℕ → Manager → Option Manager
  merge_sort_with_blackouts_increasing fuel s =
      merged s (merge_sort sort fuel s.key_val s.n s.m s.nouveau_min s.proc_queue)

  -- `rectify_blackout_count`
  unfoldable pub rectify_blackout_count : ℕ → Manager → (tolerance : ℕ) → Option Manager
  rectify_blackout_count fuel s tolerance =
      if leb s.blackout_count tolerance then merge_sort_with_blackouts_increasing fuel s else some s

  abbrev pub then_note_hole : Pair → Option Manager → Option Manager
  then_note_hole hole none = none
  then_note_hole hole (some s) = some (if hole.first == u32_max then s else manage_new_hole s hole)

  -- `manage_update` after `entry_key_upate` has returned
  abbrev pub updated : ℕ → Manager → (key_update shift : ℕ) → Option Change → Option Manager
  updated fuel s key_update shift none = none
  updated fuel s key_update shift (some c) =
      let s' = record s {
        key_val = c.buffer;
        n = add32 c.n shift;
        m = c.code;
        nouveau_max = larger key_update s.nouveau_max;
        nouveau_min = lesser key_update s.nouveau_min;
      } in
      if c.code == u32_max
      then some (record s { key_val = c.buffer })
      else then_note_hole c.hole (
          if leb s.proc_count c.code then merge_sort_with_blackouts_increasing fuel s' else some s')

  -- `manage_update`
  unfoldable pub manage_update : ℕ → Manager → (key key_update maybe_value : ℕ) → Option Manager
  manage_update fuel s key key_update maybe_value =
      let start = s.max_hole.second in
      if leb s.max_hole.first key
      then updated fuel s key_update start
          (entry_key_upate key key_update s.key_val start (sub32 s.n start) s.m maybe_value false)
      else updated fuel s key_update 0 (
          entry_key_upate key key_update s.key_val 0 s.n s.m maybe_value
            (not (s.blackout_count == 0)))

  abbrev pub true_and : Option Manager → Option (Bool × Manager)
  true_and none = none
  true_and (some s) = some (true, s)

  -- `update_entry`
  unfoldable pub update_entry :
      ℕ → Manager → (key old_key maybe_value : ℕ) → Option (Bool × Manager)
  update_entry fuel s key old_key maybe_value =
      if leb s.max (add32 s.n s.m)
      then some (false, s)
      else true_and (manage_update fuel s old_key key maybe_value)

  -- The first loop of `displace_lowest_value_threshold`: the list of values, the buffer, `p`, `copy`, and
  -- the number of pairs that it has moved down.
  pub displace_from :
      ℕ → Buffer → (min_max p copy eo_everything moved : ℕ) → List ℕ × Buffer × ℕ × ℕ × ℕ
  displace_from zero b min_max p copy eo moved = ([], b, p, copy, moved)
  displace_from (suc f) b min_max p copy eo moved =
      let hole = displace_from f b min_max (p + 1) copy eo moved in
      let kept = displace_from f b min_max (p + 1) copy eo moved in
      let over =
        displace_from f (write b p (b copy).first (b copy).second) min_max (p + 1) (copy + 1) eo
          (moved + 1) in
      if not (ltb (b p).first min_max)
      then ([], b, p, copy, moved)
      else if (b p).first == u32_max
      then hole
      else if ltb copy eo
      then ((b p).second ∷ over.0, over.1, over.2, over.3, over.4)
      else ((b p).second ∷ kept.0, kept.1, kept.2, kept.3, kept.4)

  -- the second loop, with `eo_everything - copy` rounds
  pub close_up : Buffer → (rounds p copy : ℕ) → Buffer
  close_up b zero p copy = b
  close_up b (suc n) p copy =
      close_up (write b p (b copy).first (b copy).second) n (p + 1) (copy + 1)

  abbrev pub displaced : List ℕ → Option Manager → Option (List ℕ × Manager)
  displaced values none = none
  displaced values (some s) = some (values, s)

  -- `displace_lowest_value_threshold`, with the values that it puts into its own copy of `deposit`
  unfoldable pub displace_lowest_value_threshold :
      ℕ → Manager → (min_max max_count : ℕ) → Option (List ℕ × Manager)
  unfolding displace_from close_up
  displace_lowest_value_threshold fuel s min_max max_count =
      let eo = s.n + s.m in
      let (values, b, p, copy, moved) =
        displace_from max_count s.key_val min_max 0 (max_count + 1) eo 0 in
      displaced values (
        rectify_blackout_count fuel
          (record s { key_val = close_up b (eo - copy) p copy; n = sub32 s.n moved }) u32_max)
