-- ===== src/Holey.antt =====
-- The searches of src/holey_buffer.h and src/time_bucket.h. A pointer is a position from the start of
-- the buffer; an outer `none` is a loop that has used up its fuel.
pub mod Blackouts
pub mod Bucketing
pub mod Entries
pub mod Faults
pub mod Halving
pub mod Lost
pub mod Manager
pub mod Merge
pub mod Reach
pub mod Skips
pub mod Tests
pub mod Updating
use shm_lru_aging_and_quotas.Base.Tests.{
  ℕ, zero, suc, ◌+◌, ◌-◌, ◌/◌, ◌%◌, ◌^◌, Bool, true, false, not, ◌&&◌, Option, none, some, ltb, leb,
  ◌==◌, if◌then◌else◌,
}
use shm_lru_aging_and_quotas.Base.Words.{u32_max, sub32}

-- `pair<uint32_t,uint32_t>`
pub record Pair : Type 0 where
  pub first : ℕ
  pub second : ℕ

abbrev pub Buffer : Type 0
Buffer = ℕ → Pair

-- `p - 1` of a pointer to pairs, in 64 bits
abbrev pub back : ℕ → ℕ
back p = (p + 2 ^ 61 - 1) % 2 ^ 61

-- `while ( beg < end ) { if ( … ) return beg; beg++; }`, with `end - beg` rounds
pub scan : (hit : ℕ → Bool) (rounds beg : ℕ) → Option ℕ
scan hit zero beg = none
scan hit (suc n) beg = let rest = scan hit n (beg + 1) in if hit beg then some beg else rest

-- The loop of `b_search`, `u32b_search` and `time_interval_b_search`, which differ in their two tests:
-- `hit`, and `up` for going on above the middle.
pub halving : ℕ → (hit up : ℕ → Bool) (beg end n : ℕ) → Option (Option ℕ)
halving zero hit up beg end n = none
halving (suc f) hit up beg end n =
    let mid = beg + n / 2 in
    let above = halving f hit up mid end (n / 2) in
    let below = halving f hit up beg mid (n / 2) in
    if leb end beg
    then some none
    else if n / 2 == 0
    then some (scan hit (end - beg) beg)
    else if leb end mid
    then some none
    else if hit mid
    then some (some mid)
    else if up mid
    then above
    else below

-- `b_search`: a pair with the key
pub b_search : (key : ℕ) → Buffer → (key_val n : ℕ) → Option (Option ℕ)
b_search key m key_val n =
    let end = back (key_val + n) in
    let n' = sub32 n 2 in
    if (m key_val).first == key
    then some (some key_val)
    else if (m end).first == key
    then some (some end)
    else halving (suc n') (λ p. (m p).first == key) (λ p. ltb (m p).first key) (key_val + 1) end n'

-- whether a bucket has the key
abbrev pub holds : (buckets : ℕ → ℕ) (key i : ℕ) → Bool
holds b key i = leb (b i) key && ltb key (b (i + 1))

-- the result of a search for an index, with `UINT32_MAX` for none
abbrev pub index_of : Option (Option ℕ) → Option ℕ
index_of none = none
index_of (some none) = some u32_max
index_of (some (some i)) = some i

-- `u32b_search`: the index of the bucket that has the key
pub u32b_search : (key : ℕ) (buckets : ℕ → ℕ) (n : ℕ) → Option ℕ
u32b_search key b n =
    let end = back n in
    let n' = sub32 n 2 in
    if holds b key 0
    then some 0
    else if leb (b end) key
    then some (sub32 (sub32 n 1) 1)
    else index_of (halving (suc n') (holds b key) (λ p. leb (b (p + 1)) key) 1 end n')

-- the two times of `TIER_TIME`
pub record TierTime : Type 0 where
  pub lb_time : ℕ
  pub ub_time : ℕ

abbrev pub in_interval : (timer_table : ℕ → TierTime) (timestamp i : ℕ) → Bool
in_interval t timestamp i = leb (t i).lb_time timestamp && ltb timestamp (t i).ub_time

-- `time_interval_b_search`; where it returns a pointer this is the index
pub time_interval_b_search : (timestamp : ℕ) (timer_table : ℕ → TierTime) (n : ℕ) → Option ℕ
time_interval_b_search timestamp t n =
    let end = back n in
    let n' = sub32 n 2 in
    if in_interval t timestamp 0
    then some 0
    else if in_interval t timestamp end
    then some (sub32 (sub32 n 1) 1)
    else index_of
        (halving (suc n') (in_interval t timestamp) (λ p. ltb (t p).ub_time timestamp) 1 end n')

-- the trimming loops: the first pair from `p` on that is no hole, and the end after the last one
pub skip_up : Buffer → (rounds p : ℕ) → ℕ
skip_up m zero p = p
skip_up m (suc n) p = let rest = skip_up m n (p + 1) in if (m p).first == u32_max then rest else p

pub trim_end : Buffer → (rounds end : ℕ) → ℕ
trim_end m zero end = end
trim_end m (suc n) end =
    let rest = trim_end m n (end - 1) in if (m (end - 1)).first == u32_max then rest else end

-- the last pair from `p` down to `p - rounds` that is no hole
pub skip_down : Buffer → (rounds p : ℕ) → ℕ
skip_down m zero p = p
skip_down m (suc n) p =
    let rest = skip_down m n (p - 1) in if (m p).first == u32_max then rest else p

-- How a round of the search ends: with a result, or with another range.
pub data Round : Type 0 where
  found : Option ℕ → Round
  narrow : (beg end : ℕ) → Round

-- the end of a round, when the key is between the pairs at `mid_l` and `mid_u`
abbrev pub between : (beg end mid_l mid_u : ℕ) → Round
between beg end mid_l mid_u =
    let distance = (mid_u - mid_l) / 2 in
    if ltb mid_u end && leb beg mid_l && ltb 0 distance
    then (if distance == 1 then found (some mid_l) else found (some (mid_l + distance / 2)))
    else found none

-- the comparisons with the pairs around the middle
abbrev pub compare_mid : Buffer → (key beg end mid_l mid_u : ℕ) → Round
compare_mid m key beg end mid_l mid_u =
    let lower =
      if leb beg mid_l && (key == (m mid_l).first)
      then found (some mid_l)
      else if leb beg mid_l && ltb key (m mid_l).first
      then narrow beg mid_l
      else between beg end mid_l mid_u in
    if ltb mid_u end && (key == (m mid_u).first)
    then found (some mid_u)
    else if ltb mid_u end && ltb (m mid_u).first key
    then narrow (mid_u + 1) end
    else lower

pub blackout_round : Buffer → (key beg end half : ℕ) → Round
unfolding skip_up skip_down
blackout_round m key beg end half =
    let mid = beg + half in
    if key == (m beg).first
    then found (some beg)
    else if key == (m (end - 1)).first
    then found (some (end - 1))
    else compare_mid m key beg end (skip_down m (mid - beg) mid) (skip_up m (end - mid) mid)

abbrev pub after_round : Round → (ℕ → ℕ → Option (Option ℕ)) → Option (Option ℕ)
after_round (found r) again = some r
after_round (narrow beg end) again = again beg end

pub blackout_loop : ℕ → Buffer → (key beg end n : ℕ) → Option (Option ℕ)
blackout_loop zero m key beg end n = none
blackout_loop (suc f) m key beg end n =
    if ltb beg end && ltb 0 n
    then after_round (blackout_round m key beg end (n / 2))
        (λ b e. blackout_loop f m key b e (n / 2))
    else some none

-- `bin_search_with_blackouts_increasing`
pub bin_search_with_blackouts_increasing : (key : ℕ) → Buffer → (key_val n : ℕ) → Option (Option ℕ)
bin_search_with_blackouts_increasing key m key_val n =
    let beg = skip_up m n key_val in
    let end = trim_end m (key_val + n - beg) (key_val + n) in
    if n == 0
    then some none
    else if beg == end
    then some none
    else if ltb (m (end - 1)).first key
    then some none
    else if ltb key (m beg).first
    then some none
    else blackout_loop (suc n) m key beg end n
