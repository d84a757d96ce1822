-- ===== src/Holey/Merge.antt =====
-- The merge of src/holey_buffer.h, with `UpdateSource` of src/updating_source.h. The library's `sort`
-- is an argument: it takes the buffer, a first position and the position after the last.
use shm_lru_aging_and_quotas.Base.Tests.{
  ℕ, zero, suc, ◌+◌, ◌-◌, ◌%◌, Bool, not, ◌&&◌, ◌||◌, Option, none, some, ltb, leb, ◌==◌,
  if◌then◌else◌,
}
use shm_lru_aging_and_quotas.Base.Words.{u32_max, add32}
use shm_lru_aging_and_quotas.Holey.{Pair, Buffer, skip_up, trim_end}
use shm_lru_aging_and_quotas.Holey.Entries.{write}

-- `UpdateSource`
pub record UpdateSource : Type 0 where
  pub min_value : ℕ
  pub min_index : ℕ
  pub sorted_updates : Buffer
  pub n_procs : ℕ

-- the constructor
abbrev pub update_source : Buffer → ℕ → UpdateSource
update_source shared_queue expected_proc_max = record {
  min_value = u32_max;
  min_index = u32_max;
  sorted_updates = shared_queue;
  n_procs = expected_proc_max;
}

abbrev pub has_values : UpdateSource → Bool
has_values us = ltb us.min_value u32_max

pub release_min : UpdateSource → Pair × UpdateSource
release_min us =
    let index = add32 us.min_index 1 % us.n_procs in
    (
      us.sorted_updates us.min_index,
      record us { min_index = index; min_value = (us.sorted_updates index).first },
    )

-- `while ( start < (end-1) ) { if ( start->first >= (start+1)->first ) break; start++; }`
pub run_up : Buffer → (rounds start : ℕ) → ℕ
run_up b zero start = start
run_up b (suc n) start =
    let rest = run_up b n (start + 1) in
    if leb (b (start + 1)).first (b start).first then start else rest

-- `while ( --stop > min_stop ) { if ( stop->first < (stop-1)->first ) break; }`, at `stop` after the
-- first decrement
pub run_down : Buffer → (rounds stop : ℕ) → ℕ
run_down b zero stop = stop
run_down b (suc n) stop =
    let rest = run_down b n (stop - 1) in
    if ltb (b stop).first (b (stop - 1)).first then stop else rest

-- the scouts, with `rscout - beg` and `end - fscout` rounds
pub scout_down : Buffer → (key rounds rscout : ℕ) → ℕ
scout_down b key zero rscout = rscout
scout_down b key (suc n) rscout =
    let rest = scout_down b key n (rscout - 1) in if ltb key (b rscout).first then rest else rscout

pub scout_up : Buffer → (key rounds fscout : ℕ) → ℕ
scout_up b key zero fscout = fscout
scout_up b key (suc n) fscout =
    let rest = scout_up b key n (fscout + 1) in if ltb (b fscout).first key then rest else fscout

-- the loop that moves the pairs that are no holes down to `output`: the new buffer and output
unfoldable pub compress : ℕ → Buffer → (next end output : ℕ) → Buffer × ℕ
compress zero b next end output = (b, output)
compress (suc f) b next end output =
    let p = skip_up b (end - next) next in
    let b' = if ltb output p then write b output (b p).first (b p).second else b in
    let more = compress f b' (p + 1) end (output + 1) in
    let last = compress f b p end (output + 1) in
    if not (ltb next end) then (b, output) else if ltb p end then more else last

-- the loop that takes the values of the update source: the buffer, the position after them, the least key
unfoldable pub take_updates :
    ℕ → Buffer → UpdateSource → (next late : ℕ) → Option (Buffer × ℕ × ℕ × UpdateSource)
take_updates zero b us next late = none
take_updates (suc f) b us next late =
    let (p, us') = release_min us in
    let rest =
      take_updates f (write b next p.first p.second) us' (next + 1)
        (if ltb p.first late then p.first else late) in
    if has_values us then rest else some (b, next, late, us)

-- `while ( (late_key_min < (output-1)->first) && (output > key_val) ) output--;`
pub back_to : Buffer → (key rounds output : ℕ) → ℕ
back_to b key zero output = output
back_to b key (suc n) output =
    let rest = back_to b key n (output - 1) in
    if ltb key (b (output - 1)).first then rest else output

-- the loop that goes down the ordered pairs while they are above the new ones, filling holes
pub go_down : ℕ → Buffer → (new_min beg end new_vals_end : ℕ) → Buffer × ℕ × ℕ
go_down zero b new_min beg end new_vals_end = (b, end, new_vals_end)
go_down (suc f) b new_min beg end new_vals_end =
    let last = b (new_vals_end - 1) in
    let fill =
      go_down f (write b (end - 1) last.first last.second) new_min beg (end - 1)
        (new_vals_end - 1) in
    let pass = go_down f b new_min beg (end - 1) new_vals_end in
    if not (ltb new_min (b (end - 1)).first && ltb beg end)
    then (b, end, new_vals_end)
    else if (b (end - 1)).first == u32_max
    then fill
    else pass

-- `while ( (new_vals_end-1)->first == UINT32_MAX ) new_vals_end--;`, with no bound of its own
pub drop_holes : ℕ → Buffer → ℕ → Option ℕ
drop_holes zero b new_vals_end = none
drop_holes (suc f) b new_vals_end =
    let rest = drop_holes f b (new_vals_end - 1) in
    if (b (new_vals_end - 1)).first == u32_max then rest else some new_vals_end

module _ (sort : Buffer → (start stop : ℕ) → Buffer) where
  -- the second sort of `sort_small_mostly_increasing`, where the first was not enough
  pub sort_wider : Buffer → (beg end start stop : ℕ) → Buffer
  unfolding scout_down scout_up
  sort_wider b beg end start stop =
      let rscout = scout_down b (b start).first (start - 1 - beg) (start - 1) in
      let fscout = scout_up b (b (stop - 1)).first (end - stop) stop in
      let fscout' = if ltb fscout end then fscout + 1 else fscout in
      if (leb beg start && ltb (b start).first (b (start - 1)).first)
        || (ltb stop end && ltb (b stop).first (b (stop - 1)).first)
      then sort b rscout (fscout' + 1)
      else b

  -- `sort_small_mostly_increasing`
  pub sort_small_mostly_increasing : Buffer → (beg end : ℕ) → Buffer
  unfolding run_up run_down sort_wider
  sort_small_mostly_increasing b beg end =
      let top = run_up b (end - 1 - beg) beg in
      let start = if ltb (top - beg) 3 then beg else top - 3 in
      let low = run_down b (end - 1 - (start + 1)) (end - 1) in
      let stop = if ltb (end - low) 4 then end else low + 4 in
      if ltb top end then sort_wider (sort b start stop) beg end start stop else b

  -- the end of the merge: the late updates
  unfoldable pub merge_late :
      Buffer
      → (output : ℕ) → Option (Buffer × ℕ × ℕ × UpdateSource)
      → Option (ℕ × Buffer × UpdateSource)
  unfolding back_to
  merge_late b output none = none
  merge_late b output (some (b', next, late, us)) =
      if ltb late (b' (output - 1)).first
      then some (next, sort b' (back_to b' late output output) next, us)
      else some (output, b', us)

  -- the merge of the ordered pairs from `beg` to `end`, from the loop that skips holes on
  unfoldable pub merge_old :
      (fuel : ℕ) → Buffer → UpdateSource → (beg end : ℕ) → Option (ℕ × Buffer × UpdateSource)
  unfolding compress take_updates merge_late
  merge_old fuel b us beg end =
      let (b', output) = compress (end - beg) b beg end 0 in
      merge_late b' output (take_updates fuel b' us output u32_max)

  -- after the new pairs below the ordered ones have been sorted
  pub merge_below :
      (fuel : ℕ)
      → Buffer
      → UpdateSource
      → (beg end : ℕ) → Option ℕ
      → Option (ℕ × Buffer × UpdateSource)
  unfolding merge_old
  merge_below fuel b us beg end none = none
  merge_below fuel b us beg end (some new_vals_end) =
      if end == beg then some (new_vals_end - beg, b, us) else merge_old fuel b us beg end

  -- the copy of the new pairs to the start, `memcpy`
  pub copy_down : Buffer → (new_vals m : ℕ) → Buffer
  copy_down b new_vals m p = if ltb p m then b (new_vals + p) else b p

  -- `_merge_sort_with_blackouts_increasing` of a buffer that starts at position 0
  unfoldable pub merge_sort :
      (fuel : ℕ) → Buffer → (n m new_min : ℕ) → UpdateSource → Option (ℕ × Buffer × UpdateSource)
  unfolding skip_up trim_end sort_small_mostly_increasing go_down drop_holes merge_below merge_old
      copy_down
  merge_sort fuel b n m new_min us =
      let beg = skip_up b n 0 in
      let end = trim_end b (n - beg) n in
      let new_end = n + m in
      let (b_down, end_down, new_end_down) = go_down (end - beg) b new_min beg end new_end in
      let b_sorted = sort_small_mostly_increasing b_down end_down new_end_down in
      let below =
        merge_below fuel b_sorted us beg end_down (drop_holes fuel b_sorted new_end_down) in
      if n == 0
      then some (u32_max, b, us)
      else if beg == end
      then some (m, copy_down (sort_small_mostly_increasing b n new_end) n m, us)
      else if ltb new_min (b (end - 1)).first
      then below
      else merge_old fuel (sort_small_mostly_increasing b n new_end) us beg end
