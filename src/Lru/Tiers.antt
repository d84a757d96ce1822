-- ===== src/Lru/Tiers.antt =====
-- The times of the tiers in `TierAndProcManager` of src/node_shm_LRU.h: access_tier, from_time and
-- raise_lru_lb_time_bounds. A tier is its index, and the table of times a function from indices.
-- The search in raise_lru_lb_time_bounds, which names a variable that is not declared, is for its parameter.
use shm_lru_aging_and_quotas.Base.Mem.{update}
use shm_lru_aging_and_quotas.Base.Tests.{ℕ, ◌==◌, ltb, if◌then◌else◌, Option, none, some}
use shm_lru_aging_and_quotas.Base.Words.{u32_max}
use shm_lru_aging_and_quotas.Holey.{TierTime, time_interval_b_search}

-- `access_tier`
unfoldable pub access_tier : (max_tiers tier : ℕ) → Option ℕ
access_tier max_tiers tier = if ltb tier max_tiers then some tier else none

-- `from_time`; the outer `none` is a search that does not end
unfoldable pub from_time : (t_times : ℕ → TierTime) (n timestamp : ℕ) → Option (Option ℕ)
from_time t_times n timestamp = elim (time_interval_b_search timestamp t_times n) [
  | none ↦ none
  | some index ↦ some (if ltb index n then some index else none)
]

-- the branch for the first tier: what it returns, and the times
unfoldable pub raise_first : (t_times : ℕ → TierTime) (lb_timestamp : ℕ) → Option ℕ × (ℕ → TierTime)
raise_first t_times lb_timestamp =
    let lbt = (t_times 0).lb_time in
    if ltb lbt lb_timestamp
    then (some lbt, update t_times 0 (record { lb_time = lb_timestamp; ub_time = u32_max }))
    else (some 0, update t_times 0 (record { lb_time = lbt; ub_time = u32_max }))

-- the branch for another tier, whose upper bound is set to `lb_timestamp` and not to `ubt`
unfoldable pub raise_other :
    (t_times : ℕ → TierTime) (index lb_timestamp : ℕ) → Option ℕ × (ℕ → TierTime)
raise_other t_times index lb_timestamp =
    let lbt = (t_times index).lb_time in
    if ltb lbt lb_timestamp
    then (
      some lbt,
      update t_times index (record { lb_time = lb_timestamp; ub_time = lb_timestamp }),
    )
    else (some 0, t_times)

-- `raise_lru_lb_time_bounds`; behind the last tier it returns nothing
unfoldable pub raise_lru_lb_time_bounds :
    (t_times : ℕ → TierTime) (n lb_timestamp : ℕ) → Option (Option ℕ × (ℕ → TierTime))
raise_lru_lb_time_bounds t_times n lb_timestamp =
    elim (time_interval_b_search lb_timestamp t_times n) [
      | none ↦ none
      | some index ↦ some (
          if index == 0
          then raise_first t_times lb_timestamp
          else if ltb index n
          then raise_other t_times index lb_timestamp
          else (none, t_times))
    ]
