-- ===== src/Holey/Tests.antt =====
-- Runs of the searches and of `KeyValueManager` of src/holey_buffer.h, and examples.
use shm_lru_aging_and_quotas.Base.Mem.{update}
use shm_lru_aging_and_quotas.Base.Tests.{
  ◌+◌, ℕ, ◌+◌, ◌*◌, ◌≡◌, refl, true, false, none, some, arith, ltb, if◌then◌else◌,
}
use shm_lru_aging_and_quotas.Base.Words.{u32_max}
use shm_lru_aging_and_quotas.Holey.{
  Buffer, TierTime, scan, halving, b_search, u32b_search, skip_up, skip_down, trim_end,
  blackout_round, blackout_loop, bin_search_with_blackouts_increasing, time_interval_b_search,
}
use shm_lru_aging_and_quotas.Holey.Entries.{entry_key_upate, entry_remove, entry_add, search_old}
use shm_lru_aging_and_quotas.Holey.Manager.{Manager, pair, new_manager, add_entry}
use shm_lru_aging_and_quotas.Holey.Updating.{KeyUpdated, entry_key_upate-KeyUpdated}

program : Unit {0}
unfolding scan halving b_search u32b_search skip_up skip_down trim_end blackout_round blackout_loop
    bin_search_with_blackouts_increasing time_interval_b_search entry_key_upate entry_remove
    entry_add add_entry
program = tt

-- keys 10, 20, 30, …
abbrev tens : Buffer
tens p = pair (10 * (p + 1)) p

b_search_run : b_search 40 tens 0 7 ≡ some (some 3)
unfolding program
b_search_run = refl

b_search_miss_run : b_search 45 tens 0 7 ≡ some none
unfolding program
b_search_miss_run = refl

-- the same with a hole at 1
abbrev holed : Buffer
holed = update tens 1 (pair u32_max u32_max)

blackouts_run : bin_search_with_blackouts_increasing 30 holed 0 5 ≡ some (some 2)
unfolding program
blackouts_run = refl

-- sixteen pairs that increase but for four holes, with keys of 0 behind them
abbrev holed_sixteen : Buffer
holed_sixteen p =
    if ltb p 8
    then tens p
    else if ltb p 12
    then pair u32_max 0
    else if ltb p 16
    then tens p
    else pair 0 0

-- The key of the fifteenth pair is not found: the search has looked behind the sixteen pairs.
blackouts_behind_run : bin_search_with_blackouts_increasing 150 holed_sixteen 0 16 ≡ some none
unfolding program
blackouts_behind_run = refl

abbrev hours : ℕ → TierTime
hours i = record { lb_time = 60 * i; ub_time = 60 * i + 60 }

abbrev nothing : Buffer
nothing p = pair 0 0

abbrev fresh : Manager
fresh = new_manager nothing 10 nothing 2

-- two ordered pairs and a new one
abbrev three : Manager
three = record fresh { key_val = tens; n = 2; m = 1; nouveau_min = 30; nouveau_max = 30 }

entry_key_upate-KeyUpdated_example :
    KeyUpdated 20 90 u32_max tens 0 4 2 (entry_key_upate 20 90 tens 0 4 2 u32_max false)
entry_key_upate-KeyUpdated_example =
    entry_key_upate-KeyUpdated 20 90 u32_max tens 0 4 2 (omega arith) (omega arith) (omega arith)
      (omega arith) (λ p q l le h. omega arith)

-- the library's `sort`, on a buffer in order
abbrev in_order : Buffer → (start stop : ℕ) → Buffer
in_order b start stop = b

no_ordered : search_old false 50 tens 0 2 ≡ some none
unfolding program
no_ordered = refl

four :
    add_entry three 35 7
    ≡ (true, record three { key_val = (add_entry three 35 7).1.key_val; m = 2; nouveau_max = 35 })
unfolding program
four = refl

-- intervals of ten, of which the third has 25
abbrev pub decades : ℕ → TierTime
decades i = record { lb_time = 10 * i; ub_time = 10 * i + 10 }

pub decades_run : time_interval_b_search 25 decades 5 ≡ some 2
unfolding program
decades_run = refl
