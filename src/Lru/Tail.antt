-- ===== src/Lru/Tail.antt =====
-- The flag of the tail in src/node_shm_LRU.h (`wait_on_tail`, `done_with_tail`), between processes that
-- insert and processes that remove, and the claims of free memory.
use mathlib.Core.Path.{subst}
use shm_lru_aging_and_quotas.Base.Tests.{
  ℕ, zero, suc, ◌+◌, ◌-◌, ◌*◌, ◌≤◌, ◌<◌, ◌≡◌, refl, false, none, some, arith,
}
use shm_lru_aging_and_quotas.Base.Words.{u32_max}
use shm_lru_aging_and_quotas.Lru.{Region, Cache, out_of_free}
use shm_lru_aging_and_quotas.Lru.Basket.{
  enter_shared, leave_shared, enter_alone, leave_alone, claim_free_mem,
}
use shm_lru_aging_and_quotas.Lru.Setup.{setup_region_free_list, setup_region_free_list-ends}

-- the flag, and how many are between `wait_on_tail` and `done_with_tail`
pub record Tail : Type 0 where
  pub flag : ℕ
  pub inserters : ℕ
  pub removers : ℕ

abbrev pub free_tail : Tail
free_tail = record { flag = 0; inserters = 0; removers = 0 }

pub data TailStep (s : Tail) : Tail → Type 0 where
  inserter_enters :
      (f : ℕ)
      → enter_shared s.flag ≡ some f
      → TailStep s (record { flag = f; inserters = s.inserters + 1; removers = s.removers })
  inserter_leaves :
      0 < s.inserters
      → TailStep s (record {
        flag = leave_shared s.flag;
        inserters = s.inserters - 1;
        removers = s.removers;
      })
  remover_enters :
      (f : ℕ)
      → enter_alone s.flag ≡ some f
      → TailStep s (record { flag = f; inserters = s.inserters; removers = s.removers + 1 })
  remover_leaves :
      0 < s.removers
      → TailStep s
          (record { flag = leave_alone s.flag; inserters = s.inserters; removers = s.removers - 1 })

pub data TailReach (s : Tail) : Tail → Type 0 where
  start : TailReach s s
  after : {t u : Tail} → TailReach s t → TailStep t u → TailReach s u

inserters_enter :
    (n : ℕ) → n < u32_max → TailReach free_tail (record { flag = n; inserters = n; removers = 0 })
inserters_enter zero lt = start
inserters_enter (suc n) lt =
    let e : enter_shared n ≡ some (suc n) = ground arith in
    subst (λ k. TailReach free_tail (record { flag = suc n; inserters = k; removers = 0 }))
      (omega arith) (after (inserters_enter n (omega arith)) (inserter_enters (suc n) e))

-- The flag does not keep removals from insertions: for every number of insertions below 2 ^ 32 - 2 there
-- is a sequence of calls, from a free tail, after which that many insertions and a removal are under way.
pub tail_not_exclusive :
    (n : ℕ)
    → n + 1 < u32_max
    → TailReach free_tail (record { flag = u32_max; inserters = n; removers = 1 })
tail_not_exclusive n lt =
    let left = after (inserters_enter (n + 1) lt) (inserter_leaves (omega arith)) in
    let e : enter_alone (leave_shared (n + 1)) ≡ some u32_max = ground arith in
    subst (λ k. TailReach free_tail (record { flag = u32_max; inserters = k; removers = 1 }))
      (omega arith) (after left (remover_enters u32_max e))

-- After the set-up of a region with room for an element, that 32 bit offsets can address, every claim of
-- free memory fails, although the free list is not empty, and leaves the region as it is.
pub claim_free_mem-setup_region_free_list :
    {T : Type 0} (c : Cache T) (m : Region) (count : ℕ) (reserved : ℕ → ℕ)
    → 0 < c.step
    → 3 * c.step < c.region_size
    → c.region_size ≤ u32_max
    → let fresh = (setup_region_free_list m c.step c.region_size).1 in
      (claim_free_mem (record c { region = fresh }) count reserved
        ≡ (none, record c { region = fresh; status = false; reason = out_of_free }))
unfolding claim_free_mem
claim_free_mem-setup_region_free_list c m count reserved pos room small =
    rw ((setup_region_free_list-ends m c.step c.region_size pos room small).2) refl
