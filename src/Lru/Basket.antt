-- ===== src/Lru/Basket.antt =====
-- The operations of src/node_shm_LRU.h on whole baskets of elements: the stack of free memory, the flag
-- of the tail, and adding a basket to the list of use. The head of the free list counts the free elements
-- in `prev` and the requested ones in the low half of `hash`. A call that waits for ever is `none`.
use shm_lru_aging_and_quotas.Base.Mem.{update}
use shm_lru_aging_and_quotas.Base.Tests.{
  ℕ, zero, suc, ◌+◌, ◌*◌, ◌/◌, ◌%◌, ◌^◌, Bool, false, not, Option, none, some, List, [], ◌∷◌, ltb,
  leb, ◌==◌, if◌then◌else◌,
}
use shm_lru_aging_and_quotas.Base.Words.{u32_max, add32, sub32, low_half}
use shm_lru_aging_and_quotas.Lru.{Region, Cache, out_of_free, set_next, set_prev, set_hash, relink}

-- a store to the `atomic<uint32_t>` that the first half of `_hash` is cast to
abbrev pub set_requested : Region → (ctrl_free v : ℕ) → Region
set_requested m ctrl_free v = set_hash m ctrl_free ((m ctrl_free).hash / 2 ^ 32 * 2 ^ 32 + v)

-- `free_mem_requested`
abbrev pub free_mem_requested : Region → (ctrl_free : ℕ) → ℕ
free_mem_requested m ctrl_free = low_half (m ctrl_free).hash

-- `free_mem_claim_satisfied`
pub free_mem_claim_satisfied : Region → (ctrl_free msg_count : ℕ) → Region
free_mem_claim_satisfied m ctrl_free msg_count =
    let requested = free_mem_requested m ctrl_free in
    set_requested m ctrl_free (if leb requested msg_count then 0 else sub32 requested msg_count)

-- `_atomic_stack_push`, which `return_to_free_mem` calls, when no other process interferes: the element
-- becomes the head and the count goes up
pub atomic_stack_push : Region → (ctrl_free el_offset : ℕ) → Region
atomic_stack_push m ctrl_free el_offset =
    let pushed = set_next m ctrl_free el_offset in
    set_prev pushed ctrl_free (add32 (pushed ctrl_free).prev 1)

-- How `claim_free_mem` ends: out of memory, or with the offsets by their index.
pub data Claim : Type 0 where
  exhausted : Region → Claim
  claimed : Region → (ℕ → ℕ) → Claim

-- the loop of `claim_free_mem`, with `n` elements to go and the head as it is
pub claim_from : ℕ → Region → (ctrl_free : ℕ) → (ℕ → ℕ) → Claim
claim_from zero m ctrl_free reserved = claimed m reserved
claim_from (suc n) m ctrl_free reserved =
    let first = (m ctrl_free).prev in
    let next = (m first).next in
    let rest =
      claim_from n (set_prev m ctrl_free next) ctrl_free
        (if ltb next u32_max then update reserved n first else reserved) in
    if first == u32_max then exhausted m else rest

pub settle_claim : (ctrl_free msg_count : ℕ) → Claim → Claim
unfolding free_mem_claim_satisfied
settle_claim ctrl_free msg_count (exhausted m) = exhausted m
settle_claim ctrl_free msg_count (claimed m reserved) =
    claimed
      (free_mem_claim_satisfied (set_prev m ctrl_free (sub32 (m ctrl_free).prev msg_count))
        ctrl_free msg_count)
      reserved

module _ {T : Type 0} where
  abbrev pub claim_result : Cache T → Claim → Option (ℕ → ℕ) × Cache T
  claim_result c (exhausted m) =
      (none, record c { region = m; status = false; reason = out_of_free })
  claim_result c (claimed m reserved) = (some reserved, record c { region = m })

  -- `claim_free_mem`: `none` for the return of `UINT32_MAX`
  unfoldable pub claim_free_mem :
      Cache T → (ready_msg_count : ℕ) (reserved_offsets : ℕ → ℕ) → Option (ℕ → ℕ) × Cache T
  unfolding claim_from settle_claim
  claim_free_mem c ready_msg_count reserved_offsets =
      let ctrl_free = 2 * c.step in
      claim_result c (
        if (c.region ctrl_free).prev == u32_max
        then exhausted c.region
        else settle_claim ctrl_free ready_msg_count
            (claim_from ready_msg_count c.region ctrl_free reserved_offsets))

  -- `check_free_mem`
  unfoldable pub check_free_mem : Cache T → (msg_count : ℕ) (add : Bool) → Bool × Cache T
  check_free_mem c msg_count add =
      let ctrl_free = 2 * c.step in
      let requested = free_mem_requested c.region ctrl_free in
      let count_free = (c.region ctrl_free).prev % 2 ^ 16 in
      let total = if add then add32 requested msg_count else requested in
      (
        not (ltb count_free total),
        record c {
          count_free = count_free;
          region = if add then set_requested c.region ctrl_free total else c.region;
        },
      )

-- the first of a list, or what comes after it
abbrev pub head_or : ℕ → List ℕ → ℕ
head_or next [] = next
head_or next (x ∷ xs) = x

-- the last of a list, or what comes before it
abbrev pub last_or : ℕ → List ℕ → ℕ
last_or prev [] = prev
last_or prev (x ∷ xs) = last_or x xs

-- the loop of `attach_to_lru_list`
unfoldable pub thread : Region → (prev : ℕ) → List ℕ → (next : ℕ) → Region
thread m prev [] next = m
thread m prev (x ∷ xs) next = thread (set_next (set_prev m x prev) x (head_or next xs)) x xs next

-- the writes of `attach_to_lru_list` to the list
unfoldable pub attach : Region → List ℕ → Region
unfolding thread
attach m offsets =
    let next = (m 0).next in
    let headed = set_next m 0 (head_or 0 offsets) in
    thread (set_prev headed next (last_or 0 offsets)) 0 offsets next

-- `wait_on_tail` and `done_with_tail` for an insertion, by the value of the flag
abbrev pub enter_shared : ℕ → Option ℕ
enter_shared flag = if flag == u32_max then none else some (add32 flag 1)

-- `fetch_sub(ctrl_tail->_share_key,1)` subtracts the flag, with a memory order for its second argument
abbrev pub leave_shared : ℕ → ℕ
leave_shared flag = if flag == 0 then flag else sub32 flag flag

-- the same for a removal
abbrev pub enter_alone : ℕ → Option ℕ
enter_alone flag = if flag == 0 then some u32_max else none

abbrev pub leave_alone : ℕ → ℕ
leave_alone flag = 0

abbrev pub set_share : Region → (offset v : ℕ) → Region
set_share m offset v = update m offset (record (m offset) { share_key = v })

abbrev pub attach_locked : Region → (step : ℕ) → List ℕ → Option ℕ → Option Region
attach_locked m step offsets none = none
attach_locked m step offsets (some flag) =
    let done = attach (set_share m step flag) offsets in
    some (set_share done step (leave_shared (done step).share_key))

-- `attach_to_lru_list`
unfoldable pub attach_to_lru_list : Region → (step : ℕ) → List ℕ → Option Region
attach_to_lru_list m step offsets = attach_locked m step offsets (enter_shared (m step).share_key)

abbrev pub remove_locked : Region → (step : ℕ) → Option ℕ → Option (ℕ × ℕ × Region)
remove_locked m step none = none
remove_locked m step (some flag) =
    let locked = set_share m step flag in
    let last = (locked step).prev in
    let hash = (locked last).hash in
    let done = relink locked (locked last).prev step in
    some (last, low_half hash, set_share done step (leave_alone (done step).share_key))

-- `lru_remove_last`: the offset, the hash cut to 32 bits, and the region
unfoldable pub lru_remove_last : Region → (step : ℕ) → Option (ℕ × ℕ × Region)
lru_remove_last m step = remove_locked m step (enter_alone (m step).share_key)
