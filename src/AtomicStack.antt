-- ===== src/AtomicStack.antt =====
-- The stack of free elements that threads and processes share, `AtomicStack` of c_experiments/src/atomic_stack.h.
-- An element is its offset from the start; an exchange compares and writes in one step, and does not fail
-- where the value is the expected one. A loop that ends by an exchange runs on fuel.
pub mod Counting
pub mod FreeList
pub mod Handing
pub mod Pushing
pub mod Setup
pub mod Stash
mod Tests
pub mod Threads
use shm_lru_aging_and_quotas.Base.Mem.{update}
use shm_lru_aging_and_quotas.Base.Tests.{
  ℕ, zero, suc, ◌+◌, ◌-◌, ◌*◌, ◌%◌, ◌^◌, Bool, true, false, ◌&&◌, Option, none, some, List, [], ◌∷◌,
  ltb, leb, ◌==◌, if◌then◌else◌,
}
use shm_lru_aging_and_quotas.Base.Words.{u32_max}

-- `head` is the `_next` of `_ctrl_free`; `next` is the `_next` of the other elements. `_reason`, which only
-- tells a caller why a call failed, is left out.
pub record FreeStack : Type 0 where
  pub next : ℕ → ℕ
  pub head : ℕ
  pub count_free : ℕ
  pub max_free : ℕ
  pub max_free_local : ℕ
  pub backout_overflow : Bool
  pub status : Bool

-- the inner loop of `reduce_free_count`: the count, and `fc`
unfoldable pub store_loop : ℕ → (count fc store_this : ℕ) → Option (ℕ × ℕ)
store_loop zero count fc store_this = none
store_loop (suc f) count fc store_this =
    let rest = store_loop f count count store_this in
    if count == fc
    then some (store_this, fc)
    else if store_this == count
    then some (count, count)
    else rest

-- `reduce_free_count` from a count that may have changed since `fc` was loaded
unfoldable pub reduce_free_count : ℕ → (count fc n : ℕ) → Option ℕ
unfolding store_loop
reduce_free_count zero count fc n = none
reduce_free_count (suc f) count fc n =
    if fc == 0
    then some count
    else let store_this = if ltb fc n then 0 else fc - n in
      elim (store_loop (suc (suc f)) count fc store_this) [
        | none ↦ none
        | some (count', fc') ↦
            let rest = reduce_free_count f count' fc' n in
            if store_this == fc' then some count' else rest
      ]

-- the loop of `increment_free_count`: the count, and the last one seen
unfoldable pub clamp_loop : ℕ → (count seen most : ℕ) → Option (ℕ × ℕ)
clamp_loop zero count seen most = none
clamp_loop (suc f) count seen most =
    let rest = clamp_loop f count count most in
    if count == seen
    then some (most, seen)
    else if ltb most count
    then rest
    else some (count, count)

-- `increment_free_count`
unfoldable pub increment_free_count : ℕ → (count most : ℕ) → Option ℕ
unfolding clamp_loop
increment_free_count f count most =
    let added = (count + 1) % 2 ^ 32 in
    if leb most count
    then elim (clamp_loop f added added most) [
      | none ↦ none
      | some (left, seen) ↦ some (if ltb seen most then (left + 2 ^ 32 - 1) % 2 ^ 32 else left)
    ]
    else some added

-- `full`, `free_mem_empty`
abbrev pub full : FreeStack → Bool
full s = s.max_free_local == s.count_free

abbrev pub free_mem_empty : FreeStack → Bool
free_mem_empty s = s.count_free == 0

-- the inner loop of `pop_number` from the header offset last seen: the element, or `none` for the failure
unfoldable pub take_first : ℕ → (hdr_offset : ℕ) → FreeStack → Option (Option ℕ × FreeStack)
take_first zero hdr_offset s = none
take_first (suc f) hdr_offset s =
    let rest = take_first f s.head s in
    if hdr_offset == u32_max
    then some (none, record s { status = false })
    else if s.head == hdr_offset
    then some (some hdr_offset, record s { head = s.next hdr_offset })
    else rest

abbrev pub reserve : ℕ → Option (ℕ × List ℕ × FreeStack) → Option (ℕ × List ℕ × FreeStack)
reserve first none = none
reserve first (some (code, offsets, s)) =
    some (code, (if ltb first u32_max then first ∷ offsets else offsets), s)

-- the loop of `pop_number`: the code, the reserved offsets and the stack
unfoldable pub pop_from : ℕ → (n hdr_offset : ℕ) → FreeStack → Option (ℕ × List ℕ × FreeStack)
unfolding take_first
pop_from f zero hdr_offset s = some (0, [], s)
pop_from f (suc n) hdr_offset s = elim (take_first f hdr_offset s) [
  | none ↦ none
  | some (none, t) ↦ some (u32_max, [], t)
  | some (some first, t) ↦ reserve first (pop_from f n first t)
]

-- `pop_number`, with no change between its loads and its exchanges
unfoldable pub pop_number : ℕ → FreeStack → (n : ℕ) → Option (ℕ × List ℕ × FreeStack)
unfolding reduce_free_count pop_from
pop_number f s n =
    if s.head == u32_max
    then some (u32_max, [], record s { status = false })
    else if ltb s.count_free n && s.backout_overflow
    then some (u32_max, [], record s { status = false })
    else elim (reduce_free_count f s.count_free s.count_free n) [
      | none ↦ none
      | some count ↦ pop_from f n s.head (record s { count_free = count })
    ]

-- the first half of a push: the head is loaded, and written to the element
abbrev pub push_link : FreeStack → (el_offset : ℕ) → FreeStack
push_link s el_offset = record s { next = update s.next el_offset s.head }

-- the loop of a push
unfoldable pub push_exchange : ℕ → FreeStack → (hdr_offset el_offset : ℕ) → Option FreeStack
push_exchange zero s hdr_offset el_offset = none
push_exchange (suc f) s hdr_offset el_offset =
    let rest = push_exchange f s s.head el_offset in
    if s.head == hdr_offset then some (record s { head = el_offset }) else rest

-- the second half of a push: the exchange of the head, and the count
unfoldable pub push_finish : ℕ → FreeStack → (hdr_offset el_offset : ℕ) → Option FreeStack
unfolding push_exchange increment_free_count
push_finish f s hdr_offset el_offset = elim (push_exchange f s hdr_offset el_offset) [
  | none ↦ none
  | some t ↦ elim (increment_free_count f t.count_free t.max_free_local) [
    | none ↦ none
    | some count ↦ some (record t { count_free = count })
  ]
]

-- `_atomic_stack_push`
unfoldable pub atomic_stack_push : ℕ → FreeStack → (el_offset : ℕ) → Option FreeStack
unfolding push_finish
atomic_stack_push f s el_offset =
    if full s then some s else push_finish f (push_link s el_offset) s.head el_offset
