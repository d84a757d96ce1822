-- ===== src/AtomicQueue.antt =====
-- The queue that processes share, `AtomicQueue` of c_experiments/src/atomic_queue.h, above the stack of free elements,
-- as a caller runs it with no other at work: an exchange does not fail where the value is the expected one, and
-- a loop that waits for another process has its fuel only. Offsets of `head`, `tail` and `prev` are those
-- of the queue; the stack's are 20 less, for the five words before its region.
pub mod Idle
pub mod Line
pub mod Popping
pub mod Pushing
pub mod Setup
mod Tests
use shm_lru_aging_and_quotas.Base.Mem.{update}
use shm_lru_aging_and_quotas.Base.Tests.{
  ℕ, zero, suc, ◌+◌, ◌-◌, ◌*◌, ◌%◌, ◌^◌, Bool, true, false, Option, none, some, List, [], ◌∷◌, ltb,
  ◌==◌, if◌then◌else◌,
}
use shm_lru_aging_and_quotas.Base.Words.{u32_max}
use shm_lru_aging_and_quotas.AtomicStack.{FreeStack, pop_number, atomic_stack_push}

-- `NUM_SHARED_ATOMS_Q*sizeof(atomic<uint32_t>)`
abbrev pub frame : ℕ
frame = 20

-- an element, with its two link fields
pub record QueueEl (A : Type 0) : Type 0 where
  pub info : A
  pub next : ℕ
  pub prev : ℕ

-- the words of the region; `popper` is the flag
pub record AtomicQueue (A : Type 0) : Type 0 where
  pub stack : FreeStack
  pub info : ℕ → A
  pub prev : ℕ → ℕ
  pub q_head : ℕ
  pub q_tail : ℕ
  pub push_count : ℕ
  pub pop_count : ℕ
  pub popper : Bool

-- `while ( !(_popper->test_and_set()) )`: the flag afterwards
unfoldable pub spin : ℕ → (flag : Bool) → Option Bool
spin zero flag = none
spin (suc f) flag = let rest = spin f true in if flag then some true else rest

-- a loop that waits until a count is 0
unfoldable pub wait_on_count : ℕ → (cnt : ℕ) → Option ℕ
wait_on_count zero cnt = none
wait_on_count (suc f) cnt = let rest = wait_on_count f cnt in if cnt == 0 then some cnt else rest

-- a `fetch_sub`, taken back where there was nothing to take
abbrev pub decr : ℕ → ℕ
decr check =
    let less = (check + 2 ^ 32 - 1) % 2 ^ 32 in if check == 0 then (less + 1) % 2 ^ 32 else less

-- `reserved_offsets[0]`, which is 0 before the call
abbrev pub first_offset : List ℕ → ℕ
first_offset [] = 0
first_offset (x ∷ xs) = x

module _ {A : Type 0} where
  -- `incr_push_count`, `decr_push_count`, `incr_pop_count`, `decr_pop_count`
  unfoldable pub incr_push_count : ℕ → AtomicQueue A → Option (AtomicQueue A)
  incr_push_count f q = elim (spin f q.popper) [
    | none ↦ none
    | some flag ↦
        if q.push_count == 0
        then if q.pop_count == 0
          then some (record q { push_count = (q.push_count + 1) % 2 ^ 32; popper = false })
          else elim (wait_on_count f q.pop_count) [
            | none ↦ none
            | some cnt ↦ some (record q { push_count = 1; popper = false })
          ]
        else some (record q { push_count = (q.push_count + 1) % 2 ^ 32; popper = false })
  ]

  abbrev pub decr_push_count : AtomicQueue A → AtomicQueue A
  decr_push_count q = record q { push_count = decr q.push_count }

  unfoldable pub incr_pop_count : ℕ → AtomicQueue A → Option (AtomicQueue A)
  incr_pop_count f q = elim (spin f q.popper) [
    | none ↦ none
    | some flag ↦ some (record q { pop_count = (q.pop_count + 1) % 2 ^ 32; popper = false })
  ]

  abbrev pub decr_pop_count : AtomicQueue A → AtomicQueue A
  decr_pop_count q = record q { pop_count = decr q.pop_count }

  -- `*el = input`, and then `_prev` cleared
  abbrev pub copy_in : AtomicQueue A → (el_offset : ℕ) → QueueEl A → AtomicQueue A
  copy_in q el_offset input = record q {
    stack = record q.stack { next = update q.stack.next (el_offset - frame) input.next };
    info = update q.info el_offset input.info;
    prev = update (update q.prev el_offset input.prev) el_offset 0;
  }

  -- the first element of an empty queue
  abbrev pub install_first : AtomicQueue A → (el_offset : ℕ) → QueueEl A → AtomicQueue A
  install_first q el_offset input =
      copy_in (record q { q_head = el_offset; q_tail = el_offset }) el_offset input

  -- an element before the head
  abbrev pub install_before : AtomicQueue A → (el_offset : ℕ) → AtomicQueue A
  install_before q el_offset = record q {
    prev = update q.prev q.q_head el_offset;
    q_head = el_offset;
  }

  -- `push_queue` once the element is written; `none` where it would wait for another head for ever
  abbrev pub install :
      AtomicQueue A → (el_offset : ℕ) → QueueEl A → (rslt : ℕ) → Option (ℕ × AtomicQueue A)
  install q el_offset input rslt =
      if q.q_head == u32_max
      then some (u32_max, decr_push_count q)
      else if q.q_head == 0
      then some (0, decr_push_count (install_first q el_offset input))
      else if q.prev q.q_head == 0
      then some (rslt, decr_push_count (install_before q el_offset))
      else none

  -- the steps of `push_queue` after an element has been taken
  unfoldable pub push_taken :
      ℕ → AtomicQueue A → QueueEl A → (el_offset rslt : ℕ) → Option (ℕ × AtomicQueue A)
  push_taken f q input el_offset rslt = elim (incr_push_count f q) [
    | none ↦ none
    | some t ↦ elim (wait_on_count f t.pop_count) [
      | none ↦ none
      | some cnt ↦
          let el = (el_offset + frame) % 2 ^ 32 in install (copy_in t el input) el input rslt
    ]
  ]

  -- `push_queue`: the result, and the queue
  unfoldable pub push_queue : ℕ → AtomicQueue A → QueueEl A → Option (ℕ × AtomicQueue A)
  push_queue f q input = elim (pop_number f q.stack 1) [
    | none ↦ none
    | some (rslt, offsets, s) ↦
        let el_offset = first_offset offsets in
        let t = record q { stack = s } in
        if el_offset == 0
        then some (u32_max, t)
        else if rslt == u32_max
        then some (u32_max, t)
        else push_taken f t input el_offset rslt
  ]

  -- the tail element freed; the head too, where there is none before it
  abbrev pub freed : (tail prev_offset : ℕ) → AtomicQueue A → FreeStack → AtomicQueue A
  freed tail prev_offset q s =
      decr_pop_count (record q { stack = s; q_head = if prev_offset == 0 then 0 else q.q_head })

  -- `pop_queue`: the element, or `none` for `UINT32_MAX`, and the queue
  unfoldable pub pop_queue : ℕ → AtomicQueue A → Option (Option (QueueEl A) × AtomicQueue A)
  pop_queue f q = elim (incr_pop_count f q) [
    | none ↦ none
    | some t ↦ elim (wait_on_count f t.push_count) [
      | none ↦ none
      | some cnt ↦
          if t.q_tail == 0
          then some (none, decr_pop_count t)
          else let tail = t.q_tail in
            let output : QueueEl A = record {
              info = t.info tail;
              next = t.stack.next (tail - frame);
              prev = t.prev tail;
            } in
            elim (atomic_stack_push f t.stack (tail - frame)) [
              | none ↦ none
              | some s ↦
                  some (some output, freed tail (t.prev tail) (record t { q_tail = t.prev tail }) s)
            ]
    ]
  ]

  -- `empty`
  abbrev pub empty : AtomicQueue A → Bool
  empty q = q.q_tail == 0
