-- ===== src/AtomicQueue/Tests.antt =====
-- Examples for c_experiments/src/atomic_queue.h.
use shm_lru_aging_and_quotas.Base.Tests.{
  ℕ, ◌≡◌, refl, true, false, Option, none, some, [], ◌∷◌, arith,
}
use shm_lru_aging_and_quotas.Base.Words.{u32_max}
use shm_lru_aging_and_quotas.AtomicStack.{
  store_loop, reduce_free_count, increment_free_count, take_first, pop_from, pop_number,
  push_exchange, push_finish, atomic_stack_push,
}
use shm_lru_aging_and_quotas.AtomicQueue.{
  AtomicQueue, QueueEl, spin, wait_on_count, incr_push_count, incr_pop_count, push_taken,
  push_queue, pop_queue,
}
use shm_lru_aging_and_quotas.AtomicQueue.Line.{IsQueue}
use shm_lru_aging_and_quotas.AtomicQueue.Popping.{info_of, pop_queue-IsQueue}
use shm_lru_aging_and_quotas.AtomicQueue.Pushing.{push_queue-IsQueue}

-- one element at 40 of the stack's region holds 5, and one at 64 is free
abbrev one_waiting : AtomicQueue ℕ
one_waiting = record {
  stack = record {
    next = λ a. u32_max;
    head = 64;
    count_free = 1;
    max_free = 2;
    max_free_local = 2;
    backout_overflow = false;
    status = true;
  };
  info = λ a. 5;
  prev = λ a. 0;
  q_head = 60;
  q_tail = 60;
  push_count = 0;
  pop_count = 0;
  popper = false;
}

one_waiting-IsQueue : IsQueue one_waiting (5 ∷ [])
one_waiting-IsQueue = record {
  order = 40 ∷ [];
  free = 64 ∷ [];
  stack = record {
    chain = (refl, omega arith, refl);
    counted = refl;
    bounded = omega arith;
    narrow = omega arith;
  };
  line = (refl, refl);
  front = refl;
  apart = λ a. ground arith;
  fits = λ a h. ground arith;
  room = omega arith;
  held = refl;
  idle = (refl, refl, refl);
}

abbrev seven : QueueEl ℕ
seven = record { info = 7; next = 1; prev = 1 }

abbrev pushed_queue : Option (ℕ × AtomicQueue ℕ) → AtomicQueue ℕ
pushed_queue none = one_waiting
pushed_queue (some (code, q)) = q

abbrev popped_info : Option (Option (QueueEl ℕ) × AtomicQueue ℕ) → ℕ
popped_info (some (some output, q)) = output.info
popped_info (some (none, q)) = 0
popped_info none = 0

abbrev popped_queue : Option (Option (QueueEl ℕ) × AtomicQueue ℕ) → AtomicQueue ℕ
popped_queue none = one_waiting
popped_queue (some (output, q)) = q

abbrev both : AtomicQueue ℕ
unfolding push_queue push_taken incr_push_count spin wait_on_count pop_number pop_from take_first
    reduce_free_count store_loop
both = pushed_queue (push_queue 3 one_waiting seven)

second_run : popped_info (pop_queue 3 (popped_queue (pop_queue 3 both))) ≡ 7
unfolding both pop_queue incr_pop_count spin wait_on_count atomic_stack_push push_finish
    push_exchange increment_free_count
second_run = refl

push_queue-IsQueue_example :
    (r : ℕ × AtomicQueue ℕ) × (push_queue 3 one_waiting seven ≡ some r)
    × (r.0 ≡ 0)
    × IsQueue r.1 (5 ∷ 7 ∷ [])
push_queue-IsQueue_example = push_queue-IsQueue 1 one_waiting (5 ∷ []) one_waiting-IsQueue seven

pop_queue-IsQueue_example :
    (r : Option (QueueEl ℕ) × AtomicQueue ℕ) × (pop_queue 3 one_waiting ≡ some r)
    × (info_of r.0 ≡ some 5)
    × (w : IsQueue r.1 []) × (w.order ≡ [])
    × (w.free ≡ 40 ∷ 64 ∷ [])
unfolding one_waiting-IsQueue
pop_queue-IsQueue_example = pop_queue-IsQueue 1 one_waiting (5 ∷ []) one_waiting-IsQueue
