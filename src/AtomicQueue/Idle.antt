-- ===== src/AtomicQueue/Idle.antt =====
-- How a call of the queue of c_experiments/src/atomic_queue.h, with no other at work, counts, waits and takes an element.
use mathlib.Core.Path.{fun_ext}
use shm_lru_aging_and_quotas.Base.Mem.{update}
use shm_lru_aging_and_quotas.Base.Tests.{
  ℕ, suc, ◌+◌, ◌-◌, ◌%◌, ◌^◌, ◌<◌, ◌≡◌, refl, arith, false, some, ◌==◌,
}
use shm_lru_aging_and_quotas.Base.Words.{u32_max}
use shm_lru_aging_and_quotas.AtomicQueue.{
  AtomicQueue, QueueEl, spin, wait_on_count, incr_push_count, incr_pop_count, copy_in, install,
  push_taken, push_queue, frame,
}
use shm_lru_aging_and_quotas.AtomicStack.Pushing.{pop_one}

pub update_twice :
    {B : Type 0} (m : ℕ → B) (p : ℕ) (v : B) → update (update m p v) p v ≡ update m p v
update_twice m p v = fun_ext (λ a. ground arith)

pub wait-idle : (f n : ℕ) → n ≡ 0 → wait_on_count (suc f) n ≡ some n
unfolding wait_on_count
wait-idle f n e = ground arith

module _ (f : ℕ) {A : Type 0} where
  pub incr_push_count-idle :
      (q : AtomicQueue A)
      → q.push_count ≡ 0
      → q.pop_count ≡ 0
      → q.popper ≡ false
      → incr_push_count (suc (suc f)) q ≡ some (record q { push_count = 1; popper = false })
  unfolding incr_push_count spin
  incr_push_count-idle q pushes pops clear = ground arith

  pub incr_pop_count-idle :
      (q : AtomicQueue A)
      → q.pop_count ≡ 0
      → q.popper ≡ false
      → incr_pop_count (suc (suc f)) q ≡ some (record q { pop_count = 1; popper = false })
  unfolding incr_pop_count spin
  incr_pop_count-idle q pops clear = ground arith

  push_taken-idle :
      (q : AtomicQueue A) (input : QueueEl A) (o : ℕ)
      → q.push_count ≡ 0
      → q.pop_count ≡ 0
      → q.popper ≡ false
      → o + frame < u32_max
      → push_taken (suc (suc f)) q input o 0
        ≡ install
            (copy_in (record q { push_count = 1; popper = false }) (o + frame) input)
            (o + frame)
            input
            0
  unfolding push_taken
  push_taken-idle q input o pushes pops clear fits =
      let narrow : (o + frame) % 2 ^ 32 ≡ o + frame = omega arith in
      rw
        (
          push_taken,
          incr_push_count-idle q pushes pops clear,
          wait-idle (suc f) q.pop_count pops,
          narrow,
        )
        refl

  pub push_queue-taken :
      (q : AtomicQueue A) (input : QueueEl A)
      → q.push_count ≡ 0
      → q.pop_count ≡ 0
      → q.popper ≡ false
      → 0 < q.stack.head
      → q.stack.head + frame < u32_max
      → 0 < q.stack.count_free
      → push_queue (suc (suc f)) q input
        ≡ install
            (copy_in
              (record q {
                stack = record q.stack {
                  head = q.stack.next q.stack.head;
                  count_free = q.stack.count_free - 1;
                };
                push_count = 1;
                popper = false;
              })
              (q.stack.head + frame)
              input)
            (q.stack.head + frame)
            input
            0
  unfolding push_queue
  push_queue-taken q input pushes pops clear some_place fits counted =
      let inside : (q.stack.head == 0) ≡ false = ground arith in
      rw (push_queue, pop_one f q.stack (omega arith) counted, inside)
        (push_taken-idle
          (record q {
            stack = record q.stack {
              head = q.stack.next q.stack.head;
              count_free = q.stack.count_free - 1;
            };
          })
          input q.stack.head pushes pops clear fits)
