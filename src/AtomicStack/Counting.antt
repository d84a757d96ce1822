-- ===== src/AtomicStack/Counting.antt =====
-- The count of free elements of c_experiments/src/atomic_stack.h, alone and with another thread at work.
use shm_lru_aging_and_quotas.Base.Tests.{
  ℕ, zero, suc, ◌+◌, ◌-◌, ◌*◌, ◌<◌, ◌≤◌, ◌≡◌, refl, ap₂, ◌∙◌, arith, some, inl, inr, ◌==◌,
  Bool-cases,
}
use shm_lru_aging_and_quotas.AtomicStack.{store_loop, reduce_free_count}

-- one round, where the count is the one that was loaded
pub settled : (f count n : ℕ) → reduce_free_count (suc (suc f)) count count n ≡ some (count - n)
unfolding reduce_free_count store_loop
settled f count n = elim (Bool-cases (count == 0)) [
  | inl e ↦ rw e (ground arith)
  | inr e ↦ rw e (ground arith)
]

-- The other thread took as many: its count is kept, and nothing is taken from it.
not_counted : (f count n : ℕ) → 0 < n → reduce_free_count (suc f) count (count + n) n ≡ some count
unfolding reduce_free_count store_loop
not_counted f count n some_taken = ground arith

first_round :
    (f count : ℕ)
    → reduce_free_count (suc f) (count + 2) (count + 1) 1 ≡ reduce_free_count f count (count + 2) 1
unfolding reduce_free_count store_loop
first_round f count = ground arith

second_round :
    (f count : ℕ)
    → reduce_free_count (suc f) count (count + 2) 1 ≡ reduce_free_count f (count + 1) count 1
unfolding reduce_free_count store_loop
second_round f count = ground arith

last_left : (f : ℕ) → reduce_free_count (suc f) (0 + 1) 0 1 ≡ some 1
unfolding reduce_free_count
last_left f = refl

-- The other thread gave one back: the rounds take one after the other away, down to the last.
runs_down : (count f : ℕ) → 2 * count < f → reduce_free_count f (count + 1) count 1 ≡ some 1
runs_down count zero fuel = absurd (omega arith)
runs_down zero (suc f) fuel = last_left f
runs_down (suc count) (suc zero) fuel = absurd (omega arith)
runs_down (suc count) (suc (suc f)) fuel =
    let more : suc count + 1 ≡ count + 2 = omega arith in
    let loaded : suc count ≡ count + 1 = omega arith in
    ap₂ (λ (a b : ℕ). reduce_free_count (suc (suc f)) a b 1) more loaded
    ∙ first_round (suc f) count
    ∙ second_round f count
    ∙ runs_down count f (omega arith)

-- `reduce_free_count` by `n` with enough rounds: where nothing else happens between the load of the count and
-- the first exchange, what is left is the count less `n`, or 0. Where another thread has taken `n` of them in
-- between, only that is counted. And where another thread has given one back in between and one is to be
-- taken, what is left is 1, however many are free.
pub reduce_free_count-Interleaved :
    (count f n : ℕ)
    → 2 * count + 2 ≤ f
    → 0 < n
    → (reduce_free_count f count count n ≡ some (count - n))
      × (reduce_free_count f count (count + n) n ≡ some count)
      × (reduce_free_count f (count + 1) count 1 ≡ some 1)
reduce_free_count-Interleaved count zero n fuel taken = absurd (omega arith)
reduce_free_count-Interleaved count (suc zero) n fuel taken = absurd (omega arith)
reduce_free_count-Interleaved count (suc (suc f)) n fuel taken = (
  settled f count n,
  not_counted (suc f) count n taken,
  runs_down count (suc (suc f)) (omega arith),
)
