-- ===== src/SharedQueue/Tests.antt =====
-- Examples for c_experiments/src/entry_holder.h.
use shm_lru_aging_and_quotas.Base.Tests.{
  ℕ, ◌≡◌, ◌⊎◌, ◌≤◌, ◌<◌, ◌+◌, ◌*◌, refl, true, false, none, some, arith, if◌then◌else◌, ◌==◌,
}
use shm_lru_aging_and_quotas.Base.Mem.{update}
use shm_lru_aging_and_quotas.SharedQueue.{SharedQueue, reset, push, pop, search, search_from}
use shm_lru_aging_and_quotas.SharedQueue.Calls.{calls_lem}
use shm_lru_aging_and_quotas.SharedQueue.Fifo.{fifo}
use shm_lru_aging_and_quotas.SharedQueue.Threads.{
  Pusher, took, Threads, Turns, begin, turn, fresh, finds_room, places, pushes, finds_entry, takes,
}

abbrev tens : ℕ → ℕ
tens k = 10 * k + 10

abbrev two_in : SharedQueue ℕ
unfolding push
two_in = (push 3 (push 3 (reset 0) 10).1 20).1

third_refused : (push 3 two_in 30).0 ≡ false
unfolding push two_in
third_refused = refl

-- round the end of the entries
around_run : (pop 3 (push 3 (pop 3 two_in).1 30).1).0 ≡ some 20
unfolding push pop two_in
around_run = refl

searching_run : search 5 3 (λ x. if x == 20 then some 7 else none) two_in ≡ some (some 7)
unfolding search search_from push two_in
searching_run = refl

-- one item pushed, and read but not yet popped
abbrev one_read : Threads ℕ
one_read = record {
  queue = record { entries = update (λ _. 0) 0 10; r = 0; r_cached = 0; w = 1; w_cached = 1 };
  pusher = Pusher.resting;
  popper = took 0 10;
  pushed = 1;
  popped = 0;
}

one_read-Turns : Turns 3 tens (fresh 0) one_read
one_read-Turns =
    turn
      (turn (turn (turn (turn begin (finds_room 0 1 refl refl)) (places 0 1 refl)) (pushes 1 refl))
        (finds_entry 0 refl refl))
      (takes 0 refl)

fifo_example :
    (one_read.popped ≤ one_read.pushed)
    × (one_read.pushed < one_read.popped + 3)
    × ((rr : ℕ) (x : ℕ) → one_read.popper ≡ took rr x → x ≡ tens one_read.popped)
fifo_example = fifo 3 tens 0 (omega arith) one_read one_read-Turns

calls_lem_example :
    (((push 3 one_read.queue 5).0 ≡ false) × (one_read.pushed + 1 ≡ one_read.popped + 3)
      ⊎ ((push 3 one_read.queue 5).0 ≡ true) × (one_read.pushed + 1 < one_read.popped + 3))
    × (((pop 3 one_read.queue).0 ≡ none) × (one_read.pushed ≡ one_read.popped)
        ⊎ ((pop 3 one_read.queue).0 ≡ some (tens one_read.popped))
          × (one_read.popped < one_read.pushed))
calls_lem_example = calls_lem 3 tens 0 (omega arith) one_read one_read-Turns 5
