-- ===== src/AtomicStack/Tests.antt =====
-- Examples for c_experiments/src/atomic_stack.h, and for the stash of c_experiments/src/hmap_interface.h.
use shm_lru_aging_and_quotas.Base.Mem.{update}
use shm_lru_aging_and_quotas.Base.Tests.{
  ℕ, ◌≡◌, refl, true, false, Option, none, some, List, [], ◌∷◌, arith,
}
use shm_lru_aging_and_quotas.Base.Words.{u32_max}
use shm_lru_aging_and_quotas.AtomicStack.{
  FreeStack, store_loop, reduce_free_count, clamp_loop, increment_free_count, take_first, pop_from,
  pop_number, push_exchange, push_finish, atomic_stack_push,
}
use shm_lru_aging_and_quotas.AtomicStack.FreeList.{
  Chain, IsStack, popped, Refined, pop_number-Refined,
}
use shm_lru_aging_and_quotas.AtomicStack.Handing.{pops-Chain, pops-Twice}
use shm_lru_aging_and_quotas.AtomicStack.Threads.{
  Local, looking, looked, Sharing, Accesses, begin, access, loads, reads, takes, at_rest,
}
use shm_lru_aging_and_quotas.AtomicStack.Pushing.{push-IsStack}
use shm_lru_aging_and_quotas.AtomicStack.Setup.{setup_loop, setup_from, setup_region_free_list}
use shm_lru_aging_and_quotas.AtomicStack.Stash.{setup_free_stash}

-- a process's stack before the set-up, and one with two of three elements free
abbrev raw : FreeStack
raw = record {
  next = λ a. 0;
  head = 0;
  count_free = 0;
  max_free = 0;
  max_free_local = 0;
  backout_overflow = false;
  status = true;
}

abbrev two_free : FreeStack
two_free = record {
  next = update (λ a. u32_max) 40 64;
  head = 40;
  count_free = 2;
  max_free = 3;
  max_free_local = 3;
  backout_overflow = false;
  status = true;
}

two_free-IsStack : IsStack two_free (40 ∷ 64 ∷ [])
two_free-IsStack = record {
  chain = (refl, omega arith, (refl, omega arith, refl));
  counted = refl;
  bounded = omega arith;
  narrow = omega arith;
}

-- the result, the head and what follows it
abbrev first_two : Option (ℕ × FreeStack) → List ℕ
first_two none = []
first_two (some (n, s)) = n ∷ s.head ∷ s.next s.head ∷ []

abbrev offsets_of : Option (ℕ × List ℕ × FreeStack) → List ℕ
offsets_of none = []
offsets_of (some (code, offsets, s)) = code ∷ offsets

abbrev counted : Option FreeStack → List ℕ
counted none = []
counted (some s) = s.count_free ∷ s.head ∷ s.next s.head ∷ []

-- two elements of 24 bytes in 88: at 40 and at 64
setup_run : first_two (setup_region_free_list 9 raw 24 88) ≡ 2 ∷ 40 ∷ 64 ∷ []
unfolding setup_region_free_list setup_from setup_loop
setup_run = refl

pop_run : offsets_of (pop_number 3 two_free 2) ≡ 0 ∷ 40 ∷ 64 ∷ []
unfolding pop_number pop_from take_first reduce_free_count store_loop
pop_run = refl

short_run : offsets_of (pop_number 3 two_free 3) ≡ u32_max ∷ 40 ∷ 64 ∷ []
unfolding pop_number pop_from take_first reduce_free_count store_loop
short_run = refl

push_run : counted (atomic_stack_push 3 two_free 88) ≡ 3 ∷ 88 ∷ 40 ∷ []
unfolding atomic_stack_push push_finish push_exchange increment_free_count clamp_loop
push_run = refl

counting_run : reduce_free_count 20 8 10 1 ≡ some 1
unfolding reduce_free_count store_loop
counting_run = refl

attach_run : first_two (setup_free_stash 9 raw 24 5 false) ≡ 3 ∷ 0 ∷ 0 ∷ []
unfolding setup_free_stash
attach_run = refl

pop_number-Refined_example : Refined 1 two_free (40 ∷ 64 ∷ []) 1 (popped false (40 ∷ 64 ∷ []) 1)
pop_number-Refined_example = pop_number-Refined 1 two_free (40 ∷ 64 ∷ []) 1 two_free-IsStack

push-IsStack_example :
    (t : FreeStack) × (atomic_stack_push 3 two_free 88 ≡ some t)
    × IsStack t (88 ∷ 40 ∷ 64 ∷ [])
    × (two_free.max_free_local ≡ 2 → t ≡ two_free)
push-IsStack_example = push-IsStack 2 two_free (40 ∷ 64 ∷ []) 88 two_free-IsStack refl (omega arith)

abbrev one_free : FreeStack
one_free = record two_free { head = 64; count_free = 1; max_free_local = 4 }

one_free-IsStack : IsStack one_free (64 ∷ [])
one_free-IsStack = record {
  chain = (refl, omega arith, refl);
  counted = refl;
  bounded = omega arith;
  narrow = omega arith;
}

three_free-Chain : Chain (update (update (λ a. u32_max) 64 88) 40 64) 40 (40 ∷ 64 ∷ 88 ∷ [])
three_free-Chain = (refl, omega arith, (refl, omega arith, (refl, omega arith, refl)))

abbrev three_free : FreeStack
three_free = record two_free { next = update (update (λ a. u32_max) 64 88) 40 64 }

-- thread 5 has taken the first of three elements
abbrev one_taken : Sharing
one_taken = record (at_rest three_free) {
  stack = record three_free { head = 64 };
  threads =
      update (update (update (λ i. Local.resting) 5 (looking 40)) 5 (looked 40 64)) 5 (looking 40);
  handed = 40 ∷ [];
}

pops-Chain_example :
    (rest : List ℕ) × (40 ∷ rest ≡ 40 ∷ 64 ∷ 88 ∷ []) × Chain three_free.next 64 rest
pops-Chain_example = pops-Chain three_free (40 ∷ 64 ∷ 88 ∷ []) one_taken three_free-Chain (
    access (access (access begin (loads 5 refl)) (reads 5 40 refl (omega arith)))
      (takes 5 40 64 refl refl))

pops-Twice_example :
    (t : Sharing) × Accesses true (at_rest three_free) t
    × (t.handed ≡ 40 ∷ 64 ∷ 40 ∷ 64 ∷ [])
    × (t.returned ≡ 40 ∷ [])
pops-Twice_example = pops-Twice three_free (omega arith) (omega arith) (omega arith)
