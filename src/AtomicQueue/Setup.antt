-- ===== src/AtomicQueue/Setup.antt =====
-- `setup_queue_region` and `attach_queue_region` of c_experiments/src/atomic_queue.h, and the flag that its counts are
-- changed under.
use shm_lru_aging_and_quotas.Base.Lists.{length, occurs}
use shm_lru_aging_and_quotas.Base.Tests.{
  ℕ, zero, suc, ◌+◌, ◌-◌, ◌*◌, ◌^◌, ◌<◌, ◌≤◌, ◌≡◌, refl, arith, Bool, true, false, Option, none,
  some, [],
}
use shm_lru_aging_and_quotas.Base.Words.{u32_max}
use shm_lru_aging_and_quotas.AtomicStack.Setup.{
  elements, setup_region_free_list, attach_region_free_list, check_region_size,
  setup_region_free_list-IsStack,
}
use shm_lru_aging_and_quotas.AtomicQueue.{AtomicQueue, frame, spin}
use shm_lru_aging_and_quotas.AtomicQueue.Line.{IsQueue}

-- `setup_queue_region`: the result, and the queue
unfoldable pub setup_queue_region :
    {A : Type 0} → ℕ → AtomicQueue A → (step region_size : ℕ) → Option (ℕ × AtomicQueue A)
setup_queue_region f q step region_size =
    elim (setup_region_free_list f q.stack step (region_size - frame)) [
      | none ↦ none
      | some (free_count, s) ↦ some (
        free_count,
        record q {
          stack = s;
          q_head = 0;
          q_tail = 0;
          push_count = 0;
          pop_count = 0;
          popper = false;
        },
      )
    ]

-- `attach_queue_region`, of a process that finds the region set up
abbrev attach_queue_region : {A : Type 0} → AtomicQueue A → AtomicQueue A
attach_queue_region q = record q { stack = attach_region_free_list q.stack }

-- `check_region_size` of the queue
abbrev check_queue_region_size : (sizeof_el el_count : ℕ) → ℕ
check_queue_region_size sizeof_el el_count = 5 * 4 + check_region_size sizeof_el el_count

elements-fits :
    (n step curr a size : ℕ)
    → 0 < curr
    → curr + n * step < size + step
    → 0 < step
    → (occurs a (elements n step curr) ≤ 1)
      × (0 < occurs a (elements n step curr) → (curr ≤ a) × (a < size))
elements-fits zero step curr a size low top pos = (omega arith, λ h. absurd (omega arith))
elements-fits (suc n) step curr a size low top pos =
    let (alone, inside) =
      elements-fits n step (curr + step) a size (omega arith) (omega arith) pos in
    (ground arith, ground arith)

length-elements : (n step curr : ℕ) → length (elements n step curr) ≡ n
length-elements zero step curr = refl
length-elements (suc n) step curr = omega (arith, length-elements n step (curr + step))

-- A region with room for `k + 1` elements after the words of the queue and the stack's control element, and less
-- than `2 ^ 16` of them: the set-up counts them, and the queue is empty with all of them free.
setup_queue_region-IsQueue :
    {A : Type 0} (q : AtomicQueue A) (k f step size : ℕ)
    → 0 < step
    → size + frame ≤ u32_max
    → step + 16 + k * step < size
    → size ≤ step + 16 + k * step + step
    → k + 1 < 2 ^ 16
    → k + 1 < f
    → (t : AtomicQueue A) × (setup_queue_region f q step (size + frame) ≡ some (k + 1, t))
      × IsQueue t []
      × (t.stack.count_free ≡ k + 1)
unfolding setup_queue_region
setup_queue_region-IsQueue q k f step size pos small lt le few fuel =
    let (s, e, stands, attached) =
      setup_region_free_list-IsStack q.stack k f step size pos (omega arith) lt le few fuel in
    let at : size + frame - frame ≡ size = omega arith in
    let long : length (elements (suc k) step (step + 16)) ≡ suc k =
      length-elements (suc k) step (step + 16) in
    let fit =
      λ (a : ℕ). elements-fits (suc k) step (step + 16) a size (omega arith) (omega arith) pos in
    let t = record q {
      stack = s;
      q_head = 0;
      q_tail = 0;
      push_count = 0;
      pop_count = 0;
      popper = false;
    } in
    (
      t,
      rw (setup_queue_region, at, e) refl,
      record {
        order = [];
        free = elements (suc k) step (step + 16);
        stack = stands;
        line = refl;
        front = refl;
        apart = λ a. omega (arith, (fit a).0);
        fits = λ a h.
            let inside = (fit a).1 (omega arith) in
            (omega (arith, inside.0), omega (arith, inside.1));
        room = omega (arith, stands.bounded);
        held = refl;
        idle = (refl, refl, refl);
      },
      omega (arith, stands.counted, long),
    )

-- Whether the flag is clear or another process has set it, a process that spins on it goes on after two
-- rounds at most, with the flag set: a flag that is held keeps nobody out, and is passed at once.
spin-Open :
    (f : ℕ)
    → ((flag : Bool) → spin (suc (suc f)) flag ≡ some true) × (spin (suc f) true ≡ some true)
unfolding spin
spin-Open f = (λ flag. ground arith, refl)
