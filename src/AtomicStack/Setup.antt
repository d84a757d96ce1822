-- ===== src/AtomicStack/Setup.antt =====
-- `setup_region_free_list` and `attach_region_free_list` of c_experiments/src/atomic_stack.h. The region begins with
-- two pointers' room for the counts, then the control element; the elements follow it.
-- Offsets count from the start, as does `_stack_region_end`. The `init` of an element, which in the element types
-- of the repository does not write `_next`, is left out.
use shm_lru_aging_and_quotas.Base.Lists.{length}
use shm_lru_aging_and_quotas.Base.Mem.{update}
use shm_lru_aging_and_quotas.Base.Tests.{
  ℕ, zero, suc, ◌+◌, ◌*◌, ◌%◌, ◌^◌, ◌<◌, ◌≤◌, ◌≡◌, refl, sym, ap, ap₂, ◌∙◌, arith, Bool, true,
  false, Option, none, some, List, [], ◌∷◌, ltb, leb, if◌then◌else◌,
}
use shm_lru_aging_and_quotas.Base.Words.{u32_max}
use shm_lru_aging_and_quotas.AtomicStack.{FreeStack}
use shm_lru_aging_and_quotas.AtomicStack.FreeList.{Chain, IsStack}

-- `check_end`, at an offset
abbrev check_end : (region_size ref : ℕ) → Bool
check_end region_size ref = if leb region_size ref then false else true

-- `next_free->_next = next`, or the end mark
abbrev link_free : (ℕ → ℕ) → (region_size curr next : ℕ) → ℕ → ℕ
link_free m region_size curr next =
    update m curr (if leb region_size next then u32_max else next % 2 ^ 32)

-- the loop: the count, the last element and the `_next` fields, or `none` where it throws or has no fuel
unfoldable pub setup_loop :
    ℕ
    → (step region_size curr next free_count : ℕ) → (last_free : Option ℕ) → (ℕ → ℕ)
    → Option (ℕ × Option ℕ × (ℕ → ℕ))
setup_loop zero step region_size curr next free_count last_free m = none
setup_loop (suc f) step region_size curr next free_count last_free m =
    let rest =
      setup_loop f step region_size (curr + step) (next + step) ((free_count + 1) % 2 ^ 16)
        (some curr) (link_free m region_size curr next) in
    if ltb curr region_size
    then (if check_end region_size curr then rest else none)
    else some (free_count, last_free, m)

abbrev close_list : Option ℕ → (ℕ → ℕ) → ℕ → ℕ
close_list none m = m
close_list (some last) m = update m last u32_max

-- the set-up with the first element at `first`
unfoldable pub setup_from : ℕ → FreeStack → (step region_size first : ℕ) → Option (ℕ × FreeStack)
unfolding setup_loop
setup_from f s step region_size first =
    elim (setup_loop f step region_size first (first + step) 0 none s.next) [
      | none ↦ none
      | some (free_count, last, m) ↦ some (
        free_count,
        record s {
          next = close_list last m;
          head = first;
          count_free = free_count;
          max_free = free_count;
          max_free_local = free_count;
        },
      )
    ]

-- `setup_region_free_list`: the result, and the stack
unfoldable pub setup_region_free_list :
    ℕ → FreeStack → (step region_size : ℕ) → Option (ℕ × FreeStack)
unfolding setup_from
setup_region_free_list f s step region_size = setup_from f s step region_size ((step + 16) % 2 ^ 32)

-- `attach_region_free_list`, of a process that finds the region set up
abbrev pub attach_region_free_list : FreeStack → FreeStack
attach_region_free_list s = record s { max_free_local = s.max_free }

-- `n` elements from `curr` on
abbrev pub elements : (n step curr : ℕ) → List ℕ
elements zero step curr = []
elements (suc n) step curr = curr ∷ elements n step (curr + step)

length-elements : (n step curr : ℕ) → length (elements n step curr) ≡ n
length-elements zero step curr = refl
length-elements (suc n) step curr = omega (arith, length-elements n step (curr + step))

Chain-same :
    (m n : ℕ → ℕ) (h : ℕ) (xs : List ℕ) → ((a : ℕ) → n a ≡ m a) → Chain m h xs → Chain n h xs
Chain-same m n h [] e c = c
Chain-same m n h (x ∷ xs) e c = (c.0, c.1, rw (e x) (Chain-same m n (m x) xs e c.2))

module _ (step size : ℕ) (pos : 0 < step) (small : size ≤ u32_max) where
  -- what the loop leaves when it has `k` elements and one more before it
  record Laid (f k curr free_count : ℕ) (last : Option ℕ) (m : ℕ → ℕ) : Type 0 where
    next : ℕ → ℕ
    ends :
        setup_loop f step size curr (curr + step) free_count last m
        ≡ some (free_count + k + 1, some (curr + k * step), next)
    chain : Chain next curr (elements (suc k) step curr)
    end_mark : next (curr + k * step) ≡ u32_max
    below : (a : ℕ) → a < curr → next a ≡ m a

  loop_go :
      (f curr next free_count : ℕ) (last : Option ℕ) (m : ℕ → ℕ)
      → curr < size
      → free_count + 1 < 2 ^ 16
      → setup_loop (suc f) step size curr next free_count last m
        ≡ setup_loop f step size
            (curr + step)
            (next + step)
            (free_count + 1)
            (some curr)
            (link_free m size curr next)
  unfolding setup_loop
  loop_go f curr next free_count last m lt few =
      let inside : ltb curr size ≡ true = ground arith in
      let checked : leb size curr ≡ false = ground arith in
      let narrow : (free_count + 1) % 2 ^ 16 ≡ free_count + 1 = omega arith in
      rw (inside, checked, narrow) refl

  loop_stop :
      (f curr next free_count : ℕ) (last : Option ℕ) (m : ℕ → ℕ)
      → size ≤ curr
      → setup_loop (suc f) step size curr next free_count last m ≡ some (free_count, last, m)
  unfolding setup_loop
  loop_stop f curr next free_count last m le = ground arith

  setup_loop_last-Laid :
      (f curr free_count : ℕ) (last : Option ℕ) (m : ℕ → ℕ)
      → curr < size
      → size ≤ curr + step
      → free_count + 1 < 2 ^ 16
      → Laid (suc (suc f)) 0 curr free_count last m
  setup_loop_last-Laid f curr free_count last m lt le few =
      let at : link_free m size curr (curr + step) curr ≡ u32_max = ground arith in
      let start : curr ≡ curr + 0 * step = omega arith in
      let n : free_count + 1 ≡ free_count + 0 + 1 = omega arith in
      record {
        next = link_free m size curr (curr + step);
        ends =
            loop_go (suc f) curr (curr + step) free_count last m lt few
            ∙ loop_stop f (curr + step) (curr + step + step) (free_count + 1) (some curr)
                (link_free m size curr (curr + step)) le
            ∙ ap₂ (λ (a b : ℕ). some (a, some b, link_free m size curr (curr + step))) n start;
        chain = (refl, omega arith, at);
        end_mark = ap (link_free m size curr (curr + step)) (sym start) ∙ at;
        below = λ a low. ground arith;
      }

  setup_loop-Laid :
      (k f curr free_count : ℕ) (last : Option ℕ) (m : ℕ → ℕ)
      → curr + k * step < size
      → size ≤ curr + k * step + step
      → free_count + k + 1 < 2 ^ 16
      → k + 1 < f
      → Laid f k curr free_count last m
  setup_loop-Laid k zero curr free_count last m lt le few fuel = absurd (omega arith)
  setup_loop-Laid k (suc zero) curr free_count last m lt le few fuel = absurd (omega arith)
  setup_loop-Laid zero (suc (suc f)) curr free_count last m lt le few fuel =
      setup_loop_last-Laid f curr free_count last m (omega arith) (omega arith) (omega arith)
  setup_loop-Laid (suc k) (suc (suc f)) curr free_count last m lt le few fuel =
      let m' : ℕ → ℕ = link_free m size curr (curr + step) in
      let r =
        setup_loop-Laid k (suc f) (curr + step) (free_count + 1) (some curr) m' (omega arith)
          (omega arith) (omega arith) (omega arith) in
      let here : r.next curr ≡ curr + step = r.below curr (omega arith) ∙ ground arith in
      let n : free_count + 1 + k + 1 ≡ free_count + suc k + 1 = omega arith in
      let place : curr + step + k * step ≡ curr + suc k * step = omega arith in
      record {
        next = r.next;
        ends =
            loop_go (suc f) curr (curr + step) free_count last m (omega arith) (omega arith)
            ∙ r.ends
            ∙ ap₂ (λ (a b : ℕ). some (a, some b, r.next)) n place;
        chain = (refl, omega arith, rw here r.chain);
        end_mark = ap r.next (sym place) ∙ r.end_mark;
        below = λ a low. r.below a (omega arith) ∙ ground arith;
      }

pub setup_region_free_list-IsStack :
    (s : FreeStack) (k f step size : ℕ)
    → 0 < step
    → size ≤ u32_max
    → step + 16 + k * step < size
    → size ≤ step + 16 + k * step + step
    → k + 1 < 2 ^ 16
    → k + 1 < f
    → (t : FreeStack) × (setup_region_free_list f s step size ≡ some (k + 1, t))
      × IsStack t (elements (suc k) step (step + 16))
      × ((other : ℕ)
          → IsStack
              (attach_region_free_list (record t { max_free_local = other }))
              (elements (suc k) step (step + 16)))
unfolding setup_region_free_list
setup_region_free_list-IsStack s k f step size pos small lt le few fuel =
    let first : (step + 16) % 2 ^ 32 ≡ step + 16 = omega arith in
    let r =
      setup_loop-Laid step size pos small k f (step + 16) 0 none s.next lt le (omega arith) fuel in
    let next : ℕ → ℕ = update r.next (step + 16 + k * step) u32_max in
    let same : (a : ℕ) → next a ≡ r.next a = λ a. ground (arith, r.end_mark) in
    let chain =
      Chain-same r.next next (step + 16) (elements (suc k) step (step + 16)) same r.chain in
    let set_up : ℕ → FreeStack = λ count. record s {
      next = next;
      head = step + 16;
      count_free = count;
      max_free = count;
      max_free_local = count;
    } in
    let n : 0 + k + 1 ≡ k + 1 = omega arith in
    let long : k + 1 ≡ length (elements (suc k) step (step + 16)) =
      omega (arith, length-elements (suc k) step (step + 16)) in
    (
      set_up (k + 1),
      ap (setup_from f s step size) first
          ∙ rw (setup_from, r.ends) (ap (λ (count : ℕ). some (count, set_up count)) n),
      record { chain = chain; counted = long; bounded = omega (arith, long); narrow = omega arith },
      λ other. record {
        chain = chain;
        counted = long;
        bounded = omega (arith, long);
        narrow = omega arith;
      },
    )

-- `check_region_size`, where `sizeof(atomic<uint32_t>)` is 4
abbrev pub check_region_size : (sizeof_el max_free : ℕ) → ℕ
check_region_size sizeof_el max_free = 2 * 4 + sizeof_el * (max_free + 1)

-- A region of the size that `check_region_size` gives for `k + 1` elements of more than 8 bytes: the set-up
-- makes `k + 1` elements of it, and the last of them ends 8 bytes after the region.
pub check_region_size-overrun :
    (s : FreeStack) (k f sizeof_el : ℕ)
    → 8 < sizeof_el
    → check_region_size sizeof_el (k + 1) ≤ u32_max
    → k + 1 < 2 ^ 16
    → k + 1 < f
    → ((t : FreeStack) × (setup_region_free_list f s sizeof_el (check_region_size sizeof_el (k + 1))
          ≡ some (k + 1, t))
        × IsStack t (elements (suc k) sizeof_el (sizeof_el + 16)))
      × (sizeof_el + 16 + k * sizeof_el + sizeof_el ≡ check_region_size sizeof_el (k + 1) + 8)
check_region_size-overrun s k f sizeof_el wide small few fuel =
    let ends : sizeof_el + 16 + k * sizeof_el + sizeof_el
        ≡ check_region_size sizeof_el (k + 1) + 8 =
      omega arith in
    let (t, e, stack, attached) =
      setup_region_free_list-IsStack s k f sizeof_el (check_region_size sizeof_el (k + 1))
        (omega arith) small (omega arith) (omega arith) few fuel in
    ((t, e, stack), ends)
