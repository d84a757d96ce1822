-- ===== src/AtomicStack/Stash.antt =====
-- `FreeOperatorStashStack` of c_experiments/src/hmap_interface.h: the free stack with its elements named by index.
-- `sizeof_el` is `sizeof(StackEl)`; `tick` and the wait for another thread change nothing here.
use mathlib.Core.Path.{subst}
use native.Mathlib.Nat.{div-eq-sub-div, div-eq_of_lt}
use shm_lru_aging_and_quotas.Base.Lists.{length, occurs}
use shm_lru_aging_and_quotas.Base.Tests.{
  ℕ, zero, suc, ◌+◌, ◌-◌, ◌*◌, ◌/◌, ◌%◌, ◌^◌, ◌<◌, ◌≡◌, ◌≢◌, refl, ap, ◌∙◌, arith, Bool, true,
  false, Option, none, some, List, ◌∷◌, ltb, ◌==◌, if◌then◌else◌,
}
use shm_lru_aging_and_quotas.Base.Words.{u32_max}
use shm_lru_aging_and_quotas.AtomicStack.{
  FreeStack, reduce_free_count, take_first, atomic_stack_push,
}
use shm_lru_aging_and_quotas.AtomicStack.Counting.{settled}
use shm_lru_aging_and_quotas.AtomicStack.FreeList.{IsStack, take_first-cons}
use shm_lru_aging_and_quotas.AtomicStack.Pushing.{push-IsStack}
use shm_lru_aging_and_quotas.AtomicStack.Setup.{
  elements, setup_region_free_list, attach_region_free_list,
}

abbrev out_of_memory : FreeStack → Option (ℕ × FreeStack)
out_of_memory s = some (u32_max, record s { status = false })

-- the exchange of `pop_one_free`, and what it returns
abbrev one_offset : Option (Option ℕ × FreeStack) → Option (ℕ × FreeStack)
one_offset none = none
one_offset (some (none, t)) = some (u32_max, t)
one_offset (some (some first, t)) = some ((if ltb first u32_max then first else u32_max), t)

-- `pop_one_free`
unfoldable pub pop_one_free : ℕ → FreeStack → Option (ℕ × FreeStack)
pop_one_free f s =
    if s.head == u32_max
    then out_of_memory s
    else if s.count_free == 0
    then out_of_memory s
    else elim (reduce_free_count f s.count_free s.count_free 1) [
      | none ↦ none
      | some count ↦ one_offset (take_first f s.head (record s { count_free = count }))
    ]

-- `return_one_to_free`
unfoldable pub return_one_to_free :
    ℕ → (sizeof_el : ℕ) → FreeStack → (el_index : ℕ) → Option FreeStack
return_one_to_free f sizeof_el s el_index = atomic_stack_push f s (el_index * sizeof_el % 2 ^ 32)

-- `pop_one_wait_free`, whose `check_max_timeout` is always true: the index. The field `_index`, which it writes, is not
-- read here and left out.
unfoldable pub pop_one_wait_free : ℕ → (sizeof_el : ℕ) → FreeStack → Option (ℕ × FreeStack)
pop_one_wait_free zero sizeof_el s = none
pop_one_wait_free (suc f) sizeof_el s = elim (pop_one_free (suc (suc f)) s) [
  | none ↦ none
  | some (attempt, t) ↦
      let rest = pop_one_wait_free f sizeof_el t in
      if attempt == u32_max then rest else some (attempt / sizeof_el, t)
]

-- `setup_free_stash`: the result, and the stack
unfoldable pub setup_free_stash :
    ℕ
    → FreeStack
    → (sizeof_el reserved_positions : ℕ) → (am_initializer : Bool) → Option (ℕ × FreeStack)
setup_free_stash f s sizeof_el reserved_positions am_initializer =
    if am_initializer
    then setup_region_free_list f s sizeof_el (reserved_positions * sizeof_el)
    else some ((reserved_positions + 2 ^ 16 - 2) % 2 ^ 16, attach_region_free_list s)

-- `stash_el_reference`, as an offset
abbrev pub stash_el_reference : (sizeof_el el_index : ℕ) → ℕ
stash_el_reference sizeof_el el_index = el_index * sizeof_el

module _ (f : ℕ) where
  pop_one_free-IsStack :
      (s : FreeStack) (x : ℕ) (xs : List ℕ)
      → IsStack s (x ∷ xs)
      → (t : FreeStack) × (pop_one_free (suc (suc f)) s ≡ some (x, t))
        × IsStack t xs
        × (t.max_free_local ≡ s.max_free_local)
  unfolding pop_one_free
  pop_one_free-IsStack s x xs k =
      let live : s.head ≢ u32_max = omega (arith, k.chain.0, k.chain.1) in
      let more : (s.head == u32_max) ≡ false = ground arith in
      let counted : (s.count_free == 0) ≡ false = ground (arith, k.counted) in
      let below : ltb s.head u32_max ≡ true = ground (arith, k.chain.0, k.chain.1) in
      let l : FreeStack = record s { count_free = s.count_free - 1 } in
      let t : FreeStack = record l { head = s.next s.head } in
      (
        t,
        rw (more, counted, settled f s.count_free 1, take_first-cons f l s.head live live, below)
            (ap (λ (a : ℕ). some (a, t)) k.chain.0),
        record {
          chain = rw k.chain.0 k.chain.2;
          counted = omega (arith, k.counted);
          bounded = omega (arith, k.bounded);
          narrow = k.narrow;
        },
        refl,
      )

-- On a stack with no free element `pop_one_wait_free` does not return, however long it runs.
waits_endless : (f s_el : ℕ) (s : FreeStack) → s.head ≡ u32_max → pop_one_wait_free f s_el s ≡ none
unfolding pop_one_wait_free pop_one_free
waits_endless zero s_el s out = refl
waits_endless (suc f) s_el s out =
    let stop : (s.head == u32_max) ≡ true = ground arith in
    rw (pop_one_wait_free, stop) (waits_endless f s_el (record s { status = false }) out)

occurs-elements : (n step curr a : ℕ) → a < curr → occurs a (elements n step curr) ≡ 0
occurs-elements zero step curr a low = refl
occurs-elements (suc n) step curr a low =
    ground (arith, occurs-elements n step (curr + step) a (omega arith))

-- On a stash just set up, with elements of more than 16 bytes: the first element taken is at `sizeof_el + 16`
-- but is named 1, which stands for the place `sizeof_el`, inside the control element (of `sizeof_el` bytes from
-- 16 on); and when index 1 is returned, that place is on the list, and the one taken is on it no more.
pub stash-Misplaced :
    (f sizeof_el k : ℕ) (s : FreeStack)
    → 16 < sizeof_el
    → sizeof_el < u32_max
    → IsStack s (elements (suc k) sizeof_el (sizeof_el + 16))
    → (t : FreeStack) × (u : FreeStack) × (pop_one_wait_free (suc f) sizeof_el s ≡ some (1, t))
      × (return_one_to_free (suc f) sizeof_el t 1 ≡ some u)
      × IsStack u
          (stash_el_reference sizeof_el 1 ∷ elements k sizeof_el (sizeof_el + 16 + sizeof_el))
      × (16 < stash_el_reference sizeof_el 1)
      × (stash_el_reference sizeof_el 1 < 16 + sizeof_el)
unfolding pop_one_wait_free return_one_to_free
stash-Misplaced f sizeof_el k s wide small o =
    let xs : List ℕ = elements k sizeof_el (sizeof_el + 16 + sizeof_el) in
    let (t, e, kt, same) = pop_one_free-IsStack f s (sizeof_el + 16) xs o in
    let named : (sizeof_el + 16) / sizeof_el ≡ 1 =
      div-eq-sub-div {m = sizeof_el} {n = sizeof_el + 16} (omega arith) (omega arith)
      ∙ ap (λ (q : ℕ). q + 1) (ap (λ (d : ℕ). d / sizeof_el) (omega arith) ∙ div-eq_of_lt wide) in
    let taken : (sizeof_el + 16 == u32_max) ≡ false = ground (arith, o.chain.1) in
    let at : 1 * sizeof_el % 2 ^ 32 ≡ 1 * sizeof_el = omega arith in
    let away : occurs (1 * sizeof_el) xs ≡ 0 =
      occurs-elements k sizeof_el (sizeof_el + 16 + sizeof_el) (1 * sizeof_el) (omega arith) in
    let (u, e2, ku, same) = push-IsStack f t xs (1 * sizeof_el) kt away (omega arith) in
    let room : (t.max_free_local == length xs) ≡ false = ground (arith, o.bounded) in
    (
      t,
      u,
      rw (pop_one_wait_free, e, taken) (ap (λ (i : ℕ). some (i, t)) named),
      ap (λ (i : ℕ). atomic_stack_push (suc f) t i) at ∙ e2,
      subst (IsStack u) (rw room refl) ku,
      omega arith,
      omega arith,
    )
