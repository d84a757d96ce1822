-- ===== src/AtomicStack/FreeList.antt =====
-- The free elements of c_experiments/src/atomic_stack.h as a list, and what `pop_number` does to it when no
-- other thread is at work.
use mathlib.Core.Path.{subst}
use shm_lru_aging_and_quotas.Base.Lists.{length, take, drop, take-all, drop-all, length-drop}
use shm_lru_aging_and_quotas.Base.Tests.{
  ℕ, zero, suc, ◌-◌, ◌^◌, ◌<◌, ◌≤◌, ◌≡◌, ◌≢◌, refl, sym, ap, ◌∙◌, arith, Bool, true, false, ◌&&◌,
  Option, none, some, List, [], ◌∷◌, inl, inr, ◌⊎◌, ltb, ◌==◌, if◌then◌else◌, Bool-cases,
}
use shm_lru_aging_and_quotas.Base.Words.{u32_max}
use shm_lru_aging_and_quotas.AtomicStack.{FreeStack, take_first, reserve, pop_from, pop_number}
use shm_lru_aging_and_quotas.AtomicStack.Counting.{settled}

-- From the offset `h` the `_next` fields lead through the list to the end mark.
abbrev pub Chain : (next : ℕ → ℕ) → (h : ℕ) → List ℕ → Type 0
Chain next h [] = h ≡ u32_max
Chain next h (x ∷ xs) = (h ≡ x) × (x < u32_max) × Chain next (next x) xs

pub record IsStack (s : FreeStack) (free : List ℕ) : Type 0 where
  pub chain : Chain s.next s.head free
  pub counted : s.count_free ≡ length free
  pub bounded : length free ≤ s.max_free_local
  pub narrow : s.max_free_local < 2 ^ 32

-- What `pop_number` answers on a list: the code, the offsets handed out and those that are left.
abbrev pub popped : (backout : Bool) → List ℕ → (n : ℕ) → ℕ × List ℕ × List ℕ
popped backout [] n = (u32_max, [], [])
popped backout (x ∷ xs) n =
    if ltb (length (x ∷ xs)) n
    then (if backout then (u32_max, [], x ∷ xs) else (u32_max, x ∷ xs, []))
    else (0, take n (x ∷ xs), drop n (x ∷ xs))

module _ (f : ℕ) where
  pub take_first-cons :
      (s : FreeStack) (hdr : ℕ)
      → hdr ≢ u32_max
      → s.head ≢ u32_max
      → take_first (suc (suc f)) hdr s ≡ some (some s.head, record s { head = s.next s.head })
  unfolding take_first
  take_first-cons s hdr live more = ground arith

  take_first-nil :
      (s : FreeStack) (hdr : ℕ)
      → hdr ≢ u32_max
      → s.head ≡ u32_max
      → take_first (suc (suc f)) hdr s ≡ some (none, record s { status = false })
  unfolding take_first
  take_first-nil s hdr live out = ground arith

  record Taken (s : FreeStack) (free : List ℕ) (n : ℕ) (r : ℕ × List ℕ × FreeStack) : Type 0 where
    code : r.0 ≡ (if ltb (length free) n then u32_max else 0)
    reserved : r.1 ≡ take n free
    left : Chain r.2.next r.2.head (drop n free)
    same_count : r.2.count_free ≡ s.count_free
    same_max : r.2.max_free_local ≡ s.max_free_local

  head-cons :
      (s : FreeStack) (x : ℕ) (xs : List ℕ) → Chain s.next s.head (x ∷ xs) → s.head ≢ u32_max
  head-cons s x xs c = omega (arith, c.0, c.1)

  reserve-some :
      (first code : ℕ) (offsets : List ℕ) (t : FreeStack) (p : Option (ℕ × List ℕ × FreeStack))
      → p ≡ some (code, offsets, t)
      → first < u32_max
      → reserve first p ≡ some (code, first ∷ offsets, t)
  reserve-some first code offsets t p e low =
      let below : ltb first u32_max ≡ true = ground arith in rw (e, below) refl

  pop_from-Taken :
      (n : ℕ) (free : List ℕ) (s : FreeStack) (hdr : ℕ)
      → hdr ≢ u32_max
      → Chain s.next s.head free
      → (r : ℕ × List ℕ × FreeStack) × (pop_from (suc (suc f)) n hdr s ≡ some r) × Taken s free n r
  unfolding pop_from
  pop_from-Taken zero free s hdr live c = (
    (0, [], s),
    refl,
    record { code = ground arith; reserved = refl; left = c; same_count = refl; same_max = refl },
  )
  pop_from-Taken (suc n) [] s hdr live c = (
    (u32_max, [], record s { status = false }),
    rw (pop_from, take_first-nil s hdr live c) refl,
    record { code = ground arith; reserved = refl; left = c; same_count = refl; same_max = refl },
  )
  pop_from-Taken (suc n) (x ∷ xs) s hdr live c =
      let t : FreeStack = record s { head = s.next s.head } in
      let after : Chain s.next (s.next s.head) xs = rw c.0 c.2 in
      let (r, e, k) = pop_from-Taken n xs t s.head (head-cons s x xs c) after in
      (
        (r.0, s.head ∷ r.1, r.2),
        rw (pop_from, take_first-cons s hdr live (head-cons s x xs c))
            (reserve-some s.head r.0 r.1 r.2 (pop_from (suc (suc f)) n s.head t) e
              (omega (arith, c.0, c.1))),
        record {
          code = k.code ∙ ground arith;
          reserved = ap (λ (a : ℕ). a ∷ r.1) c.0 ∙ ap (λ (ys : List ℕ). x ∷ ys) k.reserved;
          left = k.left;
          same_count = k.same_count;
          same_max = k.same_max;
        },
      )

  pub pop_number-live :
      (s : FreeStack) (n : ℕ)
      → s.head ≢ u32_max
      → (ltb s.count_free n && s.backout_overflow) ≡ false
      → pop_number (suc (suc f)) s n
        ≡ pop_from (suc (suc f)) n s.head (record s { count_free = s.count_free - n })
  unfolding pop_number
  pop_number-live s n live go =
      let open_head : (s.head == u32_max) ≡ false = ground arith in
      rw (open_head, go, settled f s.count_free n) refl

  pub pop_number-refused :
      (s : FreeStack) (n : ℕ)
      → (s.head == u32_max) ≡ true ⊎ (ltb s.count_free n && s.backout_overflow) ≡ true
      → pop_number (suc (suc f)) s n ≡ some (u32_max, [], record s { status = false })
  unfolding pop_number
  pop_number-refused s n (inl e) = rw e refl
  pop_number-refused s n (inr e) = elim (Bool-cases (s.head == u32_max)) [
    | inl out ↦ rw out refl
    | inr more ↦ rw (more, e) refl
  ]

  -- what `pop_number` answers and leaves, read off the list of free elements
  abbrev pub Refined : FreeStack → List ℕ → (n : ℕ) → (p : ℕ × List ℕ × List ℕ) → Type 0
  Refined s free n p =
      (r : ℕ × List ℕ × FreeStack) × (pop_number (suc (suc f)) s n ≡ some r)
      × (r.0 ≡ p.0)
      × (r.1 ≡ p.1)
      × IsStack r.2 p.2

  pop_number-taken :
      (s : FreeStack) (free : List ℕ) (n : ℕ)
      → IsStack s free
      → s.head ≢ u32_max
      → (ltb s.count_free n && s.backout_overflow) ≡ false
      → Refined s free n ((if ltb (length free) n then u32_max else 0), take n free, drop n free)
  pop_number-taken s free n o live go =
      let (r, e, k) =
        pop_from-Taken n free (record s { count_free = s.count_free - n }) s.head live o.chain in
      (
        r,
        pop_number-live s n live go ∙ e,
        k.code,
        k.reserved,
        record {
          chain = k.left;
          counted = omega (arith, k.same_count, o.counted, length-drop n free);
          bounded = omega (arith, k.same_max, o.bounded, length-drop n free);
          narrow = omega (arith, k.same_max, o.narrow);
        },
      )

  -- `pop_number` on a list of free elements that the count agrees with, when no other thread is at work: it
  -- fails on an empty list, handing out nothing; it fails where fewer than `n` are free, handing out nothing
  -- with `_backout_overflow` and else all that are free; and it returns 0 else, handing out the
  -- first `n`. What is left is the rest of the list, and the count agrees with it again.
  pub pop_number-Refined :
      (s : FreeStack) (free : List ℕ) (n : ℕ)
      → IsStack s free
      → Refined s free n (popped s.backout_overflow free n)
  pop_number-Refined s [] n o = (
    (u32_max, [], record s { status = false }),
    pop_number-refused s n (inl (ground (arith, o.chain))),
    refl,
    refl,
    record { chain = o.chain; counted = o.counted; bounded = o.bounded; narrow = o.narrow },
  )
  pop_number-Refined s (x ∷ xs) n o =
      let live = head-cons s x xs o.chain in
      elim (Bool-cases (ltb (length (x ∷ xs)) n)) [
        | inl short ↦
            let answer : Bool → ℕ × List ℕ × List ℕ =
              λ b. if b then (u32_max, [], x ∷ xs) else (u32_max, x ∷ xs, []) in
            rw short (elim (Bool-cases s.backout_overflow) [
              | inl out ↦
                  subst (λ (b : Bool). Refined s (x ∷ xs) n (answer b)) (sym out)
                    (
                      (u32_max, [], record s { status = false }),
                      pop_number-refused s n (inr (rw (o.counted, short, out) refl)),
                      refl,
                      refl,
                      record {
                        chain = o.chain;
                        counted = o.counted;
                        bounded = o.bounded;
                        narrow = o.narrow;
                      },
                    )
              | inr on ↦
                  let (r, e, c, v, k) =
                    pop_number-taken s (x ∷ xs) n o live (rw (o.counted, short, on) refl) in
                  let all : length (x ∷ xs) ≤ n = ground arith in
                  subst (λ (b : Bool). Refined s (x ∷ xs) n (answer b)) (sym on)
                    (
                      r,
                      e,
                      c ∙ rw short refl,
                      v ∙ take-all n (x ∷ xs) all,
                      subst (IsStack r.2) (drop-all n (x ∷ xs) all) k,
                    )
            ])
        | inr enough ↦ rw enough (
            let (r, e, c, v, k) =
              pop_number-taken s (x ∷ xs) n o live (rw (o.counted, enough) refl) in
            (r, e, c ∙ rw enough refl, v, k))
      ]
