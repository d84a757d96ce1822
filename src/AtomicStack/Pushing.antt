-- ===== src/AtomicStack/Pushing.antt =====
-- What a push of c_experiments/src/atomic_stack.h does to the list of free elements, alone and overtaken by another
-- thread between the load of the head and the exchange.
use mathlib.Core.Path.{subst}
use shm_lru_aging_and_quotas.Base.Lists.{length, occurs}
use shm_lru_aging_and_quotas.Base.Mem.{update, update_self, update_ne}
use shm_lru_aging_and_quotas.Base.Tests.{
  ℕ, suc, ◌+◌, ◌-◌, ◌%◌, ◌^◌, ◌<◌, ◌≡◌, ◌≢◌, refl, sym, ap, ◌∙◌, arith, true, false, ◌&&◌, some,
  List, [], ◌∷◌, inl, inr, ltb, ◌==◌, if◌then◌else◌, Bool-cases,
}
use shm_lru_aging_and_quotas.Base.Words.{u32_max}
use shm_lru_aging_and_quotas.AtomicStack.{
  FreeStack, pop_from, pop_number, full, push_link, push_exchange, push_finish,
  increment_free_count, atomic_stack_push,
}
use shm_lru_aging_and_quotas.AtomicStack.FreeList.{Chain, IsStack, pop_number-live, take_first-cons}

module _ (f : ℕ) where
  pub Chain-push :
      (next : ℕ → ℕ) (o v h : ℕ) (xs : List ℕ)
      → occurs o xs ≡ 0
      → Chain next h xs
      → Chain (update next o v) h xs
  Chain-push next o v h [] away c = c
  Chain-push next o v h (x ∷ xs) away c =
      let apart : x ≢ o = ground arith in
      (
        c.0,
        c.1,
        rw (update_ne next o x v apart) (Chain-push next o v (next x) xs (omega arith) c.2),
      )

  push_finish-room :
      (t : FreeStack) (o : ℕ)
      → t.count_free < t.max_free_local
      → push_finish (suc f) t t.head o
        ≡ some (record t { head = o; count_free = (t.count_free + 1) % 2 ^ 32 })
  unfolding push_finish push_exchange increment_free_count
  push_finish-room t o room = ground arith

  -- A push of an element that is not free, when no other thread is at work, onto a stack whose count agrees with
  -- its list: with as many elements as the stack takes, the stack stays as it is; onto any other, the element is the first of the list, and the
  -- count agrees with it again.
  pub push-IsStack :
      (s : FreeStack) (free : List ℕ) (o : ℕ)
      → IsStack s free
      → occurs o free ≡ 0
      → o < u32_max
      → (t : FreeStack) × (atomic_stack_push (suc f) s o ≡ some t)
        × IsStack t (if s.max_free_local == length free then free else o ∷ free)
        × (s.max_free_local ≡ length free → t ≡ s)
  unfolding atomic_stack_push
  push-IsStack s free o k away low = elim (Bool-cases (s.max_free_local == length free)) [
    | inl e ↦
        let stays : full s ≡ true = ground (arith, k.counted) in
        rw (e, stays) (s, refl, k, λ h. refl)
    | inr e ↦
        let goes : full s ≡ false = ground (arith, k.counted) in
        let short : length free < s.max_free_local = ground (arith, k.bounded) in
        let added : (s.count_free + 1) % 2 ^ 32 ≡ length (o ∷ free) =
          omega (arith, k.counted, k.narrow) in
        rw (e, goes)
          (
            record (push_link s o) { head = o; count_free = (s.count_free + 1) % 2 ^ 32 },
            push_finish-room (push_link s o) o (omega (arith, k.counted)),
            record {
              chain = (
                refl,
                low,
                rw (update_self s.next o s.head)
                    (Chain-push s.next o s.head s.head free away k.chain),
              );
              counted = added;
              bounded = ground (arith, k.bounded);
              narrow = k.narrow;
            },
            λ h. absurd (omega (arith, short, h)),
          )
  ]

  pub push-open :
      (s : FreeStack) (p : ℕ)
      → full s ≡ false
      → s.count_free < s.max_free_local
      → atomic_stack_push (suc f) s p
        ≡ some (record (push_link s p) { head = p; count_free = (s.count_free + 1) % 2 ^ 32 })
  unfolding atomic_stack_push
  push-open s p goes room = rw goes (push_finish-room (push_link s p) p room)

  pub pop_one :
      (s : FreeStack)
      → s.head < u32_max
      → 0 < s.count_free
      → pop_number (suc (suc f)) s 1
        ≡ some (0, s.head ∷ [], record s { head = s.next s.head; count_free = s.count_free - 1 })
  unfolding pop_from
  pop_one s low more =
      let enough : (ltb s.count_free 1 && s.backout_overflow) ≡ false = ground arith in
      let below : ltb s.head u32_max ≡ true = ground arith in
      let live : s.head ≢ u32_max = omega arith in
      pop_number-live f s 1 live enough
      ∙ rw
          (
            pop_from,
            take_first-cons f (record s { count_free = s.count_free - 1 }) s.head live live,
            below,
          )
          refl

  -- whatever the head is by then, the list is that of the load
  stale-Chain :
      (t : FreeStack) (h o : ℕ) (free : List ℕ)
      → Chain t.next h free
      → t.next o ≡ h
      → o < u32_max
      → t.count_free < t.max_free_local
      → t.max_free_local < 2 ^ 32
      → (u : FreeStack) × (push_finish (suc (suc f)) t h o ≡ some u)
        × Chain u.next u.head (o ∷ free)
        × (u.count_free ≡ t.count_free + 1)
  unfolding push_finish push_exchange increment_free_count
  stale-Chain t h o free c linked low room narrow = (
    record t { head = o; count_free = (t.count_free + 1) % 2 ^ 32 },
    ground arith,
    (refl, low, rw linked c),
    omega arith,
  )

  module _ (s : FreeStack) (free : List ℕ) (o : ℕ) (k : IsStack s free) (away : occurs o free ≡ 0)
      (low : o < u32_max) where
    -- the other thread pushes `p`
    push-overtaken_by_push :
        (p : ℕ)
        → occurs p free ≡ 0
        → p < u32_max
        → p ≢ o
        → length free + 1 < s.max_free_local
        → (t : FreeStack) × (u : FreeStack) × (atomic_stack_push (suc f) (push_link s o) p ≡ some t)
          × (push_finish (suc (suc f)) t s.head o ≡ some u)
          × Chain u.next u.head (o ∷ free)
          × (u.count_free ≡ length free + 2)
    push-overtaken_by_push p out small apart room =
        let l : FreeStack = push_link s o in
        let not_full : full l ≡ false = ground (arith, k.counted) in
        let t : FreeStack = record (push_link l p) {
          head = p;
          count_free = (s.count_free + 1) % 2 ^ 32;
        } in
        let pushed : atomic_stack_push (suc f) l p ≡ some t =
          push-open l p not_full (omega (arith, k.counted)) in
        let at_o : t.next o ≡ s.head =
          update_ne (update s.next o s.head) p o s.head (λ e. apart (sym e))
          ∙ update_self s.next o s.head in
        let below =
          Chain-push (update s.next o s.head) p s.head s.head free out
            (Chain-push s.next o s.head s.head free away k.chain) in
        let (u, e, c, n) =
          stale-Chain t s.head o free below at_o low (omega (arith, k.counted, k.narrow))
            k.narrow in
        (t, u, pushed, e, c, omega (arith, n, k.counted, k.narrow))

    -- the other thread pops the first element
    push-overtaken_by_pop :
        (x : ℕ) (xs : List ℕ)
        → free ≡ x ∷ xs
        → (t : FreeStack) × (u : FreeStack) × (pop_number (suc (suc f)) (push_link s o) 1
            ≡ some (0, x ∷ [], t))
          × (push_finish (suc (suc f)) t s.head o ≡ some u)
          × Chain u.next u.head (o ∷ x ∷ xs)
    push-overtaken_by_pop x xs e =
        let l : FreeStack = push_link s o in
        let c : Chain s.next s.head (x ∷ xs) = subst (Chain s.next s.head) e k.chain in
        let kept = Chain-push s.next o s.head s.head free away k.chain in
        let t : FreeStack = record l { head = l.next s.head; count_free = s.count_free - 1 } in
        let some_free : length free ≡ suc (length xs) = ap length e in
        let taken : pop_number (suc (suc f)) l 1 ≡ some (0, s.head ∷ [], t) =
          pop_one l (omega (arith, c.0, c.1)) (omega (arith, k.counted)) in
        let (u, e', c', n) =
          stale-Chain t s.head o (x ∷ xs) (subst (Chain l.next s.head) e kept)
            (update_self s.next o s.head) low (omega (arith, k.counted, k.bounded)) k.narrow in
        (t, u, taken ∙ ap (λ (a : ℕ). some (0, a ∷ [], t)) c.0, e', c')

  -- A push of `o` onto a list with an element and with room for two more, that another thread overtakes between
  -- the load of the head and the exchange: if it pushes `p`, the list afterwards is `o` and what was free at
  -- first, without `p`, which is counted; if it pops, the element that it was given is on the list again.
  pub push-Overtaken :
      (s : FreeStack) (x : ℕ) (xs : List ℕ) (o p : ℕ)
      → IsStack s (x ∷ xs)
      → occurs o (x ∷ xs) ≡ 0
      → occurs p (x ∷ xs) ≡ 0
      → p ≢ o
      → o < u32_max
      → p < u32_max
      → length (x ∷ xs) + 1 < s.max_free_local
      → ((t : FreeStack) × (u : FreeStack) × (atomic_stack_push (suc f) (push_link s o) p ≡ some t)
          × (push_finish (suc (suc f)) t s.head o ≡ some u)
          × Chain u.next u.head (o ∷ x ∷ xs)
          × (u.count_free ≡ length (x ∷ xs) + 2))
        × ((t : FreeStack) × (u : FreeStack) × (pop_number (suc (suc f)) (push_link s o) 1
              ≡ some (0, x ∷ [], t))
            × (push_finish (suc (suc f)) t s.head o ≡ some u)
            × Chain u.next u.head (o ∷ x ∷ xs))
  push-Overtaken s x xs o p k away out apart low small room = (
    push-overtaken_by_push s (x ∷ xs) o k away low p out small apart room,
    push-overtaken_by_pop s (x ∷ xs) o k away low x xs refl,
  )
