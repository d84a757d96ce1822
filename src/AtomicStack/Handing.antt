-- ===== src/AtomicStack/Handing.antt =====
-- Whether threads at the list of c_experiments/src/atomic_stack.h are handed out different elements.
use mathlib.Core.Path.{subst}
use native.Mathlib.Decide.{ℕ_discrete}
use shm_lru_aging_and_quotas.Base.Mem.{update, update_self, update_ne}
use shm_lru_aging_and_quotas.Base.Tests.{
  ℕ, ◌≡◌, ◌≢◌, refl, sym, ap, ◌∙◌, true, false, List, [], ◌∷◌, ◌++◌,
}
use shm_lru_aging_and_quotas.Base.Words.{u32_max}
use shm_lru_aging_and_quotas.AtomicStack.{FreeStack}
use shm_lru_aging_and_quotas.AtomicStack.FreeList.{Chain}
use shm_lru_aging_and_quotas.AtomicStack.Threads.{
  Local, looking, looked, linked, Sharing, moved, with_head, Access, loads, gives_up, reads, takes,
  misses, leaves, links, swaps, swaps_later, Accesses, begin, access, at_rest,
}

append_one : (xs : List ℕ) (a : ℕ) (ys : List ℕ) → (xs ++ (a ∷ [])) ++ ys ≡ xs ++ (a ∷ ys)
append_one [] a ys = refl
append_one (x ∷ xs) a ys = ap (λ (l : List ℕ). x ∷ l) (append_one xs a ys)

module _ (next : ℕ → ℕ) (free : List ℕ) where
  -- what a thread that only pops has seen is still there
  abbrev Fresh : Local → Type 0
  Fresh Local.resting = Unit
  Fresh (looking hdr) = Unit
  Fresh (looked hdr nxt) = (hdr ≢ u32_max) × (nxt ≡ next hdr)
  Fresh (linked o hdr) = ⊥

  record Shared (t : Sharing) : Type 0 where
    rest : List ℕ
    same : t.stack.next ≡ next
    chain : Chain next t.stack.head rest
    apart : t.handed ++ rest ≡ free
    fresh : (i : ℕ) → Fresh (t.threads i)

  fresh_with :
      (t : Sharing) (i : ℕ) (l : Local)
      → Fresh l
      → ((j : ℕ) → Fresh (t.threads j))
      → (j : ℕ) → Fresh (update t.threads i l j)
  fresh_with t i l at all j = elim (ℕ_discrete j i) [
    | yes e ↦ subst Fresh (sym (ap (update t.threads i l) e ∙ update_self t.threads i l)) at
    | no ne ↦ subst Fresh (sym (update_ne t.threads i j l ne)) (all j)
  ]

  moved-Shared : (t : Sharing) (i : ℕ) (l : Local) → Fresh l → Shared t → Shared (moved t i l)
  moved-Shared t i l at k = record {
    rest = k.rest;
    same = k.same;
    chain = k.chain;
    apart = k.apart;
    fresh = fresh_with t i l at k.fresh;
  }

  taken-Shared :
      (t : Sharing) (i hdr nxt : ℕ)
      → t.threads i ≡ looked hdr nxt
      → t.stack.head ≡ hdr
      → (k : Shared t) → (rest : List ℕ) → k.rest ≡ rest
      → Shared
          (record (with_head (moved t i (looking hdr)) nxt) { handed = t.handed ++ (hdr ∷ []) })
  taken-Shared t i hdr nxt at e k [] none_left =
      let seen : Fresh (looked hdr nxt) = subst Fresh at (k.fresh i) in
      absurd (seen.0 (sym e ∙ subst (Chain next t.stack.head) none_left k.chain))
  taken-Shared t i hdr nxt at e k (x ∷ xs) more =
      let seen : Fresh (looked hdr nxt) = subst Fresh at (k.fresh i) in
      let c : Chain next t.stack.head (x ∷ xs) = subst (Chain next t.stack.head) more k.chain in
      let here : hdr ≡ x = sym e ∙ c.0 in
      record {
        rest = xs;
        same = k.same;
        chain = subst (λ (h : ℕ). Chain next h xs) (sym (seen.1 ∙ ap next here)) c.2;
        apart =
            append_one t.handed hdr xs
            ∙ ap (λ (a : ℕ). t.handed ++ (a ∷ xs)) here
            ∙ subst (λ (l : List ℕ). t.handed ++ l ≡ free) more k.apart;
        fresh = fresh_with t i (looking hdr) tt k.fresh;
      }

  Access-Shared : {t u : Sharing} → Shared t → Access false t u → Shared u
  Access-Shared {t} k (loads i at) = moved-Shared t i (looking t.stack.head) tt k
  Access-Shared {t} k (gives_up i at) = moved-Shared t i Local.resting tt k
  Access-Shared {t} k (reads i hdr at live) =
      moved-Shared t i (looked hdr (t.stack.next hdr)) (live, ap (λ (n : ℕ → ℕ). n hdr) k.same) k
  Access-Shared {t} k (takes i hdr nxt at e) = taken-Shared t i hdr nxt at e k k.rest refl
  Access-Shared {t} k (misses i hdr nxt at e) = moved-Shared t i (looking t.stack.head) tt k
  Access-Shared {t} k (leaves i hdr at) = moved-Shared t i Local.resting tt k
  Access-Shared {t} k (links i o yes_push at) = absurd (cc yes_push)
  Access-Shared {t} k (swaps i o hdr at e) = absurd (subst Fresh at (k.fresh i))
  Access-Shared {t} k (swaps_later i o hdr at e) = absurd (subst Fresh at (k.fresh i))

  Accesses-Shared : {t u : Sharing} → Shared t → Accesses false t u → Shared u
  Accesses-Shared k begin = k
  Accesses-Shared k (access steps step) = Access-Shared (Accesses-Shared k steps) step

-- However many threads pop and however their steps are interleaved, while none pushes, what has been handed out is
-- the beginning of the list as it was at first, in its order and each element to one thread, and what is
-- left on the list is the rest of it.
pub pops-Chain :
    (s : FreeStack) (free : List ℕ) (t : Sharing)
    → Chain s.next s.head free
    → Accesses false (at_rest s) t
    → (rest : List ℕ) × (t.handed ++ rest ≡ free) × Chain t.stack.next t.stack.head rest
pops-Chain s free t c steps =
    let k =
      Accesses-Shared s.next free
        (record { rest = free; same = refl; chain = c; apart = refl; fresh = λ i. tt }) steps in
    (k.rest, k.apart, subst (λ (n : ℕ → ℕ). Chain n t.stack.head k.rest) (sym k.same) k.chain)

module _ (s : FreeStack) (live : s.head ≢ u32_max) (second : s.next s.head ≢ u32_max)
    (apart : s.head ≢ s.next s.head) where
  abbrev a : ℕ
  a = s.head

  abbrev b : ℕ
  b = s.next s.head

  -- Where threads push as well, from every list with two elements or more the accesses can be interleaved so
  -- that the second element is handed out twice, though only the first is ever given back: the exchange of
  -- a pop finds the head that it has seen, whose `_next` has changed.
  pub pops-Twice :
      (t : Sharing) × Accesses true (at_rest s) t
      × (t.handed ≡ a ∷ b ∷ a ∷ b ∷ [])
      × (t.returned ≡ a ∷ [])
  pops-Twice = (
    _,
    access
        (access
          (access
            (access
              (access
                (access
                  (access
                    (access
                      (access
                        (access
                          (access
                            (access
                              (access
                                (access
                                  (access
                                    (access (access begin (loads 0 refl)) (reads 0 a refl live))
                                    (loads 1 refl))
                                  (reads 1 a refl live))
                                (takes 1 a b refl refl))
                              (reads 1 a refl live))
                            (misses 1 a b refl (λ e. apart (sym e))))
                          (reads 1 b refl second))
                        (takes 1 b (s.next b) refl refl))
                      (leaves 1 b refl))
                    (links 1 a refl refl))
                  (swaps 1 a (s.next b) refl refl))
                (takes 0 a b refl refl))
              (reads 0 a refl live))
            (misses 0 a _ refl (λ e. apart (sym e))))
          (reads 0 b refl second))
        (takes 0 b _ refl refl),
    refl,
    refl,
  )
