-- ===== src/AtomicQueue/Line.antt =====
-- The elements of the queue of c_experiments/src/atomic_queue.h as a list, in the order in which they are popped.
use mathlib.Core.Path.{subst}
use shm_lru_aging_and_quotas.Base.Lists.{length, occurs}
use shm_lru_aging_and_quotas.Base.Mem.{update, update_self, update_ne}
use shm_lru_aging_and_quotas.Base.Tests.{
  ℕ, ◌+◌, ◌<◌, ◌≤◌, ◌≡◌, ◌≢◌, refl, sym, ◌∙◌, arith, false, List, [], ◌∷◌, ◌++◌,
}
use shm_lru_aging_and_quotas.Base.Words.{u32_max}
use shm_lru_aging_and_quotas.AtomicStack.FreeList.{IsStack}
use shm_lru_aging_and_quotas.AtomicQueue.{AtomicQueue, frame}

-- From the tail `t` the `_prev` fields lead through the places of the stack's region to 0.
abbrev pub Ahead : (prev : ℕ → ℕ) → (t : ℕ) → List ℕ → Type 0
Ahead prev t [] = t ≡ 0
Ahead prev t (o ∷ os) = (t ≡ o + frame) × Ahead prev (prev (o + frame)) os

-- the head of the queue
abbrev pub last_place : List ℕ → ℕ
last_place [] = 0
last_place (o ∷ []) = o + frame
last_place (o ∷ o2 ∷ os) = last_place (o2 ∷ os)

abbrev pub contents {ℓ} : {A : Type ℓ} → (ℕ → A) → List ℕ → List A
contents info [] = []
contents info (o ∷ os) = info (o + frame) ∷ contents info os

-- `order` holds the elements in the order of the pops
pub record IsQueue {A : Type 0} (q : AtomicQueue A) (items : List A) : Type 0 where
  pub order : List ℕ
  pub free : List ℕ
  pub stack : IsStack q.stack free
  pub line : Ahead q.prev q.q_tail order
  pub front : q.q_head ≡ last_place order
  pub apart : (a : ℕ) → occurs a order + occurs a free ≤ 1
  pub fits : (a : ℕ) → 0 < occurs a order + occurs a free → (0 < a) × (a + frame < u32_max)
  pub room : length order + length free ≤ q.stack.max_free_local
  pub held : contents q.info order ≡ items
  pub idle : (q.push_count ≡ 0) × (q.pop_count ≡ 0) × (q.popper ≡ false)

-- writes to a place that is not in the line
pub Ahead-away :
    (prev : ℕ → ℕ) (x v t : ℕ) (os : List ℕ)
    → occurs x os ≡ 0
    → Ahead prev t os
    → Ahead (update prev (x + frame) v) t os
Ahead-away prev x v t [] away h = h
Ahead-away prev x v t (o ∷ os) away h = (
  h.0,
  rw (update_ne prev (x + frame) (o + frame) v (ground arith))
      (Ahead-away prev x v (prev (o + frame)) os (omega arith) h.1),
)

pub contents-away :
    {A : Type 0} (info : ℕ → A) (x : ℕ) (v : A) (os : List ℕ)
    → occurs x os ≡ 0
    → contents (update info (x + frame) v) os ≡ contents info os
contents-away info x v [] away = refl
contents-away info x v (o ∷ os) away =
    rw
      (
        update_ne info (x + frame) (o + frame) v (ground arith),
        contents-away info x v os (omega arith),
      )
      refl

pub contents-append :
    {A : Type 0} (info : ℕ → A) (xs ys : List ℕ)
    → contents info (xs ++ ys) ≡ contents info xs ++ contents info ys
contents-append info [] ys = refl
contents-append info (x ∷ xs) ys = rw (contents-append info xs ys) refl

pub last-append : (os : List ℕ) (x : ℕ) → last_place (os ++ (x ∷ [])) ≡ x + frame
last-append [] x = refl
last-append (o ∷ []) x = refl
last-append (o ∷ o2 ∷ os) x = last-append (o2 ∷ os) x

pub last-has :
    (o : ℕ) (os : List ℕ) → (a : ℕ) × (last_place (o ∷ os) ≡ a + frame) × (0 < occurs a (o ∷ os))
last-has o [] = (o, refl, ground arith)
last-has o (o2 ∷ os) = let (a, e, h) = last-has o2 os in (a, e, omega arith)

-- the link from the head to a new element
pub Ahead-append :
    (prev : ℕ → ℕ) (t x o : ℕ) (os : List ℕ)
    → Ahead prev t (o ∷ os)
    → ((a : ℕ) → occurs a (o ∷ os) ≤ 1)
    → occurs x (o ∷ os) ≡ 0
    → prev (x + frame) ≡ 0
    → Ahead (update prev (last_place (o ∷ os)) (x + frame)) t (o ∷ os ++ (x ∷ []))
Ahead-append prev t x o [] h once away cleared = (
  h.0,
  (
    update_self prev (o + frame) (x + frame),
    update_ne prev (o + frame) (x + frame) (x + frame) (ground arith) ∙ cleared,
  ),
)
Ahead-append prev t x o (o2 ∷ os) h once away cleared =
    let (a, e, has) = last-has o2 os in
    let apart : o + frame ≢ last_place (o2 ∷ os) = ground (arith, once o) in
    let rest : Ahead (update prev (last_place (o2 ∷ os)) (x + frame)) (prev (o + frame))
        (o2 ∷ os ++ (x ∷ [])) =
      Ahead-append prev (prev (o + frame)) x o2 os h.1 (λ b. omega (arith, once b)) (omega arith)
        cleared in
    (
      h.0,
      subst
          (λ (b : ℕ).
            Ahead (update prev (last_place (o2 ∷ os)) (x + frame)) b (o2 ∷ os ++ (x ∷ [])))
          (sym (update_ne prev (last_place (o2 ∷ os)) (o + frame) (x + frame) apart)) rest,
    )

-- the head has nothing before it
pub Ahead-last :
    (prev : ℕ → ℕ) (t o : ℕ) (os : List ℕ) → Ahead prev t (o ∷ os) → prev (last_place (o ∷ os)) ≡ 0
Ahead-last prev t o [] h = h.1
Ahead-last prev t o (o2 ∷ os) h = Ahead-last prev (prev (o + frame)) o2 os h.1
