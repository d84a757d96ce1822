-- ===== src/AtomicQueue/Popping.antt =====
-- What `pop_queue` of c_experiments/src/atomic_queue.h does to the list of its elements.
use mathlib.Core.Path.{subst}
use shm_lru_aging_and_quotas.Base.Lists.{length, occurs}
use shm_lru_aging_and_quotas.Base.Tests.{
  ℕ, suc, ◌+◌, ◌-◌, ◌%◌, ◌^◌, ◌<◌, ◌≤◌, ◌≡◌, refl, sym, ap, ◌∙◌, arith, true, false, Option, none,
  some, List, [], ◌∷◌, ◌==◌, if◌then◌else◌,
}
use shm_lru_aging_and_quotas.AtomicStack.{FreeStack, atomic_stack_push}
use shm_lru_aging_and_quotas.AtomicStack.FreeList.{IsStack}
use shm_lru_aging_and_quotas.AtomicStack.Pushing.{push-IsStack}
use shm_lru_aging_and_quotas.AtomicQueue.{AtomicQueue, QueueEl, freed, pop_queue, frame}
use shm_lru_aging_and_quotas.AtomicStack.Pushing.{push-open}
use shm_lru_aging_and_quotas.AtomicQueue.Line.{Ahead, last_place, contents, IsQueue}
use mathlib.Core.Option.{some-injective}
use shm_lru_aging_and_quotas.AtomicStack.{full, push_link}
use shm_lru_aging_and_quotas.AtomicQueue.Idle.{wait-idle, incr_pop_count-idle}

-- the first of the list, and the rest
abbrev pub first : {A : Type 0} → List A → Option A
first [] = none
first (x ∷ xs) = some x

abbrev pub rest : {A : Type 0} → List A → List A
rest [] = []
rest (x ∷ xs) = xs

abbrev pub info_of : {A : Type 0} → Option (QueueEl A) → Option A
info_of none = none
info_of (some output) = some output.info

-- the free list with the first of the line in front
abbrev pub with_first : (order free : List ℕ) → List ℕ
with_first [] free = free
with_first (o ∷ os) free = o ∷ free

module _ (f : ℕ) {A : Type 0} (q : AtomicQueue A) (items : List A) (k : IsQueue q items) where
  -- the element freed
  freed-IsStack :
      (o : ℕ) (os : List ℕ)
      → k.order ≡ o ∷ os
      → (s : FreeStack) × (atomic_stack_push (suc (suc f)) q.stack o ≡ some s)
        × IsStack s (o ∷ k.free)
        × (s.max_free_local ≡ q.stack.max_free_local)
  freed-IsStack o os e =
      let long : length k.order ≡ suc (length os) = ap length e in
      let goes : full q.stack ≡ false = ground (arith, k.stack.counted, k.room) in
      let has : 0 < occurs o k.order = rw e (ground arith) in
      let away : occurs o k.free ≡ 0 = omega (arith, k.apart o) in
      let fit = k.fits o (omega arith) in
      let (s, done, stands, full_same) =
        push-IsStack (suc f) q.stack k.free o k.stack away (omega (arith, fit.1)) in
      let exact = push-open (suc f) q.stack o goes (omega (arith, k.stack.counted, k.room)) in
      let same =
        some-injective s
          (record (push_link q.stack o) {
            head = o;
            count_free = (q.stack.count_free + 1) % 2 ^ 32;
          })
          (sym done ∙ exact) in
      let room : (q.stack.max_free_local == length k.free) ≡ false = ground (arith, k.room) in
      (
        s,
        done,
        subst (IsStack s) (rw room refl) stands,
        ap (λ (t : FreeStack). t.max_free_local) same,
      )

  left_head :
      (o : ℕ) (os : List ℕ)
      → k.order ≡ o ∷ os
      → Ahead q.prev (q.prev q.q_tail) os
      → (if q.prev q.q_tail == 0 then 0 else q.q_head) ≡ last_place os
  left_head o [] e h = ground arith
  left_head o (o2 ∷ os) e h =
      let later : (q.prev q.q_tail == 0) ≡ false = ground (arith, h.0) in
      rw later (k.front ∙ ap last_place e)

  many :
      {order : List ℕ}
      → k.order ≡ order
      → (a : ℕ) → occurs a k.order + occurs a k.free ≡ occurs a order + occurs a k.free
  many e a = ap (λ (l : List ℕ). occurs a l + occurs a k.free) e

  both : {order : List ℕ} → k.order ≡ order → (a : ℕ) → occurs a order + occurs a k.free ≤ 1
  both e a = omega (arith, many e a, k.apart a)

  pop_queue-order :
      (order : List ℕ)
      → k.order ≡ order
      → (r : Option (QueueEl A) × AtomicQueue A) × (pop_queue (suc (suc f)) q ≡ some r)
        × (info_of r.0 ≡ first (contents q.info order))
        × (w : IsQueue r.1 (rest (contents q.info order))) × (w.order ≡ rest order)
        × (w.free ≡ with_first order k.free)
  unfolding pop_queue
  pop_queue-order [] e =
      let out : (q.q_tail == 0) ≡ true = ground (arith, subst (Ahead q.prev q.q_tail) e k.line) in
      (
        (none, record q { pop_count = 0; popper = false }),
        rw
            (
              pop_queue,
              incr_pop_count-idle f q k.idle.1 k.idle.2,
              wait-idle (suc f) q.push_count k.idle.0,
              out,
            )
            refl,
        refl,
        record {
          order = k.order;
          free = k.free;
          stack = k.stack;
          line = k.line;
          front = k.front;
          apart = k.apart;
          fits = k.fits;
          room = k.room;
          held = ap (contents q.info) e;
          idle = (k.idle.0, refl, refl);
        },
        e,
        refl,
      )
  pop_queue-order (o ∷ os) e =
      let line : Ahead q.prev q.q_tail (o ∷ os) = subst (Ahead q.prev q.q_tail) e k.line in
      let (s, done, stands, most) = freed-IsStack o os e in
      let place : q.q_tail - frame ≡ o = omega (arith, line.0) in
      let waiting : (q.q_tail == 0) ≡ false = ground (arith, line.0) in
      let freeing : atomic_stack_push (suc (suc f)) q.stack (q.q_tail - frame) ≡ some s =
        ap (atomic_stack_push (suc (suc f)) q.stack) place ∙ done in
      let output : QueueEl A = record {
        info = q.info q.q_tail;
        next = q.stack.next (q.q_tail - frame);
        prev = q.prev q.q_tail;
      } in
      let t : AtomicQueue A =
        freed q.q_tail (q.prev q.q_tail)
          (record q { pop_count = 1; popper = false; q_tail = q.prev q.q_tail }) s in
      let long : length k.order ≡ suc (length os) = ap length e in
      let ahead : Ahead q.prev (q.prev q.q_tail) os = rw line.0 line.1 in
      (
        (some output, t),
        rw
            (
              pop_queue,
              incr_pop_count-idle f q k.idle.1 k.idle.2,
              wait-idle (suc f) q.push_count k.idle.0,
              waiting,
              freeing,
            )
            refl,
        ap (λ (a : ℕ). some (q.info a)) line.0,
        record {
          order = os;
          free = o ∷ k.free;
          stack = stands;
          line = ahead;
          front = left_head o os e ahead;
          apart = λ a. omega (arith, both e a);
          fits = λ a h. k.fits a (omega (arith, many e a));
          room = omega (arith, most, k.room);
          held = refl;
          idle = (k.idle.0, refl, refl);
        },
        refl,
        refl,
      )

  -- A pop, with no other process at work, of a queue that holds `items`: with none it returns `UINT32_MAX`; else
  -- it gives the first of them, and the queue holds the rest. The element that held it is then the first of the
  -- free list, and no other element moves.
  pub pop_queue-IsQueue :
      (r : Option (QueueEl A) × AtomicQueue A) × (pop_queue (suc (suc f)) q ≡ some r)
      × (info_of r.0 ≡ first items)
      × (w : IsQueue r.1 (rest items)) × (w.order ≡ rest k.order)
      × (w.free ≡ with_first k.order k.free)
  pop_queue-IsQueue =
      subst
        (λ (l : List A).
          (r : Option (QueueEl A) × AtomicQueue A) × (pop_queue (suc (suc f)) q ≡ some r)
          × (info_of r.0 ≡ first l)
          × (w : IsQueue r.1 (rest l)) × (w.order ≡ rest k.order)
          × (w.free ≡ with_first k.order k.free))
        k.held (pop_queue-order k.order refl)
