-- ===== src/AtomicQueue/Pushing.antt =====
-- What `push_queue` of c_experiments/src/atomic_queue.h does to the list of its elements.
use mathlib.Core.Path.{subst}
use shm_lru_aging_and_quotas.Base.Lists.{length, length-append, occurs, occurs-append}
use shm_lru_aging_and_quotas.Base.Mem.{update, update_self}
use shm_lru_aging_and_quotas.Base.Tests.{
  ℕ, suc, ◌+◌, ◌-◌, ◌<◌, ◌≤◌, ◌≡◌, refl, sym, ap, ◌∙◌, arith, true, false, some, List, [], ◌∷◌,
  ◌++◌, inl, ◌==◌, if◌then◌else◌,
}
use shm_lru_aging_and_quotas.Base.Words.{u32_max}
use shm_lru_aging_and_quotas.AtomicStack.{FreeStack}
use shm_lru_aging_and_quotas.AtomicStack.FreeList.{Chain, IsStack}
use shm_lru_aging_and_quotas.AtomicQueue.{
  AtomicQueue, QueueEl, decr_push_count, copy_in, install_first, install_before, install,
  push_queue, frame,
}
use shm_lru_aging_and_quotas.AtomicStack.Pushing.{Chain-push}
use shm_lru_aging_and_quotas.AtomicStack.FreeList.{pop_number-refused}
use shm_lru_aging_and_quotas.AtomicQueue.Line.{
  Ahead, last_place, contents, IsQueue, Ahead-away, contents-away, contents-append, last-append,
  last-has, Ahead-append, Ahead-last,
}
use shm_lru_aging_and_quotas.AtomicQueue.Idle.{update_twice, push_queue-taken}

module _ (f : ℕ) {A : Type 0} where
  module _ (q : AtomicQueue A) (items : List A) (k : IsQueue q items) (input : QueueEl A) where
    -- the queue with the first free element taken and written
    abbrev taken : AtomicQueue A
    taken =
        copy_in
          (record q {
            stack = record q.stack {
              head = q.stack.next q.stack.head;
              count_free = q.stack.count_free - 1;
            };
            push_count = 1;
            popper = false;
          })
          (q.stack.head + frame) input

    module _ (x : ℕ) (xs : List ℕ) (e : k.free ≡ x ∷ xs) where
      chain : Chain q.stack.next q.stack.head (x ∷ xs)
      chain = subst (Chain q.stack.next q.stack.head) e k.stack.chain

      once : (a : ℕ) → occurs a k.order + occurs a (x ∷ xs) ≤ 1
      once = subst (λ (l : List ℕ). (a : ℕ) → occurs a k.order + occurs a l ≤ 1) e k.apart

      at_first : q.stack.head ≡ x
      at_first = chain.0

      not_free : occurs q.stack.head xs ≡ 0
      not_free = ground (arith, at_first, once x)

      not_waiting : occurs q.stack.head k.order ≡ 0
      not_waiting = ground (arith, at_first, once x)

      all_fit : (a : ℕ) → 0 < occurs a k.order + occurs a (x ∷ xs) → (0 < a) × (a + frame < u32_max)
      all_fit =
          subst
            (λ (l : List ℕ).
              (a : ℕ) → 0 < occurs a k.order + occurs a l → (0 < a) × (a + frame < u32_max))
            e k.fits

      head_fits : (0 < q.stack.head) × (q.stack.head + frame < u32_max)
      head_fits =
          let has : 0 < occurs x (x ∷ xs) = ground arith in rw at_first (all_fit x (omega arith))

      taken-IsStack : IsStack taken.stack xs
      taken-IsStack =
          let place : q.stack.head + frame - frame ≡ q.stack.head = omega arith in
          let long : length k.free ≡ suc (length xs) = ap length e in
          let rest : Chain q.stack.next (q.stack.next q.stack.head) xs = rw at_first chain.2 in
          record {
            chain = rw place (
                Chain-push f q.stack.next q.stack.head input.next (q.stack.next q.stack.head) xs
                  not_free rest);
            counted = omega (arith, k.stack.counted);
            bounded = omega (arith, k.stack.bounded);
            narrow = k.stack.narrow;
          }

      cleared : taken.prev (q.stack.head + frame) ≡ 0
      cleared =
          update_self (update q.prev (q.stack.head + frame) input.prev) (q.stack.head + frame) 0

      -- the elements in the queue keep their links and what they hold
      taken-Ahead : Ahead taken.prev q.q_tail k.order
      taken-Ahead =
          Ahead-away (update q.prev (q.stack.head + frame) input.prev) q.stack.head 0 q.q_tail
            k.order not_waiting
            (Ahead-away q.prev q.stack.head input.prev q.q_tail k.order not_waiting k.line)

      taken-contents :
          contents taken.info (k.order ++ (q.stack.head ∷ [])) ≡ items ++ (input.info ∷ [])
      taken-contents =
          contents-append taken.info k.order (q.stack.head ∷ [])
          ∙ rw
              (
                contents-away q.info q.stack.head input.info k.order not_waiting,
                k.held,
                update_self q.info (q.stack.head + frame) input.info,
              )
              refl

      -- the queue with the element, whatever was done to link it
      installed-IsQueue :
          (t : AtomicQueue A)
          → t.stack ≡ taken.stack
          → t.info ≡ taken.info
          → Ahead t.prev t.q_tail (k.order ++ (q.stack.head ∷ []))
          → t.q_head ≡ q.stack.head + frame
          → (t.push_count ≡ 0) × (t.pop_count ≡ 0) × (t.popper ≡ false)
          → IsQueue t (items ++ (input.info ∷ []))
      installed-IsQueue t stack info line front idle = record {
        order = k.order ++ (q.stack.head ∷ []);
        free = xs;
        stack = rw stack taken-IsStack;
        line = line;
        front = front ∙ sym (last-append k.order q.stack.head);
        apart = λ a. ground (arith, once a, occurs-append a k.order (q.stack.head ∷ []), at_first);
        fits = λ a h.
            all_fit a (ground (arith, occurs-append a k.order (q.stack.head ∷ []), at_first));
        room =
            let most : t.stack.max_free_local ≡ q.stack.max_free_local =
              ap (λ (b : FreeStack). b.max_free_local) stack in
            let long : length k.free ≡ suc (length xs) = ap length e in
            omega (arith, most, k.room, length-append k.order (q.stack.head ∷ []));
        held = rw info taken-contents;
        idle = idle;
      }

      -- what `push_queue` does with the element
      pushed :
          (order : List ℕ)
          → k.order ≡ order
          → (t : AtomicQueue A) × (install taken (q.stack.head + frame) input 0 ≡ some (0, t))
            × IsQueue t (items ++ (input.info ∷ []))
      pushed [] none_waiting =
          let empty_head : q.q_head ≡ 0 = k.front ∙ ap last_place none_waiting in
          let open_head : (q.q_head == u32_max) ≡ false = ground arith in
          let first : (q.q_head == 0) ≡ true = ground arith in
          let t : AtomicQueue A =
            decr_push_count (install_first taken (q.stack.head + frame) input) in
          let line : Ahead t.prev t.q_tail (k.order ++ (q.stack.head ∷ [])) = rw none_waiting (
            refl,
            update_self (update taken.prev (q.stack.head + frame) input.prev) (q.stack.head + frame)
                0,
          ) in
          (
            t,
            rw (open_head, first) refl,
            installed-IsQueue t
                (ap (λ (n : ℕ → ℕ). record taken.stack { next = n })
                  (update_twice q.stack.next (q.stack.head + frame - frame) input.next))
                (update_twice q.info (q.stack.head + frame) input.info) line refl
                (refl, k.idle.1, refl),
          )
      pushed (o ∷ os) waiting =
          let (a, at, has) = last-has o os in
          let front : q.q_head ≡ last_place (o ∷ os) = k.front ∙ ap last_place waiting in
          let there : 0 < occurs a k.order = rw waiting has in
          let fit = k.fits a (omega arith) in
          let open_head : (q.q_head == u32_max) ≡ false = ground (arith, fit.1) in
          let later : (q.q_head == 0) ≡ false = ground (arith, fit.0) in
          let ahead : Ahead taken.prev q.q_tail (o ∷ os) =
            subst (Ahead taken.prev q.q_tail) waiting taken-Ahead in
          let last : taken.prev q.q_head ≡ 0 =
            ap taken.prev front ∙ Ahead-last taken.prev q.q_tail o os ahead in
          let unlinked : (taken.prev q.q_head == 0) ≡ true = ground arith in
          let t : AtomicQueue A = decr_push_count (install_before taken (q.stack.head + frame)) in
          let away : occurs q.stack.head (o ∷ os) ≡ 0 =
            subst (λ (l : List ℕ). occurs q.stack.head l ≡ 0) waiting not_waiting in
          let alone : (b : ℕ) → occurs b (o ∷ os) ≤ 1 =
            subst (λ (l : List ℕ). (b : ℕ) → occurs b l ≤ 1) waiting (λ b. omega (arith, once b)) in
          let linked : Ahead t.prev q.q_tail (o ∷ os ++ (q.stack.head ∷ [])) =
            subst
              (λ (h : ℕ).
                Ahead (update taken.prev h (q.stack.head + frame)) q.q_tail
                  (o ∷ os ++ (q.stack.head ∷ [])))
              (sym front)
              (Ahead-append taken.prev q.q_tail q.stack.head o os ahead alone away cleared) in
          let line : Ahead t.prev q.q_tail (k.order ++ (q.stack.head ∷ [])) =
            subst (λ (l : List ℕ). Ahead t.prev q.q_tail (l ++ (q.stack.head ∷ []))) (sym waiting)
              linked in
          (
            t,
            rw (open_head, later, unlinked) refl,
            installed-IsQueue t refl refl line refl (refl, k.idle.1, refl),
          )

    push_queue-room :
        (free : List ℕ)
        → k.free ≡ free
        → (r : ℕ × AtomicQueue A) × (push_queue (suc (suc f)) q input ≡ some r)
          × (r.0 ≡ (if length free == 0 then u32_max else 0))
          × IsQueue r.1 (if length free == 0 then items else items ++ (input.info ∷ []))
    unfolding push_queue
    push_queue-room [] e =
        let out : (q.stack.head == u32_max) ≡ true =
          ground (arith, subst (Chain q.stack.next q.stack.head) e k.stack.chain) in
        (
          (u32_max, record q { stack = record q.stack { status = false } }),
          rw (push_queue, pop_number-refused f q.stack 1 (inl out)) refl,
          refl,
          record {
            order = k.order;
            free = k.free;
            stack = record {
              chain = k.stack.chain;
              counted = k.stack.counted;
              bounded = k.stack.bounded;
              narrow = k.stack.narrow;
            };
            line = k.line;
            front = k.front;
            apart = k.apart;
            fits = k.fits;
            room = k.room;
            held = k.held;
            idle = k.idle;
          },
        )
    push_queue-room (x ∷ xs) e =
        let fit = head_fits x xs e in
        let long : length k.free ≡ suc (length xs) = ap length e in
        let more : (suc (length xs) == 0) ≡ false = ground arith in
        let (t, done, stands) = pushed x xs e k.order refl in
        (
          (0, t),
          push_queue-taken f q input k.idle.0 k.idle.1 k.idle.2 fit.0 fit.1
                (omega (arith, k.stack.counted))
              ∙ done,
          rw more refl,
          rw more stands,
        )

    -- A push, with no other process at work, on a queue that holds `items`: with no free element it returns
    -- `UINT32_MAX` and the queue holds the same; else it returns 0 and the queue holds the input after them.
    pub push_queue-IsQueue :
        (r : ℕ × AtomicQueue A) × (push_queue (suc (suc f)) q input ≡ some r)
        × (r.0 ≡ (if q.stack.count_free == 0 then u32_max else 0))
        × IsQueue r.1 (if q.stack.count_free == 0 then items else items ++ (input.info ∷ []))
    push_queue-IsQueue =
        subst
          (λ (n : ℕ).
            (r : ℕ × AtomicQueue A) × (push_queue (suc (suc f)) q input ≡ some r)
            × (r.0 ≡ (if n == 0 then u32_max else 0))
            × IsQueue r.1 (if n == 0 then items else items ++ (input.info ∷ [])))
          (sym k.stack.counted) (push_queue-room k.free refl)
