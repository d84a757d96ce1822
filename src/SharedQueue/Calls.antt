-- ===== src/SharedQueue/Calls.antt =====
-- Whole calls of `push` and `pop` of the queue of c_experiments/src/entry_holder.h, as turns of their threads.
use mathlib.Core.Path.{subst}
use shm_lru_aging_and_quotas.Base.Tests.{
  ℕ, ◌+◌, ◌%◌, ◌<◌, ◌≡◌, refl, ap, ◌∙◌, arith, Bool, true, false, Option, none, some, inl, inr, ◌⊎◌,
}
use shm_lru_aging_and_quotas.SharedQueue.{
  SharedQueue, emptiness, full, popped_from, pop, pushed_to, push, release_read, put_entry,
  release_write,
}
use shm_lru_aging_and_quotas.SharedQueue.Ordered.{emptiness_lem}
use shm_lru_aging_and_quotas.SharedQueue.Fifo.{reached, waiting}
use shm_lru_aging_and_quotas.SharedQueue.Threads.{
  Pusher, Popper, Threads, finds_full, finds_room, places, pushes, finds_empty, finds_entry, takes,
  pops, Turns, begin, turn, fresh,
}

module _ {A : Type 0} (max : ℕ) where
  popped_from-none : (p : Option ℕ × SharedQueue A) → p.0 ≡ none → (popped_from max p).0 ≡ none
  popped_from-none (none, q) e = refl
  popped_from-none (some rr, q) e = absurd (cc e)

  popped_from-some :
      (rr : ℕ) (p : Option ℕ × SharedQueue A)
      → p.0 ≡ some rr
      → (popped_from max p).0 ≡ some (p.1.entries rr)
  popped_from-some rr (none, q) e = absurd (cc e)
  popped_from-some rr (some at, q) e = ap some (ap q.entries (cc e))

module _ {A : Type 0} where
  pushed_to-none :
      (x : A) (p : Option (ℕ × ℕ) × SharedQueue A) → p.0 ≡ none → (pushed_to x p).0 ≡ false
  pushed_to-none x (none, q) e = refl
  pushed_to-none x (some (wrt, next), q) e = absurd (cc e)

  pushed_to-some :
      (x : A) (w : ℕ × ℕ) (p : Option (ℕ × ℕ) × SharedQueue A)
      → p.0 ≡ some w
      → (pushed_to x p).0 ≡ true
  pushed_to-some x w (none, q) e = absurd (cc e)
  pushed_to-some x w (some (wrt, next), q) e = refl

module _ {A : Type 0} (max : ℕ) (item : ℕ → A) where
  abbrev pub after_push : Threads A → Bool × SharedQueue A → Threads A
  after_push s (true, q) = record s { queue = q; pusher = Pusher.resting; pushed = s.pushed + 1 }
  after_push s (false, q) = record s { queue = q }

  abbrev pub after_pop : Threads A → Option A × SharedQueue A → Threads A
  after_pop s (some x, q) = record s { queue = q; popper = Popper.resting; popped = s.popped + 1 }
  after_pop s (none, q) = record s { queue = q }

  push-Turns :
      (s : Threads A) (p : Option (ℕ × ℕ) × SharedQueue A)
      → full max s.queue ≡ p
      → s.pusher ≡ Pusher.resting
      → Turns max item s (after_push s (pushed_to (item s.pushed) p))
  push-Turns s (none, q) e rest =
      subst (λ (p : Option (ℕ × ℕ) × SharedQueue A). Turns max item s (record s { queue = p.1 })) e
        (turn begin (finds_full rest (ap (λ (p : Option (ℕ × ℕ) × SharedQueue A). p.0) e)))
  push-Turns s (some (wrt, next), q) e rest =
      subst
        (λ (p : Option (ℕ × ℕ) × SharedQueue A).
          Turns max item s
            (after_push s (true, release_write (put_entry p.1 wrt (item s.pushed)) next)))
        e
        (turn
          (turn
            (turn begin
              (finds_room wrt next rest (ap (λ (p : Option (ℕ × ℕ) × SharedQueue A). p.0) e)))
            (places wrt next refl))
          (pushes next refl))

  pop-Turns :
      (s : Threads A) (p : Option ℕ × SharedQueue A)
      → emptiness s.queue ≡ p
      → s.popper ≡ Popper.resting
      → Turns max item s (after_pop s (popped_from max p))
  pop-Turns s (none, q) e rest =
      subst (λ (p : Option ℕ × SharedQueue A). Turns max item s (record s { queue = p.1 })) e
        (turn begin (finds_empty rest (ap (λ (p : Option ℕ × SharedQueue A). p.0) e)))
  pop-Turns s (some rr, q) e rest =
      subst
        (λ (p : Option ℕ × SharedQueue A).
          Turns max item s (after_pop s (some (p.1.entries rr), release_read max p.1 rr)))
        e
        (turn
          (turn (turn begin (finds_entry rr rest (ap (λ (p : Option ℕ × SharedQueue A). p.0) e)))
            (takes rr refl))
          (pops rr (((emptiness s.queue).1).entries rr) refl))

  -- A whole `push` of the next item by a thread at rest, and a whole `pop`, are sequences of the turns: the
  -- states of the interleaving hold every state that calls of the two operations lead to.
  calls-Turns :
      (s : Threads A)
      → (s.pusher ≡ Pusher.resting
          → Turns max item s (after_push s (push max s.queue (item s.pushed))))
        × (s.popper ≡ Popper.resting → Turns max item s (after_pop s (pop max s.queue)))
  unfolding push pop
  calls-Turns s = (push-Turns s (full max s.queue) refl, pop-Turns s (emptiness s.queue) refl)

  module _ (blank : A) (pos : 0 < max) (s : Threads A)
      (steps : Turns max item (fresh blank) s) where
    -- In every state that the two threads of a queue of at least one entry reach from its reset, a call of
    -- `push` returns false exactly when `max - 1` items are waiting and true with fewer, and a call of
    -- `pop` returns false exactly when none is waiting and else the oldest item not yet popped.
    pub calls_lem :
        (x : A)
        → (((push max s.queue x).0 ≡ false) × (s.pushed + 1 ≡ s.popped + max)
            ⊎ ((push max s.queue x).0 ≡ true) × (s.pushed + 1 < s.popped + max))
          × (((pop max s.queue).0 ≡ none) × (s.pushed ≡ s.popped)
              ⊎ ((pop max s.queue).0 ≡ some (item s.popped)) × (s.popped < s.pushed))
    unfolding push pop
    calls_lem x =
        let o = reached max item blank pos s steps in
        let (left, room) = waiting max item blank pos s steps in
        (
          elim room [
            | inl out ↦ inl (pushed_to-none x (full max s.queue) out.0, out.1)
            | inr more ↦ inr (
              pushed_to-some x (s.pushed % max, (s.pushed + 1) % max) (full max s.queue) more.0,
              more.1,
            )
          ],
          elim left [
            | inl out ↦ inl (popped_from-none max (emptiness s.queue) out.0, out.1)
            | inr more ↦
                let kept =
                  (emptiness_lem max item pos s o).ordered.held s.popped (omega arith) more.1 in
                inr (
                  popped_from-some max (s.popped % max) (emptiness s.queue) more.0 ∙ ap some kept,
                  more.1,
                )
          ],
        )
