-- ===== src/SharedQueue/Fifo.antt =====
-- In which order the queue of c_experiments/src/entry_holder.h gives its entries.
use native.Mathlib.Nat.{mod-eq_of_lt}
use shm_lru_aging_and_quotas.Base.Tests.{
  ℕ, ◌+◌, ◌%◌, ◌≤◌, ◌<◌, ◌≡◌, sym, arith, none, some, inl, inr, ◌⊎◌,
}
use shm_lru_aging_and_quotas.SharedQueue.{emptiness, full}
use shm_lru_aging_and_quotas.SharedQueue.Threads.{took, Threads, Turns, begin, turn, fresh}
use shm_lru_aging_and_quotas.SharedQueue.Ordered.{PopperAt, IsOrdered, emptiness_lem, full_lem}
use mathlib.Core.Path.{subst}
use shm_lru_aging_and_quotas.SharedQueue.Steps.{Turn-IsOrdered}

module _ {A : Type 0} (max : ℕ) (item : ℕ → A) where
  fresh-IsOrdered : (blank : A) → 0 < max → IsOrdered max item (fresh blank)
  fresh-IsOrdered blank pos =
      let start : 0 ≡ 0 % max = sym (mod-eq_of_lt pos) in
      record {
        seen_w = 0;
        seen_r = 0;
        later = omega arith;
        room = omega arith;
        at_w = start;
        at_r = start;
        cached_w = start;
        w_past = omega arith;
        w_seen = omega arith;
        cached_r = start;
        r_seen = omega arith;
        r_past = omega arith;
        held = λ k low high. absurd (omega arith);
        pusher_at = tt;
        popper_at = tt;
      }

  Turns-IsOrdered :
      (pos : 0 < max) {s t : Threads A}
      → IsOrdered max item s
      → Turns max item s t
      → IsOrdered max item t
  Turns-IsOrdered pos o begin = o
  Turns-IsOrdered pos o (turn steps step) =
      Turn-IsOrdered max item pos (Turns-IsOrdered pos o steps) step

  module _ (blank : A) (pos : 0 < max) (s : Threads A)
      (steps : Turns max item (fresh blank) s) where
    pub reached : IsOrdered max item s
    reached = Turns-IsOrdered pos (fresh-IsOrdered blank pos) steps

    -- In every state that the two threads of a queue of at least one entry reach from its reset, however their
    -- steps are interleaved, no more has been popped than pushed and fewer than `max` items are waiting; and
    -- an entry that the popping thread has read is the item pushed at its own place in the order: the k-th
    -- item popped is the k-th one pushed.
    pub fifo :
        (s.popped ≤ s.pushed)
        × (s.pushed < s.popped + max)
        × ((rr : ℕ) (x : A) → s.popper ≡ took rr x → x ≡ item s.popped)
    fifo = (
      reached.later,
      reached.room,
      λ rr x e. (subst (PopperAt max item reached.seen_w s) e reached.popper_at).2,
    )

    -- In every such state, whatever the cached positions are, `emptiness` finds nothing to read exactly
    -- when all that was pushed has been popped, and else the place of the next item; and `full`
    -- finds no room exactly when `max - 1` items are waiting, and else the place after the last item.
    pub waiting :
        (((emptiness s.queue).0 ≡ none) × (s.pushed ≡ s.popped)
          ⊎ ((emptiness s.queue).0 ≡ some (s.popped % max)) × (s.popped < s.pushed))
        × (((full max s.queue).0 ≡ none) × (s.pushed + 1 ≡ s.popped + max)
            ⊎ ((full max s.queue).0 ≡ some (s.pushed % max, (s.pushed + 1) % max))
              × (s.pushed + 1 < s.popped + max))
    waiting =
        let looked = emptiness_lem max item pos s reached in
        let asked = full_lem max item pos s reached in
        (
          elim looked.outcome [
            | inl nothing ↦ inl nothing
            | inr there ↦ inr (there.0, omega (arith, there.1, looked.ordered.w_seen))
          ],
          elim asked.outcome [
            | inl nothing ↦ inl nothing
            | inr there ↦ inr (there.0, omega (arith, there.1, asked.ordered.r_seen))
          ],
        )
