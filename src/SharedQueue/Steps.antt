-- ===== src/SharedQueue/Steps.antt =====
-- Every step of the threads of the queue of c_experiments/src/entry_holder.h keeps what they rely on.
use native.Mathlib.Decide.{dec_lt}
use mathlib.Core.Option.{some-injective}
use shm_lru_aging_and_quotas.Base.Tests.{ℕ, ◌+◌, ◌%◌, ◌<◌, ◌≡◌, sym, ap, ◌∙◌, arith, some, inl, inr}
use shm_lru_aging_and_quotas.Base.Mem.{update_ne, update_self}
use shm_lru_aging_and_quotas.SharedQueue.{emptiness, release_read, full, put_entry, release_write}
use shm_lru_aging_and_quotas.SharedQueue.Positions.{mod_apart, next_read-mod}
use shm_lru_aging_and_quotas.SharedQueue.Threads.{
  Pusher, placing, placed, Popper, reading, took, Threads, Turn, finds_full, finds_room, places,
  pushes, finds_empty, finds_entry, takes, pops,
}
use shm_lru_aging_and_quotas.SharedQueue.Ordered.{
  PusherAt, PopperAt, IsOrdered, emptiness_lem, full_lem,
}
use mathlib.Core.Path.{subst}

module _ {A : Type 0} (max : ℕ) (item : ℕ → A) where
  -- the other thread keeps its place when an item is popped, and when one is pushed
  after_pop :
      (seen : ℕ) (s : Threads A) (p : Pusher)
      → PusherAt max item seen s p
      → PusherAt max item seen (record s { popped = s.popped + 1 }) p
  after_pop seen s Pusher.resting at = tt
  after_pop seen s (placing wrt next) at = at
  after_pop seen s (placed next) at = at

  after_push :
      (seen : ℕ) (s : Threads A) (p : Popper A)
      → PopperAt max item seen s p
      → PopperAt max item seen (record s { pushed = s.pushed + 1 }) p
  after_push seen s Popper.resting at = tt
  after_push seen s (reading rr) at = at
  after_push seen s (took rr x) at = at

  pusher-IsOrdered :
      (s : Threads A) (o : IsOrdered max item s) (p : Pusher)
      → PusherAt max item o.seen_r s p
      → IsOrdered max item (record s { pusher = p })
  pusher-IsOrdered s o p at = record {
    seen_w = o.seen_w;
    seen_r = o.seen_r;
    later = o.later;
    room = o.room;
    at_w = o.at_w;
    at_r = o.at_r;
    cached_w = o.cached_w;
    w_past = o.w_past;
    w_seen = o.w_seen;
    cached_r = o.cached_r;
    r_seen = o.r_seen;
    r_past = o.r_past;
    held = o.held;
    pusher_at = at;
    popper_at = o.popper_at;
  }

  popper-IsOrdered :
      (s : Threads A) (o : IsOrdered max item s) (p : Popper A)
      → PopperAt max item o.seen_w s p
      → IsOrdered max item (record s { popper = p })
  popper-IsOrdered s o p at = record {
    seen_w = o.seen_w;
    seen_r = o.seen_r;
    later = o.later;
    room = o.room;
    at_w = o.at_w;
    at_r = o.at_r;
    cached_w = o.cached_w;
    w_past = o.w_past;
    w_seen = o.w_seen;
    cached_r = o.cached_r;
    r_seen = o.r_seen;
    r_past = o.r_past;
    held = o.held;
    pusher_at = o.pusher_at;
    popper_at = at;
  }

  module _ (pos : 0 < max) (s : Threads A) (o : IsOrdered max item s) where
    placing-IsOrdered :
        (wrt next : ℕ)
        → s.pusher ≡ placing wrt next
        → IsOrdered max item
            (record s { queue = put_entry s.queue wrt (item s.pushed); pusher = placed next })
    placing-IsOrdered wrt next e =
        let at : PusherAt max item o.seen_r s (placing wrt next) =
          subst (PusherAt max item o.seen_r s) e o.pusher_at in
        record {
          seen_w = o.seen_w;
          seen_r = o.seen_r;
          later = o.later;
          room = o.room;
          at_w = o.at_w;
          at_r = o.at_r;
          cached_w = o.cached_w;
          w_past = o.w_past;
          w_seen = o.w_seen;
          cached_r = o.cached_r;
          r_seen = o.r_seen;
          r_past = o.r_past;
          held = λ k low high.
              update_ne s.queue.entries wrt (k % max) (item s.pushed) (λ same.
                mod_apart max pos k s.pushed high (omega (arith, o.room)) (sym (same ∙ at.0)))
              ∙ o.held k low high;
          pusher_at =
              (at.1, at.2, rw at.0 (update_self s.queue.entries (s.pushed % max) (item s.pushed)));
          popper_at = o.popper_at;
        }

    pushing-IsOrdered :
        (next : ℕ)
        → s.pusher ≡ placed next
        → IsOrdered max item (record s {
          queue = release_write s.queue next;
          pusher = Pusher.resting;
          pushed = s.pushed + 1;
        })
    pushing-IsOrdered next e =
        let at : PusherAt max item o.seen_r s (placed next) =
          subst (PusherAt max item o.seen_r s) e o.pusher_at in
        record {
          seen_w = o.seen_w;
          seen_r = o.seen_r;
          later = omega (arith, o.later);
          room = omega (arith, at.1, o.r_seen);
          at_w = at.0;
          at_r = o.at_r;
          cached_w = o.cached_w;
          w_past = o.w_past;
          w_seen = omega (arith, o.w_seen);
          cached_r = o.cached_r;
          r_seen = o.r_seen;
          r_past = at.1;
          held = λ k low high. elim (dec_lt k s.pushed) [
            | yes lt ↦ o.held k low lt
            | no ge ↦
                let last : s.pushed ≡ k = omega arith in
                subst (λ (j : ℕ). s.queue.entries (j % max) ≡ item j) last at.2
          ];
          pusher_at = tt;
          popper_at = after_push o.seen_w s s.popper o.popper_at;
        }

    popping-IsOrdered :
        (rr : ℕ) (x : A)
        → s.popper ≡ took rr x
        → IsOrdered max item (record s {
          queue = release_read max s.queue rr;
          popper = Popper.resting;
          popped = s.popped + 1;
        })
    popping-IsOrdered rr x e =
        let at : PopperAt max item o.seen_w s (took rr x) =
          subst (PopperAt max item o.seen_w s) e o.popper_at in
        record {
          seen_w = o.seen_w;
          seen_r = o.seen_r;
          later = omega (arith, at.1, o.w_seen);
          room = omega (arith, o.room);
          at_w = o.at_w;
          at_r = rw at.0 (next_read-mod max pos s.popped);
          cached_w = o.cached_w;
          w_past = omega (arith, at.1);
          w_seen = o.w_seen;
          cached_r = o.cached_r;
          r_seen = omega (arith, o.r_seen);
          r_past = o.r_past;
          held = λ k low high. o.held k (omega arith) high;
          pusher_at = after_pop o.seen_r s s.pusher o.pusher_at;
          popper_at = tt;
        }

    taking-IsOrdered :
        (rr : ℕ)
        → s.popper ≡ reading rr
        → IsOrdered max item (record s { popper = took rr (s.queue.entries rr) })
    taking-IsOrdered rr e =
        let at : PopperAt max item o.seen_w s (reading rr) =
          subst (PopperAt max item o.seen_w s) e o.popper_at in
        let read : s.queue.entries rr ≡ item s.popped =
          ap s.queue.entries at.0 ∙ o.held s.popped (omega arith) (omega (arith, at.1, o.w_seen)) in
        popper-IsOrdered s o (took rr (s.queue.entries rr)) (at.0, at.1, read)

    finding-IsOrdered :
        (rr : ℕ)
        → (emptiness s.queue).0 ≡ some rr
        → IsOrdered max item (record s { queue = (emptiness s.queue).1; popper = reading rr })
    finding-IsOrdered rr e =
        let found = emptiness_lem max item pos s o in
        popper-IsOrdered (record s { queue = (emptiness s.queue).1 }) found.ordered (reading rr)
          (elim found.outcome [
            | inl nothing ↦ absurd (cc (sym nothing.0 ∙ e))
            | inr there ↦ (some-injective rr (s.popped % max) (sym e ∙ there.0), there.1)
          ])

    making-IsOrdered :
        (wrt next : ℕ)
        → (full max s.queue).0 ≡ some (wrt, next)
        → IsOrdered max item (record s { queue = (full max s.queue).1; pusher = placing wrt next })
    making-IsOrdered wrt next e =
        let found = full_lem max item pos s o in
        pusher-IsOrdered (record s { queue = (full max s.queue).1 }) found.ordered
          (placing wrt next)
          (elim found.outcome [
            | inl nothing ↦ absurd (cc (sym nothing.0 ∙ e))
            | inr there ↦
                let same =
                  some-injective (wrt, next) (s.pushed % max, (s.pushed + 1) % max)
                    (sym e ∙ there.0) in
                (ap (λ (x : ℕ × ℕ). x.0) same, ap (λ (x : ℕ × ℕ). x.1) same, there.1)
          ])

  pub Turn-IsOrdered :
      (pos : 0 < max) {s t : Threads A}
      → IsOrdered max item s
      → Turn max item s t
      → IsOrdered max item t
  Turn-IsOrdered pos {s} o (finds_full rest e) = (full_lem max item pos s o).ordered
  Turn-IsOrdered pos {s} o (finds_room wrt next rest e) = making-IsOrdered pos s o wrt next e
  Turn-IsOrdered pos {s} o (places wrt next e) = placing-IsOrdered pos s o wrt next e
  Turn-IsOrdered pos {s} o (pushes next e) = pushing-IsOrdered pos s o next e
  Turn-IsOrdered pos {s} o (finds_empty rest e) = (emptiness_lem max item pos s o).ordered
  Turn-IsOrdered pos {s} o (finds_entry rr rest e) = finding-IsOrdered pos s o rr e
  Turn-IsOrdered pos {s} o (takes rr e) = taking-IsOrdered pos s o rr e
  Turn-IsOrdered pos {s} o (pops rr x e) = popping-IsOrdered pos s o rr x e
