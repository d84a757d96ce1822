-- ===== src/SharedQueue/Ordered.antt =====
-- What the threads of the queue of c_experiments/src/entry_holder.h rely on at every step: the positions and the
-- cached positions are counts of pushes and pops, taken round the entries.
use shm_lru_aging_and_quotas.Base.Tests.{
  ℕ, ◌+◌, ◌%◌, ◌≤◌, ◌<◌, ◌≡◌, ◌≢◌, refl, sym, ap, ◌∙◌, arith, Option, none, some, ◌==◌, Bool-cases,
  inl, inr, ◌⊎◌, eq_of_==, ne_of_==,
}
use shm_lru_aging_and_quotas.SharedQueue.{SharedQueue, emptiness, full, next_write}
use shm_lru_aging_and_quotas.SharedQueue.Positions.{mod_lap, mod_meet, mod_past, next_write-mod}
use shm_lru_aging_and_quotas.SharedQueue.Threads.{
  Pusher, placing, placed, Popper, reading, took, Threads,
}

module _ {A : Type 0} (max : ℕ) (item : ℕ → A) where
  -- where the pusher is, between its counts
  abbrev pub PusherAt : (seen_r : ℕ) → Threads A → Pusher → Type 0
  PusherAt seen_r s Pusher.resting = Unit
  PusherAt seen_r s (placing wrt next) =
      (wrt ≡ s.pushed % max) × (next ≡ (s.pushed + 1) % max) × (s.pushed + 1 < seen_r + max)
  PusherAt seen_r s (placed next) =
      (next ≡ (s.pushed + 1) % max)
      × (s.pushed + 1 < seen_r + max)
      × (s.queue.entries (s.pushed % max) ≡ item s.pushed)

  abbrev pub PopperAt : (seen_w : ℕ) → Threads A → Popper A → Type 0
  PopperAt seen_w s Popper.resting = Unit
  PopperAt seen_w s (reading rr) = (rr ≡ s.popped % max) × (s.popped < seen_w)
  PopperAt seen_w s (took rr x) = (rr ≡ s.popped % max) × (s.popped < seen_w) × (x ≡ item s.popped)

  -- `seen_w` and `seen_r` are the counts behind the cached positions
  pub record IsOrdered (s : Threads A) : Type 0 where
    pub seen_w : ℕ
    pub seen_r : ℕ
    pub later : s.popped ≤ s.pushed
    pub room : s.pushed < s.popped + max
    pub at_w : s.queue.w ≡ s.pushed % max
    pub at_r : s.queue.r ≡ s.popped % max
    pub cached_w : s.queue.w_cached ≡ seen_w % max
    pub w_past : s.popped ≤ seen_w
    pub w_seen : seen_w ≤ s.pushed
    pub cached_r : s.queue.r_cached ≡ seen_r % max
    pub r_seen : seen_r ≤ s.popped
    pub r_past : s.pushed < seen_r + max
    pub held : (k : ℕ) → s.popped ≤ k → k < s.pushed → s.queue.entries (k % max) ≡ item k
    pub pusher_at : PusherAt seen_r s s.pusher
    pub popper_at : PopperAt seen_w s s.popper

  -- what `emptiness` and `full` find, and what the thread has then seen
  pub record Emptied (s : Threads A) (found : Option ℕ) (q : SharedQueue A) : Type 0 where
    pub ordered : IsOrdered (record s { queue = q })
    pub outcome :
        ((found ≡ none) × (s.pushed ≡ s.popped))
        ⊎ ((found ≡ some (s.popped % max)) × (s.popped < ordered.seen_w))

  pub record Filled (s : Threads A) (found : Option (ℕ × ℕ)) (q : SharedQueue A) : Type 0 where
    pub ordered : IsOrdered (record s { queue = q })
    pub outcome :
        ((found ≡ none) × (s.pushed + 1 ≡ s.popped + max))
        ⊎ ((found ≡ some (s.pushed % max, (s.pushed + 1) % max))
            × (s.pushed + 1 < ordered.seen_r + max))

  popper_further :
      (a b : ℕ) (s : Threads A) → a ≤ b → (p : Popper A) → PopperAt a s p → PopperAt b s p
  popper_further a b s le Popper.resting at = tt
  popper_further a b s le (reading rr) at = (at.0, omega (arith, at.1))
  popper_further a b s le (took rr x) at = (at.0, omega (arith, at.1), at.2)

  pusher_further :
      (a b : ℕ) (s : Threads A) → a ≤ b → (p : Pusher) → PusherAt a s p → PusherAt b s p
  pusher_further a b s le Pusher.resting at = tt
  pusher_further a b s le (placing wrt next) at = (at.0, at.1, omega (arith, at.2))
  pusher_further a b s le (placed next) at = (at.0, omega (arith, at.1), at.2)

  module _ (pos : 0 < max) (s : Threads A) (o : IsOrdered s) where
    abbrev refresh_w : IsOrdered (record s { queue = record s.queue { w_cached = s.queue.w } })
    refresh_w = record {
      seen_w = s.pushed;
      seen_r = o.seen_r;
      later = o.later;
      room = o.room;
      at_w = o.at_w;
      at_r = o.at_r;
      cached_w = o.at_w;
      w_past = o.later;
      w_seen = omega arith;
      cached_r = o.cached_r;
      r_seen = o.r_seen;
      r_past = o.r_past;
      held = o.held;
      pusher_at = o.pusher_at;
      popper_at = popper_further o.seen_w s.pushed s o.w_seen s.popper o.popper_at;
    }

    abbrev refresh_r : IsOrdered (record s { queue = record s.queue { r_cached = s.queue.r } })
    refresh_r = record {
      seen_w = o.seen_w;
      seen_r = s.popped;
      later = o.later;
      room = o.room;
      at_w = o.at_w;
      at_r = o.at_r;
      cached_w = o.cached_w;
      w_past = o.w_past;
      w_seen = o.w_seen;
      cached_r = o.at_r;
      r_seen = omega arith;
      r_past = o.room;
      held = o.held;
      pusher_at = pusher_further o.seen_r s.popped s o.r_seen s.pusher o.pusher_at;
      popper_at = o.popper_at;
    }

    unread_cached : s.queue.r ≢ s.queue.w_cached → s.popped < o.seen_w
    unread_cached ne =
        mod_past max pos s.popped o.seen_w o.w_past (λ e. ne (o.at_r ∙ e ∙ sym o.cached_w))

    unread_seen : s.queue.r ≢ s.queue.w → s.popped < s.pushed
    unread_seen ne = mod_past max pos s.popped s.pushed o.later (λ e. ne (o.at_r ∙ e ∙ sym o.at_w))

    none_unread : s.queue.r ≡ s.queue.w → s.pushed ≡ s.popped
    none_unread e = mod_meet max pos s.popped s.pushed o.later o.room (sym o.at_w ∙ sym e ∙ o.at_r)

    pub emptiness_lem : Emptied s (emptiness s.queue).0 (emptiness s.queue).1
    emptiness_lem = elim (Bool-cases (s.queue.r == s.queue.w_cached)) [
      | inr ne ↦ rw ne (record {
        ordered = o;
        outcome = inr (ap some o.at_r, unread_cached (ne_of_== s.queue.r s.queue.w_cached ne));
      })
      | inl e ↦ rw e (elim (Bool-cases (s.queue.r == s.queue.w)) [
        | inl e2 ↦ rw e2 (record {
          ordered = refresh_w;
          outcome = inl (refl, none_unread (eq_of_== s.queue.r s.queue.w e2));
        })
        | inr ne ↦ rw ne (record {
          ordered = refresh_w;
          outcome = inr (ap some o.at_r, unread_seen (ne_of_== s.queue.r s.queue.w ne));
        })
      ])
    ]

    next_at : next_write max s.queue.w ≡ (s.pushed + 1) % max
    next_at = ap (next_write max) o.at_w ∙ next_write-mod max pos s.pushed

    found_room :
        ◌≡◌ {A = Option (ℕ × ℕ)}
          (some (s.queue.w, next_write max s.queue.w))
          (some (s.pushed % max, (s.pushed + 1) % max))
    found_room = rw (o.at_w, next_write-mod max pos s.pushed) refl

    room_cached : s.queue.r_cached ≢ next_write max s.queue.w → s.pushed + 1 < o.seen_r + max
    room_cached ne =
        mod_past max pos (s.pushed + 1) (o.seen_r + max) (omega (arith, o.r_past))
          (λ e. ne (o.cached_r ∙ sym (mod_lap max o.seen_r) ∙ sym e ∙ sym next_at))

    room_seen : s.queue.r ≢ next_write max s.queue.w → s.pushed + 1 < s.popped + max
    room_seen ne =
        mod_past max pos (s.pushed + 1) (s.popped + max) (omega (arith, o.room))
          (λ e. ne (o.at_r ∙ sym (mod_lap max s.popped) ∙ sym e ∙ sym next_at))

    no_room : s.queue.r ≡ next_write max s.queue.w → s.pushed + 1 ≡ s.popped + max
    no_room e = sym (
        mod_meet max pos (s.pushed + 1) (s.popped + max) (omega (arith, o.room))
          (omega (arith, o.later)) (mod_lap max s.popped ∙ sym o.at_r ∙ e ∙ next_at))

    pub full_lem : Filled s (full max s.queue).0 (full max s.queue).1
    full_lem = elim (Bool-cases (s.queue.r_cached == next_write max s.queue.w)) [
      | inr ne ↦ rw ne (record {
        ordered = o;
        outcome =
            inr (found_room, room_cached (ne_of_== s.queue.r_cached (next_write max s.queue.w) ne));
      })
      | inl e ↦ rw e (elim (Bool-cases (s.queue.r == next_write max s.queue.w)) [
        | inl e2 ↦ rw e2 (record {
          ordered = refresh_r;
          outcome = inl (refl, no_room (eq_of_== s.queue.r (next_write max s.queue.w) e2));
        })
        | inr ne ↦ rw ne (record {
          ordered = refresh_r;
          outcome = inr (found_room, room_seen (ne_of_== s.queue.r (next_write max s.queue.w) ne));
        })
      ])
    ]
