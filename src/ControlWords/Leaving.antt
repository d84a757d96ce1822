-- ===== src/ControlWords/Leaving.antt =====
-- A reader or a swappy operation that leaves a bucket of c_experiments/src/node_shm_HH.h.
use mathlib.Core.Path.{subst}
use shm_lru_aging_and_quotas.Base.Lists.{occurs-le, length, length-append, occurs, occurs-append}
use shm_lru_aging_and_quotas.Base.Mem.{update, update_self}
use shm_lru_aging_and_quotas.Base.Tests.{
  ℕ, suc, ◌-◌, ◌%◌, ◌^◌, ◌<◌, ◌≡◌, ◌≢◌, inl, inr, refl, sym, ap, ◌∙◌, true, false, ◌==◌, List, [],
  ◌∷◌, ◌++◌, arith,
}
use shm_lru_aging_and_quotas.ControlWords.Counting.{tbits_sem_at_zero_lem, tbits_swappy_at_zero_lem}
use shm_lru_aging_and_quotas.Base.Bits.Masks.{bit_and-ones, bit_or_none, bit_or_comm}
use shm_lru_aging_and_quotas.ControlWords.Fields.{is_base_tbits-even}
use shm_lru_aging_and_quotas.ControlWords.Stash.{
  TbitStashEl, TakenSpots, real_update, unstash_base_tbits, tbits_remove_reader,
  tbits_remove_swappy_op,
}
use shm_lru_aging_and_quotas.ControlWords.Visits.{
  Busy, Bounded, emptied, Registered, idle, busy, List-cases, updated-Fresh,
}

pub real_update_kept :
    (w : ℕ) (e : TbitStashEl)
    → w < 2 ^ 32
    → e.real_bits ≡ w
    → e.add_update ≡ 0
    → e.remove_update ≡ 0
    → real_update e ≡ w
real_update_kept w e lt kept add rem =
    rw (kept, add, rem) (bit_or_comm _ 0 ∙ bit_or_none _ ∙ bit_and-ones 32 w ∙ omega arith)

still :
    (entered : ℕ) (held rest : List ℕ) (s t : TakenSpots)
    → Bounded entered held s
    → length held ≡ suc (length rest)
    → (0 < length rest → t.taken ≡ s.taken)
    → Bounded (emptied rest entered) rest t
still entered held [] s t c len word = record {
  low = λ h. absurd (omega arith);
  high = λ h. absurd (omega arith);
  few = omega arith;
}
still entered held (x ∷ rest) s t c len word = record {
  low = λ h. omega (arith, word h, c.low (omega arith));
  high = λ h. omega (arith, word h, c.high (omega arith));
  few = omega (arith, c.few);
}

module _ (w : ℕ) (odd : w % 2 ≡ 1) (lt : w < 2 ^ 32) where
  -- Of all that hold an element, each holds the one of the bucket.
  pub holds_index :
      (held xs ys : List ℕ) (i a : ℕ)
      → occurs a held ≡ length held
      → held ≡ xs ++ i ∷ ys
      → (i ≡ a)
        × (occurs a (xs ++ ys) ≡ length (xs ++ ys))
        × (length held ≡ suc (length (xs ++ ys)))
  holds_index held xs ys i a all split =
      let o = ap (occurs a) split ∙ occurs-append a xs (i ∷ ys) in
      let l = ap (λ (h : List ℕ). length h) split ∙ length-append xs (i ∷ ys) in
      let e : (a == i) ≡ true = ground (arith, all, o, l, occurs-le a xs, occurs-le a ys) in
      (
        ground (arith, e),
        ground (arith, e, all, o, l, occurs-append a xs ys, length-append xs ys),
        omega (arith, l, length-append xs ys),
      )

  pub left_state : TakenSpots → ℕ → TakenSpots
  left_state s i =
      let e = s.stash i in
      record s { stash = update s.stash i (record e { updating = e.updating - 1 }) }

  pub unstash_last :
      (s : TakenSpots) (i : ℕ)
      → (s.stash i).updating - 1 ≡ 0
      → unstash_base_tbits s i ≡ record (left_state s i) { taken = real_update (s.stash i) }
  unfolding unstash_base_tbits left_state
  unstash_last s i last = rw last refl

  pub unstash_other :
      (s : TakenSpots) (i : ℕ)
      → ((s.stash i).updating - 1 == 0) ≡ false
      → unstash_base_tbits s i ≡ left_state s i
  unfolding unstash_base_tbits left_state
  unstash_other s i more = rw more refl

  pub left_Registered :
      (held : List ℕ) (s : TakenSpots)
      → s.taken ≢ 0
      → (b : Busy w held s) → (rest : List ℕ) → occurs b.index rest ≡ length rest
      → length held ≡ suc (length rest)
      → Registered w rest (unstash_base_tbits s b.index)
  unfolding left_state
  left_Registered held s ne b rest all len =
      let i = b.index in
      let e = s.stash i in
      let un = b.fresh.no_change i in
      let e' : TbitStashEl = record e { updating = e.updating - 1 } in
      let at : update s.stash i e' i ≡ e' = update_self s.stash i e' in
      elim (List-cases rest) [
        | inl none_left ↦
            let l = ap (λ (h : List ℕ). length h) none_left in
            subst (Registered w rest) (sym (unstash_last s i (omega (arith, b.counted)))) (
              idle none_left (real_update_kept w e lt b.kept un.0 un.1)
                (updated-Fresh s i e' s.free (real_update e) b.fresh un))
        | inr (x, more, split) ↦
            let l = ap (λ (h : List ℕ). length h) split in
            subst (Registered w rest) (sym (unstash_other s i (ground (arith, b.counted)))) (
              busy ne (record {
                index = i;
                index_lt = b.index_lt;
                together = all;
                some_inside = omega arith;
                counted = ap (λ (y : TbitStashEl). y.updating) at ∙ omega (arith, b.counted);
                kept = ap (λ (y : TbitStashEl). y.real_bits) at ∙ b.kept;
                named = b.named;
                fresh = updated-Fresh s i e' s.free s.taken b.fresh un;
              }))
      ]

  pub remove_reader-Busy :
      (held : List ℕ) (s : TakenSpots) (i : ℕ)
      → Busy w held s
      → (tbits_remove_reader s i ≡ unstash_base_tbits s i)
        × (tbits_remove_swappy_op s i ≡ unstash_base_tbits s i)
  unfolding tbits_remove_reader tbits_remove_swappy_op
  remove_reader-Busy held s i b =
      let even = is_base_tbits-even s.taken (omega (arith, b.named)) in
      (
        rw (tbits_remove_reader, even, tbits_sem_at_zero_lem s.taken) refl,
        rw (tbits_remove_swappy_op, even, tbits_swappy_at_zero_lem s.taken) refl,
      )

  pub leave-Registered :
      (held xs ys : List ℕ) (i : ℕ) (s : TakenSpots)
      → held ≡ xs ++ i ∷ ys
      → Registered w held s
      → Registered w (xs ++ ys) (tbits_remove_reader s i)
        × Registered w (xs ++ ys) (tbits_remove_swappy_op s i)
  leave-Registered held xs ys i s split (idle none_held at k) =
      let l = ap (λ (h : List ℕ). length h) (sym none_held ∙ split) in
      absurd (omega (arith, l, length-append xs (i ∷ ys)))
  leave-Registered held xs ys i s split (busy ne b) =
      let (at, all, len) = holds_index held xs ys i b.index b.together split in
      let (out, swapped) = remove_reader-Busy held s i b in
      let k =
        subst (λ j. Registered w (xs ++ ys) (unstash_base_tbits s j)) (sym at)
          (left_Registered held s ne b (xs ++ ys) all len) in
      (subst (Registered w (xs ++ ys)) (sym out) k, subst (Registered w (xs ++ ys)) (sym swapped) k)

  -- While somebody else stays inside, the word stays.
  left_word :
      (held : List ℕ) (s : TakenSpots) (b : Busy w held s)
      → 1 < length held
      → (unstash_base_tbits s b.index).taken ≡ s.taken
  unfolding left_state
  left_word held s b others =
      ap (λ (t : TakenSpots). t.taken) (unstash_other s b.index (ground (arith, b.counted)))

  -- What leaving keeps of the bounds, with the number of entries back at 0 when nobody is left.
  pub leave-Bounded :
      (entered : ℕ) (held xs ys : List ℕ) (i : ℕ) (s : TakenSpots)
      → held ≡ xs ++ i ∷ ys
      → Registered w held s
      → Bounded entered held s
      → Bounded (emptied (xs ++ ys) entered) (xs ++ ys) (tbits_remove_reader s i)
        × Bounded (emptied (xs ++ ys) entered) (xs ++ ys) (tbits_remove_swappy_op s i)
  leave-Bounded entered held xs ys i s split (idle none_held at k) c =
      let l = ap (λ (h : List ℕ). length h) (sym none_held ∙ split) in
      absurd (omega (arith, l, length-append xs (i ∷ ys)))
  leave-Bounded entered held xs ys i s split (busy ne b) c =
      let (at, all, len) = holds_index held xs ys i b.index b.together split in
      let (out, swapped) = remove_reader-Busy held s i b in
      let word : 0 < length (xs ++ ys) → (unstash_base_tbits s i).taken ≡ s.taken =
        λ h. ap (λ j. (unstash_base_tbits s j).taken) at ∙ left_word held s b (omega arith) in
      let k = still entered held (xs ++ ys) s (unstash_base_tbits s i) c len word in
      (
        subst (Bounded (emptied (xs ++ ys) entered) (xs ++ ys)) (sym out) k,
        subst (Bounded (emptied (xs ++ ys) entered) (xs ++ ys)) (sym swapped) k,
      )
