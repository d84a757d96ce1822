-- ===== src/ControlWords/Entering.antt =====
-- A reader or a swappy operation that enters a bucket of c_experiments/src/node_shm_HH.h.
use mathlib.Core.Path.{subst}
use mathlib.Core.Option.{some-injective}
use shm_lru_aging_and_quotas.Base.Lists.{length}
use shm_lru_aging_and_quotas.Base.Mem.{update, update_self}
use shm_lru_aging_and_quotas.Base.Tests.{
  ℕ, zero, suc, ◌≤◌, ◌*◌, ◌%◌, ◌^◌, ◌<◌, ◌≡◌, ◌≢◌, ◌⊎◌, inl, inr, refl, sym, ap, ◌∙◌, false, ◌==◌,
  List, [], ◌∷◌, none, some, arith, ==_refl,
}
use shm_lru_aging_and_quotas.Base.Words.{u32_max, add32}
use shm_lru_aging_and_quotas.ControlWords.{is_base_tbits, tbits_stash_index_of}
use shm_lru_aging_and_quotas.ControlWords.Counting.{tbits_sem_at_max_lem, tbits_swappy_at_max_lem}
use shm_lru_aging_and_quotas.ControlWords.Fields.{
  is_base_tbits-even, is_base_tbits-odd, tbit_stash_index_stamp_zero, tbits_stash_index_of_lem,
}
use shm_lru_aging_and_quotas.ControlWords.Stash.{
  TbitStashEl, TakenSpots, hold, stash_exchange, stash_taken_spots, tbits_add_reader,
  tbits_add_swappy_op,
}
use shm_lru_aging_and_quotas.ControlWords.Visits.{
  Fresh, Busy, Bounded, Registered, idle, busy, List-cases, Option-cases, updated-Fresh,
}

pub add_reader_none :
    (f : ℕ) (s : TakenSpots) → stash_taken_spots f s.taken s ≡ none → tbits_add_reader f s ≡ none
unfolding tbits_add_reader
add_reader_none f s out = rw (tbits_add_reader, out) refl

pub add_reader_some :
    (f : ℕ) (s : TakenSpots) (q : ℕ × TakenSpots)
    → stash_taken_spots f s.taken s ≡ some q
    → tbits_add_reader f s ≡ some (q.0, record (q.1) { taken = add32 (q.1.taken) (1 * 2 ^ 16) })
unfolding tbits_add_reader
add_reader_some f s q given = rw (tbits_add_reader, given, tbits_sem_at_max_lem (q.1.taken)) refl

pub add_swappy_none :
    (f : ℕ) (s : TakenSpots) → stash_taken_spots f s.taken s ≡ none → tbits_add_swappy_op f s ≡ none
unfolding tbits_add_swappy_op
add_swappy_none f s out = rw (tbits_add_swappy_op, out) refl

pub add_swappy_some :
    (f : ℕ) (s : TakenSpots) (q : ℕ × TakenSpots)
    → stash_taken_spots f s.taken s ≡ some q
    → tbits_add_swappy_op f s
      ≡ some (q.0, record (q.1) { taken = add32 (q.1.taken) (256 * 2 ^ 16) })
unfolding tbits_add_swappy_op
add_swappy_some f s q given =
    rw (tbits_add_swappy_op, given, tbits_swappy_at_max_lem (q.1.taken)) refl

-- The word of a busy bucket is neither 0 nor that of a base, and it gives the index back.
pub busy_word :
    (t i : ℕ)
    → t % 2 ^ 16 ≡ i * 2
    → t ≢ 0
    → i < 2 ^ 8
    → (is_base_tbits t ≡ false) × ((t == 0) ≡ false) × (tbits_stash_index_of t ≡ i)
busy_word t i named pos small =
    (is_base_tbits-even t (omega arith), ground arith, tbits_stash_index_of_lem t ∙ omega arith)

module _ (w : ℕ) (odd : w % 2 ≡ 1) (lt : w < 2 ^ 32) where
  unfoldable pub first_state : TakenSpots → ℕ → List ℕ → TakenSpots
  first_state s i rest = record s {
    taken = i * 2;
    stash = update s.stash i (record (s.stash i) { real_bits = w; updating = 1 });
    free = rest;
  }

  pub exchanged :
      (f : ℕ) (s : TakenSpots) (i : ℕ) (rest : List ℕ)
      → s.taken ≡ w
      → stash_exchange (suc f) w i (record s { free = rest }) ≡ some (i, first_state s i rest)
  unfolding stash_exchange first_state
  exchanged f s i rest at = rw (at, ==_refl w, tbit_stash_index_stamp_zero i) refl

  pub first_given :
      (f : ℕ) (s : TakenSpots) (i : ℕ) (rest : List ℕ)
      → s.taken ≡ w
      → s.free ≡ i ∷ rest
      → (stash_taken_spots f w s ≡ none)
        ⊎ ((i : ℕ) × (rest : List ℕ) × (s.free ≡ i ∷ rest)
            × (stash_taken_spots f w s ≡ some (i % 2 ^ 8, first_state s (i % 2 ^ 8) rest)))
  unfolding stash_taken_spots stash_exchange
  first_given zero s i rest at more = inl (simp (is_base_tbits-odd w odd, more) refl)
  first_given (suc f) s i rest at more =
      inr (i, rest, more, simp (is_base_tbits-odd w odd, more) (exchanged f s (i % 2 ^ 8) rest at))

  pub first_in :
      (f : ℕ) (s : TakenSpots)
      → s.taken ≡ w
      → (stash_taken_spots f w s ≡ none)
        ⊎ ((i : ℕ) × (rest : List ℕ) × (s.free ≡ i ∷ rest)
            × (stash_taken_spots f w s ≡ some (i % 2 ^ 8, first_state s (i % 2 ^ 8) rest)))
  unfolding stash_taken_spots
  first_in f s at = elim (List-cases s.free) [
    | inl out ↦ inl (rw (is_base_tbits-odd w odd, out) refl)
    | inr (i, rest, more) ↦ first_given f s i rest at more
  ]

  pub next_in :
      (f : ℕ) (held : List ℕ) (s : TakenSpots)
      → s.taken ≢ 0
      → (b : Busy w held s)
      → stash_taken_spots f s.taken s
        ≡ some (b.index, record s { stash = update s.stash b.index (hold (s.stash b.index)) })
  unfolding stash_taken_spots
  next_in f held s ne b =
      let (even, nonzero, named) = busy_word s.taken b.index b.named ne b.index_lt in
      rw (even, nonzero, named) refl

  pub first_Busy :
      (s : TakenSpots) (i : ℕ) (rest : List ℕ)
      → Fresh s
      → s.free ≡ i ∷ rest
      → Busy w (i % 2 ^ 8 ∷ []) (first_state s (i % 2 ^ 8) rest)
  unfolding first_state
  first_Busy s i rest k fr =
      let j = i % 2 ^ 8 in
      let e : TbitStashEl = record (s.stash j) { real_bits = w; updating = 1 } in
      record {
        index = j;
        index_lt = omega arith;
        together = ground arith;
        some_inside = omega arith;
        counted = ap (λ (x : TbitStashEl). x.updating) (update_self s.stash j e);
        kept = ap (λ (x : TbitStashEl). x.real_bits) (update_self s.stash j e);
        named = omega arith;
        fresh = updated-Fresh s j e rest (j * 2) k (k.no_change j);
      }

  pub next_Busy :
      (held : List ℕ) (s : TakenSpots)
      → length held < u32_max
      → (b : Busy w held s)
      → Busy w
          (b.index ∷ held)
          (record s { stash = update s.stash b.index (hold (s.stash b.index)) })
  next_Busy held s room b =
      let e = hold (s.stash b.index) in
      record {
        index = b.index;
        index_lt = b.index_lt;
        together = ground (arith, b.together);
        some_inside = omega arith;
        counted =
            ap (λ (x : TbitStashEl). x.updating) (update_self s.stash b.index e)
            ∙ omega (arith, b.counted);
        kept = ap (λ (x : TbitStashEl). x.real_bits) (update_self s.stash b.index e) ∙ b.kept;
        named = b.named;
        fresh = updated-Fresh s b.index e s.free s.taken b.fresh (b.fresh.no_change b.index);
      }

  pub stash-Busy :
      (f : ℕ) (held : List ℕ) (s : TakenSpots) (r : ℕ × TakenSpots)
      → length held < u32_max
      → Registered w held s
      → stash_taken_spots f s.taken s ≡ some r
      → Busy w (r.0 ∷ held) r.1
  stash-Busy f held s r room (busy ne b) e =
      subst (λ (x : ℕ × TakenSpots). Busy w (x.0 ∷ held) x.1)
        (some-injective _ _ (sym (next_in f held s ne b) ∙ e)) (next_Busy held s room b)
  stash-Busy f held s r room (idle none_held at k) e =
      let given = ap (λ v. stash_taken_spots f v s) (sym at) ∙ e in
      elim (first_in f s at) [
        | inl out ↦ absurd (cc (sym out ∙ given))
        | inr (i, rest, more, first) ↦
            subst (λ (x : ℕ × TakenSpots). Busy w (x.0 ∷ held) x.1)
              (some-injective _ _ (sym first ∙ given))
              (subst (λ (h : List ℕ). Busy w (i % 2 ^ 8 ∷ h) (first_state s (i % 2 ^ 8) rest))
                (sym none_held) (first_Busy s i rest k more))
      ]

  pub raised-Busy :
      (held : List ℕ) (s : TakenSpots) (k : ℕ)
      → Busy w held s
      → Busy w held (record s { taken = add32 s.taken (k * 2 ^ 16) })
  raised-Busy held s k b = record {
    index = b.index;
    index_lt = b.index_lt;
    together = b.together;
    some_inside = b.some_inside;
    counted = b.counted;
    kept = b.kept;
    named = omega (arith, b.named);
    fresh = record { no_change = b.fresh.no_change };
  }

  pub add_reader-Busy :
      (f : ℕ) (held : List ℕ) (s : TakenSpots) (r : ℕ × TakenSpots)
      → length held < u32_max
      → Registered w held s
      → tbits_add_reader f s ≡ some r
      → Busy w (r.0 ∷ held) r.1
  add_reader-Busy f held s r room k e = elim (Option-cases (stash_taken_spots f s.taken s)) [
    | inl out ↦ absurd (cc (sym (add_reader_none f s out) ∙ e))
    | inr (q, given) ↦
        subst (λ (x : ℕ × TakenSpots). Busy w (x.0 ∷ held) x.1)
          (some-injective _ _ (sym (add_reader_some f s q given) ∙ e))
          (raised-Busy (q.0 ∷ held) q.1 1 (stash-Busy f held s q room k given))
  ]

  pub add_swappy-Busy :
      (f : ℕ) (held : List ℕ) (s : TakenSpots) (r : ℕ × TakenSpots)
      → length held < u32_max
      → Registered w held s
      → tbits_add_swappy_op f s ≡ some r
      → Busy w (r.0 ∷ held) r.1
  add_swappy-Busy f held s r room k e = elim (Option-cases (stash_taken_spots f s.taken s)) [
    | inl out ↦ absurd (cc (sym (add_swappy_none f s out) ∙ e))
    | inr (q, given) ↦
        subst (λ (x : ℕ × TakenSpots). Busy w (x.0 ∷ held) x.1)
          (some-injective _ _ (sym (add_swappy_some f s q given) ∙ e))
          (raised-Busy (q.0 ∷ held) q.1 256 (stash-Busy f held s q room k given))
  ]

  -- The word after a stash, before the count is raised.
  stash_word :
      (f : ℕ) (held : List ℕ) (s : TakenSpots) (q : ℕ × TakenSpots)
      → Registered w held s
      → stash_taken_spots f s.taken s ≡ some q
      → (0 < length held → q.1.taken ≡ s.taken) × (held ≡ [] → q.1.taken < 2 ^ 9)
  unfolding first_state
  stash_word f held s q (busy ne b) e =
      let same = some-injective _ _ (sym (next_in f held s ne b) ∙ e) in
      (
        λ inside. sym (ap (λ (x : ℕ × TakenSpots). x.1.taken) same),
        λ none_held. absurd (omega (arith, b.some_inside, ap (λ (h : List ℕ). length h) none_held)),
      )
  stash_word f held s q (idle none_held at k) e =
      let given = ap (λ v. stash_taken_spots f v s) (sym at) ∙ e in
      elim (first_in f s at) [
        | inl out ↦ absurd (cc (sym out ∙ given))
        | inr (i, rest, more, first) ↦
            let same = some-injective _ _ (sym first ∙ given) in
            let word = ap (λ (x : ℕ × TakenSpots). x.1.taken) same in
            (
              λ inside. absurd (omega (arith, ap (λ (h : List ℕ). length h) none_held)),
              λ h. omega (arith, word),
            )
      ]

  raised-Bounded :
      (f entered : ℕ) (held : List ℕ) (s : TakenSpots) (q : ℕ × TakenSpots) (units : ℕ)
      → entered < 255
      → 0 < units
      → units ≤ 256
      → Registered w held s
      → Bounded entered held s
      → stash_taken_spots f s.taken s ≡ some q
      → Bounded
          (suc entered)
          (q.0 ∷ held)
          (record (q.1) { taken = add32 (q.1.taken) (units * 2 ^ 16) })
  raised-Bounded f entered held s q units few pos small reg b given =
      let (inside, alone) = stash_word f held s q reg given in
      elim (List-cases held) [
        | inl none_held ↦ record {
          low = λ h. omega (arith, alone none_held);
          high = λ h. omega (arith, alone none_held);
          few = omega (arith, b.few);
        }
        | inr (x, rest, split) ↦
            let some_held : 0 < length held = omega (arith, ap (λ (h : List ℕ). length h) split) in
            record {
              low = λ h. omega (arith, inside some_held, b.low some_held, b.high some_held);
              high = λ h. omega (arith, inside some_held, b.low some_held, b.high some_held);
              few = omega (arith, b.few);
            }
      ]

  pub add_reader-Bounded :
      (f entered : ℕ) (held : List ℕ) (s : TakenSpots) (r : ℕ × TakenSpots)
      → entered < 255
      → Registered w held s
      → Bounded entered held s
      → tbits_add_reader f s ≡ some r
      → Bounded (suc entered) (r.0 ∷ held) r.1
  add_reader-Bounded f entered held s r few reg b e =
      elim (Option-cases (stash_taken_spots f s.taken s)) [
        | inl out ↦ absurd (cc (sym (add_reader_none f s out) ∙ e))
        | inr (q, given) ↦
            subst (λ (x : ℕ × TakenSpots). Bounded (suc entered) (x.0 ∷ held) x.1)
              (some-injective _ _ (sym (add_reader_some f s q given) ∙ e))
              (raised-Bounded f entered held s q 1 few (omega arith) (omega arith) reg b given)
      ]

  pub add_swappy-Bounded :
      (f entered : ℕ) (held : List ℕ) (s : TakenSpots) (r : ℕ × TakenSpots)
      → entered < 255
      → Registered w held s
      → Bounded entered held s
      → tbits_add_swappy_op f s ≡ some r
      → Bounded (suc entered) (r.0 ∷ held) r.1
  add_swappy-Bounded f entered held s r few reg b e =
      elim (Option-cases (stash_taken_spots f s.taken s)) [
        | inl out ↦ absurd (cc (sym (add_swappy_none f s out) ∙ e))
        | inr (q, given) ↦
            subst (λ (x : ℕ × TakenSpots). Bounded (suc entered) (x.0 ∷ held) x.1)
              (some-injective _ _ (sym (add_swappy_some f s q given) ∙ e))
              (raised-Bounded f entered held s q 256 few (omega arith) (omega arith) reg b given)
      ]
