-- ===== src/ControlWords/Exhausted.antt =====
-- What readers that come and go one after the other leave of the stash of c_experiments/src/node_shm_HH.h.
use shm_lru_aging_and_quotas.Base.Lists.{length}
use shm_lru_aging_and_quotas.Base.Tests.{
  ℕ, zero, suc, ◌-◌, ◌*◌, ◌%◌, ◌^◌, ◌<◌, ◌≡◌, ◌≢◌, inl, inr, refl, ap, ◌∙◌, Option, none, some,
  List, [], ◌∷◌, ◌==◌, arith, Bool-cases,
}
use shm_lru_aging_and_quotas.Base.Words.{add32}
use shm_lru_aging_and_quotas.ControlWords.Fields.{is_base_tbits-odd}
use shm_lru_aging_and_quotas.ControlWords.Stash.{
  TakenSpots, stash_taken_spots, unstash_base_tbits, tbits_add_reader, tbits_remove_reader,
}
use shm_lru_aging_and_quotas.ControlWords.Entering.{
  first_state, exchanged, first_Busy, add_reader_none, add_reader_some, raised-Busy,
}
use shm_lru_aging_and_quotas.ControlWords.Leaving.{leave-Registered, remove_reader-Busy}
use shm_lru_aging_and_quotas.ControlWords.Visits.{Fresh, Busy, Registered, idle, busy}

-- `n` readers, each of which enters and leaves before the next one comes
unfoldable pub readings : (n : ℕ) → TakenSpots → Option TakenSpots
readings zero s = some s
readings (suc n) s = elim (tbits_add_reader 1 s) [
  | none ↦ none
  | some (tse, t) ↦ readings n (tbits_remove_reader t tse)
]

unstash-free : (s : TakenSpots) (i : ℕ) → (unstash_base_tbits s i).free ≡ s.free
unfolding unstash_base_tbits
unstash-free s i = elim (Bool-cases ((s.stash i).updating - 1 == 0)) [
  | inl e ↦ rw e refl
  | inr e ↦ rw e refl
]

module _ (w : ℕ) (odd : w % 2 ≡ 1) (lt : w < 2 ^ 32) where
  pub first_stash :
      (s : TakenSpots) (i : ℕ) (rest : List ℕ)
      → s.taken ≡ w
      → s.free ≡ i ∷ rest
      → stash_taken_spots 1 s.taken s ≡ some (i % 2 ^ 8, first_state w odd lt s (i % 2 ^ 8) rest)
  unfolding stash_taken_spots
  first_stash s i rest at more =
      ap (λ v. stash_taken_spots 1 v s) at
      ∙ simp (is_base_tbits-odd w odd, more) (exchanged w odd lt 0 s (i % 2 ^ 8) rest at)

  refused : (f : ℕ) (s : TakenSpots) → s.taken ≡ w → s.free ≡ [] → tbits_add_reader f s ≡ none
  unfolding stash_taken_spots
  refused f s at out =
      add_reader_none f s
        (ap (λ v. stash_taken_spots f v s) at ∙ simp (is_base_tbits-odd w odd, out) refl)

  -- The reader that is inside alone after one has entered.
  one_state : TakenSpots → ℕ → List ℕ → TakenSpots
  one_state s i rest =
      let t = first_state w odd lt s (i % 2 ^ 8) rest in
      record t { taken = add32 t.taken (1 * 2 ^ 16) }

  one_Busy :
      (s : TakenSpots) (i : ℕ) (rest : List ℕ)
      → Fresh s
      → s.free ≡ i ∷ rest
      → Busy w (i % 2 ^ 8 ∷ []) (one_state s i rest)
  unfolding one_state
  one_Busy s i rest k more =
      raised-Busy w odd lt (i % 2 ^ 8 ∷ []) (first_state w odd lt s (i % 2 ^ 8) rest) 1
        (first_Busy w odd lt s i rest k more)

  one_nonzero : (s : TakenSpots) (i : ℕ) (rest : List ℕ) → (one_state s i rest).taken ≢ 0
  unfolding one_state first_state
  one_nonzero s i rest e = omega (arith, e)

  out_state : TakenSpots → ℕ → List ℕ → TakenSpots
  out_state s i rest = tbits_remove_reader (one_state s i rest) (i % 2 ^ 8)

  readings_one :
      (n : ℕ) (s : TakenSpots) (i : ℕ) (rest : List ℕ)
      → s.taken ≡ w
      → s.free ≡ i ∷ rest
      → readings (suc n) s ≡ readings n (out_state s i rest)
  unfolding readings out_state one_state
  readings_one n s i rest at more =
      rw (readings, add_reader_some 1 s _ (first_stash s i rest at more)) refl

  out-Registered :
      (s : TakenSpots) (i : ℕ) (rest : List ℕ)
      → Fresh s
      → s.free ≡ i ∷ rest
      → Registered w [] (out_state s i rest)
  unfolding out_state
  out-Registered s i rest k more =
      (leave-Registered w odd lt (i % 2 ^ 8 ∷ []) [] [] (i % 2 ^ 8) (one_state s i rest) refl
        (busy (one_nonzero s i rest) (one_Busy s i rest k more))).0

  out-free :
      (s : TakenSpots) (i : ℕ) (rest : List ℕ)
      → Fresh s
      → s.free ≡ i ∷ rest
      → (out_state s i rest).free ≡ rest
  unfolding out_state one_state first_state
  out-free s i rest k more =
      ap (λ (t : TakenSpots). t.free)
        (remove_reader-Busy w odd lt (i % 2 ^ 8 ∷ []) (one_state s i rest) (i % 2 ^ 8)
          (one_Busy s i rest k more)).0
      ∙ unstash-free (one_state s i rest) (i % 2 ^ 8)

  settled : (t : TakenSpots) → Registered w [] t → (t.taken ≡ w) × Fresh t
  settled t (idle none_held at k) = (at, k)
  settled t (busy ne b) = absurd (omega (arith, b.some_inside))

  -- As many readers as the stash has free elements can come and go one after the other, and the word is then that of
  -- the bucket; but no element has come back, so that the next reader waits for one without end. The word is that of a
  -- base, and no change waits in the stash.
  pub readings_lem :
      (s : TakenSpots)
      → s.taken ≡ w
      → Fresh s
      → (free : List ℕ) → s.free ≡ free
      → (t : TakenSpots) × (readings (length free) s ≡ some t)
        × (t.taken ≡ w)
        × ((f : ℕ) → tbits_add_reader f t ≡ none)
  unfolding readings
  readings_lem s at k [] out = (s, refl, at, λ f. refused f s at out)
  readings_lem s at k (i ∷ rest) more =
      let (back, fresh) = settled (out_state s i rest) (out-Registered s i rest k more) in
      let (t, ran, same, full) =
        readings_lem (out_state s i rest) back fresh rest (out-free s i rest k more) in
      (t, readings_one (length rest) s i rest at more ∙ ran, same, full)
