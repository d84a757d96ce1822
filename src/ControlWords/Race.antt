-- ===== src/ControlWords/Race.antt =====
-- Two threads that stash the taken spots of one bucket of c_experiments/src/node_shm_HH.h at the same time.
use shm_lru_aging_and_quotas.Base.Mem.{update, update_ne}
use shm_lru_aging_and_quotas.Base.Tests.{
  ℕ, ◌-◌, ◌*◌, ◌%◌, ◌^◌, ◌<◌, ◌≡◌, ◌≢◌, refl, sym, ap, ◌∙◌, some, List, ◌∷◌, ◌==◌, arith, true,
  false, Bool-cases, inl, inr, ==_refl,
}
use shm_lru_aging_and_quotas.ControlWords.{tbits_stash_index_of}
use shm_lru_aging_and_quotas.ControlWords.Entering.{first_state}
use shm_lru_aging_and_quotas.ControlWords.Exhausted.{first_stash}
use shm_lru_aging_and_quotas.ControlWords.Fields.{
  is_base_tbits-even, is_base_tbits-odd, tbit_stash_index_stamp_zero, tbits_stash_index_of_lem,
}
use shm_lru_aging_and_quotas.ControlWords.Leaving.{real_update_kept}
use shm_lru_aging_and_quotas.ControlWords.Stash.{
  TakenSpots, stash_exchange, stash_taken_spots, unstash_base_tbits, fetch_real_tbits,
}
use shm_lru_aging_and_quotas.ControlWords.Visits.{Fresh}

-- An element that one thread holds goes back to the word.
put_back :
    (s : TakenSpots) (i v : ℕ)
    → v < 2 ^ 32
    → (s.stash i).updating ≡ 1
    → (s.stash i).real_bits ≡ v
    → (s.stash i).add_update ≡ 0
    → (s.stash i).remove_update ≡ 0
    → (unstash_base_tbits s i).taken ≡ v
unfolding unstash_base_tbits
put_back s i v lt one real add rem = rw one (real_update_kept v (s.stash i) lt real add rem)

unstash-stash : (s : TakenSpots) (i j : ℕ) → j ≢ i → (unstash_base_tbits s i).stash j ≡ s.stash j
unfolding unstash_base_tbits
unstash-stash s i j ne = elim (Bool-cases ((s.stash i).updating - 1 == 0)) [
  | inl e ↦ rw e (update_ne s.stash i j _ ne)
  | inr e ↦ rw e (update_ne s.stash i j _ ne)
]

module _ (w : ℕ) (odd : w % 2 ≡ 1) (lt : w < 2 ^ 32) where
  -- the second thread, which loaded the word before the first one changed it
  second_state : TakenSpots → (i j : ℕ) → List ℕ → TakenSpots
  second_state s i j rest = record s {
    taken = j * 2;
    stash = update s.stash j (record (s.stash j) { real_bits = i * 2; updating = 1 });
    free = rest;
  }

  second_exchange :
      (s : TakenSpots) (i j : ℕ) (rest : List ℕ)
      → s.taken ≡ i * 2
      → j < 2 ^ 8
      → stash_exchange 2 w j (record s { free = rest }) ≡ some (j, second_state s i j rest)
  unfolding stash_exchange second_state
  second_exchange s i j rest at small =
      let lost : (i * 2 == w) ≡ false = ground arith in
      let same : tbits_stash_index_of (j * 2) ≡ j =
        tbits_stash_index_of_lem (j * 2) ∙ omega arith in
      let again : (j == j) ≡ true = ==_refl j in
      rw (at, lost, tbit_stash_index_stamp_zero j, same, again, ==_refl (i * 2)) refl

  both : TakenSpots → (i j : ℕ) → List ℕ → TakenSpots
  both s i j rest = second_state (first_state w odd lt s i (j ∷ rest)) i j rest

  -- what the two elements hold then
  Held : TakenSpots → (i v : ℕ) → Type 0
  Held s i v =
      ((s.stash i).updating ≡ 1)
      × ((s.stash i).real_bits ≡ v)
      × ((s.stash i).add_update ≡ 0)
      × ((s.stash i).remove_update ≡ 0)

  put_back-Held :
      (s : TakenSpots) (i v : ℕ) → v < 2 ^ 32 → Held s i v → (unstash_base_tbits s i).taken ≡ v
  unfolding Held
  put_back-Held s i v small (one, real, add, rem) = put_back s i v small one real add rem

  unstash-Held :
      (s : TakenSpots) (i j v : ℕ) → j ≢ i → Held s j v → Held (unstash_base_tbits s i) j v
  unfolding Held
  unstash-Held s i j v ne h = rw (unstash-stash s i j ne) h

  both-Held :
      (s : TakenSpots) (i j : ℕ) (rest : List ℕ)
      → Fresh s
      → i ≢ j
      → Held (both s i j rest) i w × Held (both s i j rest) j (i * 2)
  unfolding Held both second_state first_state
  both-Held s i j rest k ne =
      let (add_i, rem_i) = k.no_change i in
      let (add_j, rem_j) = k.no_change j in
      let here : (i == i) ≡ true = ==_refl i in
      let off : (i == j) ≡ false = ground arith in
      let back : (j == i) ≡ false = ground arith in
      (rw (off, here) (refl, refl, add_i, rem_i), rw (==_refl j, back) (refl, refl, add_j, rem_j))

  second_stash :
      (s : TakenSpots) (i j : ℕ) (rest : List ℕ)
      → stash_taken_spots 2 w (first_state w odd lt s i (j ∷ rest))
        ≡ some (j % 2 ^ 8, both s i (j % 2 ^ 8) rest)
  unfolding stash_taken_spots both first_state second_state
  second_stash s i j rest =
      simp (is_base_tbits-odd w odd) (
        second_exchange (first_state w odd lt s i (j ∷ rest)) i (j % 2 ^ 8) rest refl (omega arith))

  found :
      (s : TakenSpots) (i j : ℕ) (rest : List ℕ)
      → j < 2 ^ 8
      → Held (both s i j rest) j (i * 2)
      → fetch_real_tbits (both s i j rest) (both s i j rest).taken ≡ i * 2
  unfolding fetch_real_tbits both second_state Held
  found s i j rest small h =
      let even = is_base_tbits-even (j * 2) (omega arith) in
      let same : tbits_stash_index_of (j * 2) ≡ j =
        tbits_stash_index_of_lem (j * 2) ∙ omega arith in
      rw (even, same) h.1

  -- Two threads load the word of one bucket, and the second exchanges it after the first has. Both are given an element
  -- of the stash, and with the two inside, the taken spots that a thread finds from the word are the stamp of the first
  -- one's element. When the first one leaves before the second, that stamp is left as the word, though nobody is inside;
  -- in the other order the word is that of the bucket. The word is that of a base, no change waits in the stash, and its
  -- first two free elements are different ones.
  pub stash_race :
      (s : TakenSpots) (i j : ℕ) (rest : List ℕ)
      → s.taken ≡ w
      → Fresh s
      → s.free ≡ i ∷ j ∷ rest
      → i % 2 ^ 8 ≢ j % 2 ^ 8
      → (s1 : TakenSpots) × (stash_taken_spots 1 s.taken s ≡ some (i % 2 ^ 8, s1))
        × (s2 : TakenSpots) × (stash_taken_spots 2 s.taken s1 ≡ some (j % 2 ^ 8, s2))
        × (fetch_real_tbits s2 s2.taken ≡ i % 2 ^ 8 * 2)
        × ((unstash_base_tbits (unstash_base_tbits s2 (i % 2 ^ 8)) (j % 2 ^ 8)).taken
            ≡ i % 2 ^ 8 * 2)
        × ((unstash_base_tbits (unstash_base_tbits s2 (j % 2 ^ 8)) (i % 2 ^ 8)).taken ≡ w)
  stash_race s i j rest at k more ne =
      let a = i % 2 ^ 8 in
      let b = j % 2 ^ 8 in
      let s1 = first_state w odd lt s a (j ∷ rest) in
      let s2 = both s a b rest in
      let (first, second) = both-Held s a b rest k ne in
      (
        s1,
        first_stash w odd lt s i (j ∷ rest) at more,
        s2,
        ap (λ v. stash_taken_spots 2 v s1) at ∙ second_stash s a j rest,
        found s a b rest (omega arith) second,
        put_back-Held (unstash_base_tbits s2 a) b (a * 2) (omega arith)
            (unstash-Held s2 a b (a * 2) (λ e. ne (sym e)) second),
        put_back-Held (unstash_base_tbits s2 b) a w lt (unstash-Held s2 b a w ne first),
      )
