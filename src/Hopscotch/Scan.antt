-- ===== src/Hopscotch/Scan.antt =====
-- What the searches `_next`, `_succ`, `_probe` and `_hop_scotch` of src/node_shm_HH.h find.
use native.Mathlib.Decide.{ℕ_discrete, dec_lt}
use shm_lru_aging_and_quotas.Base.Bits.{
  IsWord, get_bit, get_bit-high, get_bit-lt, mask_from, get_bit-mask_from, mask_from-IsWord,
  ne_zero_of_get_bit, ffs, ffs_lem,
}
use shm_lru_aging_and_quotas.Base.Tests.{
  ℕ, zero, suc, ◌+◌, ◌-◌, ◌%◌, ◌≤◌, ◌<◌, ◌≡◌, ◌≢◌, refl, ap, ◌∙◌, inl, inr, true, false, Option,
  none, some, arith, ltb, ◌==◌, ◌&&◌, not, Bool-cases,
}
use shm_lru_aging_and_quotas.Base.Words.{u32_max, add32, sub32, mod_once}
use shm_lru_aging_and_quotas.Hopscotch.{
  Table, next, succ, succ_hh_hash, scan_free, probe, hop_from, hop_scotch,
}
use shm_lru_aging_and_quotas.Hopscotch.Inv.{slot, claims}

-- `r` is the first set bit of `h` from `i` on, or `UINT32_MAX` if there is none.
pub data Next (h i r : ℕ) : Type 0 where
  nothing : r ≡ u32_max → ((j : ℕ) → i ≤ j → get_bit h j ≡ false) → Next h i r
  hit :
      i ≤ r
      → r < 32
      → get_bit h r ≡ true
      → ((j : ℕ) → i ≤ j → j < r → get_bit h j ≡ false)
      → Next h i r

module _ (h i : ℕ) (w : IsWord h) (lt : i < 32) where
  Next-hit : mask_from h i ≢ 0 → Next h i (ffs (mask_from h i))
  Next-hit ne =
      let (set, least) = ffs_lem (mask_from h i) (mask_from-IsWord h i w lt) ne in
      let r = ffs (mask_from h i) in
      let both = get_bit-mask_from h i r w lt in
      hit (ground arith) (get_bit-lt h r w (ground arith)) (ground arith)
        (λ j le below. ground (arith, least j below, get_bit-mask_from h i j w lt))

  Next-nothing : mask_from h i ≡ 0 → Next h i u32_max
  Next-nothing e = nothing refl (λ j le. elim (Bool-cases (get_bit h j)) [
    | inr clear ↦ clear
    | inl set ↦
        absurd
          (ne_zero_of_get_bit (mask_from h i) j (ground (arith, get_bit-mask_from h i j w lt)) e)
  ])

  pub next_lem : Next h i (next h i)
  unfolding next
  next_lem = elim (Bool-cases (mask_from h i == 0)) [
    | inl e ↦ rw e (Next-nothing (ground arith))
    | inr e ↦ rw e (Next-hit (ground arith))
  ]

pub succ_lem :
    (t : Table) (b i : ℕ) → IsWord (t.region_h b) → i < 32 → Next (t.region_h b) i (succ t b i)
unfolding succ
succ_lem t b i w lt = elim (Bool-cases (claims t b i)) [
  | inl set ↦ rw set (hit (omega arith) lt set (λ j le below. absurd (omega arith)))
  | inr clear ↦ rw clear (next_lem (t.region_h b) i w lt)
]

-- `_succ_hh_hash` also looks past the last position.
pub succ_hh_hash_lem :
    (t : Table) (b i : ℕ)
    → IsWord (t.region_h (b % t.max_n))
    → i ≤ 32
    → Next (t.region_h (b % t.max_n)) i (succ_hh_hash t b i)
unfolding succ_hh_hash
succ_hh_hash_lem t b i w le = elim (Bool-cases (i == 32)) [
  | inl e ↦ rw e (nothing refl (λ j q. get_bit-high _ j w (ground arith)))
  | inr e ↦ rw e (succ_lem t (b % t.max_n) i w (ground arith))
]

-- `r` is the first empty slot of the `n` from `i` on.
data Free (v : ℕ → ℕ) (n i : ℕ) (r : Option ℕ) : Type 0 where
  full : r ≡ none → ((p : ℕ) → i ≤ p → p < i + n → v p ≢ 0) → Free v n i r
  first :
      (p : ℕ)
      → r ≡ some p
      → i ≤ p
      → p < i + n
      → v p ≡ 0
      → ((q : ℕ) → i ≤ q → q < p → v q ≢ 0)
      → Free v n i r

module _ (v : ℕ → ℕ) where
  split_first : (P : ℕ → Type 0) (i : ℕ) → P i → ((q : ℕ) → i + 1 ≤ q → P q) → (q : ℕ) → i ≤ q → P q
  split_first P i here rest q le = elim (ℕ_discrete i q) [
    | yes e ↦ rw (← e) here
    | no ne ↦ rest q (omega arith)
  ]

  Free-skip : (n i : ℕ) {r : Option ℕ} → v i ≢ 0 → Free v n (i + 1) r → Free v (suc n) i r
  Free-skip n i ne (full e all) =
      full e
        (split_first (λ p. p < i + suc n → v p ≢ 0) i (λ _. ne) (λ p le lt. all p le (omega arith)))
  Free-skip n i ne (first p e le lt empty before) =
      first p e (omega arith) (omega arith) empty
        (split_first (λ q. q < p → v q ≢ 0) i (λ _. ne) before)

  scan_free_lem : (n i : ℕ) → Free v n i (scan_free v n i)
  unfolding scan_free
  scan_free_lem zero i = full refl (λ p le lt. absurd (omega arith))
  scan_free_lem (suc n) i = elim (Bool-cases (v i == 0)) [
    | inl e ↦
        rw e (
          first i refl (omega arith) (omega arith) (ground arith) (λ q le lt. absurd (omega arith)))
    | inr e ↦ rw e (Free-skip n i (ground arith) (scan_free_lem n (i + 1)))
  ]

-- `d` is the distance of the first empty slot from `h`, or `UINT32_MAX` in a full table.
pub data Probe (t : Table) (h d : ℕ) : Type 0 where
  full : d ≡ u32_max → ((p : ℕ) → p < t.max_n → t.region_v p ≢ 0) → Probe t h d
  hole :
      d < t.max_n
      → t.region_v (slot t h d) ≡ 0
      → ((e : ℕ) → e < d → t.region_v (slot t h e) ≢ 0)
      → Probe t h d

module _ (t : Table) (h : ℕ) (lt : h < t.max_n) where
  slot_low : (k : ℕ) → h + k < t.max_n → slot t h k ≡ h + k
  slot_low k below = ground arith

  slot_high : (k : ℕ) → ¬ (h + k < t.max_n) → slot t h k ≡ h + k - t.max_n
  slot_high k above = ground arith

  Probe-low :
      (r : Option ℕ)
      → Free t.region_v h 0 r
      → ((p : ℕ) → h ≤ p → p < t.max_n → t.region_v p ≢ 0)
      → Probe t h (elim r [ some j ↦ t.max_n + j - h | none ↦ u32_max ])
  Probe-low none (full e all) high = full refl (λ p q. elim (dec_lt p h) [
    | yes below ↦ all p (omega arith) (omega arith)
    | no above ↦ high p (omega arith) q
  ])
  Probe-low none (first p e le below empty before) high = cc
  Probe-low (some j) (full e all) high = cc
  Probe-low (some j) (first p e le below empty before) high =
      let same : j ≡ p = cc in
      let at : slot t h (t.max_n + j - h) ≡ p = ground arith in
      hole (omega arith) (ap t.region_v at ∙ empty) (λ k near. elim (dec_lt (h + k) t.max_n) [
        | yes below' ↦ rw (slot_low k below') (high (h + k) (omega arith) below')
        | no above ↦ rw (slot_high k above) (before (h + k - t.max_n) (omega arith) (omega arith))
      ])

  Probe-high :
      (r : Option ℕ)
      → Free t.region_v (t.max_n - h) h r
      → Probe t h (elim r [
        | some i ↦ i - h
        | none ↦ elim (scan_free t.region_v h 0) [ some j ↦ t.max_n + j - h | none ↦ u32_max ]
      ])
  Probe-high none (full e all) =
      Probe-low _ (scan_free_lem t.region_v h 0) (λ p le q. all p le (omega arith))
  Probe-high none (first p e le below empty before) = cc
  Probe-high (some i) (full e all) = cc
  Probe-high (some i) (first p e le below empty before) =
      let same : i ≡ p = cc in
      let at : slot t h (i - h) ≡ p = ground arith in
      hole (omega arith) (ap t.region_v at ∙ empty)
        (λ k near. rw (slot_low k (omega arith)) (before (h + k) (omega arith) (omega arith)))

  pub probe_lem : Probe t h (probe t h)
  unfolding probe
  probe_lem = Probe-high _ (scan_free_lem t.region_v (t.max_n - h) h)

-- the bucket that is `i` slots before `hd`
abbrev pub back : Table → ℕ → ℕ → ℕ
back t hd i = mod_once (sub32 (add32 t.max_n hd) i) t.max_n

-- bucket `back t hd i` has an entry at a distance below `i`
pub record Movable (t : Table) (hd i : ℕ) : Type 0 where
  pub occupied : t.region_h (back t hd i) ≢ 0
  pub nearer : ffs (t.region_h (back t hd i)) < i

-- `r` is the largest movable distance below the neighborhood, or 0 if none is movable.
pub data Back (t : Table) (hd k r : ℕ) : Type 0 where
  stuck : r ≡ 0 → ((i : ℕ) → 0 < i → i ≤ k → ¬ Movable t hd i) → Back t hd k r
  movable : 0 < r → r ≤ k → Movable t hd r → Back t hd k r

Back-skip :
    (t : Table) (hd i : ℕ) {r : ℕ} → ¬ Movable t hd (suc i) → Back t hd i r → Back t hd (suc i) r
Back-skip t hd i ne (stuck e all) = stuck e (λ k pos le. elim (ℕ_discrete k (suc i)) [
  | yes same ↦ rw same ne
  | no other ↦ all k pos (omega arith)
])
Back-skip t hd i ne (movable pos le m) = movable pos (omega arith) m

hop_from_lem : (t : Table) (hd i : ℕ) → Back t hd i (hop_from t hd i)
unfolding hop_from
hop_from_lem t hd zero = stuck refl (λ i pos le. absurd (omega arith))
hop_from_lem t hd (suc i) =
    let h = t.region_h (back t hd (suc i)) in
    elim (Bool-cases (not (h == 0) && ltb (ffs h) (suc i))) [
      | inl e ↦ rw e (
          movable (omega arith) (omega arith)
            (record { occupied = ground arith; nearer = ground arith }))
      | inr e ↦
          rw e (Back-skip t hd i (λ m. ground (arith, m.occupied, m.nearer)) (hop_from_lem t hd i))
    ]

pub hop_scotch_lem : (t : Table) (hd : ℕ) → Back t hd (t.neighbor - 1) (hop_scotch t hd)
unfolding hop_scotch
hop_scotch_lem t hd = hop_from_lem t hd (t.neighbor - 1)
