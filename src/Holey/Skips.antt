-- ===== src/Holey/Skips.antt =====
-- Where the loops of src/holey_buffer.h that skip holes stop.
use native.Mathlib.Decide.{ℕ_discrete}
use shm_lru_aging_and_quotas.Base.Tests.{
  ℕ, zero, suc, ◌+◌, ◌-◌, ◌≤◌, ◌<◌, ◌≡◌, ◌≢◌, ap, ◌∙◌, inl, inr, ◌==◌, arith, Bool-cases,
}
use shm_lru_aging_and_quotas.Base.Words.{u32_max}
use shm_lru_aging_and_quotas.Holey.{Buffer, skip_up, trim_end, skip_down}

module _ (m : Buffer) where
  pub skip_up_lem :
      (n p : ℕ)
      → (p ≤ skip_up m n p)
        × (skip_up m n p ≤ p + n)
        × ((i : ℕ) → p ≤ i → i < skip_up m n p → (m i).first ≡ u32_max)
  unfolding skip_up
  skip_up_lem zero p = (omega arith, omega arith, λ i a b. absurd (omega arith))
  skip_up_lem (suc n) p = elim (Bool-cases ((m p).first == u32_max)) [
    | inl e ↦
        let rest = skip_up_lem n (p + 1) in
        rw e (
          omega (arith, rest.0),
          omega (arith, rest.1),
          λ i a b. elim (ℕ_discrete i p) [
            | yes at ↦ ap (λ (k : ℕ). (m k).first) at ∙ ground arith
            | no ne ↦ rest.2 i (omega arith) b
          ],
        )
    | inr e ↦ rw e (omega arith, omega arith, λ i a b. absurd (omega arith))
  ]

  pub skip_up_stops : (n p : ℕ) → skip_up m n p < p + n → (m (skip_up m n p)).first ≢ u32_max
  unfolding skip_up
  skip_up_stops zero p = λ lt. absurd (omega arith)
  skip_up_stops (suc n) p = elim (Bool-cases ((m p).first == u32_max)) [
    | inl e ↦ rw e (λ lt. skip_up_stops n (p + 1) (omega arith))
    | inr e ↦ rw e (λ lt. ground arith)
  ]

  pub skip_down_lem :
      (n p : ℕ)
      → n ≤ p
      → (skip_down m n p ≤ p)
        × (p ≤ skip_down m n p + n)
        × ((i : ℕ) → skip_down m n p < i → i ≤ p → (m i).first ≡ u32_max)
  unfolding skip_down
  skip_down_lem zero p le = (omega arith, omega arith, λ i a b. absurd (omega arith))
  skip_down_lem (suc n) p le = elim (Bool-cases ((m p).first == u32_max)) [
    | inl e ↦
        let rest = skip_down_lem n (p - 1) (omega arith) in
        rw e (
          omega (arith, rest.0),
          omega (arith, rest.1),
          λ i a b. elim (ℕ_discrete i p) [
            | yes at ↦ ap (λ (k : ℕ). (m k).first) at ∙ ground arith
            | no ne ↦ rest.2 i a (omega arith)
          ],
        )
    | inr e ↦ rw e (omega arith, omega arith, λ i a b. absurd (omega arith))
  ]

  pub trim_end_lem :
      (n end : ℕ)
      → n ≤ end
      → (trim_end m n end ≤ end)
        × (end ≤ trim_end m n end + n)
        × ((i : ℕ) → trim_end m n end ≤ i → i < end → (m i).first ≡ u32_max)
  unfolding trim_end
  trim_end_lem zero end le = (omega arith, omega arith, λ i a b. absurd (omega arith))
  trim_end_lem (suc n) end le = elim (Bool-cases ((m (end - 1)).first == u32_max)) [
    | inl e ↦
        let rest = trim_end_lem n (end - 1) (omega arith) in
        rw e (
          omega (arith, rest.0),
          omega (arith, rest.1),
          λ i a b. elim (ℕ_discrete i (end - 1)) [
            | yes at ↦ ap (λ (k : ℕ). (m k).first) at ∙ ground arith
            | no ne ↦ rest.2 i a (omega arith)
          ],
        )
    | inr e ↦ rw e (omega arith, omega arith, λ i a b. absurd (omega arith))
  ]
