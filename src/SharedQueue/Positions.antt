-- ===== src/SharedQueue/Positions.antt =====
-- Positions that go round the entries of the queue of c_experiments/src/entry_holder.h.
use native.Mathlib.Decide.{dec_lt}
use native.Mathlib.Nat.{mod-add-mod, mod-eq_of_lt, mod-eq-sub-mod, mod-lt, mul-add-mod_self_left}
use shm_lru_aging_and_quotas.Base.Tests.{
  ℕ, ◌+◌, ◌-◌, ◌%◌, ◌≤◌, ◌<◌, ◌≡◌, ◌≢◌, ap, ◌∙◌, arith, leb, if◌then◌else◌,
}
use shm_lru_aging_and_quotas.SharedQueue.{next_write}

pub mod_lap : (max k : ℕ) → (k + max) % max ≡ k % max
mod_lap max k = ap (λ (n : ℕ). n % max) (omega arith) ∙ mul-add-mod_self_left max 1 k

module _ (max : ℕ) (pos : 0 < max) where
  around : (r d : ℕ) → r < max → 0 < d → d < max → (r + d) % max ≢ r
  around r d low some_way short = elim (dec_lt (r + d) max) [
    | yes p ↦ omega (arith, mod-eq_of_lt p)
    | no p ↦ omega (
      arith,
      mod-eq-sub-mod {n = r + d} {m = max} (omega arith),
      mod-eq_of_lt {n = r + d - max} {m = max} (omega arith),
    )
  ]

  -- less than one way round
  pub mod_apart : (k j : ℕ) → k < j → j < k + max → j % max ≢ k % max
  mod_apart k j lt near e =
      around (k % max) (j - k) (mod-lt k pos) (omega arith) (omega arith)
        (mod-add-mod k max (j - k) ∙ ap (λ (n : ℕ). n % max) (omega arith) ∙ e)

  pub mod_meet : (k j : ℕ) → k ≤ j → j < k + max → j % max ≡ k % max → j ≡ k
  mod_meet k j le near e = elim (dec_lt k j) [
    | yes lt ↦ absurd (mod_apart k j lt near e)
    | no ge ↦ omega arith
  ]

  pub mod_past : (k j : ℕ) → k ≤ j → k % max ≢ j % max → k < j
  mod_past k j le ne = elim (dec_lt k j) [
    | yes lt ↦ lt
    | no ge ↦ absurd (ne (ap (λ (n : ℕ). n % max) (omega arith)))
  ]

  one_on : (r : ℕ) → r < max → next_write max r ≡ (r + 1) % max
  one_on r low = elim (dec_lt (r + 1) max) [
    | yes p ↦ ground (arith, mod-eq_of_lt p)
    | no p ↦ ground (
      arith,
      mod-eq-sub-mod {n = r + 1} {m = max} (omega arith),
      mod-eq_of_lt {n = r + 1 - max} {m = max} (omega arith),
    )
  ]

  pub next_write-mod : (k : ℕ) → next_write max (k % max) ≡ (k + 1) % max
  next_write-mod k = one_on (k % max) (mod-lt k pos) ∙ mod-add-mod k max 1

  pub next_read-mod : (k : ℕ) → (if leb max (k % max + 1) then 0 else k % max + 1) ≡ (k + 1) % max
  next_read-mod k = ground (arith, mod-lt k pos, next_write-mod k)
