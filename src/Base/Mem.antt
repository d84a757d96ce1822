-- ===== src/Base/Mem.antt =====
-- Arrays and fields in shared memory, as functions from positions, and sums over positions.
use native.Mathlib.Decide.{ℕ_discrete}
use shm_lru_aging_and_quotas.Base.Tests.{
  ℕ, zero, suc, ◌+◌, ◌≤◌, ◌<◌, ◌≡◌, ◌≢◌, refl, sym, ap, ◌∙◌, arith, ◌==◌, if◌then◌else◌,
}

-- A write of `v` at position `p`.
abbrev pub update {ℓ} : {A : Type ℓ} → (ℕ → A) → ℕ → A → ℕ → A
update m p v a = if a == p then v else m a

pub update_self {ℓ} : {A : Type ℓ} (m : ℕ → A) (p : ℕ) (v : A) → update m p v p ≡ v
update_self m p v = ground arith

pub update_ne {ℓ} : {A : Type ℓ} (m : ℕ → A) (p a : ℕ) (v : A) → a ≢ p → update m p v a ≡ m a
update_ne m p a v h = ground arith

-- f 0 + … + f (n - 1)
unfoldable pub total : ℕ → (ℕ → ℕ) → ℕ
total zero f = 0
total (suc n) f = f n + total n f

pub total_congr : (n : ℕ) (f g : ℕ → ℕ) → ((i : ℕ) → i < n → f i ≡ g i) → total n f ≡ total n g
unfolding total
total_congr zero f g h = refl
total_congr (suc n) f g h =
    omega (arith, h n (omega arith), total_congr n f g (λ i lt. h i (omega arith)))

-- Two functions that differ at one position below `n`.
pub total_change :
    (n : ℕ) (f g : ℕ → ℕ) (k : ℕ)
    → k < n
    → ((i : ℕ) → i < n → i ≢ k → f i ≡ g i)
    → total n f + g k ≡ total n g + f k
unfolding total
total_change zero f g k lt h = absurd (omega arith)
total_change (suc n) f g k lt h = elim (ℕ_discrete k n) [
  | yes e ↦
      let below = total_congr n f g (λ i l. h i (omega arith) (omega arith)) in
      omega (arith, ap f e, ap g e)
  | no ne ↦ omega (
    arith,
    h n (omega arith) (omega arith),
    total_change n f g k (omega arith) (λ i l. h i (omega arith)),
  )
]

pub total-le : (n : ℕ) (f : ℕ → ℕ) → ((i : ℕ) → f i ≤ 1) → total n f ≤ n
unfolding total
total-le zero f h = omega arith
total-le (suc n) f h = omega (arith, h n, total-le n f h)

-- A sum that is not 0 has a term that is not 0.
pub total_pos : (n : ℕ) (f : ℕ → ℕ) → total n f ≢ 0 → (i : ℕ) × (i < n) × (f i ≢ 0)
unfolding total
total_pos zero f h = absurd (h refl)
total_pos (suc n) f h = elim (ℕ_discrete (f n) 0) [
  | yes e ↦ let (i, lt, ne) = total_pos n f (omega arith) in (i, omega arith, ne)
  | no ne ↦ (n, omega arith, ne)
]

pub le-total : (n : ℕ) (f : ℕ → ℕ) (i : ℕ) → i < n → f i ≤ total n f
unfolding total
le-total zero f i lt = absurd (omega arith)
le-total (suc n) f i lt = elim (ℕ_discrete i n) [
  | yes e ↦ omega (arith, ap f e)
  | no ne ↦ omega (arith, le-total n f i (omega arith))
]

-- Two functions that differ at two positions, and there have the same sum.
pub total_swap :
    (n : ℕ) (f g : ℕ → ℕ) (p q : ℕ)
    → p < n
    → q < n
    → p ≢ q
    → f p + f q ≡ g p + g q
    → ((i : ℕ) → i < n → i ≢ p → i ≢ q → f i ≡ g i)
    → total n f ≡ total n g
total_swap n f g p q pn qn ne e h =
    let middle = update f p (g p) in
    let first = total_change n f middle p pn (λ i lt other. ground arith) in
    let second = total_change n middle g q qn (λ i lt other. elim (ℕ_discrete i p) [
      | yes same ↦ rw same (update_self f p (g p))
      | no away ↦ update_ne f p i (g p) away ∙ h i lt away other
    ]) in
    omega (arith, update_self f p (g p), update_ne f p q (g p) (λ s. ne (sym s)))
