-- ===== src/Holey/Bucketing.antt =====
-- What the searches of src/holey_buffer.h and src/time_bucket.h for a bucket find.
use shm_lru_aging_and_quotas.Base.Tests.{
  ℕ, zero, suc, ◌+◌, ◌-◌, ◌^◌, ◌≤◌, ◌<◌, ◌≡◌, refl, ap, ◌∙◌, Bool, true, false, Option, none, some,
  inl, inr, ltb, leb, arith, Bool-cases,
}
use shm_lru_aging_and_quotas.Base.Words.{u32_max, sub32}
use shm_lru_aging_and_quotas.Holey.{
  back, scan, halving, holds, index_of, u32b_search, TierTime, in_interval, time_interval_b_search,
}
use shm_lru_aging_and_quotas.Holey.Halving.{hit_at, no_hit, IsIncreasing, halving_between}

-- What a search for a bucket gives: the bucket that has the key, the last one for a key at or above the
-- last boundary, and `UINT32_MAX` for a key below the first.
pub data Bucketed (b : ℕ → ℕ) (key n : ℕ) (r : Option ℕ) : Type 0 where
  within : (i : ℕ) → i + 1 < n → b i ≤ key → key < b (i + 1) → r ≡ some i → Bucketed b key n r
  above : b (n - 1) ≤ key → r ≡ some (n - 2) → Bucketed b key n r
  below : key < b 0 → r ≡ some u32_max → Bucketed b key n r

-- without a bucket that has the key, a key at or above the first boundary is above all
climbs : (b : ℕ → ℕ) (key k : ℕ) → b 0 ≤ key → ((i : ℕ) → i < k → holds b key i ≡ false) → b k ≤ key
climbs b key zero low none_holds = low
climbs b key (suc k) low none_holds =
    let here = climbs b key k low (λ i h. none_holds i (omega arith)) in
    ground (arith, none_holds k)

-- On two or more boundaries in increasing order `u32b_search` ends and gives the bucket of the key.
pub u32b_search-Bucketed :
    (key : ℕ) (b : ℕ → ℕ) (n : ℕ)
    → 1 < n
    → n < 2 ^ 32
    → IsIncreasing b 0 n
    → Bucketed b key n (u32b_search key b n)
unfolding u32b_search
u32b_search-Bucketed key b n two small sorted =
    let last : back n ≡ n - 1 = omega arith in
    let same_end : halving (suc (sub32 n 2)) (holds b key) (λ p. leb (b (p + 1)) key) 1 (n - 1)
          (sub32 n 2)
        ≡ halving (suc (sub32 n 2)) (holds b key) (λ p. leb (b (p + 1)) key) (0 + 1) (0 + n - 1)
            (sub32 n 2) =
      ap
        (λ (k : ℕ).
          halving (suc (sub32 n 2)) (holds b key) (λ p. leb (b (p + 1)) key) 1 k (sub32 n 2))
        (omega arith) in
    rw last (elim (Bool-cases (holds b key 0)) [
      | inl e ↦ rw e (within 0 (omega arith) (ground arith) (ground arith) refl)
      | inr e ↦ rw e (elim (Bool-cases (leb (b (n - 1)) key)) [
        | inl e' ↦ rw e' (above (ground arith) (ap some (omega arith)))
        | inr e' ↦
            rw e'
              (elim (halving_between (holds b key) (λ p. leb (b (p + 1)) key) 0 n
                (λ p q l le h miss u.
                  ground (arith, sorted (q + 1) (p + 1) (omega arith) (omega arith) h))
                (λ p q l le h miss d. ground (arith, sorted p q (omega arith) le (omega arith)))
                (omega arith) small e (ground arith)) [
                  | hit_at p l h t r ↦
                      within p (ground (arith, ap b)) (ground arith) (ground arith)
                        (ap index_of (same_end ∙ r))
                  | no_hit all r ↦
                      below (ground (arith, climbs b key (n - 1), λ (i : ℕ). all i (omega arith)))
                        (ap index_of (same_end ∙ r))
                ])
      ])
    ])

halving_five :
    (hit up : ℕ → Bool)
    → hit 1 ≡ false
    → hit 2 ≡ false
    → up 2 ≡ false
    → halving 4 hit up 1 4 3 ≡ some none
unfolding halving scan
halving_five hit up not_1 not_2 down = rw (not_2, down, not_1) refl

-- In a table of five intervals, each of which begins where the one before it ends, a timestamp at the
-- beginning of the fourth lies in this interval, and `time_interval_b_search` gives `UINT32_MAX`.
pub time_interval_b_search_boundary :
    (t : ℕ → TierTime)
    → ((i : ℕ) → ((t i).lb_time < (t i).ub_time) × ((t i).ub_time ≡ (t (i + 1)).lb_time))
    → (in_interval t (t 3).lb_time 3 ≡ true)
      × (time_interval_b_search (t 3).lb_time t 5 ≡ some u32_max)
unfolding time_interval_b_search
time_interval_b_search_boundary t joined =
    let at = (t 3).lb_time in
    let not_0 : in_interval t at 0 ≡ false = ground (arith, joined 0, joined 1, joined 2) in
    let not_1 : in_interval t at 1 ≡ false = ground (arith, joined 1, joined 2) in
    let not_2 : in_interval t at 2 ≡ false = ground (arith, joined 2) in
    let not_4 : in_interval t at 4 ≡ false = ground (arith, joined 3) in
    (
      ground (arith, joined 3),
      rw (not_0, not_4)
          (ap index_of (
            halving_five (in_interval t at) (λ p. ltb (t p).ub_time at) not_1 not_2
              (ground (arith, joined 2)))),
    )
