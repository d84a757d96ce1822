-- ===== src/Holey/Halving.antt =====
-- What the halving searches of src/holey_buffer.h and src/time_bucket.h find.
use mathlib.Core.Path.{subst}
use native.Mathlib.Decide.{ℕ_discrete, dec_lt}
use shm_lru_aging_and_quotas.Base.Tests.{
  ℕ, zero, suc, ◌+◌, ◌-◌, ◌/◌, ◌^◌, ◌≤◌, ◌<◌, ◌≡◌, refl, ap, ◌∙◌, Bool, true, false, Option, none,
  some, inl, inr, ltb, leb, ◌==◌, arith, Bool-cases,
}
use shm_lru_aging_and_quotas.Base.Words.{sub32}
use shm_lru_aging_and_quotas.Holey.{Buffer, back, scan, halving, b_search}

-- What a search of the positions from `lo` to `hi` gives: a hit, or none if there is none.
pub data Searched (hit : ℕ → Bool) (lo hi : ℕ) (r : Option (Option ℕ)) : Type 0 where
  hit_at : (p : ℕ) → lo ≤ p → p < hi → hit p ≡ true → r ≡ some (some p) → Searched hit lo hi r
  no_hit : ((p : ℕ) → lo ≤ p → p < hi → hit p ≡ false) → r ≡ some none → Searched hit lo hi r

module _ (hit : ℕ → Bool) where
  one_more :
      (beg end : ℕ)
      → hit beg ≡ false
      → ((p : ℕ) → beg + 1 ≤ p → p < end → hit p ≡ false)
      → (p : ℕ) → beg ≤ p
      → p < end
      → hit p ≡ false
  one_more beg end e all p l h = elim (ℕ_discrete p beg) [
    | yes at ↦ ap hit at ∙ e
    | no ne ↦ all p (omega arith) h
  ]

  pub scan_lem : (n beg : ℕ) → Searched hit beg (beg + n) (some (scan hit n beg))
  unfolding scan
  scan_lem zero beg = no_hit (λ p h l. absurd (omega arith)) refl
  scan_lem (suc n) beg = elim (Bool-cases (hit beg)) [
    | inl e ↦ rw e (hit_at beg (omega arith) (omega arith) e refl)
    | inr e ↦ rw e (elim (scan_lem n (beg + 1)) [
      | hit_at p l h t r ↦ hit_at p (omega arith) (omega arith) t r
      | no_hit all r ↦ no_hit (one_more beg (beg + suc n) e (λ p l h. all p l (omega arith))) r
    ])
  ]

-- The two tests fit an order: a miss with `up` is a miss of everything below, and a miss without it of
-- everything above.
module _ (hit up : ℕ → Bool) (lo hi : ℕ)
    (clear_below : (p q : ℕ)
      → lo ≤ q
      → q ≤ p
      → p < hi
      → hit p ≡ false
      → up p ≡ true
      → hit q ≡ false)
    (clear_above : (p q : ℕ)
      → lo ≤ p
      → p ≤ q
      → q < hi
      → hit p ≡ false
      → up p ≡ false
      → hit q ≡ false) where
  widen :
      (beg end mid : ℕ) (r : Option (Option ℕ))
      → lo ≤ beg
      → end ≤ hi
      → beg ≤ mid
      → mid < end
      → hit mid ≡ false
      → (up mid ≡ true → Searched hit mid end r → Searched hit beg end r)
        × (up mid ≡ false → Searched hit beg mid r → Searched hit beg end r)
  widen beg end mid r l h lm mh miss = (
    λ u s. elim s [
      | hit_at p lp ph t e ↦ hit_at p (omega arith) ph t e
      | no_hit all e ↦
          no_hit
            (λ q lq qh. elim (dec_lt mid q) [
              | yes above ↦ all q (omega arith) qh
              | no below ↦ clear_below mid q (omega arith) (omega arith) (omega arith) miss u
            ])
            e
    ],
    λ u s. elim s [
      | hit_at p lp ph t e ↦ hit_at p lp (omega arith) t e
      | no_hit all e ↦
          no_hit
            (λ q lq qh. elim (dec_lt q mid) [
              | yes below ↦ all q lq below
              | no above ↦ clear_above mid q (omega arith) (omega arith) (omega arith) miss u
            ])
            e
    ],
  )

  -- the loop, with enough fuel
  pub halving-Searched :
      (f beg end n : ℕ)
      → lo ≤ beg
      → end ≤ hi
      → beg + n ≤ end
      → n < f
      → Searched hit beg end (halving f hit up beg end n)
  unfolding halving
  halving-Searched zero beg end n l h room fuel = absurd (omega arith)
  halving-Searched (suc f) beg end n l h room fuel = elim (Bool-cases (leb end beg)) [
    | inl e ↦ rw e (no_hit (λ p a b. absurd (ground arith)) refl)
    | inr e ↦ rw e (elim (Bool-cases (n / 2 == 0)) [
      | inl z ↦ rw z (
          let to_end : beg + (end - beg) ≡ end = ground arith in
          subst (λ (k : ℕ). Searched hit beg k (some (scan hit (end - beg) beg))) to_end
            (scan_lem hit (end - beg) beg))
      | inr nz ↦
          let inside : leb end (beg + n / 2) ≡ false = ground arith in
          rw (nz, inside)
            (elim (Bool-cases (hit (beg + n / 2))) [
              | inl t ↦ rw t (hit_at (beg + n / 2) (omega arith) (ground arith) t refl)
              | inr miss ↦ rw miss (elim (Bool-cases (up (beg + n / 2))) [
                | inl u ↦ rw u (
                    (widen beg end (beg + n / 2) (halving f hit up (beg + n / 2) end (n / 2)) l h
                        (omega arith) (ground arith) miss).0
                      u
                      (halving-Searched f (beg + n / 2) end (n / 2) (omega arith) h (omega arith)
                        (ground arith)))
                | inr d ↦ rw d (
                    (widen beg end (beg + n / 2) (halving f hit up beg (beg + n / 2) (n / 2)) l h
                        (omega arith) (ground arith) miss).1
                      d
                      (halving-Searched f beg (beg + n / 2) (n / 2) l (ground arith) (omega arith)
                        (ground arith)))
              ])
            ])
    ])
  ]

pub halving_empty :
    (f : ℕ) (hit up : ℕ → Bool) (beg end n : ℕ)
    → end ≤ beg
    → halving (suc f) hit up beg end n ≡ some none
unfolding halving
halving_empty f hit up beg end n le = let e : leb end beg ≡ true = ground arith in rw e refl

-- a search of the positions between two misses
pub both_ends :
    (hit : ℕ → Bool) (lo hi : ℕ) (r : Option (Option ℕ))
    → hit lo ≡ false
    → hit (hi - 1) ≡ false
    → Searched hit (lo + 1) (hi - 1) r
    → Searched hit lo hi r
both_ends hit lo hi r first last s = elim s [
  | hit_at p l h t e ↦ hit_at p (omega arith) (omega arith) t e
  | no_hit all e ↦
      no_hit
        (one_more hit lo hi first (λ p l h. elim (ℕ_discrete p (hi - 1)) [
          | yes at ↦ ap hit at ∙ last
          | no ne ↦ all p l (omega arith)
        ]))
        e
]

-- the search of a range of `n` positions from `lo` on, both ends looked at before the loop
module _ (hit up : ℕ → Bool) (lo n : ℕ)
    (clear_below : (p q : ℕ)
      → lo < q
      → q ≤ p
      → p + 1 < lo + n
      → hit p ≡ false
      → up p ≡ true
      → hit q ≡ false)
    (clear_above : (p q : ℕ)
      → lo < p
      → p ≤ q
      → q + 1 < lo + n
      → hit p ≡ false
      → up p ≡ false
      → hit q ≡ false) where
  pub halving_between :
      0 < n
      → n < 2 ^ 32
      → hit lo ≡ false
      → hit (lo + n - 1) ≡ false
      → Searched hit lo
          (lo + n)
          (halving (suc (sub32 n 2)) hit up (lo + 1) (lo + n - 1) (sub32 n 2))
  halving_between pos small first last = elim (dec_lt 1 n) [
    | yes two ↦
        let exact : sub32 n 2 ≡ n - 2 = omega arith in
        both_ends hit lo (lo + n)
          (halving (suc (sub32 n 2)) hit up (lo + 1) (lo + n - 1) (sub32 n 2)) first last
          (halving-Searched hit up (lo + 1) (lo + n - 1)
            (λ p q l le h. clear_below p q (omega arith) le (omega arith))
            (λ p q l le h. clear_above p q (omega arith) le (omega arith)) (suc (sub32 n 2))
            (lo + 1) (lo + n - 1) (sub32 n 2) (omega arith) (omega arith) (omega arith)
            (omega arith))
    | no one ↦
        no_hit (λ p l h. let at : p ≡ lo = omega arith in ap hit at ∙ first)
          (halving_empty (sub32 n 2) hit up (lo + 1) (lo + n - 1) (sub32 n 2) (omega arith))
  ]

-- the keys from `lo` on, `n` of them, in increasing order
abbrev pub IsIncreasing : (ℕ → ℕ) → (lo n : ℕ) → Type 0
IsIncreasing f lo n = (p q : ℕ) → lo ≤ p → p ≤ q → q < lo + n → f p ≤ f q

-- On one or more pairs with increasing keys, `b_search` ends and finds what a look at every pair finds: a
-- pair with the key, or none if no pair has it.
pub b_search-Searched :
    (key : ℕ) (m : Buffer) (key_val n : ℕ)
    → 0 < n
    → n < 2 ^ 32
    → key_val < 2 ^ 60
    → IsIncreasing (λ p. (m p).first) key_val n
    → Searched (λ p. (m p).first == key) key_val (key_val + n) (b_search key m key_val n)
unfolding b_search
b_search-Searched key m key_val n pos small low sorted =
    let last : back (key_val + n) ≡ key_val + n - 1 = omega arith in
    rw last (elim (Bool-cases ((m key_val).first == key)) [
      | inl e ↦ rw e (hit_at key_val (omega arith) (omega arith) e refl)
      | inr e ↦ rw e (elim (Bool-cases ((m (key_val + n - 1)).first == key)) [
        | inl e' ↦ rw e' (hit_at (key_val + n - 1) (omega arith) (omega arith) e' refl)
        | inr e' ↦ rw e' (
            halving_between (λ p. (m p).first == key) (λ p. ltb (m p).first key) key_val n
              (λ p q l le h miss u. ground (arith, sorted q p (omega arith) le (omega arith)))
              (λ p q l le h miss d. ground (arith, sorted p q (omega arith) le (omega arith))) pos
              small e e')
      ])
    ])
