-- ===== src/Hopscotch/Place.antt =====
-- The end of `put_hh_hash` in src/node_shm_HH.h: a value goes into a hole near its bucket.
use native.Mathlib.Decide.{ℕ_discrete}
use shm_lru_aging_and_quotas.Base.Bits.{IsWord, get_bit-set_bit, set_bit-IsWord}
use shm_lru_aging_and_quotas.Base.Mem.{total, total_change, total_congr, total-le}
use shm_lru_aging_and_quotas.Base.Tests.{
  ℕ, ◌+◌, ◌≤◌, ◌<◌, ◌≡◌, ◌≢◌, refl, sym, ap, ap₂, ◌∙◌, ◌⊎◌, inl, inr, true, ◌&&◌, ◌||◌, arith, ◌==◌,
  if◌then◌else◌, Bool-cases,
}
use shm_lru_aging_and_quotas.Hopscotch.{Table, place}
use shm_lru_aging_and_quotas.Hopscotch.Inv.{slot, claims, used, IsTable, holds, tally}
use shm_lru_aging_and_quotas.Hopscotch.Swap.{slot-lt, slot-add32}

module _ {t : Table} (valid : IsTable t) (h d v : ℕ) (hn : h < t.max_n) (dk : d < t.neighbor)
    (dn : d < t.max_n) (empty : t.region_v (slot t h d) ≡ 0) (filled : v ≢ 0) where
  claims-place :
      (b k : ℕ)
      → claims (place t h d v) b k ≡ (if b == h then k == d || claims t h k else claims t b k)
  unfolding place
  claims-place b k = ground (
    arith,
    valid.nearby,
    get_bit-set_bit (t.region_h h) d k (valid.words h) (omega (arith, valid.nearby)),
  )

  region_v-place :
      (p : ℕ) → (place t h d v).region_v p ≡ (if p == slot t h d then v else t.region_v p)
  unfolding place
  region_v-place p = rw (slot-add32 valid h d hn dn) refl

  slot-place : (b k : ℕ) → slot (place t h d v) b k ≡ slot t b k
  unfolding place
  slot-place b k = refl

  record Kept (b k : ℕ) : Type 0 where
    claimed : claims t b k ≡ true
    other : slot t b k ≢ slot t h d
    same : (place t h d v).region_v (slot t b k) ≡ t.region_v (slot t b k)

  kept : (b k : ℕ) → b < t.max_n → claims t b k ≡ true → Kept b k
  kept b k bn c =
      let other : slot t b k ≢ slot t h d = λ e. valid.filled b k bn c (ap t.region_v e ∙ empty) in
      record { claimed = c; other = other; same = region_v-place (slot t b k) ∙ ground arith }

  placed : (place t h d v).region_v (slot t h d) ≡ v
  placed = region_v-place (slot t h d) ∙ ground arith

  claim-cases :
      (b k : ℕ) → b < t.max_n → claims (place t h d v) b k ≡ true → ((b ≡ h) × (k ≡ d)) ⊎ Kept b k
  claim-cases b k bn c = elim (Bool-cases (b == h && k == d)) [
    | inl e ↦ inl (ground arith, ground arith)
    | inr e ↦ inr (kept b k bn (ground (arith, claims-place b k)))
  ]

  place-within :
      (b k : ℕ) → b < t.max_n → claims (place t h d v) b k ≡ true → (k < t.neighbor) × (k < t.max_n)
  place-within b k bn c = elim (claim-cases b k bn c) [
    | inl (_, e) ↦ (omega arith, omega arith)
    | inr old ↦ valid.within b k bn old.claimed
  ]

  place-filled :
      (b k : ℕ)
      → b < t.max_n
      → claims (place t h d v) b k ≡ true
      → (place t h d v).region_v (slot t b k) ≢ 0
  place-filled b k bn c = elim (claim-cases b k bn c) [
    | inl (e, f) ↦
        λ g. filled (sym placed ∙ sym (ap₂ (λ x y. (place t h d v).region_v (slot t x y)) e f) ∙ g)
    | inr old ↦ λ g. valid.filled b k bn old.claimed (sym old.same ∙ g)
  ]

  place-owned :
      (b k c l : ℕ)
      → b < t.max_n
      → c < t.max_n
      → claims (place t h d v) b k ≡ true
      → claims (place t h d v) c l ≡ true
      → slot t b k ≡ slot t c l
      → b ≡ c
  place-owned b k c l bn cn p q e = elim (claim-cases b k bn p) [
    | inl (b_h, k_d) ↦ elim (claim-cases c l cn q) [
      | inl (c_h, l_d) ↦ omega arith
      | inr old ↦ absurd (old.other (sym e ∙ ap₂ (λ x y. slot t x y) b_h k_d))
    ]
    | inr old ↦ elim (claim-cases c l cn q) [
      | inl (c_h, l_d) ↦ absurd (old.other (e ∙ ap₂ (λ x y. slot t x y) c_h l_d))
      | inr old' ↦ valid.owned b k c l bn cn old.claimed old'.claimed e
    ]
  ]

  used-total : total t.max_n (λ p. if (place t h d v).region_v p == 0 then 0 else 1) ≡ used t + 1
  unfolding used
  used-total =
      let changed =
        total_change t.max_n (λ p. if (place t h d v).region_v p == 0 then 0 else 1)
          (λ p. if t.region_v p == 0 then 0 else 1) (slot t h d) (slot-lt t h d hn dn)
          (λ p lt ne. ground (arith, region_v-place p)) in
      ground (arith, changed, placed)

  place-used : used (place t h d v) ≡ used t + 1
  unfolding used place
  place-used = used-total

  used-le : used t ≤ t.max_n
  unfolding used
  used-le = total-le t.max_n _ (λ p. ground arith)

  pub place-count : (place t h d v).count ≡ t.count + 1
  unfolding place
  place-count = omega (arith, used-le, valid.counted, valid.small)

  place-counted : (place t h d v).count ≡ used (place t h d v)
  unfolding place
  place-counted = omega (arith, place-used, used-le, valid.counted, valid.small)

  place-words : (b : ℕ) → IsWord ((place t h d v).region_h b)
  unfolding place
  place-words b = ground (arith, valid.words b, set_bit-IsWord (t.region_h h) d)

  -- the table with the new value is well formed
  pub place-IsTable : IsTable (place t h d v)
  unfolding place
  place-IsTable = record {
    positive = valid.positive;
    small = valid.small;
    nearby = valid.nearby;
    words = place-words;
    within = place-within;
    filled = place-filled;
    owned = place-owned;
    counted = place-counted;
  }

  holds-place :
      (b x k : ℕ) → b < t.max_n → (b ≡ h → k ≢ d) → holds (place t h d v) b x k ≡ holds t b x k
  holds-place b x k bn ne = elim (Bool-cases (claims t b k)) [
    | inl c ↦ let old = kept b k bn c in rw (slot-place, old.same, claims-place) (ground arith)
    | inr c ↦ rw (slot-place, claims-place) (ground arith)
  ]

  -- bucket `h` gains one entry `v`, and no other entry appears or goes
  pub tally-place :
      (b x : ℕ)
      → b < t.max_n
      → tally (place t h d v) b x ≡ tally t b x + (if b == h && x == v then 1 else 0)
  unfolding tally
  tally-place b x bn = elim (ℕ_discrete b h) [
    | no ne ↦
        let same =
          total_congr 32 (holds (place t h d v) b x) (holds t b x)
            (λ k lt. holds-place b x k bn (λ e. absurd (ne e))) in
        ground arith
    | yes e ↦ rw e (
        let changed =
          total_change 32 (holds (place t h d v) h x) (holds t h x) d (omega (arith, valid.nearby))
            (λ k lt other. holds-place h x k hn (λ _. other)) in
        let before : holds t h x d ≡ 0 = ground (arith, valid.filled h d hn) in
        let after : holds (place t h d v) h x d ≡ (if x == v then 1 else 0) =
          rw (slot-place, placed, claims-place) (ground arith) in
        ground arith)
  ]
