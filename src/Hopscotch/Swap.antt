-- ===== src/Hopscotch/Swap.antt =====
-- `_swap` of src/node_shm_HH.h moves one entry within its bucket: the table stays well formed and
-- stands for the same entries.
use native.Mathlib.Decide.{ℕ_discrete}
use shm_lru_aging_and_quotas.Base.Bits.{
  IsWord, unset_bit, get_bit-set_bit, get_bit-unset_bit, set_bit-IsWord, unset_bit-IsWord,
}
use shm_lru_aging_and_quotas.Base.Mem.{total, total_swap, total_congr}
use shm_lru_aging_and_quotas.Base.Tests.{
  ℕ, ◌+◌, ◌<◌, ◌≡◌, ◌≢◌, refl, sym, ap, ap₂, ◌∙◌, ◌⊎◌, inl, inr, true, not, ◌&&◌, ◌||◌, arith, ◌==◌,
  if◌then◌else◌, Bool-cases,
}
use shm_lru_aging_and_quotas.Base.Words.{add32, mod_once}
use shm_lru_aging_and_quotas.Hopscotch.{Table, swap}
use shm_lru_aging_and_quotas.Hopscotch.Inv.{slot, claims, used, IsTable, holds, tally}

-- Within a bucket distances below the size are told apart by their slots.
pub slot-injective :
    (t : Table) (b i j : ℕ)
    → b < t.max_n
    → i < t.max_n
    → j < t.max_n
    → slot t b i ≡ slot t b j
    → i ≡ j
slot-injective t b i j bn ib jb e = ground arith

pub slot-lt : (t : Table) (b i : ℕ) → b < t.max_n → i < t.max_n → slot t b i < t.max_n
slot-lt t b i bn ib = ground arith

-- The `uint32_t` sum does not wrap.
pub slot-add32 :
    {t : Table}
    → IsTable t
    → (b i : ℕ) → b < t.max_n
    → i < t.max_n
    → mod_once (add32 b i) t.max_n ≡ slot t b i
slot-add32 {t} valid b i bn ib =
    let e : add32 b i ≡ b + i = omega (arith, valid.small) in ap (λ s. mod_once s t.max_n) e

-- A slot is claimed by one bucket at one distance.
pub claim-injective :
    {t : Table}
    → IsTable t
    → (b k c l : ℕ) → b < t.max_n
    → c < t.max_n
    → claims t b k ≡ true
    → claims t c l ≡ true
    → slot t b k ≡ slot t c l
    → (b ≡ c) × (k ≡ l)
claim-injective {t} valid b k c l bn cn p q e =
    let same = valid.owned b k c l bn cn p q e in
    (
      same,
      slot-injective t c k l cn (valid.within b k bn p).1 (valid.within c l cn q).1
          (sym (ap (λ x. slot t x k) same) ∙ e),
    )

pub slot-swap : (t : Table) (z i j b k : ℕ) → slot (swap t z i j) b k ≡ slot t b k
unfolding swap
slot-swap t z i j b k = refl

module _ {t : Table} (valid : IsTable t) (z i j : ℕ) (zn : z < t.max_n) (ij : i < j)
    (jk : j < t.neighbor) (jn : j < t.max_n) (set : claims t z i ≡ true)
    (empty : t.region_v (slot t z j) ≡ 0) where
  apart : slot t z i ≢ slot t z j
  apart e = omega (arith, slot-injective t z i j zn (omega arith) jn e)

  claims-swap :
      (b k : ℕ)
      → claims (swap t z i j) b k
        ≡ (if b == z then k == j || not (k == i) && claims t z k else claims t b k)
  unfolding swap
  claims-swap b k = ground (
    arith,
    valid.nearby,
    get_bit-set_bit (unset_bit (t.region_h z) i) j k
        (unset_bit-IsWord _ i (valid.words z) (omega (arith, valid.nearby)))
        (omega (arith, valid.nearby)),
    get_bit-unset_bit (t.region_h z) i k (valid.words z) (omega (arith, valid.nearby)),
  )

  region_v-swap :
      (p : ℕ)
      → (swap t z i j).region_v p ≡ (
          if p == slot t z j
          then t.region_v (slot t z i)
          else if p == slot t z i
          then 0
          else t.region_v p)
  unfolding swap
  region_v-swap p = rw (slot-add32 valid z i zn (omega arith), slot-add32 valid z j zn jn) refl

  -- An entry of the new table is the moved one, or an old one that has kept its value.
  record Kept (b k : ℕ) : Type 0 where
    claimed : claims t b k ≡ true
    other : slot t b k ≢ slot t z j
    same : (swap t z i j).region_v (slot t b k) ≡ t.region_v (slot t b k)

  kept : (b k : ℕ) → b < t.max_n → claims t b k ≡ true → (b ≡ z → k ≢ i) → Kept b k
  kept b k bn c ne =
      let other : slot t b k ≢ slot t z j = λ e. valid.filled b k bn c (ap t.region_v e ∙ empty) in
      let elsewhere : slot t b k ≢ slot t z i =
        λ e. let (same, k_i) = claim-injective valid b k z i bn zn c set e in ne same k_i in
      record { claimed = c; other = other; same = region_v-swap (slot t b k) ∙ ground arith }

  moved : (swap t z i j).region_v (slot t z j) ≡ t.region_v (slot t z i)
  moved = region_v-swap (slot t z j) ∙ ground arith

  -- the slot that the entry has left is empty
  pub vacated : (swap t z i j).region_v (slot (swap t z i j) z i) ≡ 0
  vacated = rw slot-swap (region_v-swap (slot t z i) ∙ ground arith)

  -- Each claim of the new table is at the hole, or one that is kept.
  claim-cases :
      (b k : ℕ) → b < t.max_n → claims (swap t z i j) b k ≡ true → ((b ≡ z) × (k ≡ j)) ⊎ Kept b k
  claim-cases b k bn c = elim (Bool-cases (b == z && k == j)) [
    | inl e ↦ inl (ground arith, ground arith)
    | inr e ↦
        inr
          (kept b k bn (ground (arith, claims-swap b k)) (λ same. ground (arith, claims-swap b k)))
  ]

  swap-within :
      (b k : ℕ) → b < t.max_n → claims (swap t z i j) b k ≡ true → (k < t.neighbor) × (k < t.max_n)
  swap-within b k bn c = elim (claim-cases b k bn c) [
    | inl (_, e) ↦ (omega arith, omega arith)
    | inr old ↦ valid.within b k bn old.claimed
  ]

  swap-filled :
      (b k : ℕ)
      → b < t.max_n
      → claims (swap t z i j) b k ≡ true
      → (swap t z i j).region_v (slot t b k) ≢ 0
  swap-filled b k bn c = elim (claim-cases b k bn c) [
    | inl (e, f) ↦ λ g.
        valid.filled z i zn set
          (sym moved ∙ sym (ap₂ (λ x y. (swap t z i j).region_v (slot t x y)) e f) ∙ g)
    | inr old ↦ λ g. valid.filled b k bn old.claimed (sym old.same ∙ g)
  ]

  swap-owned :
      (b k c l : ℕ)
      → b < t.max_n
      → c < t.max_n
      → claims (swap t z i j) b k ≡ true
      → claims (swap t z i j) c l ≡ true
      → slot t b k ≡ slot t c l
      → b ≡ c
  swap-owned b k c l bn cn p q e = elim (claim-cases b k bn p) [
    | inl (b_z, k_j) ↦ elim (claim-cases c l cn q) [
      | inl (c_z, l_j) ↦ omega arith
      | inr old ↦ absurd (old.other (sym e ∙ ap₂ (λ x y. slot t x y) b_z k_j))
    ]
    | inr old ↦ elim (claim-cases c l cn q) [
      | inl (c_z, l_j) ↦ absurd (old.other (e ∙ ap₂ (λ x y. slot t x y) c_z l_j))
      | inr old' ↦ valid.owned b k c l bn cn old.claimed old'.claimed e
    ]
  ]

  used-total : total t.max_n (λ p. if (swap t z i j).region_v p == 0 then 0 else 1) ≡ used t
  unfolding used
  used-total =
      total_swap t.max_n _ _ (slot t z i) (slot t z j) (slot-lt t z i zn (omega arith))
        (slot-lt t z j zn jn) apart
        (ground (arith, region_v-swap (slot t z i), region_v-swap (slot t z j)))
        (λ p lt ne ne'. ground (arith, region_v-swap p))

  -- the two tables use as many slots
  swap-used : used (swap t z i j) ≡ used t
  unfolding used swap
  swap-used = used-total

  swap-words : (b : ℕ) → IsWord ((swap t z i j).region_h b)
  unfolding swap
  swap-words b = ground (arith, valid.words b, set_bit-IsWord (unset_bit (t.region_h z) i) j)

  pub swap-IsTable : IsTable (swap t z i j)
  unfolding swap
  swap-IsTable = record {
    positive = valid.positive;
    small = valid.small;
    nearby = valid.nearby;
    words = swap-words;
    within = swap-within;
    filled = swap-filled;
    owned = swap-owned;
    counted = valid.counted ∙ sym swap-used;
  }

  -- away from the two distances of bucket `z` an entry stays as it was
  holds-swap :
      (b x k : ℕ)
      → b < t.max_n
      → (b ≡ z → (k ≢ i) × (k ≢ j))
      → holds (swap t z i j) b x k ≡ holds t b x k
  holds-swap b x k bn ne = elim (Bool-cases (claims t b k)) [
    | inl c ↦
        let old = kept b k bn c (λ same. (ne same).0) in
        rw (slot-swap, old.same, claims-swap) (ground arith)
    | inr c ↦ rw (slot-swap, claims-swap) (ground arith)
  ]

  holds_pair :
      (x : ℕ)
      → holds (swap t z i j) z x i + holds (swap t z i j) z x j ≡ holds t z x i + holds t z x j
  holds_pair x = simp slot-swap (
      ground (
        arith,
        moved,
        claims-swap z i,
        claims-swap z j,
        region_v-swap (slot t z i),
        valid.filled z j zn,
      ))

  -- no bucket gains or loses an entry
  pub tally-swap : (b x : ℕ) → b < t.max_n → tally (swap t z i j) b x ≡ tally t b x
  unfolding tally
  tally-swap b x bn = elim (ℕ_discrete b z) [
    | no ne ↦ total_congr 32 _ _ (λ k lt. holds-swap b x k bn (λ e. absurd (ne e)))
    | yes e ↦ rw e (
        total_swap 32 _ _ i j (omega (arith, valid.nearby)) (omega (arith, valid.nearby))
          (omega arith) (holds_pair x) (λ k lt p q. holds-swap z x k zn (λ _. (p, q))))
  ]
