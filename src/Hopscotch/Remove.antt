-- ===== src/Hopscotch/Remove.antt =====
-- `del_hh_hash` of src/node_shm_HH.h takes one entry out of its bucket.
use native.Mathlib.Decide.{ℕ_discrete}
use shm_lru_aging_and_quotas.Base.Bits.{IsWord, get_bit-unset_bit, unset_bit-IsWord}
use shm_lru_aging_and_quotas.Base.Mem.{total, total_change, total_congr, total-le}
use shm_lru_aging_and_quotas.Base.Tests.{
  ℕ, ◌+◌, ◌%◌, ◌≤◌, ◌<◌, ◌≡◌, ◌≢◌, refl, sym, ◌∙◌, inl, inr, true, not, ◌&&◌, arith, ◌==◌,
  if◌then◌else◌, Bool-cases, ==_of_ne,
}
use shm_lru_aging_and_quotas.Base.Words.{low_half}
use shm_lru_aging_and_quotas.Hopscotch.{Table, take_out, del_hh_hash}
use shm_lru_aging_and_quotas.Hopscotch.Inv.{slot, claims, used, IsTable, holds, tally}
use shm_lru_aging_and_quotas.Hopscotch.Swap.{claim-injective, slot-lt, slot-add32}

-- An entry whose key, the low half of its value, is 0 is not removed.
pub del_hh_hash_zero_key :
    {t : Table}
    → IsTable t
    → (hash i : ℕ) → i < t.max_n
    → low_half (t.region_v (slot t (hash % t.max_n) i)) ≡ 0
    → del_hh_hash t hash i ≡ t
unfolding del_hh_hash
del_hh_hash_zero_key {t} valid hash i lt e =
    rw (slot-add32 valid (hash % t.max_n) i (omega (arith, valid.positive)) lt, e) refl

pub del_hh_hash-take_out :
    {t : Table}
    → IsTable t
    → (hash i : ℕ) → claims t (hash % t.max_n) i ≡ true
    → low_half (t.region_v (slot t (hash % t.max_n) i)) ≢ 0
    → del_hh_hash t hash i ≡ take_out t (hash % t.max_n) i
unfolding del_hh_hash
del_hh_hash-take_out {t} valid hash i claimed key =
    let hn : hash % t.max_n < t.max_n = omega (arith, valid.positive) in
    let e = slot-add32 valid (hash % t.max_n) i hn (valid.within _ i hn claimed).1 in
    rw (e, claimed, ==_of_ne _ _ key) refl

module _ {t : Table} (valid : IsTable t) (h i : ℕ) (hn : h < t.max_n)
    (claimed : claims t h i ≡ true) where
  near : (i < t.neighbor) × (i < t.max_n)
  near = valid.within h i hn claimed

  claims-take_out :
      (b k : ℕ)
      → claims (take_out t h i) b k
        ≡ (if b == h then not (k == i) && claims t h k else claims t b k)
  unfolding take_out
  claims-take_out b k = ground (
    arith,
    get_bit-unset_bit (t.region_h h) i k (valid.words h) (omega (arith, valid.nearby, near)),
  )

  region_v-take_out :
      (p : ℕ) → (take_out t h i).region_v p ≡ (if p == slot t h i then 0 else t.region_v p)
  unfolding take_out
  region_v-take_out p = rw (slot-add32 valid h i hn near.1) refl

  slot-take_out : (b k : ℕ) → slot (take_out t h i) b k ≡ slot t b k
  unfolding take_out
  slot-take_out b k = refl

  -- A claim of the new table is an old one, of another slot.
  record Kept (b k : ℕ) : Type 0 where
    claimed' : claims t b k ≡ true
    same : (take_out t h i).region_v (slot t b k) ≡ t.region_v (slot t b k)

  kept : (b k : ℕ) → b < t.max_n → claims t b k ≡ true → (b ≡ h → k ≢ i) → Kept b k
  kept b k bn c ne =
      let elsewhere : slot t b k ≢ slot t h i =
        λ e. let (b_h, k_i) = claim-injective valid b k h i bn hn c claimed e in ne b_h k_i in
      record { claimed' = c; same = region_v-take_out (slot t b k) ∙ ground arith }

  Kept-claim : (b k : ℕ) → b < t.max_n → claims (take_out t h i) b k ≡ true → Kept b k
  Kept-claim b k bn c =
      kept b k bn (ground (arith, claims-take_out b k))
        (λ same. ground (arith, claims-take_out b k))

  cleared : (take_out t h i).region_v (slot t h i) ≡ 0
  cleared = region_v-take_out (slot t h i) ∙ ground arith

  used-total : total t.max_n (λ p. if (take_out t h i).region_v p == 0 then 0 else 1) + 1 ≡ used t
  unfolding used
  used-total =
      let changed =
        total_change t.max_n (λ p. if (take_out t h i).region_v p == 0 then 0 else 1)
          (λ p. if t.region_v p == 0 then 0 else 1) (slot t h i) (slot-lt t h i hn near.1)
          (λ p lt ne. ground (arith, region_v-take_out p)) in
      ground (arith, changed, cleared, valid.filled h i hn claimed)

  take_out-used : used (take_out t h i) + 1 ≡ used t
  unfolding used take_out
  take_out-used = used-total

  used-le : used t ≤ t.max_n
  unfolding used
  used-le = total-le t.max_n _ (λ p. ground arith)

  pub take_out-count : (take_out t h i).count + 1 ≡ t.count
  unfolding take_out
  take_out-count = omega (arith, take_out-used, used-le, valid.counted, valid.small)

  take_out-words : (b : ℕ) → IsWord ((take_out t h i).region_h b)
  unfolding take_out
  take_out-words b = ground (
    arith,
    valid.words b,
    unset_bit-IsWord (t.region_h h) i (valid.words h) (omega (arith, valid.nearby, near)),
  )

  take_out-counted : (take_out t h i).count ≡ used (take_out t h i)
  take_out-counted = omega (arith, take_out-count, take_out-used, valid.counted)

  pub take_out-IsTable : IsTable (take_out t h i)
  unfolding take_out
  take_out-IsTable = record {
    positive = valid.positive;
    small = valid.small;
    nearby = valid.nearby;
    words = take_out-words;
    within = λ b k bn c. valid.within b k bn (Kept-claim b k bn c).claimed';
    filled = λ b k bn c e.
        let old = Kept-claim b k bn c in valid.filled b k bn old.claimed' (sym old.same ∙ e);
    owned = λ b k c l bn cn p q.
        valid.owned b k c l bn cn (Kept-claim b k bn p).claimed' (Kept-claim c l cn q).claimed';
    counted = take_out-counted;
  }

  holds-take_out :
      (b x k : ℕ) → b < t.max_n → (b ≡ h → k ≢ i) → holds (take_out t h i) b x k ≡ holds t b x k
  holds-take_out b x k bn ne = elim (Bool-cases (claims t b k)) [
    | inl c ↦
        let old = kept b k bn c ne in rw (slot-take_out, old.same, claims-take_out) (ground arith)
    | inr c ↦ rw (slot-take_out, claims-take_out) (ground arith)
  ]

  -- bucket `h` loses one entry, the value at distance `i`, and nothing else changes
  pub tally-take_out :
      (b x : ℕ)
      → b < t.max_n
      → tally (take_out t h i) b x + (if b == h && x == t.region_v (slot t h i) then 1 else 0)
        ≡ tally t b x
  unfolding tally
  tally-take_out b x bn = elim (ℕ_discrete b h) [
    | no ne ↦
        let same =
          total_congr 32 (holds (take_out t h i) b x) (holds t b x)
            (λ k lt. holds-take_out b x k bn (λ e. absurd (ne e))) in
        ground arith
    | yes e ↦ rw e (
        let changed =
          total_change 32 (holds (take_out t h i) h x) (holds t h x) i
            (omega (arith, valid.nearby, near))
            (λ k lt other. holds-take_out h x k hn (λ _. other)) in
        let after : holds (take_out t h i) h x i ≡ 0 =
          rw (slot-take_out, claims-take_out) (ground arith) in
        ground arith)
  ]
