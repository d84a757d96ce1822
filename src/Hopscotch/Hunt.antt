-- ===== src/Hopscotch/Hunt.antt =====
-- `hunt_hash_set` of src/node_shm_HH.h finds the first entry of a bucket with a key, and ends.
use native.Mathlib.Decide.{dec_lt}
use native.Mathlib.Numerals.{add-one}
use native.Mathlib.Nat.{mod-eq_of_lt, mod-add-mod, mod-eq-sub-mod}
use shm_lru_aging_and_quotas.Base.Tests.{
  ℕ, zero, suc, ◌+◌, ◌*◌, ◌%◌, ◌^◌, ◌≤◌, ◌<◌, ◌≡◌, ◌≢◌, refl, sym, ap, ◌∙◌, inl, inr, Bool, true,
  false, Option, some, arith, ltb, ◌==◌, if◌then◌else◌, Bool-cases, ==_of_ne,
}
use shm_lru_aging_and_quotas.Base.Words.{u32_max, add32, low_half, mod_once}
use shm_lru_aging_and_quotas.Hopscotch.{
  Table, get_val_at_hh_hash, cmp, del_hh_hash, hunt_from, hunt_hash_set,
}
use shm_lru_aging_and_quotas.Hopscotch.Inv.{slot, claims, IsTable}
use shm_lru_aging_and_quotas.Hopscotch.Scan.{Next, nothing, hit, succ_hh_hash_lem}

-- bucket `b` has no entry with the key before distance `n`
abbrev pub NoneBelow : Table → (b key n : ℕ) → Type 0
NoneBelow t b key n =
    (j : ℕ) → j < n → claims t b j ≡ true → low_half (t.region_v (slot t b j)) ≢ key

-- What a hunt for `key` in the bucket of `hash` returns: a miss, or the first entry with the key,
-- which is deleted if `kill` is set.
pub data Hunted (t : Table) (hash key : ℕ) (kill : Bool) (r : Option (ℕ × Table)) : Type 0 where
  miss : NoneBelow t (hash % t.max_n) key 32 → r ≡ some (0, t) → Hunted t hash key kill r
  found :
      (i : ℕ)
      → claims t (hash % t.max_n) i ≡ true
      → low_half (t.region_v (slot t (hash % t.max_n) i)) ≡ key
      → NoneBelow t (hash % t.max_n) key i
      → r
        ≡ some (t.region_v (slot t (hash % t.max_n) i), (if kill then del_hh_hash t hash i else t))
      → Hunted t hash key kill r

module _ {t : Table} (valid : IsTable t) (hash key : ℕ) (kill : Bool) (small : key < 2 ^ 32)
    (fits : hash + 32 ≤ 2 ^ 32) where
  abbrev b : ℕ
  b = hash % t.max_n

  bn : b < t.max_n
  bn = omega (arith, valid.positive)

  -- the hash is reduced once, or with the distance: the same slot
  get_val-slot :
      (i : ℕ) → i < 32 → i < t.max_n → get_val_at_hh_hash t hash i ≡ t.region_v (slot t b i)
  unfolding get_val_at_hh_hash
  get_val-slot i i32 lt =
      ap t.region_v (exact ∙ sym (mod-add-mod hash t.max_n i) ∙ reduced (b + i) (omega arith))
    where
      exact : add32 hash i % t.max_n ≡ (hash + i) % t.max_n
      exact = let e : add32 hash i ≡ hash + i = omega arith in ap (λ x. x % t.max_n) e

      reduced : (x : ℕ) → x < 2 * t.max_n → x % t.max_n ≡ mod_once x t.max_n
      reduced x twice = elim (Bool-cases (ltb x t.max_n)) [
        | inl e ↦ rw e (mod-eq_of_lt (ground arith))
        | inr e ↦ rw e (mod-eq-sub-mod (ground arith) ∙ mod-eq_of_lt (ground arith))
      ]

  NoneBelow-next :
      (s r : ℕ)
      → NoneBelow t b key s
      → ((j : ℕ) → s ≤ j → j < r → claims t b j ≡ false)
      → NoneBelow t b key r
  NoneBelow-next s r below gap j lt c = elim (dec_lt j s) [
    | yes before ↦ below j before c
    | no after ↦ cc (gap j (omega arith) lt)
  ]

  hunt_from_lem :
      (f s r : ℕ)
      → Next (t.region_h b) s r
      → NoneBelow t b key s
      → s ≤ 32
      → 32 < f + s
      → Hunted t hash key kill (hunt_from f t hash key kill r)
  unfolding hunt_from cmp
  hunt_from_lem zero s r n below le fuel = absurd (omega arith)
  hunt_from_lem (suc f) s r (nothing e clear) below le fuel =
      rw e (miss (NoneBelow-next s 32 below (λ j q _. clear j q)) refl)
  hunt_from_lem (suc f) s r (hit low r32 set gap) below le fuel =
      let away : (r == u32_max) ≡ false = ==_of_ne _ _ (omega arith) in
      let value = get_val-slot r r32 (valid.within b r bn set).1 in
      let here = NoneBelow-next s r below gap in
      let exact : low_half key ≡ key = omega arith in
      rw (away, value, exact)
        (elim (Bool-cases (key == low_half (t.region_v (slot t b r)))) [
          | inl e ↦ rw e (found r set (ground arith) here refl)
          | inr e ↦ rw e (
              hunt_from_lem f (suc r) _
                (rw (← add-one r) (succ_hh_hash_lem t hash (r + 1) (valid.words b) (omega arith)))
                (λ j lt c. elim (dec_lt j r) [
                  | yes before ↦ here j before c
                  | no after ↦ let same : j ≡ r = omega arith in rw same (λ q. ground arith)
                ])
                (omega arith) (omega arith))
        ])

  pub hunt_hash_set_lem : Hunted t hash key kill (hunt_hash_set t hash key kill)
  unfolding hunt_hash_set
  hunt_hash_set_lem =
      hunt_from_lem 33 0 _ (succ_hh_hash_lem t hash 0 (valid.words b) (omega arith))
        (λ j lt. absurd (omega arith)) (omega arith) (omega arith)
