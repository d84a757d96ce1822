-- ===== src/Hopscotch/Lookup.antt =====
-- `get(key)` of src/node_shm_HH.h against the multiset of entries.
use shm_lru_aging_and_quotas.Base.Mem.{total_pos, le-total}
use shm_lru_aging_and_quotas.Base.Tests.{
  ℕ, ◌+◌, ◌%◌, ◌^◌, ◌≤◌, ◌<◌, ◌≡◌, ◌≢◌, refl, ap, ◌∙◌, inl, inr, true, false, Option, some, arith,
  ◌==◌, Bool-cases,
}
use shm_lru_aging_and_quotas.Base.Words.{
  load64, low_half, high_half, low_half-load64, high_half-load64,
}
use shm_lru_aging_and_quotas.Hopscotch.{Table, get_hh_set}
use shm_lru_aging_and_quotas.Hopscotch.Api.{get_hh_map}
use shm_lru_aging_and_quotas.Hopscotch.Hunt.{NoneBelow, miss, found, hunt_hash_set_lem}
use shm_lru_aging_and_quotas.Hopscotch.Inv.{slot, claims, IsTable, holds, tally}

-- no entry of bucket `b` has the key
abbrev pub Absent : Table → (b key : ℕ) → Type 0
Absent t b key = (x : ℕ) → low_half x ≡ key → tally t b x ≡ 0

-- What a lookup returns: 0 if no entry has the key, else the value of an entry with the key.
pub data Looked (t : Table) (b key : ℕ) (r : Option ℕ) : Type 0 where
  missing : Absent t b key → r ≡ some 0 → Looked t b key r
  present : (x : ℕ) → low_half x ≡ key → tally t b x ≢ 0 → r ≡ some (high_half x) → Looked t b key r

module _ (t : Table) (b key : ℕ) where
  pub Absent-of_NoneBelow : NoneBelow t b key 32 → Absent t b key
  unfolding tally
  Absent-of_NoneBelow none_below x e = elim (Bool-cases (tally t b x == 0)) [
    | inl z ↦ ground arith
    | inr ne ↦
        let (i, lt, here) = total_pos 32 (holds t b x) (ground arith) in
        let claimed : claims t b i ≡ true = ground arith in
        let value : t.region_v (slot t b i) ≡ x = ground arith in
        absurd (none_below i lt claimed (ap low_half value ∙ e))
  ]

  pub tally_of_claim :
      (i : ℕ) → i < 32 → claims t b i ≡ true → tally t b (t.region_v (slot t b i)) ≢ 0
  unfolding tally
  tally_of_claim i lt c =
      let x = t.region_v (slot t b i) in
      let one : holds t b x i ≡ 1 = ground arith in omega (arith, le-total 32 (holds t b x) i lt)

pub bucket-lt : {t : Table} → IsTable t → (hash : ℕ) → hash % t.max_n < t.max_n
bucket-lt valid hash = omega (arith, valid.positive)

pub claim-lt : {t : Table} → IsTable t → (b i : ℕ) → b < t.max_n → claims t b i ≡ true → i < 32
claim-lt valid b i bn c = omega (arith, valid.nearby, (valid.within b i bn c).0)

-- In a well-formed table, for a key of 32 bits and a bucket number that leaves room for 32 positions, a lookup
-- of the loaded key ends: it returns 0 when no entry of the bucket has the key, and otherwise the value (the top half) of an
-- entry of that bucket with that key.
pub get-Looked :
    {t : Table}
    → IsTable t
    → (key hash : ℕ) → key < 2 ^ 32
    → hash + 32 ≤ 2 ^ 32
    → Looked t (hash % t.max_n) key (get_hh_map t (load64 key hash))
unfolding get_hh_map get_hh_set
get-Looked {t} valid key hash small fits =
    rw (low_half-load64 key hash (omega arith), high_half-load64 key hash (omega arith))
      (let exact : low_half key ≡ key = omega arith in
        rw exact (elim (hunt_hash_set_lem valid hash key false small fits) [
          | miss below e ↦ rw e (missing (Absent-of_NoneBelow t _ key below) refl)
          | found i c k below e ↦ rw e (
              present _ k (tally_of_claim t _ key i (claim-lt valid _ i (bucket-lt valid hash) c) c)
                refl)
        ]))
