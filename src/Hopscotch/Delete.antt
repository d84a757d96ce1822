-- ===== src/Hopscotch/Delete.antt =====
-- `del` of src/node_shm_HH.h against the multiset of entries.
use shm_lru_aging_and_quotas.Base.Tests.{
  ℕ, ◌+◌, ◌%◌, ◌^◌, ◌≤◌, ◌<◌, ◌≡◌, ◌≢◌, refl, sym, ◌∙◌, ◌⊎◌, inl, inr, true, Option, some, ◌&&◌,
  arith, ◌==◌, if◌then◌else◌,
}
use shm_lru_aging_and_quotas.Base.Words.{
  load64, low_half, high_half, low_half-load64, high_half-load64,
}
use shm_lru_aging_and_quotas.Hopscotch.{Table, take_out, del_hh_set}
use shm_lru_aging_and_quotas.Hopscotch.Api.{del_hh_map}
use shm_lru_aging_and_quotas.Hopscotch.Hunt.{miss, found, hunt_hash_set_lem}
use shm_lru_aging_and_quotas.Hopscotch.Inv.{IsTable, tally}
use shm_lru_aging_and_quotas.Hopscotch.Lookup.{
  Absent, Absent-of_NoneBelow, tally_of_claim, bucket-lt, claim-lt,
}
use shm_lru_aging_and_quotas.Hopscotch.Remove.{
  del_hh_hash_zero_key, del_hh_hash-take_out, take_out-IsTable, take_out-count, tally-take_out,
}

-- `u` is `t` with one entry less, `x` in bucket `b`.
pub record Loses (t : Table) (b x : ℕ) (u : Table) : Type 0 where
  pub size : u.max_n ≡ t.max_n
  pub number : u.count + 1 ≡ t.count
  pub entries :
      (c y : ℕ) → c < t.max_n → tally u c y + (if c == b && y == x then 1 else 0) ≡ tally t c y

-- What a deletion returns: nothing found, or the value of the entry that is gone.
pub data Deleted (t : Table) (b key : ℕ) (r : Option (ℕ × Table)) : Type 0 where
  untouched : Absent t b key → r ≡ some (0, t) → Deleted t b key r
  deleted :
      (x : ℕ) (u : Table)
      → low_half x ≡ key
      → IsTable u
      → Loses t b x u
      → r ≡ some (high_half x, u)
      → Deleted t b key r

module _ {t : Table} (valid : IsTable t) (key hash : ℕ) (small : key < 2 ^ 32)
    (fits : hash + 32 ≤ 2 ^ 32) where
  -- In a well-formed table, for a key other than 0 and a bucket number that leaves room for 32
  -- positions, a deletion ends: it takes exactly one entry with the key out of the bucket,
  -- returns its value and leaves a well-formed table, or finds none and changes nothing.
  pub del-Deleted : key ≢ 0 → Deleted t (hash % t.max_n) key (del_hh_map t (load64 key hash))
  unfolding del_hh_map del_hh_set
  del-Deleted ne =
      rw (low_half-load64 key hash (omega arith), high_half-load64 key hash (omega arith))
        (let exact : low_half key ≡ key = omega arith in
          rw exact (elim (hunt_hash_set_lem valid hash key true small fits) [
            | miss below e ↦ rw e (untouched (Absent-of_NoneBelow t _ key below) refl)
            | found i c k below e ↦
                let b = hash % t.max_n in
                let bn = bucket-lt valid hash in
                rw (e, del_hh_hash-take_out valid hash i c (λ z. ne (sym k ∙ z)))
                  (deleted _ (take_out t b i) k (take_out-IsTable valid b i bn c)
                    (record {
                      size = unfold take_out in refl;
                      number = take_out-count valid b i bn c;
                      entries = tally-take_out valid b i bn c;
                    })
                    refl)
          ]))

-- In a well-formed table, for a bucket number that leaves room for 32 positions, a deletion with
-- the key 0 leaves the table as it was, also where it reports the value of an entry of the
-- bucket with that key as deleted.
pub del_zero_key :
    {t : Table}
    → IsTable t
    → (hash : ℕ) → hash + 32 ≤ 2 ^ 32
    → (Absent t (hash % t.max_n) 0 × (del_hh_map t (load64 0 hash) ≡ some (0, t)))
      ⊎ ((x : ℕ) × (low_half x ≡ 0)
          × (tally t (hash % t.max_n) x ≢ 0)
          × (del_hh_map t (load64 0 hash) ≡ some (high_half x, t)))
unfolding del_hh_map del_hh_set
del_zero_key {t} valid hash fits =
    rw (low_half-load64 0 hash (omega arith), high_half-load64 0 hash (omega arith))
      (elim (hunt_hash_set_lem valid hash 0 true (omega arith) fits) [
        | miss below e ↦ rw e (inl (Absent-of_NoneBelow t _ 0 below, refl))
        | found i c k below e ↦
            let b = hash % t.max_n in
            let bn = bucket-lt valid hash in
            rw (e, del_hh_hash_zero_key valid hash i (valid.within b i bn c).1 k)
              (inr (_, k, tally_of_claim t b 0 i (claim-lt valid b i bn c) c, refl))
      ])
