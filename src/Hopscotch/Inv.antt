-- ===== src/Hopscotch/Inv.antt =====
-- What a well-formed table is, and the multiset of entries that it stands for.
use shm_lru_aging_and_quotas.Base.Bits.{IsWord, get_bit}
use shm_lru_aging_and_quotas.Base.Mem.{total}
use shm_lru_aging_and_quotas.Base.Tests.{
  ℕ, ◌+◌, ◌*◌, ◌^◌, ◌≤◌, ◌<◌, ◌≡◌, ◌≢◌, Bool, true, ◌&&◌, ◌==◌, if◌then◌else◌,
}
use shm_lru_aging_and_quotas.Base.Words.{mod_once}
use shm_lru_aging_and_quotas.Hopscotch.{Table}

-- the slot at distance `i` of bucket `b`
abbrev pub slot : Table → ℕ → ℕ → ℕ
slot t b i = mod_once (b + i) t.max_n

-- bucket `b` claims the slot at distance `i`
abbrev pub claims : Table → ℕ → ℕ → Bool
claims t b i = get_bit (t.region_h b) i

-- the slots in use
unfoldable pub used : Table → ℕ
used t = total t.max_n (λ p. if t.region_v p == 0 then 0 else 1)

pub record IsTable (t : Table) : Type 0 where
  pub positive : 0 < t.max_n
  -- "2N < UINT32_MAX" in the source, with room for a neighborhood
  pub small : 2 * t.max_n + 64 ≤ 2 ^ 32
  pub nearby : (0 < t.neighbor) × (t.neighbor ≤ 32)
  pub words : (b : ℕ) → IsWord (t.region_h b)
  pub within : (b i : ℕ) → b < t.max_n → claims t b i ≡ true → (i < t.neighbor) × (i < t.max_n)
  pub filled : (b i : ℕ) → b < t.max_n → claims t b i ≡ true → t.region_v (slot t b i) ≢ 0
  pub owned :
      (b i c j : ℕ)
      → b < t.max_n
      → c < t.max_n
      → claims t b i ≡ true
      → claims t c j ≡ true
      → slot t b i ≡ slot t c j
      → b ≡ c
  pub counted : t.count ≡ used t

-- does bucket `b` hold `x` at distance `i`?
abbrev pub holds : Table → ℕ → ℕ → ℕ → ℕ
holds t b x i = if claims t b i && (t.region_v (slot t b i) == x) then 1 else 0

-- how often bucket `b` holds the value `x`
unfoldable pub tally : Table → ℕ → ℕ → ℕ
tally t b x = total 32 (holds t b x)
